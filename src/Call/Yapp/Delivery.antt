-- ===== src/Call/Yapp/Delivery.antt =====
-- What the download makes of all that the upload writes.
use linuxax.Prelude.{
  ℕ, ◌*◌, ◌^◌, ◌≤◌, ◌<◌, ◌≡◌, refl, ap, sym, ◌∙◌, Bool, true, false, List, [], ◌∷◌, ◌++◌,
  append_assoc, map, Option, none, some, length, All, arith, flatten, if◌then◌else◌, ◌⊎◌, inl, inr,
}
use linuxax.Call.Yapp.{soh, hears, rr, rf, rt, af, at, si, et}
use linuxax.Call.Yapp.Hunks.Reads.{IsHunk, outcome}
use linuxax.Call.Yapp.Hunks.Overlap.{outcome-select_loop_overlap}
use linuxax.Call.Yapp.Hunks.Runs.{run}
use linuxax.Call.Yapp.Stream.{run_stream, hunks_run}
use linuxax.Call.Yapp.Packets.Stream.{ArePieces, ended, pieces_stream}
use linuxax.Call.Yapp.Blocks.{IsBlock, encode_blocks, runs}
use linuxax.Call.Yapp.Header.{IsPlain, IsTime, has_time, Header, send_hd_lem}
use linuxax.Call.Yapp.Receive.{Download, yapp_download_data, download_start, yapp_download}
use linuxax.Call.Yapp.Transmit.{Upload, send_hd, send_header, upload_start, yapp_upload}
use linuxax.Call.Yapp.Transfer.{session, yapp_upload-session}

download_overlap :
    (opened : List ℕ → Option (List ℕ)) (d : Download) (hunks : List (List ℕ))
    (result : Bool × Download)
    → outcome (yapp_download true opened d [] (map hears hunks)) ≡ some result
    → (outcome (yapp_download false opened d [] (map hears hunks)) ≡ none)
      ⊎ (outcome (yapp_download false opened d [] (map hears hunks)) ≡ some result)
unfolding yapp_download
download_overlap opened d hunks =
    outcome-select_loop_overlap (yapp_download_data opened) (λ (d : Download). d.yappc) (λ n d. d)
      (λ d packet. record d { sent = d.sent ++ packet }) d (map hears hunks)

-- Hunks of what an upload writes, with or without `memcpy` that moves as `memmove` does.
received :
    (moves : Bool) (opened : List ℕ → Option (List ℕ)) (filename : List ℕ) (size : ℕ)
    (mtime : Option ℕ) (blocks hunks : List (List ℕ))
    → opened filename ≡ some []
    → All IsBlock blocks
    → (hd : Header filename size mtime) → All IsHunk hunks
    → flatten hunks
      ≡ si ++ ((soh ∷ length hd.body ∷ hd.body) ++ (encode_blocks (has_time mtime) blocks ++ et))
    → (moves ≡ true) ⊎ ArePieces (has_time mtime) hunks
    → (d : Download) × (outcome
          (yapp_download moves opened (download_start none) [] (map hears hunks))
        ≡ some (false, d))
      × ((outcome (yapp_download false opened (download_start none) [] (map hears hunks)) ≡ none)
          ⊎ (outcome (yapp_download false opened (download_start none) [] (map hears hunks))
              ≡ some (false, d)))
      × (d.closed ≡ flatten blocks ∷ [])
      × (d.sent ≡ rr ++ ((if has_time mtime then rt else rf) ++ (af ++ at)))
received moves opened filename size mtime blocks hunks free sizes hd h e (inl as_memmove) =
    let (d, got, closed, sent) = run_stream opened filename size mtime blocks free sizes hd in
    let reads =
      hunks_run opened (download_start none) hunks (false, d) h
        (ap (runs opened true (download_start none)) e ∙ got) in
    (
      d,
      ap (λ m. outcome (yapp_download m opened (download_start none) [] (map hears hunks)))
            as_memmove
          ∙ reads,
      download_overlap opened (download_start none) hunks (false, d) reads,
      closed,
      sent,
    )
received moves opened filename size mtime blocks hunks free sizes hd h e (inr pieces) = (
  ended (has_time mtime) blocks,
  pieces_stream moves opened filename size mtime blocks hunks free sizes hd pieces e,
  inr (pieces_stream false opened filename size mtime blocks hunks free sizes hd pieces e),
  refl,
  append_assoc (rr ++ (if has_time mtime then rt else rf)) af at
      ∙ append_assoc rr (if has_time mtime then rt else rf) (af ++ at),
)

of_some {ℓ} : {A : Type ℓ} {x y : A} → some x ≡ some y → x ≡ y
of_some {x} {y} e = ap (λ o. elim o [ none ↦ x | some z ↦ z ]) e

-- A header that was written is the one that `send_hd` writes, of a length that an `int` holds.
send_header-send_hd :
    (filename : List ℕ) (filelength : ℕ) (mtime : Option ℕ)
    → filelength < 2 ^ 31
    → send_header filename filelength mtime ≡ send_hd filename filelength mtime
unfolding send_header
send_header-send_hd filename filelength mtime few = ground (arith, few)

-- A file with a name of up to 233 bytes, none of them 0, that has fewer than 2 ^ 31 bytes and a time
-- that a header can hold, or none; where it has a time it is not empty. It is uploaded with packets of
-- three bytes or more, the answers of the session, and more than three times as many writes as it has
-- bytes, each of a byte at least. What the upload has written when it ends is, read in hunks of at most
-- 511 bytes, the same file for a download that finds an empty file of the name: it ends by itself too,
-- with the content closed, and it has written the answers that the upload was given. This holds where
-- `memcpy` moves areas that overlap as `memmove` does, and also where that is left undefined, if no hunk
-- holds bytes of two packets; of other hunks the download then either reaches such a `memcpy` or ends so
-- too.
pub yapp_download-yapp_upload :
    (moves : Bool) (opened : List ℕ → Option (List ℕ)) (filename content : List ℕ)
    (mtime : Option ℕ) (paclen : ℕ) (writes hd : List ℕ) (u : Upload) (hunks : List (List ℕ))
    → opened filename ≡ some []
    → IsPlain filename
    → length filename ≤ 233
    → length content < 2 ^ 31
    → IsTime mtime
    → (has_time mtime ≡ true → 1 ≤ length content)
    → 3 ≤ paclen
    → All (λ n. 1 ≤ n) writes
    → 3 * length content < length writes
    → send_header filename (length content) mtime ≡ some hd
    → outcome
        (yapp_upload moves hd (upload_start paclen content) [] (session (has_time mtime) writes))
      ≡ some (false, u)
    → All IsHunk hunks
    → flatten hunks ≡ u.sent
    → (moves ≡ true) ⊎ ArePieces (has_time mtime) hunks
    → (d : Download) × (outcome
          (yapp_download moves opened (download_start none) [] (map hears hunks))
        ≡ some (false, d))
      × ((outcome (yapp_download false opened (download_start none) [] (map hears hunks)) ≡ none)
          ⊎ (outcome (yapp_download false opened (download_start none) [] (map hears hunks))
              ≡ some (false, d)))
      × (d.closed ≡ content ∷ [])
      × (d.sent ≡ rr ++ ((if has_time mtime then rt else rf) ++ (af ++ at)))
yapp_download-yapp_upload moves opened filename content mtime paclen writes hd u hunks free plain
      short few time filled len ones enough header upload h e defined =
    let hdr = send_hd_lem filename (length content) mtime plain short (omega (arith, few)) time in
    let (u', blocks, run, stream, whole, sizes) =
      yapp_upload-session moves hd content paclen (has_time mtime) writes len ones enough filled in
    let same_u : u ≡ u' = ap (λ r. r.1) (of_some (sym upload ∙ run)) in
    let same_hd : hd ≡ soh ∷ length hdr.body ∷ hdr.body =
      of_some
        (sym header ∙ send_header-send_hd filename (length content) mtime few ∙ hdr.written) in
    let bytes =
      e
      ∙ ap (λ u. u.sent) same_u
      ∙ stream
      ∙ ap (λ t. si ++ (t ++ (encode_blocks (has_time mtime) blocks ++ et))) same_hd in
    let (d, got, undefined, closed, sent) =
      received moves opened filename (length content) mtime blocks hunks free sizes hdr h bytes
        defined in
    (d, got, undefined, closed ∙ ap (λ t. t ∷ []) whole, sent)
