-- ===== src/Call/Yapp/Stream.antt =====
-- All that the upload of YAPP writes, read by the download in one piece or in hunks.
use linuxax.Prelude.{
  take-length_append, ℕ, ◌+◌, ◌≡◌, refl, ap, sym, ◌∙◌, Bool, true, false, List, [], ◌∷◌, ◌++◌,
  append_assoc, map, Option, none, some, length, All, arith, flatten, if◌then◌else◌,
}
use linuxax.Call.Yapp.{state_rh, soh, enq, eot, hears, rr, rf, rt, af, at, si, et, packet_length}
use linuxax.Call.Yapp.Hunks.Reads.{IsHunk, outcome, read_hunks-eq-drain, select_loop-hears}
use linuxax.Call.Yapp.Hunks.Runs.{run, run_goes, run_stops}
use linuxax.Call.Yapp.Cuts.{yapp_download_data_local}
use linuxax.Call.Yapp.Packets.{twice}
use linuxax.Call.Yapp.Blocks.{
  IsBlock, encode_blocks, runs, receiving, run-encode_blocks, length_of_self,
}
use linuxax.Call.Yapp.Header.{has_time, Header}
use linuxax.Call.Yapp.Receive.{
  Download, receive_header, accept_header, yapp_download_data, download_start, yapp_download,
}

module _ (opened : List ℕ → Option (List ℕ)) where
  run-si :
      (rest : List ℕ)
      → runs opened true (download_start none) (si ++ rest)
        ≡ runs opened true (record (download_start none) { state = state_rh; sent = rr }) rest
  unfolding yapp_download_data download_start packet_length
  run-si rest =
      run_goes (yapp_download_data opened) (λ (d : Download). d.yappc) _ _ enq 1 [] rest refl refl

  run-soh :
      (filename : List ℕ) (size : ℕ) (mtime : Option ℕ) (rest : List ℕ)
      → opened filename ≡ some []
      → (hd : Header filename size mtime)
      → runs opened true
          (record (download_start none) { state = state_rh; sent = rr })
          (soh ∷ length hd.body ∷ (hd.body ++ rest))
        ≡ runs opened true
            (receiving 0 (has_time mtime) [] [] (rr ++ (if has_time mtime then rt else rf)))
            rest
  unfolding yapp_download_data receive_header accept_header download_start packet_length
  run-soh filename size mtime rest free hd =
      run_goes (yapp_download_data opened) (λ (d : Download). d.yappc) _ _ soh (length hd.body)
        hd.body rest (omega (arith, length_of_self (length hd.body) hd.some_body))
        (rw
          (
            length_of_self (length hd.body) hd.some_body,
            take-length_append (length hd.body) hd.body rest refl,
            hd.fields,
            free,
            hd.timed,
          )
          (rw (twice (has_time mtime)) refl))

  run-et :
      (total : ℕ) (yappc : Bool) (closed : List (List ℕ)) (sent : List ℕ)
      → (d : Download) × (runs opened true
            (record {
              state = state_rh;
              total = total;
              yappc = yappc;
              filefd = none;
              closed = closed;
              sent = sent;
            })
            et
          ≡ some (false, d))
        × (d.closed ≡ closed)
        × (d.sent ≡ sent ++ at)
  unfolding yapp_download_data packet_length
  run-et total yappc closed sent = (
    record {
      state = state_rh;
      total = total;
      yappc = yappc;
      filefd = none;
      closed = closed;
      sent = sent ++ at;
    },
    run_stops true (yapp_download_data opened) (λ (d : Download). d.yappc) _ _ eot 1 []
        (omega arith) refl,
    refl,
    refl,
  )

  -- All that the upload writes, read in one piece.
  pub run_stream :
      (filename : List ℕ) (size : ℕ) (mtime : Option ℕ) (blocks : List (List ℕ))
      → opened filename ≡ some []
      → All IsBlock blocks
      → (hd : Header filename size mtime)
      → (d : Download) × (runs opened true (download_start none) (
            si
            ++ ((soh ∷ length hd.body ∷ hd.body) ++ (encode_blocks (has_time mtime) blocks ++ et)))
          ≡ some (false, d))
        × (d.closed ≡ flatten blocks ∷ [])
        × (d.sent ≡ rr ++ ((if has_time mtime then rt else rf) ++ (af ++ at)))
  run_stream filename size mtime blocks free sizes hd =
      let reply = if has_time mtime then rt else rf in
      let enc = encode_blocks (has_time mtime) blocks in
      let (d, run, closed, sent) =
        run-et (0 + length (flatten blocks)) (has_time mtime) (flatten blocks ∷ [])
          ((rr ++ reply) ++ af) in
      (
        d,
        run-si ((soh ∷ length hd.body ∷ hd.body) ++ (enc ++ et))
            ∙ run-soh filename size mtime (enc ++ et) free hd
            ∙ run-encode_blocks opened 0 (has_time mtime) [] [] (rr ++ reply) blocks et sizes
            ∙ run,
        closed,
        sent ∙ append_assoc (rr ++ reply) af at ∙ append_assoc rr reply (af ++ at),
      )

  -- The same, hunk by hunk.
  pub hunks_run :
      (d : Download) (hunks : List (List ℕ)) (result : Bool × Download)
      → All IsHunk hunks
      → runs opened true d (flatten hunks) ≡ some result
      → outcome (yapp_download true opened d [] (map hears hunks)) ≡ some result
  unfolding yapp_download run
  hunks_run d hunks result h e =
      let handle = yapp_download_data opened in
      let (result', reads, all) =
        read_hunks-eq-drain handle (λ (d : Download). d.yappc) (yapp_download_data_local opened) d
          hunks h in
      ap outcome (
        select_loop-hears handle (λ (d : Download). d.yappc) (λ n d. d)
          (λ d packet. record d { sent = d.sent ++ packet }) true d [] hunks)
      ∙ reads
      ∙ sym all
      ∙ e
