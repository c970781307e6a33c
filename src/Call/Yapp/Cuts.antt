-- ===== src/Call/Yapp/Cuts.antt =====
-- Where the hunks that are read begin and end makes no difference to the download and the upload.
use linuxax.Prelude.{
  ℕ, zero, suc, ◌+◌, ◌≤◌, ◌<◌, ◌≡◌, refl, ap, Bool, true, false, List, [], ◌∷◌, ◌++◌, Option, some,
  ◌==◌, length, take, get_or, All, arith, map, flatten, Bool-cases, ◌⊎◌, none, inl, inr,
}
use linuxax.Call.Yapp.{soh, stx, length_of, hears, packet_length}
use linuxax.Call.Yapp.Hunks.{IsLocal}
use linuxax.Call.Yapp.Hunks.Reads.{IsHunk, outcome, select_loop-flatten}
use linuxax.Call.Yapp.Hunks.Overlap.{outcome-select_loop_overlap}
use linuxax.Call.Yapp.Receive.{
  Download, header_fields, receive_header, receive_data, yapp_download_data, yapp_download,
}
use linuxax.Call.Yapp.Transmit.{Upload, sends, yapp_upload_data, yapp_upload}

take-append {ℓ} :
    {A : Type ℓ} (n : ℕ) (xs ys : List A) → n ≤ length xs → take n (xs ++ ys) ≡ take n xs
take-append zero xs ys h = refl
take-append (suc n) [] ys h = absurd (omega arith)
take-append (suc n) (x ∷ xs) ys h = ap (λ t. x ∷ t) (take-append n xs ys (omega arith))

get_or-append {ℓ} :
    {A : Type ℓ} (xs ys : List A) (n : ℕ) (d : A)
    → n < length xs
    → get_or (xs ++ ys) n d ≡ get_or xs n d
get_or-append [] ys n d h = absurd (omega arith)
get_or-append (x ∷ xs) ys zero d h = refl
get_or-append (x ∷ xs) ys (suc n) d h = get_or-append xs ys n d (omega arith)

soh_fits :
    (yappc : Bool) (b0 b1 n : ℕ)
    → (b0 == soh) ≡ true
    → packet_length yappc b0 b1 ≤ n + 2
    → length_of b1 ≤ n
unfolding packet_length
soh_fits yappc b0 b1 n e h = ground arith

stx_fits :
    (yappc : Bool) (b0 b1 n : ℕ)
    → (b0 == stx) ≡ true
    → packet_length yappc b0 b1 ≤ n + 2
    → packet_length yappc stx b1 ≤ n + 2
unfolding packet_length
stx_fits yappc b0 b1 n e h = ground arith

receive_data_local :
    (d : Download) (b1 : ℕ) (body ys : List ℕ)
    → packet_length d.yappc stx b1 ≤ length body + 2
    → receive_data d b1 (body ++ ys) ≡ receive_data d b1 body
unfolding receive_data packet_length
receive_data_local d b1 body ys h =
    let cut = take-append (length_of b1) body ys (ground (arith, h)) in
    elim (Bool-cases d.yappc) [
      | inl c ↦
          let same = get_or-append body ys (length_of b1) 0 (ground (arith, h, c)) in
          rw (cut, same) refl
      | inr c ↦ rw (c, cut) refl
    ]

pub yapp_download_data_local :
    (opened : List ℕ → Option (List ℕ))
    → IsLocal (yapp_download_data opened) (λ (d : Download). d.yappc)
unfolding yapp_download_data
yapp_download_data_local opened d b0 b1 body ys h = ground (arith, header, block)
  where
    header :
        (b0 == soh) ≡ true
        → receive_header opened d (header_fields 3 (take (length_of b1) (body ++ ys)))
          ≡ receive_header opened d (header_fields 3 (take (length_of b1) body))
    header e =
        ap (λ t. receive_header opened d (header_fields 3 t))
          (take-append (length_of b1) body ys
            (soh_fits d.yappc b0 b1 (length body) e (omega (arith, h))))

    block : (b0 == stx) ≡ true → receive_data d b1 (body ++ ys) ≡ receive_data d b1 body
    block e =
        receive_data_local d b1 body ys (stx_fits d.yappc b0 b1 (length body) e (omega (arith, h)))

yapp_upload_data_local : (hd : List ℕ) → IsLocal (yapp_upload_data hd) (λ (u : Upload). false)
unfolding yapp_upload_data
yapp_upload_data_local hd u b0 b1 body ys h = ground arith

-- Cut into hunks of at most 511 bytes in two ways, the same bytes leave the download in the same
-- state, with the same packets written, and no read goes past the end of the buffer, where `memcpy` moves
-- areas that overlap as `memmove` does. Where that is left undefined, the first way either reaches such
-- a `memcpy` or ends in this state too.
pub yapp_download-flatten :
    (opened : List ℕ → Option (List ℕ)) (d : Download) (hunks hunks' : List (List ℕ))
    → All IsHunk hunks
    → All IsHunk hunks'
    → flatten hunks ≡ flatten hunks'
    → (result : Bool × Download) × (outcome (yapp_download true opened d [] (map hears hunks))
        ≡ some result)
      × (outcome (yapp_download true opened d [] (map hears hunks')) ≡ some result)
      × ((outcome (yapp_download false opened d [] (map hears hunks)) ≡ none)
          ⊎ (outcome (yapp_download false opened d [] (map hears hunks)) ≡ some result))
unfolding yapp_download
yapp_download-flatten opened d hunks hunks' h h' e =
    let handle = yapp_download_data opened in
    let says = λ (d : Download) (packet : List ℕ). record d { sent = d.sent ++ packet } in
    let (result, first, second) =
      select_loop-flatten handle (λ (d : Download). d.yappc) (λ n d. d) says
        (yapp_download_data_local opened) d hunks hunks' h h' e in
    (
      result,
      first,
      second,
      outcome-select_loop_overlap handle (λ (d : Download). d.yappc) (λ n d. d) says d
          (map hears hunks) result first,
    )

-- Cut into hunks of at most 511 bytes in two ways, the same bytes leave the upload in the same
-- state, with the same packets written, and no read goes past the end of the buffer.
yapp_upload-flatten :
    (hd : List ℕ) (u : Upload) (hunks hunks' : List (List ℕ))
    → All IsHunk hunks
    → All IsHunk hunks'
    → flatten hunks ≡ flatten hunks'
    → (result : Bool × Upload) × (outcome (yapp_upload true hd u [] (map hears hunks))
        ≡ some result)
      × (outcome (yapp_upload true hd u [] (map hears hunks')) ≡ some result)
unfolding yapp_upload
yapp_upload-flatten hd =
    select_loop-flatten (yapp_upload_data hd) (λ (u : Upload). false) sends
      (λ u packet. record u { sent = u.sent ++ packet }) (yapp_upload_data_local hd)
