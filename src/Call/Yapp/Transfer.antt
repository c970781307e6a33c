-- ===== src/Call/Yapp/Transfer.antt =====
-- A file that is sent by one side of YAPP and received by the other.
use linuxax.Prelude.{
  ℕ, zero, suc, ◌*◌, ◌≤◌, ◌<◌, ◌≡◌, refl, ap, ◌∙◌, Bool, true, false, List, [], ◌∷◌, ◌++◌,
  append_assoc, append-nil, map, some, ◌==◌, length, take, drop, All, arith, flatten, Bool-cases,
  inl, inr, if◌then◌else◌,
}
use linuxax.Call.Yapp.{
  state_sh, state_se, state_st, ack, Event, hears, takes, rr, rf, rt, af, at, si, et, dt,
}
use linuxax.Call.Yapp.Hunks.{length-drop}
use linuxax.Call.Yapp.Hunks.Reads.{outcome}
use linuxax.Call.Yapp.Hunks.Runs.{hears_goes, hears_stops}
use linuxax.Call.Yapp.Blocks.{IsBlock, encode_blocks}
use linuxax.Call.Yapp.Transmit.{
  Upload, block_of, start_data, sends, readlen_of, upload_start, yapp_upload_data, yapp_upload,
}
use linuxax.Call.Yapp.Writes.{
  after_writes, yapp_upload-takes, sending, Finished, block_begun, length-block_of, length-take,
  after_writes_lem,
}

-- What the upload finds when the other side takes the file: its answers, and between them what the
-- connection takes.
unfoldable pub session : Bool → List ℕ → List Event
session yappc writes =
    hears rr ∷ hears (if yappc then rt else rf) ∷ (map takes writes ++ (hears af ∷ hears at ∷ []))

take-nil : (n : ℕ) → take {A = ℕ} n [] ≡ []
take-nil zero = refl
take-nil (suc n) = refl

drop-nil : (n : ℕ) → drop {A = ℕ} n [] ≡ []
drop-nil zero = refl
drop-nil (suc n) = refl

-- The first block, which start_data takes.
started :
    (ns : List ℕ) (yappc : Bool) (readlen : ℕ) (content sent : List ℕ)
    → 1 ≤ readlen
    → readlen ≤ 253
    → All (λ n. 1 ≤ n) ns
    → 3 * length content < length ns
    → (yappc ≡ true → 1 ≤ length content)
    → Finished yappc [] content sent (
        after_writes ns (
          start_data
            (record (sending 0 yappc readlen [] content content sent) { state = state_sh })))
unfolding start_data
started ns yappc readlen content sent some_len short h enough filled =
    let size = length-take readlen content in
    elim (Bool-cases (length (take readlen content) == 0)) [
      | inl none_left ↦ empty yappc content (ground (arith, none_left, size, some_len)) filled
      | inr block ↦ rw (block) (
          block_begun 0 readlen yappc [] content sent _ refl
            (ground (arith, block), omega (arith, size, short))
            (rw (append-nil sent) (
              after_writes_lem readlen some_len short ns 0 yappc
                (block_of yappc (take readlen content)) (drop readlen content) content
                (sent ++ dt (length (take readlen content))) h
                (ground (
                  arith,
                  enough,
                  size,
                  length-drop readlen content,
                  length-block_of yappc (take readlen content),
                  block,
                )))))
    ]
  where
    enough' : 0 < length ns
    enough' = omega (arith, enough)

    empty :
        (yappc : Bool) (content : List ℕ)
        → length content ≡ 0
        → (yappc ≡ true → 1 ≤ length content)
        → Finished yappc [] content sent (
            after_writes ns (
              start_data
                (record (sending 0 yappc readlen [] content content sent) { state = state_sh })))
    empty true content none_left filled = absurd (omega (arith, filled refl, none_left))
    empty false (x ∷ content) none_left filled = absurd (omega arith)
    empty false [] none_left filled =
        rw (take-nil readlen, drop-nil readlen, append-nil sent)
          (after_writes_lem readlen some_len short ns 0 false [] [] [] sent h enough')

readlen_bounds : (paclen : ℕ) → 3 ≤ paclen → (1 ≤ readlen_of paclen) × (readlen_of paclen ≤ 253)
unfolding readlen_of
readlen_bounds paclen h = (ground (arith, h), ground arith)

-- The steps of the upload.
module _ (moves : Bool) (hd content : List ℕ) (paclen : ℕ) where
  with_header : Bool → Upload
  with_header yappc = record (sending 0 yappc (readlen_of paclen) [] content content (si ++ hd)) {
    state = state_sh;
  }

  hears-rr :
      (events : List Event)
      → yapp_upload moves hd (upload_start paclen content) [] (hears rr ∷ events)
        ≡ yapp_upload moves hd (with_header false) [] events
  unfolding yapp_upload yapp_upload_data upload_start with_header
  hears-rr events =
      hears_goes moves (yapp_upload_data hd) (λ (u : Upload). false) sends
        (λ u packet. record u { sent = u.sent ++ packet }) (upload_start paclen content)
        (with_header false) ack 1 events refl refl

  hears-reply :
      (yappc : Bool) (events : List Event)
      → yapp_upload moves hd (with_header false) [] (hears (if yappc then rt else rf) ∷ events)
        ≡ yapp_upload moves hd (start_data (with_header yappc)) [] events
  unfolding yapp_upload yapp_upload_data with_header
  hears-reply true events =
      hears_goes moves (yapp_upload_data hd) (λ (u : Upload). false) sends
        (λ u packet. record u { sent = u.sent ++ packet }) (with_header false)
        (start_data (with_header true)) ack ack events refl refl
  hears-reply false events =
      hears_goes moves (yapp_upload_data hd) (λ (u : Upload). false) sends
        (λ u packet. record u { sent = u.sent ++ packet }) (with_header false)
        (start_data (with_header false)) ack 2 events refl refl

  hears-af :
      (u : Upload) (events : List Event)
      → u.state ≡ state_se
      → yapp_upload moves hd u [] (hears af ∷ events)
        ≡ yapp_upload moves hd (record u { state = state_st; sent = u.sent ++ et }) [] events
  unfolding yapp_upload yapp_upload_data
  hears-af u events e =
      hears_goes moves (yapp_upload_data hd) (λ (u : Upload). false) sends
        (λ u packet. record u { sent = u.sent ++ packet }) u
        (record u { state = state_st; sent = u.sent ++ et }) ack 3 events refl (simp e)

  hears-at :
      (u : Upload)
      → u.state ≡ state_st
      → outcome (yapp_upload moves hd u [] (hears at ∷ [])) ≡ some (false, u)
  unfolding yapp_upload yapp_upload_data
  hears-at u e =
      hears_stops moves (yapp_upload_data hd) (λ (u : Upload). false) sends
        (λ u packet. record u { sent = u.sent ++ packet }) u u ack 4 [] refl (simp e)

  -- With packets of three bytes or more, the answers of the session, and between them more than three
  -- times as many writes as the file has bytes, each of a byte at least, the upload ends by itself: it
  -- has written the opening packet, the header, blocks of one to 253 bytes that make up the file with
  -- the packet at its end, and the closing packet. In YAPP C the file is not empty.
  pub yapp_upload-session :
      (yappc : Bool) (writes : List ℕ)
      → 3 ≤ paclen
      → All (λ n. 1 ≤ n) writes
      → 3 * length content < length writes
      → (yappc ≡ true → 1 ≤ length content)
      → (u : Upload) × (blocks : List (List ℕ)) × (outcome
            (yapp_upload moves hd (upload_start paclen content) [] (session yappc writes))
          ≡ some (false, u))
        × (u.sent ≡ si ++ (hd ++ (encode_blocks yappc blocks ++ et)))
        × (flatten blocks ≡ content)
        × All IsBlock blocks
  unfolding session with_header
  yapp_upload-session yappc writes len h enough filled =
      let (some_len, short) = readlen_bounds paclen len in
      let d =
        started writes yappc (readlen_of paclen) content (si ++ hd) some_len short h enough
          filled in
      let u = after_writes writes (start_data (with_header yappc)) in
      (
        record u { state = state_st; sent = u.sent ++ et },
        d.blocks,
        ap outcome (
              hears-rr _
              ∙ hears-reply yappc _
              ∙ yapp_upload-takes moves hd writes (start_data (with_header yappc))
                  (hears af ∷ hears at ∷ [])
              ∙ hears-af u (hears at ∷ []) d.ended)
            ∙ hears-at (record u { state = state_st; sent = u.sent ++ et }) refl,
        ap (λ t. t ++ et) d.all
            ∙ append_assoc (si ++ hd) (encode_blocks yappc d.blocks) et
            ∙ append_assoc si hd (encode_blocks yappc d.blocks ++ et),
        d.content,
        d.sizes,
      )
