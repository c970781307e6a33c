-- ===== src/Call/Yapp/Hunks/Runs.antt =====
-- The loop over the bytes that were read, packet by packet.
use linuxax.Prelude.{
  ℕ, zero, suc, ◌+◌, ◌≤◌, ◌≡◌, refl, ap, ◌∙◌, Bool, true, false, List, [], ◌∷◌, ◌++◌, Option, some,
  length, length-append, drop, arith, if◌then◌else◌,
}
use linuxax.Call.Yapp.{is_short, packet_length, drain, read_hunk, Event, hears, select_loop}
use linuxax.Call.Yapp.Hunks.{drain_fuel, drain_goes, drain_stops, drain_alone}
use linuxax.Call.Yapp.Hunks.Reads.{outcome}

pub drop-length_append {ℓ} :
    {A : Type ℓ} (n : ℕ) (xs ys : List A) → n ≡ length xs → drop n (xs ++ ys) ≡ ys
drop-length_append zero [] ys h = refl
drop-length_append zero (x ∷ xs) ys h = absurd (omega arith)
drop-length_append (suc n) [] ys h = absurd (omega arith)
drop-length_append (suc n) (x ∷ xs) ys h = drop-length_append n xs ys (omega arith)

module _ (moves : Bool) {S : Type 0} (handle : S → (b0 b1 : ℕ) (body : List ℕ) → Bool × S)
    (yappc : S → Bool) where
  -- One loop over all of the bytes.
  unfoldable pub run : S → List ℕ → Option (Bool × S)
  run s buffer = outcome (drain moves handle yappc (suc (length buffer)) s buffer)

  -- A whole packet, after which the side returns.
  pub run_stops :
      (s s' : S) (b0 b1 : ℕ) (body : List ℕ)
      → packet_length (yappc s) b0 b1 ≤ length body + 2
      → handle s b0 b1 body ≡ (false, s')
      → run s (b0 ∷ b1 ∷ body) ≡ some (false, s')
  unfolding run outcome
  run_stops s s' b0 b1 body e h =
      ap outcome (
        drain_stops handle yappc moves (length (b0 ∷ b1 ∷ body)) s b0 b1 body (omega (arith, e))
          (ap (λ r. r.0) h))
      ∙ ap (λ r. some (false, r.1)) h

  pub run_empty : (s : S) → run s [] ≡ some (true, s)
  unfolding run outcome drain
  run_empty s = refl

  module _ (writable : ℕ → S → S) (says : S → List ℕ → S) where
    -- A packet of two bytes, read by itself.
    read_short :
        (s s' : S) (b0 b1 : ℕ) (go : Bool)
        → is_short b0 ≡ true
        → handle s b0 b1 [] ≡ (go, s')
        → read_hunk moves handle yappc s [] (b0 ∷ b1 ∷ [])
          ≡ some (go, s', if go then [] else b0 ∷ b1 ∷ [])
    unfolding read_hunk drain packet_length
    read_short s s' b0 b1 true e h =
        let two : packet_length (yappc s) b0 b1 ≡ 2 = ground (arith, e) in
        drain_alone handle yappc moves 1 s b0 b1 [] (omega (arith, two)) (ap (λ r. r.0) h)
        ∙ ap (λ r. some (true, r.1, [])) h
    read_short s s' b0 b1 false e h =
        drain_stops handle yappc moves 2 s b0 b1 [] (ground (arith, e)) (ap (λ r. r.0) h)
        ∙ ap (λ r. some (false, r.1, b0 ∷ b1 ∷ [])) h

    pub hears_goes :
        (s s' : S) (b0 b1 : ℕ) (events : List Event)
        → is_short b0 ≡ true
        → handle s b0 b1 [] ≡ (true, s')
        → select_loop moves handle yappc writable says s [] (hears (b0 ∷ b1 ∷ []) ∷ events)
          ≡ select_loop moves handle yappc writable says s' [] events
    unfolding select_loop
    hears_goes s s' b0 b1 events e h = rw (read_short s s' b0 b1 true e h) refl

    pub hears_stops :
        (s s' : S) (b0 b1 : ℕ) (events : List Event)
        → is_short b0 ≡ true
        → handle s b0 b1 [] ≡ (false, s')
        → outcome
            (select_loop moves handle yappc writable says s [] (hears (b0 ∷ b1 ∷ []) ∷ events))
          ≡ some (false, s')
    unfolding select_loop outcome
    hears_stops s s' b0 b1 events e h = rw (read_short s s' b0 b1 false e h) refl

module _ {S : Type 0} (handle : S → (b0 b1 : ℕ) (body : List ℕ) → Bool × S) (yappc : S → Bool) where
  -- A whole packet, after which the side goes on.
  pub run_goes :
      (s s' : S) (b0 b1 : ℕ) (body rest : List ℕ)
      → packet_length (yappc s) b0 b1 ≡ length body + 2
      → handle s b0 b1 (body ++ rest) ≡ (true, s')
      → run true handle yappc s (b0 ∷ b1 ∷ (body ++ rest)) ≡ run true handle yappc s' rest
  unfolding run
  run_goes s s' b0 b1 body rest e h =
      let cut =
        drop-length_append (packet_length (yappc s) b0 b1) (b0 ∷ b1 ∷ body) rest
          (omega (arith, e)) in
      let goes =
        drain_goes handle yappc (length (b0 ∷ b1 ∷ (body ++ rest))) s b0 b1 (body ++ rest)
          (omega (arith, e, length-append body rest)) (ap (λ r. r.0) h) in
      let enough =
        drain_fuel handle yappc (length (b0 ∷ b1 ∷ (body ++ rest))) (suc (length rest)) s' rest
          (omega (arith, length-append body rest)) (omega arith) in
      ap outcome (
        goes
        ∙ ap
            (λ t.
              drain true handle yappc (length (b0 ∷ b1 ∷ (body ++ rest)))
                (handle s b0 b1 (body ++ rest)).1 t)
            cut
        ∙ ap (λ r. drain true handle yappc (length (b0 ∷ b1 ∷ (body ++ rest))) r.1 rest) h
        ∙ enough)
