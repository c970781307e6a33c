-- ===== src/Call/Yapp/Hunks/Overlap.antt =====
-- The two loops of YAPP where `memcpy` of areas that overlap is left undefined.
use linuxax.Prelude.{
  ℕ, zero, suc, ◌-◌, ◌≡◌, refl, ap, ◌∙◌, Bool, true, false, List, [], ◌∷◌, ◌++◌, Option, none, some,
  leb, length, drop, Bool-cases, ◌⊎◌, inl, inr,
}
use linuxax.Ipd.Frame.{◌>>=◌}
use linuxax.Call.Yapp.{packet_length, drain, read_hunk, select_loop, Event, hears, takes, ends}
use linuxax.Call.Yapp.Hunks.Reads.{outcome}

module _ {S : Type 0} (handle : S → (b0 b1 : ℕ) (body : List ℕ) → Bool × S) (yappc : S → Bool) where
  drain_overlap :
      (fuel : ℕ) (s : S) (buffer : List ℕ)
      → (drain false handle yappc fuel s buffer ≡ none)
        ⊎ (drain false handle yappc fuel s buffer ≡ drain true handle yappc fuel s buffer)
  unfolding drain
  drain_overlap zero s buffer = inl refl
  drain_overlap (suc fuel) s [] = inr refl
  drain_overlap (suc fuel) s (b0 ∷ []) = inr refl
  drain_overlap (suc fuel) s (b0 ∷ b1 ∷ body) =
      let n = packet_length (yappc s) b0 b1 in
      elim (Bool-cases (leb n (length (b0 ∷ b1 ∷ body)))) [
        | inr short ↦ inr (rw (short, drain) refl)
        | inl whole ↦ elim (Bool-cases (handle s b0 b1 body).0) [
          | inr over ↦ inr (rw (whole, over, drain) refl)
          | inl on ↦ elim (Bool-cases (leb (length (b0 ∷ b1 ∷ body) - n) n)) [
            | inr overlap ↦ inl (rw (whole, on, drain) (rw overlap refl))
            | inl apart ↦
                rw (whole, on, drain)
                  (rw apart (drain_overlap fuel (handle s b0 b1 body).1 (drop n (b0 ∷ b1 ∷ body))))
          ]
        ]
      ]

  read_hunk_overlap :
      (s : S) (buffer hunk : List ℕ)
      → (read_hunk false handle yappc s buffer hunk ≡ none)
        ⊎ (read_hunk false handle yappc s buffer hunk ≡ read_hunk true handle yappc s buffer hunk)
  unfolding read_hunk
  read_hunk_overlap s buffer hunk = elim (Bool-cases (leb (length (buffer ++ hunk)) 1024)) [
    | inr over ↦ inl (rw (over, read_hunk) refl)
    | inl fits ↦
        rw (fits, read_hunk) (drain_overlap (suc (length (buffer ++ hunk))) s (buffer ++ hunk))
  ]

  after :
      Option (Bool × S × List ℕ)
      → (S → List ℕ → Option (Bool × S × List ℕ))
      → Option (Bool × S × List ℕ)
  after o f =
      o >>= λ (go, s, buffer). elim go [ false ↦ some (false, s, buffer) | true ↦ f s buffer ]

  next_overlap :
      (o : Option (Bool × S × List ℕ)) (f g : S → List ℕ → Option (Bool × S × List ℕ))
      → ((s : S) (buffer : List ℕ) → (f s buffer ≡ none) ⊎ (f s buffer ≡ g s buffer))
      → (after o f ≡ none) ⊎ (after o f ≡ after o g)
  unfolding after
  next_overlap none f g e = inl refl
  next_overlap (some (false, s, buffer)) f g e = inr refl
  next_overlap (some (true, s, buffer)) f g e = e s buffer

  module _ (writable : ℕ → S → S) (says : S → List ℕ → S) where
    -- What C leaves undefined is the only difference.
    pub select_loop_overlap :
        (s : S) (buffer : List ℕ) (events : List Event)
        → (select_loop false handle yappc writable says s buffer events ≡ none)
          ⊎ (select_loop false handle yappc writable says s buffer events
              ≡ select_loop true handle yappc writable says s buffer events)
    unfolding select_loop after
    select_loop_overlap s buffer [] = inr refl
    select_loop_overlap s buffer (takes n ∷ events) =
        select_loop_overlap (writable n s) buffer events
    select_loop_overlap s buffer (ends why ∷ events) = inr refl
    select_loop_overlap s buffer (hears hunk ∷ events) = elim (read_hunk_overlap s buffer hunk) [
      | inl undefined ↦ inl (rw undefined refl)
      | inr same ↦ rw same (
          next_overlap (read_hunk true handle yappc s buffer hunk) _ _
            (λ s' buffer'. select_loop_overlap s' buffer' events))
    ]

    -- The same of what the side is in the end.
    pub outcome-select_loop_overlap :
        (s : S) (events : List Event) (result : Bool × S)
        → outcome (select_loop true handle yappc writable says s [] events) ≡ some result
        → (outcome (select_loop false handle yappc writable says s [] events) ≡ none)
          ⊎ (outcome (select_loop false handle yappc writable says s [] events) ≡ some result)
    unfolding outcome
    outcome-select_loop_overlap s events result e = elim (select_loop_overlap s [] events) [
      | inl undefined ↦ inl (ap outcome undefined)
      | inr same ↦ inr (ap outcome same ∙ e)
    ]
