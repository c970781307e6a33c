-- ===== src/Call/Yapp/Hunks/Pieces.antt =====
-- Hunks of which none holds bytes of two packets: nothing is left to move when a packet is done.
use linuxax.Prelude.{
  ℕ, suc, ◌+◌, ◌≤◌, ◌<◌, ◌≡◌, refl, ap, sym, ◌∙◌, Bool, true, false, List, [], ◌∷◌, ◌++◌, some, leb,
  leb→le, length, length-append, arith, append_assoc, append-nil, flatten, Bool-cases, inl, inr,
}
use linuxax.Call.Yapp.{packet_length, drain, read_hunk, read_hunks}
use linuxax.Call.Yapp.Hunks.{drain_alone, drain_stops}

nothing_behind {ℓ} :
    {A : Type ℓ} (xs ys zs : List A) → xs ++ ys ≡ zs → length zs ≤ length xs → (xs ≡ zs) × (ys ≡ [])
nothing_behind xs [] zs e h = (sym (append-nil xs) ∙ e, refl)
nothing_behind xs (y ∷ ys) zs e h =
    absurd (omega (arith, h, ap length e, length-append xs (y ∷ ys)))

module _ (moves : Bool) {S : Type 0} (handle : S → (b0 b1 : ℕ) (body : List ℕ) → Bool × S)
    (yappc : S → Bool) where
  -- A part of a packet waits.
  drain_waits :
      (fuel : ℕ) (s : S) (part more : List ℕ) (b0 b1 : ℕ) (body : List ℕ)
      → part ++ more ≡ b0 ∷ b1 ∷ body
      → packet_length (yappc s) b0 b1 ≡ length body + 2
      → length part < length body + 2
      → drain moves handle yappc (suc fuel) s part ≡ some (true, s, part)
  unfolding drain
  drain_waits fuel s [] more b0 b1 body e n short = refl
  drain_waits fuel s (c0 ∷ []) more b0 b1 body e n short = refl
  drain_waits fuel s (c0 ∷ c1 ∷ part) more b0 b1 body e n short =
      let same0 : c0 ≡ b0 = ap (λ l. elim l [ [] ↦ c0 | x ∷ xs ↦ x ]) e in
      let same1 : c1 ≡ b1 =
        ap (λ l. elim l [ [] ↦ c1 | x ∷ xs ↦ elim xs [ [] ↦ c1 | y ∷ ys ↦ y ] ]) e in
      let waits : leb (packet_length (yappc s) c0 c1) (length (c0 ∷ c1 ∷ part)) ≡ false =
        rw (same0, same1) (ground (arith, n, short)) in
      rw (waits, drain) refl

  read_hunk_waits :
      (s : S) (part hunk more : List ℕ) (b0 b1 : ℕ) (body : List ℕ)
      → (part ++ hunk) ++ more ≡ b0 ∷ b1 ∷ body
      → packet_length (yappc s) b0 b1 ≡ length body + 2
      → length body + 2 ≤ 1024
      → length (part ++ hunk) < length body + 2
      → read_hunk moves handle yappc s part hunk ≡ some (true, s, part ++ hunk)
  unfolding read_hunk
  read_hunk_waits s part hunk more b0 b1 body e n room short =
      let fits : leb (length (part ++ hunk)) 1024 ≡ true = ground (arith, room, short) in
      rw fits (drain_waits (length (part ++ hunk)) s (part ++ hunk) more b0 b1 body e n short)

  read_nothing :
      (s : S) (pieces rest : List (List ℕ))
      → flatten pieces ≡ []
      → read_hunks moves handle yappc s [] (pieces ++ rest)
        ≡ read_hunks moves handle yappc s [] rest
  unfolding read_hunks read_hunk drain
  read_nothing s [] rest e = refl
  read_nothing s ([] ∷ pieces) rest e = read_nothing s pieces rest e
  read_nothing s ((x ∷ xs) ∷ pieces) rest e = absurd (omega (arith, ap length e))

  -- A packet read in pieces, after which the side goes on.
  pub pieces_goes :
      (s s' : S) (b0 b1 : ℕ) (body part : List ℕ) (pieces rest : List (List ℕ))
      → packet_length (yappc s) b0 b1 ≡ length body + 2
      → length body + 2 ≤ 1024
      → handle s b0 b1 body ≡ (true, s')
      → part ++ flatten pieces ≡ b0 ∷ b1 ∷ body
      → length part < length body + 2
      → read_hunks moves handle yappc s part (pieces ++ rest)
        ≡ read_hunks moves handle yappc s' [] rest
  unfolding read_hunks read_hunk
  pieces_goes s s' b0 b1 body part [] rest n room h e short =
      absurd (omega (arith, ap length e, length-append part [], short))
  pieces_goes s s' b0 b1 body part (hunk ∷ pieces) rest n room h e short =
      let e' : (part ++ hunk) ++ flatten pieces ≡ b0 ∷ b1 ∷ body =
        append_assoc part hunk (flatten pieces) ∙ e in
      elim (Bool-cases (leb (length body + 2) (length (part ++ hunk)))) [
        | inr waits ↦
            let less : length (part ++ hunk) < length body + 2 = ground (arith, waits) in
            rw (read_hunk_waits s part hunk (flatten pieces) b0 b1 body e' n room less)
              (pieces_goes s s' b0 b1 body (part ++ hunk) pieces rest n room h e' less)
        | inl done ↦
            let (whole, gone) =
              nothing_behind (part ++ hunk) (flatten pieces) (b0 ∷ b1 ∷ body) e'
                (omega (arith, leb→le _ _ done)) in
            let fits : leb (length (b0 ∷ b1 ∷ body)) 1024 ≡ true = ground (arith, room) in
            rw (whole, fits)
              (rw
                (
                  drain_alone handle yappc moves (length (b0 ∷ body)) s b0 b1 body
                      (omega (arith, n)) (ap (λ r. r.0) h),
                  ap (λ r. r.1) h,
                )
                (read_nothing s' pieces rest gone))
      ]

  -- A packet read in pieces, after which the side returns.
  pub pieces_stops :
      (s s' : S) (b0 b1 : ℕ) (body part : List ℕ) (pieces : List (List ℕ))
      → packet_length (yappc s) b0 b1 ≡ length body + 2
      → length body + 2 ≤ 1024
      → handle s b0 b1 body ≡ (false, s')
      → part ++ flatten pieces ≡ b0 ∷ b1 ∷ body
      → length part < length body + 2
      → read_hunks moves handle yappc s part pieces ≡ some (false, s', b0 ∷ b1 ∷ body)
  unfolding read_hunks read_hunk
  pieces_stops s s' b0 b1 body part [] n room h e short =
      absurd (omega (arith, ap length e, length-append part [], short))
  pieces_stops s s' b0 b1 body part (hunk ∷ pieces) n room h e short =
      let e' : (part ++ hunk) ++ flatten pieces ≡ b0 ∷ b1 ∷ body =
        append_assoc part hunk (flatten pieces) ∙ e in
      elim (Bool-cases (leb (length body + 2) (length (part ++ hunk)))) [
        | inr waits ↦
            let less : length (part ++ hunk) < length body + 2 = ground (arith, waits) in
            rw (read_hunk_waits s part hunk (flatten pieces) b0 b1 body e' n room less)
              (pieces_stops s s' b0 b1 body (part ++ hunk) pieces n room h e' less)
        | inl done ↦
            let (whole, gone) =
              nothing_behind (part ++ hunk) (flatten pieces) (b0 ∷ b1 ∷ body) e'
                (omega (arith, leb→le _ _ done)) in
            let fits : leb (length (b0 ∷ b1 ∷ body)) 1024 ≡ true = ground (arith, room) in
            rw (whole, fits)
              (rw
                (
                  drain_stops handle yappc moves (length (b0 ∷ b1 ∷ body)) s b0 b1 body
                      (omega (arith, n)) (ap (λ r. r.0) h),
                  ap (λ r. r.1) h,
                )
                refl)
      ]
