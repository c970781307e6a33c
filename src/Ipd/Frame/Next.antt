-- ===== src/Ipd/Frame/Next.antt =====
-- `next_addr`: the station that is to take the frame next.
use linuxax.Prelude.{
  ℕ, zero, suc, ◌+◌, ◌*◌, ◌≤◌, ◌<◌, ◌≡◌, ◌⊎◌, false, List, some, length, arith, refl, Bool-cases,
  inl, inr,
}
use linuxax.Ipd.Frame.{repeated, next_digi, next_addr}
use linuxax.Ipd.Frame.Layout.{
  HasAddresses, flags, AllRepeated, AllRepeated-suc, read_flags, is_last-flags,
}

-- `a` is the first digipeater that has not repeated the frame, or the destination, at 0, if all have.
abbrev pub IsNext : ℕ → List ℕ → ℕ → Type 0
IsNext n f a =
    ((a ≡ 0) × AllRepeated f 2 n)
    ⊎ ((k : ℕ) × (2 ≤ k)
        × (k < n)
        × (a ≡ k * 7)
        × (repeated (flags f k) ≡ false)
        × AllRepeated f 2 k)

next_digi-IsNext :
    (fuel k a n : ℕ) (f : List ℕ)
    → HasAddresses n f
    → 2 ≤ k
    → k < n
    → n ≤ k + fuel
    → a ≡ k * 7
    → AllRepeated f 2 k
    → (b : ℕ) × (next_digi fuel f a ≡ some b) × IsNext n f b
unfolding next_digi
next_digi-IsNext zero k a n f h two lt enough e all = absurd (omega arith)
next_digi-IsNext (suc fuel) k a n f h two lt enough e all =
    rw (read_flags n k a f h lt e) (elim (Bool-cases (repeated (flags f k))) [
      | inr fresh ↦ (a, rw fresh, inr (k, two, lt, e, fresh, all))
      | inl old ↦ elim (is_last-flags n k f h (omega arith) lt) [
        | inl (end, last) ↦
            (0, rw (old, last), inl (refl, rw end at (AllRepeated-suc f 2 k all old)))
        | inr (more, other) ↦
            rw (old, other)
              (next_digi-IsNext fuel (k + 1) (a + 7) n f h (omega arith) more (omega arith)
                (omega arith) (AllRepeated-suc f 2 k all old))
      ]
    ])

-- On a frame with a well-formed address field `next_addr` reads nothing outside the frame, ends,
-- and returns the first digipeater that has not repeated the frame; if all have, or if there is
-- none, the destination.
pub next_addr-IsNext :
    (n : ℕ) (f : List ℕ) → HasAddresses n f → (a : ℕ) × (next_addr f ≡ some a) × IsNext n f a
unfolding next_addr
next_addr-IsNext n f h =
    rw (read_flags n 1 7 f h (omega (arith, h.two)) (omega arith))
      (elim (is_last-flags n 1 f h (omega arith) (omega (arith, h.two))) [
        | inl (end, last) ↦ (0, rw last, inl (refl, λ i p q. absurd (omega arith)))
        | inr (more, other) ↦ rw other (
            next_digi-IsNext (length f) 2 14 n f h (omega arith) more (omega (arith, h.inside))
              (omega arith) (λ i p q. absurd (omega arith)))
      ])
