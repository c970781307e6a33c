-- ===== src/Ipd/Frame/From.antt =====
-- `from_addr`: the station that the frame was last heard from.
use linuxax.Prelude.{
  ℕ, zero, suc, ◌+◌, ◌-◌, ◌*◌, ◌≤◌, ◌<◌, ◌≡◌, ◌⊎◌, Bool, true, false, ◌&&◌, ◌||◌, List, some,
  length, arith, refl, if◌then◌else◌, not, Bool-cases, inl, inr, ap,
}
use mathlib.Core.Path.{subst}
use linuxax.Ipd.Frame.{is_last, repeated, from_digi, from_addr}
use linuxax.Ipd.Frame.Layout.{
  HasAddresses, flags, AllRepeated, AllRepeated-suc, read_flags, is_last-flags,
}

-- Address `k` is the first digipeater that is the last address or has not repeated the frame: where
-- the walk stops.
abbrev pub StopsAt : ℕ → List ℕ → ℕ → Type 0
StopsAt n f k =
    (2 ≤ k) × (k < n) × AllRepeated f 2 k × ((k + 1 ≡ n) ⊎ (repeated (flags f k) ≡ false))

-- What is returned where the walk stops.
abbrev pub stop_addr : Bool → List ℕ → ℕ → ℕ
stop_addr true f k = (k - 1) * 7
stop_addr false f k = if repeated (flags f k) then k * 7 else (k - 1) * 7

stop_fresh :
    (digi : Bool) (f : List ℕ) (k a : ℕ)
    → a ≡ k * 7
    → repeated (flags f k) ≡ false
    → (if digi || true then some (a - 7) else some a) ≡ some (stop_addr digi f k)
stop_fresh true f k a e fresh = ap some (omega arith)
stop_fresh false f k a e fresh = rw fresh (ap some (omega arith))

stop_last :
    (digi : Bool) (f : List ℕ) (k a : ℕ)
    → a ≡ k * 7
    → repeated (flags f k) ≡ true
    → (if digi || false then some (a - 7) else some a) ≡ some (stop_addr digi f k)
stop_last true f k a e old = ap some (omega arith)
stop_last false f k a e old = rw old (ap some e)

not-and-false : (b : Bool) → (not b && false) ≡ false
not-and-false true = refl
not-and-false false = refl

from_digi_stops :
    (fuel k a n : ℕ) (digi : Bool) (f : List ℕ)
    → HasAddresses n f
    → 2 ≤ k
    → k < n
    → n ≤ k + fuel
    → a ≡ k * 7
    → AllRepeated f 2 k
    → (j : ℕ) × StopsAt n f j × (from_digi fuel digi f a ≡ some (stop_addr digi f j))
unfolding from_digi
from_digi_stops zero k a n digi f h two lt enough e all = absurd (omega arith)
from_digi_stops (suc fuel) k a n digi f h two lt enough e all =
    rw (read_flags n k a f h lt e) (elim (Bool-cases (repeated (flags f k))) [
      | inr fresh ↦ (
        k,
        (two, lt, all, inr fresh),
        rw (fresh, not-and-false (is_last (flags f k))) (stop_fresh digi f k a e fresh),
      )
      | inl old ↦ elim (is_last-flags n k f h (omega arith) lt) [
        | inl (end, last) ↦
            (k, (two, lt, all, inl end), rw (old, last) (stop_last digi f k a e old))
        | inr (more, other) ↦
            rw (old, other)
              (from_digi_stops fuel (k + 1) (a + 7) n digi f h (omega arith) more (omega arith)
                (omega arith) (AllRepeated-suc f 2 k all old))
      ]
    ])

-- On a well-formed address field with digipeaters `from_addr` reads nothing outside the frame and
-- returns: in TNC mode the last of the digipeaters that repeated the frame one after another, or
-- the source if the first has not; in digipeater mode the address before the one where this walk
-- ends. Without digipeaters it returns the source.
pub from_addr_stops :
    (n : ℕ) (digi : Bool) (f : List ℕ)
    → HasAddresses n f
    → ((n ≡ 2) × (from_addr digi f ≡ some 7))
      ⊎ ((k : ℕ) × StopsAt n f k × (from_addr digi f ≡ some (stop_addr digi f k)))
unfolding from_addr
from_addr_stops n digi f h =
    rw (read_flags n 1 7 f h (omega (arith, h.two)) (omega arith))
      (elim (is_last-flags n 1 f h (omega arith) (omega (arith, h.two))) [
        | inl (end, last) ↦ inl (omega arith, rw last)
        | inr (more, other) ↦ inr (
            rw other (
              from_digi_stops (length f) 2 14 n digi f h (omega arith) more
                (omega (arith, h.inside)) (omega arith) (λ i p q. absurd (omega arith))))
      ])

-- The station last heard, in TNC mode: the last address `m` such that all digipeaters up to it have
-- repeated the frame and the next one has not.
abbrev pub IsHeard : ℕ → List ℕ → ℕ → Type 0
IsHeard n f m =
    (1 ≤ m)
    × (m < n)
    × AllRepeated f 2 (m + 1)
    × ((m + 1 ≡ n) ⊎ ((m + 1 < n) × (repeated (flags f (m + 1)) ≡ false)))

end_of : {P : Type 0} {b : Bool} → P ⊎ (b ≡ false) → b ≡ true → P
end_of (inl p) e = p
end_of (inr q) e = cc

-- In TNC mode `from_addr` reads nothing outside a well-formed address field and returns the last
-- of the digipeaters that have repeated the frame one after another, or the source if the first
-- has not or if there is none.
pub from_addr-IsHeard :
    (n : ℕ) (f : List ℕ)
    → HasAddresses n f
    → (m : ℕ) × IsHeard n f m × (from_addr false f ≡ some (m * 7))
from_addr-IsHeard n f h = elim (from_addr_stops n false f h) [
  | inl (two, e) ↦
      (1, (omega arith, omega arith, (λ i p q. absurd (omega arith)), inl (omega arith)), e)
  | inr (k, (two, lt, all, stop), e) ↦ elim (Bool-cases (repeated (flags f k))) [
    | inl old ↦
        (k, (omega arith, lt, AllRepeated-suc f 2 k all old, inl (end_of stop old)), rw old at e)
    | inr fresh ↦ (
      k - 1,
      (
        omega arith,
        omega arith,
        subst (AllRepeated f 2) (omega arith) all,
        inr (omega arith, subst (λ t. repeated (flags f t) ≡ false) (omega arith) fresh),
      ),
      rw fresh at e,
    )
  ]
]
