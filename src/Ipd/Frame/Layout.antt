-- ===== src/Ipd/Frame/Layout.antt =====
-- The address field as AX.25 defines it, apart from the code that walks it: `n` addresses of seven
-- bytes, the last one flagged, and a control byte behind them.
use linuxax.Prelude.{
  ℕ, ◌+◌, ◌-◌, ◌*◌, ◌≤◌, ◌<◌, ◌≡◌, true, false, List, get_or, length, get_elem?, some, ◌⊎◌, inl,
  inr, arith, get_elem?-eq-get_or,
}
use native.Mathlib.Decide.{dec_lt}
use linuxax.Ipd.Frame.{is_last, repeated, max_digis}

-- The last byte of address `i`: the SSID with the flags.
abbrev pub flags : List ℕ → ℕ → ℕ
flags f i = get_or f (i * 7 + 6) 0

pub record HasAddresses (n : ℕ) (f : List ℕ) : Type 0 where
  pub two : 2 ≤ n
  pub few : n ≤ 2 + max_digis
  pub inside : n * 7 + 1 ≤ length f
  pub last : is_last (flags f (n - 1)) ≡ true
  pub others : (i : ℕ) → 1 ≤ i → i + 1 < n → is_last (flags f i) ≡ false

-- The digipeaters `lo` up to `hi` have all passed the frame on.
abbrev pub AllRepeated : List ℕ → ℕ → ℕ → Type 0
AllRepeated f lo hi = (i : ℕ) → lo ≤ i → i < hi → repeated (flags f i) ≡ true

pub AllRepeated-suc :
    (f : List ℕ) (lo k : ℕ)
    → AllRepeated f lo k
    → repeated (flags f k) ≡ true
    → AllRepeated f lo (k + 1)
AllRepeated-suc f lo k all new i p q = elim (dec_lt i k) [
  | yes lt ↦ all i p lt
  | no ge ↦ let same : i ≡ k = omega arith in rw same new
]

-- Every flag byte of the address field can be read.
pub read_flags :
    (n k a : ℕ) (f : List ℕ)
    → HasAddresses n f
    → k < n
    → a ≡ k * 7
    → get_elem? f (a + 6) ≡ some (flags f k)
read_flags n k a f h lt e = rw e (get_elem?-eq-get_or f (k * 7 + 6) 0 (omega (arith, h.inside)))

-- Whether address `k` is the last of `n`.
pub is_last-flags :
    (n k : ℕ) (f : List ℕ)
    → HasAddresses n f
    → 1 ≤ k
    → k < n
    → ((k + 1 ≡ n) × (is_last (flags f k) ≡ true)) ⊎ ((k + 1 < n) × (is_last (flags f k) ≡ false))
is_last-flags n k f h one lt = elim (dec_lt (k + 1) n) [
  | yes more ↦ inr (more, h.others k one more)
  | no here ↦
      let same : n ≡ k + 1 = omega arith in
      let place : k + 1 - 1 ≡ k = omega arith in inl (omega arith, rw (same, place) at h.last)
]
