-- ===== src/Ipd/Frame/Field.antt =====
-- `addr_field_ok` decides whether a frame begins with a well-formed address field.
use linuxax.Prelude.{
  ℕ, zero, suc, ◌+◌, ◌-◌, ◌*◌, ◌≤◌, ◌<◌, ◌≡◌, ◌↔◌, true, false, List, get_or, length, arith, ltb,
  Bool-cases, inl, inr,
}
use mathlib.Core.Path.{subst}
use native.Mathlib.Decide.{dec_lt}
use linuxax.Ipd.Frame.{is_last, max_digis, field_ok, addr_field_ok}
use linuxax.Ipd.Frame.Layout.{HasAddresses, flags}

-- The addresses before the `n`-th carry no E bit.
abbrev Before : ℕ → List ℕ → Type 0
Before n f = (i : ℕ) → 1 ≤ i → i + 1 < n → is_last (flags f i) ≡ false

Before-suc :
    (n : ℕ) (f : List ℕ) → 2 ≤ n → Before n f → is_last (flags f (n - 1)) ≡ false → Before (n + 1) f
Before-suc n f two before new i p q = elim (dec_lt (i + 1) n) [
  | yes lt ↦ before i p lt
  | no ge ↦ let same : i ≡ n - 1 = omega arith in rw same new
]

not_ltb : (a b : ℕ) → b ≤ a → ltb a b ≡ false
not_ltb a b h = ground arith

field_ok_sound :
    (left n : ℕ) (f : List ℕ)
    → 2 ≤ n
    → n + left ≤ 3 + max_digis
    → Before n f
    → field_ok left n f ≡ true
    → (k : ℕ) × HasAddresses k f
unfolding field_ok
field_ok_sound zero n f two few before e = absurd (ground arith)
field_ok_sound (suc left) n f two few before e = elim (Bool-cases (ltb (length f) (n * 7 + 1))) [
  | inl short ↦ absurd (ground arith)
  | inr fits ↦ elim (Bool-cases (is_last (get_or f ((n - 1) * 7 + 6) 0))) [
    | inl done ↦ (
      n,
      record { two = two; few = omega arith; inside = ground arith; last = done; others = before },
    )
    | inr more ↦
        field_ok_sound left (n + 1) f (omega arith) (omega arith) (Before-suc n f two before more)
          (rw (fits, more) at e)
  ]
]

field_ok_complete :
    (left n k : ℕ) (f : List ℕ)
    → 2 ≤ n
    → n ≤ k
    → k < n + left
    → HasAddresses k f
    → field_ok left n f ≡ true
unfolding field_ok
field_ok_complete zero n k f two le lt h = absurd (omega arith)
field_ok_complete (suc left) n k f two le lt h = elim (dec_lt n k) [
  | yes more ↦
      rw
        (
          not_ltb (length f) (n * 7 + 1) (omega (arith, h.inside)),
          h.others (n - 1) (omega arith) (omega arith),
        )
        (field_ok_complete left (n + 1) k f (omega arith) (omega arith) (omega arith) h)
  | no here ↦
      let same : k ≡ n = omega arith in
      rw (
        not_ltb (length f) (n * 7 + 1) (omega (arith, h.inside)),
        subst (λ t. is_last (flags f (t - 1)) ≡ true) same h.last,
      )
]

-- `addr_field_ok` answers true exactly if the frame begins with between 2 and 2 + MAX_DIGIS
-- addresses of 7 bytes, of which, after the first, only the last carries the E bit, all of them
-- inside the frame and followed by at least one byte.
pub addr_field_ok_iff : (f : List ℕ) → (addr_field_ok f ≡ true) ↔ ((n : ℕ) × HasAddresses n f)
unfolding addr_field_ok
addr_field_ok_iff f = (
  field_ok_sound 9 2 f (omega arith) (omega arith) (λ i p q. absurd (omega arith)),
  λ h. field_ok_complete 9 2 h.0 f (omega arith) h.1.two (omega (arith, h.1.few)) h.1,
)
