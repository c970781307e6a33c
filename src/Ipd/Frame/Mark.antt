-- ===== src/Ipd/Frame/Mark.antt =====
-- `SETREPEATED` on an address of the field, and what `from_addr` makes of the frame afterwards.
use linuxax.Prelude.{
  true-ne-false, ℕ, ◌+◌, ◌-◌, ◌*◌, ◌≤◌, ◌<◌, ◌≡◌, ◌≢◌, true, false, List, some, arith, refl, inl,
  inr, ap, ◌∙◌, bit_or, set, length-set, get_or-set_self, get_or-set_ne,
}
use linuxax.Prelude.Bits.{and_80, or_80, and-one}
use mathlib.Core.Path.{subst}
use native.Mathlib.Decide.{ℕ_discrete, dec_lt}
use linuxax.Ipd.Frame.{is_last, repeated, from_addr, set_repeated}
use linuxax.Ipd.Frame.Layout.{HasAddresses, flags, AllRepeated, AllRepeated-suc, read_flags}
use linuxax.Ipd.Frame.From.{StopsAt, from_addr_stops}

is_last-mark : (b : ℕ) → is_last (bit_or b 0x80) ≡ is_last b
unfolding is_last
is_last-mark b = ground (arith, and-one b, and-one (bit_or b 0x80), or_80 b)

repeated-mark : (b : ℕ) → repeated (bit_or b 0x80) ≡ true
unfolding repeated
repeated-mark b = ground (arith, and_80 (bit_or b 0x80), or_80 b)

-- The frame with the H bit of address `k` set.
abbrev pub marked : List ℕ → ℕ → List ℕ
marked f k = set f (k * 7 + 6) (bit_or (flags f k) 0x80)

pub set_repeated-marked :
    (n k : ℕ) (f : List ℕ) → HasAddresses n f → k < n → set_repeated f (k * 7) ≡ some (marked f k)
unfolding set_repeated
set_repeated-marked n k f h lt = rw (read_flags n k (k * 7) f h lt refl)

flags-marked_self :
    (n k : ℕ) (f : List ℕ)
    → HasAddresses n f
    → k < n
    → flags (marked f k) k ≡ bit_or (flags f k) 0x80
flags-marked_self n k f h lt = get_or-set_self f (k * 7 + 6) _ 0 (omega (arith, h.inside))

flags-marked_ne : (k i : ℕ) (f : List ℕ) → i ≢ k → flags (marked f k) i ≡ flags f i
flags-marked_ne k i f ne = get_or-set_ne f (k * 7 + 6) (i * 7 + 6) _ 0 (omega arith)

is_last-marked :
    (n k i : ℕ) (f : List ℕ)
    → HasAddresses n f
    → k < n
    → is_last (flags (marked f k) i) ≡ is_last (flags f i)
is_last-marked n k i f h lt = elim (ℕ_discrete i k) [
  | yes e ↦ rw (e, flags-marked_self n k f h lt) (is_last-mark (flags f k))
  | no ne ↦ rw (flags-marked_ne k i f ne)
]

repeated-marked_self :
    (n k : ℕ) (f : List ℕ) → HasAddresses n f → k < n → repeated (flags (marked f k) k) ≡ true
repeated-marked_self n k f h lt = rw (flags-marked_self n k f h lt) (repeated-mark (flags f k))

-- Marking an address of the field keeps the field well-formed, and every other address's flags.
pub marked-HasAddresses :
    (n k : ℕ) (f : List ℕ) → HasAddresses n f → k < n → HasAddresses n (marked f k)
marked-HasAddresses n k f h lt = record {
  two = h.two;
  few = h.few;
  inside = rw (length-set f (k * 7 + 6) (bit_or (flags f k) 0x80)) h.inside;
  last = rw (is_last-marked n k (n - 1) f h lt) h.last;
  others = λ i p q. rw (is_last-marked n k i f h lt) (h.others i p q);
}

AllRepeated-marked :
    (n k : ℕ) (f : List ℕ)
    → HasAddresses n f
    → k < n
    → AllRepeated f 2 k
    → AllRepeated (marked f k) 2 (k + 1)
AllRepeated-marked n k f h lt all =
    AllRepeated-suc (marked f k) 2 k (λ i p q. rw (flags-marked_ne k i f (omega arith)) (all i p q))
      (repeated-marked_self n k f h lt)

-- The walk has one place to stop.
StopsAt-unique : (n m j : ℕ) (g : List ℕ) → StopsAt n g m → StopsAt n g j → j ≡ m
StopsAt-unique n m j g (m2, mn, mall, mstop) (j2, jn, jall, jstop) = elim (dec_lt j m) [
  | yes below ↦ elim jstop [
    | inl end ↦ absurd (omega arith)
    | inr fresh ↦ absurd (true-ne-false (mall j j2 below) fresh)
  ]
  | no ge ↦ elim (dec_lt m j) [
    | yes above ↦ elim mstop [
      | inl end ↦ absurd (omega arith)
      | inr fresh ↦ absurd (true-ne-false (jall m m2 above) fresh)
    ]
    | no le ↦ omega arith
  ]
]

from_addr-StopsAt :
    (n m : ℕ) (g : List ℕ)
    → HasAddresses n g
    → StopsAt n g m
    → from_addr true g ≡ some ((m - 1) * 7)
from_addr-StopsAt n m g h s = elim (from_addr_stops n true g h) [
  | inl (two, _) ↦ absurd (omega arith)
  | inr (j, sj, e) ↦
      subst (λ t. from_addr true g ≡ some ((t - 1) * 7)) (StopsAt-unique n m j g s sj) e
]

module _ (n k : ℕ) (f : List ℕ) (h : HasAddresses n f) (two : 2 ≤ k) (lt : k < n)
    (all : AllRepeated f 2 k) where
  -- In digipeater mode: after the station that is the last digipeater has marked the frame,
  -- `from_addr` returns the address before its own, the station that it heard the frame from.
  pub from_addr-marked_last : k + 1 ≡ n → from_addr true (marked f k) ≡ some ((k - 1) * 7)
  from_addr-marked_last end =
      from_addr-StopsAt n k (marked f k) (marked-HasAddresses n k f h lt)
        (two, lt, (λ i p q. AllRepeated-marked n k f h lt all i p (omega arith)), inl end)

  -- In digipeater mode: where another digipeater follows that has not repeated the frame, the
  -- address that `from_addr` returns after the mark is the marking station's own.
  pub from_addr-marked_own :
      k + 1 < n → repeated (flags f (k + 1)) ≡ false → from_addr true (marked f k) ≡ some (k * 7)
  from_addr-marked_own more fresh =
      from_addr-StopsAt n (k + 1) (marked f k) (marked-HasAddresses n k f h lt) (
        omega arith,
        more,
        AllRepeated-marked n k f h lt all,
        inr (rw (flags-marked_ne k (k + 1) f (omega arith)) fresh),
      )
      ∙ ap (λ t. some (t * 7)) (omega arith)
