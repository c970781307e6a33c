-- ===== src/Ipd/Frame/Tests.antt =====
-- The theorems on the address field at a frame by way of two digipeaters, of which the first has
-- repeated it.
use linuxax.Prelude.{
  ℕ, suc, zero, ◌≡◌, ◌↔◌, ◌<◌, ◌≤◌, ◌*◌, ◌+◌, List, [], ◌∷◌, ◌++◌, some, true, false, arith, refl,
}
use linuxax.Ipd.Frame.{is_last, repeated, addr_field_ok, next_digi, next_addr, from_addr}
use linuxax.Ipd.Frame.Layout.{HasAddresses, AllRepeated, flags}
use linuxax.Ipd.Frame.Field.{addr_field_ok_iff}
use linuxax.Ipd.Frame.Next.{IsNext, next_addr-IsNext}
use linuxax.Ipd.Frame.From.{IsHeard, from_addr-IsHeard}
use linuxax.Ipd.Frame.Mark.{marked, from_addr-marked_own}

-- An address whose last byte is `flag`.
abbrev address : ℕ → List ℕ
address flag = 0x82 ∷ 0x84 ∷ 0x86 ∷ 0x62 ∷ 0x88 ∷ 0x8a ∷ flag ∷ []

abbrev via_two : List ℕ
via_two = address 0x60 ++ address 0x60 ++ address 0xe0 ++ address 0x61 ++ (0x03 ∷ [])

via_two-HasAddresses : HasAddresses 4 via_two
unfolding is_last
via_two-HasAddresses = record {
  two = omega arith;
  few = omega arith;
  inside = omega arith;
  last = refl;
  others = others;
}
  where
    others : (i : ℕ) → 1 ≤ i → i + 1 < 4 → is_last (flags via_two i) ≡ false
    others zero p q = absurd (omega arith)
    others (suc zero) p q = refl
    others (suc (suc zero)) p q = refl
    others (suc (suc (suc i))) p q = absurd (omega arith)

none_repeated : AllRepeated via_two 2 2
none_repeated i p q = absurd (omega arith)

first_repeated : AllRepeated via_two 2 3
unfolding repeated
first_repeated i p q = let same : i ≡ 2 = omega arith in rw same (refl)

second_fresh : repeated (flags via_two 3) ≡ false
unfolding repeated
second_fresh = refl

addr_field_ok_iff_example : (addr_field_ok via_two ≡ true) ↔ ((n : ℕ) × HasAddresses n via_two)
addr_field_ok_iff_example = addr_field_ok_iff via_two

next_addr-IsNext_example : (a : ℕ) × (next_addr via_two ≡ some a) × IsNext 4 via_two a
next_addr-IsNext_example = next_addr-IsNext 4 via_two via_two-HasAddresses

next_two : next_addr via_two ≡ some 21
unfolding next_addr next_digi is_last repeated
next_two = refl

from_addr-IsHeard_example : (m : ℕ) × IsHeard 4 via_two m × (from_addr false via_two ≡ some (m * 7))
from_addr-IsHeard_example = from_addr-IsHeard 4 via_two via_two-HasAddresses

-- The first digipeater marks the frame anew: its own address comes back, not the source's.
from_addr-marked_own_example : from_addr true (marked via_two 2) ≡ some 14
from_addr-marked_own_example =
    from_addr-marked_own 4 2 via_two via_two-HasAddresses (omega arith) (omega arith) none_repeated
      (omega arith) second_fresh
