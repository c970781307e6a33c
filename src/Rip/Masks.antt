-- ===== src/Rip/Masks.antt =====
-- A number of bits and the mask with these bits set.
use linuxax.Prelude.{ℕ, ◌≤◌, ◌≡◌, refl, true, ◌==◌, ==_iff, some, arith, Option, none}
use linuxax.Prelude.{Bool, false}
use linuxax.Prelude.Bits.{all_below, all_below_sound}
use linuxax.Rip.{bits2mask, leading_zeros, mask2bits}

abbrev survives : ℕ → Bool
survives bits = elim (bits2mask bits) [ none ↦ false | some mask ↦ mask2bits mask == bits ]

table : all_below 33 survives ≡ true
unfolding all_below bits2mask mask2bits leading_zeros
table = refl

-- For every prefix length up to 32 bits there is a mask, and its prefix length is the same.
pub mask2bits-bits2mask :
    (bits : ℕ) → bits ≤ 32 → (mask : ℕ) × (bits2mask bits ≡ some mask) × (mask2bits mask ≡ bits)
mask2bits-bits2mask bits h = go (bits2mask bits) refl
  where
    all : survives bits ≡ true
    all = all_below_sound 33 survives bits (omega arith) table

    go :
        (o : Option ℕ)
        → bits2mask bits ≡ o
        → (mask : ℕ) × (bits2mask bits ≡ some mask) × (mask2bits mask ≡ bits)
    go none e = absurd (let bad = rw (e, survives) at all in cc)
    go (some mask) e = (mask, e, (==_iff _ _).0 (rw (e, survives) at all))
