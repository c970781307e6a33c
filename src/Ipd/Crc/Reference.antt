-- ===== src/Ipd/Crc/Reference.antt =====
-- The table of crc.c against the polynomial x^16 + x^12 + x^5 + 1 that it stands for: the
-- remainder worked out one bit at a time, lowest bit first.
use linuxax.Prelude.{
  ℕ, zero, suc, ◌+◌, ◌*◌, ◌/◌, ◌%◌, ◌<◌, bit_xor, ◌≡◌, refl, ap, ◌∙◌, true, List, [], ◌∷◌, ◌==◌,
  ==_iff, if◌then◌else◌, arith, All, get_or,
}
use linuxax.Prelude.Bits.{
  all_below, all_below_sound, xor_swap, xor-zero, xor-mod, xor-div, xor-div_pow, xor-shifted,
  and_ff,
}
use mathlib.Core.Path.{◌≡⟨◌⟩◌, ◌∎}
use linuxax.Ipd.Crc.{fcs_table, fcs_byte, pppfcs}

-- The polynomial if the bit that falls out is a one.
tap : ℕ → ℕ
tap d = if d == 1 then 0x8408 else 0

-- One bit: shift right, and take the polynomial off if a one falls out.
pub shift_bit : ℕ → ℕ
unfolding tap
shift_bit x = bit_xor (x / 2) (tap (x % 2))

pub shift_bits : ℕ → ℕ → ℕ
shift_bits zero x = x
shift_bits (suc n) x = shift_bits n (shift_bit x)

-- The bitwise checksum.
pub bitwise_fcs : ℕ → List ℕ → ℕ
bitwise_fcs fcs [] = fcs
bitwise_fcs fcs (c ∷ cp) = bitwise_fcs (shift_bits 8 (bit_xor fcs c)) cp

table_agrees : all_below 256 (λ i. get_or fcs_table i 0 == shift_bits 8 i) ≡ true
unfolding all_below fcs_table shift_bits shift_bit
table_agrees = refl

tap-xor : (d e : ℕ) → d < 2 → e < 2 → tap ((d + e) % 2) ≡ bit_xor (tap d) (tap e)
unfolding tap
tap-xor zero zero h k = refl
tap-xor zero (suc zero) h k = refl
tap-xor (suc zero) zero h k = refl
tap-xor (suc zero) (suc zero) h k = refl
tap-xor (suc (suc d)) e h k = absurd (omega arith)
tap-xor zero (suc (suc e)) h k = absurd (omega arith)
tap-xor (suc zero) (suc (suc e)) h k = absurd (omega arith)

shift_bit-xor : (a b : ℕ) → shift_bit (bit_xor a b) ≡ bit_xor (shift_bit a) (shift_bit b)
unfolding shift_bit
shift_bit-xor a b =
    rw (xor-div a b, xor-mod a b, tap-xor (a % 2) (b % 2) (omega arith) (omega arith))
      (xor_swap (a / 2) (b / 2) (tap (a % 2)) (tap (b % 2)))

shift_bits-xor :
    (n a b : ℕ) → shift_bits n (bit_xor a b) ≡ bit_xor (shift_bits n a) (shift_bits n b)
unfolding shift_bits
shift_bits-xor zero a b = refl
shift_bits-xor (suc n) a b = rw (shift_bit-xor a b, shift_bits-xor n)

shift_bit_even : (x y : ℕ) → y ≡ x * 2 → shift_bit y ≡ x
unfolding shift_bit
shift_bit_even x y e =
    let half : y / 2 ≡ x = omega arith in
    let even : y % 2 ≡ 0 = omega arith in rw (half, even) (xor-zero x)

shift_bits_eight : (x : ℕ) → shift_bits 8 (x * 256) ≡ x
unfolding shift_bits
shift_bits_eight x =
    rw
      (
        shift_bit_even (x * 128) (x * 256) (omega arith),
        shift_bit_even (x * 64) (x * 128) (omega arith),
        shift_bit_even (x * 32) (x * 64) (omega arith),
        shift_bit_even (x * 16) (x * 32) (omega arith),
        shift_bit_even (x * 8) (x * 16) (omega arith),
        shift_bit_even (x * 4) (x * 8) (omega arith),
        shift_bit_even (x * 2) (x * 4) (omega arith),
      )
      (shift_bit_even x (x * 2) refl)

pub table_entry : (i : ℕ) → i < 256 → get_or fcs_table i 0 ≡ shift_bits 8 i
table_entry i h = (==_iff _ _).0 (all_below_sound 256 _ i h table_agrees)

-- The low byte goes through the table, the rest is shifted down.
shift_bits_split : (y : ℕ) → shift_bits 8 y ≡ bit_xor (y / 256) (get_or fcs_table (y % 256) 0)
shift_bits_split y =
    shift_bits 8 y
    ≡⟨ ap (shift_bits 8) split ⟩ shift_bits 8 (bit_xor (y / 256 * 256) (y % 256))
    ≡⟨ shift_bits-xor 8 (y / 256 * 256) (y % 256) ⟩
      bit_xor (shift_bits 8 (y / 256 * 256)) (shift_bits 8 (y % 256))
    ≡⟨ (rw (shift_bits_eight (y / 256), table_entry (y % 256) (omega arith))) ⟩
      bit_xor (y / 256) (get_or fcs_table (y % 256) 0) ∎
  where
    split : y ≡ bit_xor (y / 256 * 256) (y % 256)
    split = omega (arith, xor-shifted (y / 256) (y % 256) (omega arith))

-- The byte leaves the upper byte of the register alone.
pub xor_byte-div : (fcs c : ℕ) → c < 256 → bit_xor fcs c / 256 ≡ fcs / 256
xor_byte-div fcs c h =
    let none_left : c / 256 ≡ 0 = omega arith in
    xor-div_pow 8 fcs c ∙ rw none_left (xor-zero (fcs / 256))

-- One table look-up does the work of eight bits.
pub fcs_byte-eq-shift_bits : (fcs c : ℕ) → c < 256 → fcs_byte fcs c ≡ shift_bits 8 (bit_xor fcs c)
unfolding fcs_byte
fcs_byte-eq-shift_bits fcs c h =
    rw (shift_bits_split (bit_xor fcs c), xor_byte-div fcs c h, and_ff (bit_xor fcs c))

-- Over bytes the table-driven loop `pppfcs` computes the bit-by-bit remainder, from every start.
pub pppfcs-eq-bitwise_fcs :
    (fcs : ℕ) (cp : List ℕ) → All (λ c. c < 256) cp → pppfcs fcs cp ≡ bitwise_fcs fcs cp
unfolding pppfcs bitwise_fcs
pppfcs-eq-bitwise_fcs fcs [] h = refl
pppfcs-eq-bitwise_fcs fcs (c ∷ cp) h =
    rw (fcs_byte-eq-shift_bits fcs c h.0)
      (pppfcs-eq-bitwise_fcs (shift_bits 8 (bit_xor fcs c)) cp h.1)
