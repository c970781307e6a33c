-- ===== src/Mkiss/Residue.antt =====
-- The two bytes that `kiss_tx` puts behind a FLEX frame bring the checksum of `kiss_rx` to 0x7070.
use linuxax.Prelude.{ℕ, ◌*◌, ◌/◌, ◌%◌, ◌^◌, ◌≡◌, refl, ap, ◌∙◌, bit_and, bit_xor, arith}
use linuxax.Prelude.Bits.{
  and_ff, xor_self, xor_comm, xor_cancel, zero-xor, xor-div_pow, xor-mod_pow, xor-mod_256,
}
use linuxax.Mkiss.{flex_crc, crc_step, crctab, entry_rounds}

crctab_zero : crctab 0 ≡ 0x0f87
unfolding crctab entry_rounds
crctab_zero = refl

crctab_high : crctab 0x0f ≡ 0xf770
unfolding crctab entry_rounds
crctab_high = refl

-- The checksum after its own high byte.
high_byte : (u : ℕ) → crc_step flex_crc u (u / 256) ≡ bit_xor (u * 256 % 2 ^ 16) 0x0f87
unfolding crc_step
high_byte u = rw (xor_self (u / 256), crctab_zero) (xor-mod_pow 16 (u * 256) 0x0f87)

high_byte-div : (u : ℕ) → bit_xor (u * 256 % 2 ^ 16) 0x0f87 / 256 ≡ bit_xor (u % 256) 0x0f
high_byte-div u = xor-div_pow 8 (u * 256 % 2 ^ 16) 0x0f87 ∙ ap (λ t. bit_xor t 0x0f) (omega arith)

high_byte-mod : (u : ℕ) → bit_xor (u * 256 % 2 ^ 16) 0x0f87 % 256 ≡ 0x87
high_byte-mod u =
    let low : u * 256 % 2 ^ 16 % 256 ≡ 0 = omega arith in
    xor-mod_256 (u * 256 % 2 ^ 16) 0x0f87 ∙ ap (λ t. bit_xor t 0x87) low ∙ zero-xor 0x87

pub residue : (u : ℕ) → crc_step flex_crc (crc_step flex_crc u (u / 256)) (bit_and u 0xff) ≡ 0x7070
unfolding crc_step
residue u =
    let y = bit_xor (u * 256 % 2 ^ 16) 0x0f87 in
    let index : bit_xor (y / 256) (bit_and u 0xff) ≡ 0x0f =
      rw (and_ff u, high_byte-div u, xor_comm (u % 256) 0x0f) (xor_cancel 0x0f (u % 256)) in
    let shifted : y * 256 % 2 ^ 16 ≡ 0x8700 = omega (arith, high_byte-mod u) in
    ap (λ y. crc_step flex_crc y (bit_and u 0xff)) (high_byte u)
    ∙ ap (λ t. bit_xor (y * 256) (crctab t) % 2 ^ 16) index
    ∙ ap (λ t. bit_xor (y * 256) t % 2 ^ 16) crctab_high
    ∙ xor-mod_pow 16 (y * 256) 0xf770
    ∙ ap (λ t. bit_xor t 0xf770) shifted
