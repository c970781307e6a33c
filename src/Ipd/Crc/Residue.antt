-- ===== src/Ipd/Crc/Residue.antt =====
-- `ok_crc` accepts a frame with the two bytes of `add_crc` after it, and no other two bytes.
use linuxax.Prelude.{
  ℕ, ◌/◌, ◌%◌, ◌<◌, bit_and, bit_xor, ◌≡◌, sym, ◌∙◌, true, List, [], ◌∷◌, ◌++◌, ==_iff, arith, ◌↔◌,
}
use linuxax.Prelude.Bits.{
  xor_assoc, xor_self, zero-xor, xor_swap, xor-div_pow, xor-mod_256, xor_lt, and_ff,
}
use linuxax.Ipd.Crc.{fcs_table, fcs_byte, pppfcs, init_fcs, good_fcs, compute_crc, ok_crc, add_crc}
use linuxax.Ipd.Crc.Detect.{pppfcs-append, pppfcs-lt, ok_crc_detects}

xor_back : (a b : ℕ) → bit_xor a (bit_xor a b) ≡ b
xor_back a b = sym (xor_assoc a a b) ∙ rw (xor_self a) (zero-xor b)

-- The lower byte of the complement turns the index of the table into 0xff.
first_index : (f : ℕ) → bit_xor f (bit_xor f 0xffff % 256) % 256 ≡ 0xff
first_index f =
    xor-mod_256 f (bit_xor f 0xffff % 256)
    ∙ rw (same, xor-mod_256 f 0xffff) (xor_back (f % 256) 0xff)
  where
    same : bit_xor f 0xffff % 256 % 256 ≡ bit_xor f 0xffff % 256
    same = omega arith

after_first : (f : ℕ) → fcs_byte f (bit_xor f 0xffff % 256) ≡ bit_xor (f / 256) 0x0f78
unfolding fcs_byte fcs_table
after_first f = rw (and_ff (bit_xor f (bit_xor f 0xffff % 256)), first_index f)

second_index : (g : ℕ) → bit_xor (bit_xor g 0x0f78) (bit_xor g 0xff) ≡ 0x0f87
second_index g = xor_swap g 0x0f78 g 0xff ∙ rw (xor_self g) (zero-xor 0x0f87)

after_second : (g : ℕ) → g < 256 → fcs_byte (bit_xor g 0x0f78) (bit_xor g 0xff) ≡ good_fcs
unfolding fcs_byte fcs_table
after_second g h =
    let top : bit_xor g 0x0f78 / 256 ≡ 0x0f =
      xor-div_pow 8 g 0x0f78
      ∙ let none_left : g / 256 ≡ 0 = omega arith in rw none_left (zero-xor 0x0f) in
    rw (second_index g, top)

residue :
    (f : ℕ)
    → f < 65536
    → let u = bit_xor f 0xffff in
      fcs_byte (fcs_byte f (bit_and u 0xff)) (bit_and (u / 256) 0xff) ≡ good_fcs
residue f h =
    let u_small : bit_xor f 0xffff < 65536 = xor_lt 16 f 0xffff h (omega arith) in
    let top : bit_xor f 0xffff / 256 % 256 ≡ bit_xor (f / 256) 0xff =
      omega (arith, xor-div_pow 8 f 0xffff) in
    rw (and_ff (bit_xor f 0xffff), and_ff (bit_xor f 0xffff / 256), top, after_first f)
      (after_second (f / 256) (omega arith))

-- What `add_crc` makes of a frame passes `ok_crc`.
pub ok_crc-add_crc : (buf : List ℕ) → ok_crc (add_crc buf) ≡ true
unfolding ok_crc add_crc compute_crc pppfcs
ok_crc-add_crc buf = (==_iff _ _).1 (
    pppfcs-append init_fcs buf _
    ∙ residue (pppfcs init_fcs buf) (pppfcs-lt init_fcs buf (omega arith)))

-- Two bytes after a frame pass `ok_crc` exactly if they are those that `add_crc` appends.
pub ok_crc_iff :
    (buf : List ℕ) (a b : ℕ)
    → a < 256
    → b < 256
    → (ok_crc (buf ++ (a ∷ b ∷ [])) ≡ true) ↔ (buf ++ (a ∷ b ∷ []) ≡ add_crc buf)
unfolding add_crc
ok_crc_iff buf a b ha hb = (unique, λ e. rw e (ok_crc-add_crc buf))
  where
    u : ℕ
    u = compute_crc buf

    unique : ok_crc (buf ++ (a ∷ b ∷ [])) ≡ true → buf ++ (a ∷ b ∷ []) ≡ add_crc buf
    unique e =
        let same : (a ≡ bit_and u 0xff) × (b ≡ bit_and (u / 256) 0xff) =
          ok_crc_detects buf [] a b (bit_and u 0xff) (bit_and (u / 256) 0xff) ha hb
            (omega (arith, and_ff u)) (omega (arith, and_ff (u / 256))) tt e (ok_crc-add_crc buf) in
        rw (same.0, same.1)
