-- ===== src/Ipd/Crc/Tests.antt =====
-- The theorems on the checksum at the frame of the two bytes 82 84.
use linuxax.Prelude.{◌↔◌, ◌≡◌, ◌++◌, true, List, ℕ, [], ◌∷◌, arith, refl}
use linuxax.Ipd.Crc.{fcs_table, init_fcs, fcs_byte, pppfcs, compute_crc, ok_crc, add_crc}
use linuxax.Ipd.Crc.Reference.{bitwise_fcs, pppfcs-eq-bitwise_fcs}
use linuxax.Ipd.Crc.Residue.{ok_crc_iff}
use linuxax.Ipd.Crc.Detect.{ok_crc_detects}

abbrev two_bytes : List ℕ
two_bytes = 0x82 ∷ 0x84 ∷ []

compute_two : add_crc two_bytes ≡ 0x82 ∷ 0x84 ∷ 0x17 ∷ 0x72 ∷ []
unfolding add_crc compute_crc pppfcs fcs_byte fcs_table
compute_two = refl

ok_two : ok_crc (two_bytes ++ (0x17 ∷ 0x72 ∷ [])) ≡ true
unfolding ok_crc pppfcs fcs_byte fcs_table
ok_two = refl

pppfcs-eq-bitwise_fcs_example : pppfcs init_fcs two_bytes ≡ bitwise_fcs init_fcs two_bytes
pppfcs-eq-bitwise_fcs_example =
    pppfcs-eq-bitwise_fcs init_fcs two_bytes (omega arith, (omega arith, tt))

ok_crc_iff_example :
    (ok_crc (two_bytes ++ (0x17 ∷ 0x72 ∷ [])) ≡ true)
    ↔ (two_bytes ++ (0x17 ∷ 0x72 ∷ []) ≡ add_crc two_bytes)
ok_crc_iff_example = ok_crc_iff two_bytes 0x17 0x72 (omega arith) (omega arith)

ok_crc_detects_example : (◌≡◌ {A = ℕ} 0x84 0x84) × (◌≡◌ {A = ℕ} 0x17 0x17)
ok_crc_detects_example =
    ok_crc_detects (0x82 ∷ []) (0x72 ∷ []) 0x84 0x17 0x84 0x17 (omega arith) (omega arith)
      (omega arith) (omega arith) (omega arith, tt) ok_two ok_two
