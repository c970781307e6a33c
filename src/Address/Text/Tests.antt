-- ===== src/Address/Text/Tests.antt =====
-- The theorems on callsigns as text at a call by way of a digipeater.
use linuxax.Prelude.{ℕ, ◌≡◌, List, [], ◌∷◌, some, arith, refl, same}
use linuxax.Address.Text.{
  blanks, is_via, aton_name, scan_digits, scan_unsigned, scan_signed, scan_int, aton_ssid,
  ntoa_chars, ntoa_ssid, skip_spaces, next_token, aton_again, aton_from, ax25_aton_entry, ax25_ntoa,
  ax25_aton, ax25_aton_arglist,
}
use linuxax.Address.Text.Entry.{address, ax25_aton_entry-ax25_ntoa}
use linuxax.Address.Text.Tokens.{IsWord, line, ax25_aton-ax25_aton_arglist}

-- `VE7FET`
abbrev name : List ℕ
name = 0x56 ∷ 0x45 ∷ 0x37 ∷ 0x46 ∷ 0x45 ∷ 0x54 ∷ []

written :
    ax25_ntoa (address name 12) ≡ 0x56 ∷ 0x45 ∷ 0x37 ∷ 0x46 ∷ 0x45 ∷ 0x54 ∷ 0x2d ∷ 0x31 ∷ 0x32 ∷ []
unfolding ax25_ntoa address ntoa_chars ntoa_ssid blanks
written = refl

ax25_aton_entry-ax25_ntoa_example :
    ax25_aton_entry (ax25_ntoa (address name 12)) ≡ some (address name 12)
ax25_aton_entry-ax25_ntoa_example =
    ax25_aton_entry-ax25_ntoa name 12 (refl, (refl, (refl, (refl, (refl, (refl, tt))))))
      (omega arith) (omega arith)

-- `via`
abbrev via : List ℕ
via = 0x76 ∷ 0x69 ∷ 0x61 ∷ []

name-IsWord : IsWord name
name-IsWord = record {
  long = omega arith;
  solid = (refl, (refl, (refl, (refl, (refl, (refl, tt))))));
}

via-IsWord : IsWord via
via-IsWord = record { long = omega arith; solid = (refl, (refl, (refl, tt))) }

ax25_aton-ax25_aton_arglist_example :
    ax25_aton (line (name ∷ via ∷ name ∷ [])) ≡ ax25_aton_arglist (name ∷ via ∷ name ∷ [])
ax25_aton-ax25_aton_arglist_example =
    ax25_aton-ax25_aton_arglist name (via ∷ name ∷ [])
      (name-IsWord, (via-IsWord, (name-IsWord, tt)))

-- Two blanks at the end of a line are read as a digipeater without a name.
blank_digipeater :
    ax25_aton (0x51 ∷ 0x53 ∷ 0x54 ∷ 0x20 ∷ 0x20 ∷ [])
    ≡ some (
        (0xa2 ∷ 0xa6 ∷ 0xa8 ∷ 0x40 ∷ 0x40 ∷ 0x40 ∷ 0 ∷ [])
        ∷ (0x40 ∷ 0x40 ∷ 0x40 ∷ 0x40 ∷ 0x40 ∷ 0x40 ∷ 0 ∷ [])
        ∷ [])
unfolding ax25_aton aton_from aton_again skip_spaces next_token ax25_aton_entry aton_name aton_ssid
    blanks is_via same
blank_digipeater = refl

-- A seventh character is passed over where a dash is meant.
seventh_passed :
    ax25_aton_entry (0x51 ∷ 0x53 ∷ 0x54 ∷ 0x51 ∷ 0x53 ∷ 0x54 ∷ 0x58 ∷ 0x35 ∷ [])
    ≡ some (0xa2 ∷ 0xa6 ∷ 0xa8 ∷ 0xa2 ∷ 0xa6 ∷ 0xa8 ∷ 10 ∷ [])
unfolding ax25_aton_entry aton_name aton_ssid scan_int scan_signed scan_unsigned scan_digits
seventh_passed = refl
