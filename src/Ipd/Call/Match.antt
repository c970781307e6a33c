-- ===== src/Ipd/Call/Match.antt =====
-- What `addrmatch` compares: six characters without the flag bit, and the SSID unless the second
-- address has none.
use linuxax.Prelude.{
  ℕ, zero, suc, ◌/◌, ◌%◌, ◌<◌, ◌≡◌, ◌≢◌, ◌⊎◌, ◌↔◌, bit_xor, true, false, List, get_or, arith,
}
use linuxax.Prelude.Bits.{and_fe, and_1e, xor_bits_iff}
use linuxax.Ipd.Call.{differs, addrmatch}

-- Character `i` of a callsign, and its SSID, 0 to 15.
abbrev pub char : List ℕ → ℕ → ℕ
char a i = get_or a i 0 / 2 % 128

abbrev pub ssid : List ℕ → ℕ
ssid a = get_or a 6 0 / 2 % 16

pub record Matches (a b : List ℕ) : Type 0 where
  pub present : (get_or a 0 0 ≢ 0) × (get_or b 0 0 ≢ 0)
  pub chars : (i : ℕ) → i < 6 → char a i ≡ char b i
  pub ssids : (ssid b ≡ 0) ⊎ (ssid a ≡ ssid b)

differs-char : (i : ℕ) (a b : List ℕ) → (differs 0xfe i a b ≡ false) ↔ (char a i ≡ char b i)
unfolding differs
differs-char i a b = ground (
  arith,
  and_fe (bit_xor (get_or a i 0) (get_or b i 0)),
  xor_bits_iff 7 (get_or a i 0) (get_or b i 0),
)

differs-ssid : (a b : List ℕ) → (differs 0x1e 6 a b ≡ false) ↔ (ssid a ≡ ssid b)
unfolding differs
differs-ssid a b = ground (
  arith,
  and_1e (bit_xor (get_or a 6 0) (get_or b 6 0)),
  xor_bits_iff 4 (get_or a 6 0) (get_or b 6 0),
)

abbrev SixChars : List ℕ → List ℕ → Type 0
SixChars a b =
    (char a 0 ≡ char b 0)
    × (char a 1 ≡ char b 1)
    × (char a 2 ≡ char b 2)
    × (char a 3 ≡ char b 3)
    × (char a 4 ≡ char b 4)
    × (char a 5 ≡ char b 5)

six_chars : (a b : List ℕ) (i : ℕ) → SixChars a b → i < 6 → char a i ≡ char b i
six_chars a b zero h lt = h.0
six_chars a b (suc zero) h lt = h.1
six_chars a b (suc (suc zero)) h lt = h.2
six_chars a b (suc (suc (suc zero))) h lt = h.3
six_chars a b (suc (suc (suc (suc zero)))) h lt = h.4
six_chars a b (suc (suc (suc (suc (suc zero))))) h lt = h.5
six_chars a b (suc (suc (suc (suc (suc (suc i)))))) h lt = absurd (omega arith)

addrmatch_parts :
    (a b : List ℕ)
    → addrmatch a b ≡ true
    → (get_or a 0 0 ≢ 0) × (get_or b 0 0 ≢ 0) × SixChars a b × ((ssid b ≡ 0) ⊎ (ssid a ≡ ssid b))
unfolding addrmatch
addrmatch_parts a b e = ground (
  arith,
  differs-char 0 a b,
  differs-char 1 a b,
  differs-char 2 a b,
  differs-char 3 a b,
  differs-char 4 a b,
  differs-char 5 a b,
  differs-ssid a b,
  and_1e (get_or b 6 0),
)

addrmatch_of_parts :
    (a b : List ℕ)
    → get_or a 0 0 ≢ 0
    → get_or b 0 0 ≢ 0
    → SixChars a b
    → ((ssid b ≡ 0) ⊎ (ssid a ≡ ssid b))
    → addrmatch a b ≡ true
unfolding addrmatch
addrmatch_of_parts a b ha hb six s = ground (
  arith,
  differs-char 0 a b,
  differs-char 1 a b,
  differs-char 2 a b,
  differs-char 3 a b,
  differs-char 4 a b,
  differs-char 5 a b,
  differs-ssid a b,
  and_1e (get_or b 6 0),
)

-- `addrmatch` answers true exactly if neither address begins with a 0 byte, the six characters
-- agree (bits 1 to 7), and the second address has SSID 0 or both have the same.
pub addrmatch_iff : (a b : List ℕ) → (addrmatch a b ≡ true) ↔ Matches a b
addrmatch_iff a b = (
  (λ e.
      let (ha, hb, six, s) = addrmatch_parts a b e in
      record { present = (ha, hb); chars = λ i lt. six_chars a b i six lt; ssids = s }),
  (λ h.
      addrmatch_of_parts a b h.present.0 h.present.1
        (
          h.chars 0 (omega arith),
          h.chars 1 (omega arith),
          h.chars 2 (omega arith),
          h.chars 3 (omega arith),
          h.chars 4 (omega arith),
          h.chars 5 (omega arith),
        )
        h.ssids),
)
