-- ===== src/Address/Text/Entry.antt =====
-- A callsign with its SSID, written by `ax25_ntoa` and read by `ax25_aton_entry`.
use mathlib.Core.List.{map}
use linuxax.Prelude.{
  ℕ, zero, suc, ◌+◌, ◌-◌, ◌*◌, ◌/◌, ◌%◌, ◌≤◌, ◌≡◌, refl, ap, sym, ◌∙◌, bit_and, Bool, true, false,
  ◌&&◌, ◌||◌, List, [], ◌∷◌, ◌++◌, Option, none, some, ◌==◌, ==_iff, length, length-append, get_or,
  All, arith, append_assoc, Option-cases, Bool-cases, some_inj, inl, inr,
}
use linuxax.Prelude.Bits.{and_7f, all_below, all_below_sound}
use linuxax.Ipd.Frame.{◌>>=◌}
use linuxax.Address.Text.{
  is_digit, is_upper, is_alnum, to_upper, blanks, aton_name, scan_digits, scan_unsigned,
  scan_signed, scan_int, aton_ssid, ax25_aton_entry, ntoa_chars, ntoa_ssid, ax25_ntoa,
}

-- A digit or a capital letter.
abbrev pub IsNameChar : ℕ → Type 0
IsNameChar c = (is_digit c || is_upper c) ≡ true

-- The address of a callsign: its characters, blanks up to six, and the SSID, each shifted.
abbrev pub shifted : List ℕ → List ℕ
shifted = map (λ c. c * 2)

unfoldable pub address : List ℕ → ℕ → List ℕ
address name ssid = shifted name ++ (blanks (6 - length name) ++ (ssid * 2 ∷ []))

ntoa_chars-shifted :
    (left : ℕ) (name : List ℕ) (k : ℕ) (after : List ℕ)
    → All IsNameChar name
    → left ≡ length name + k
    → ntoa_chars left (shifted name ++ (blanks k ++ after)) ≡ name
unfolding ntoa_chars blanks
ntoa_chars-shifted zero [] k after chars e = refl
ntoa_chars-shifted zero (c ∷ name) k after chars e = absurd (omega arith)
ntoa_chars-shifted (suc left) [] zero after chars e = absurd (omega arith)
ntoa_chars-shifted (suc left) [] (suc k) after chars e =
    ntoa_chars-shifted left [] k after chars (omega arith)
ntoa_chars-shifted (suc left) (c ∷ name) k after chars e =
    let plain : (bit_and (c * 2 / 2) 0x7f ≡ c) × ((c == 0x20) ≡ false) =
      ground (arith, and_7f (c * 2 / 2), chars.0) in
    rw (plain.0, plain.1)
      (ap (λ t. c ∷ t) (ntoa_chars-shifted left name k after chars.1 (omega arith)))

-- What follows the characters: nothing, or a dash with more behind it.
abbrev ends_name : List ℕ → Bool
ends_name [] = true
ends_name (c ∷ p) = c == 0x2d

aton_name-blanks :
    (left : ℕ) (suffix : List ℕ)
    → ends_name suffix ≡ true
    → aton_name left suffix ≡ some (blanks left, suffix)
unfolding aton_name blanks
aton_name-blanks zero suffix e = refl
aton_name-blanks (suc left) [] e = refl
aton_name-blanks (suc left) (c ∷ p) e = let dash : c ≡ 0x2d = (==_iff c 0x2d).0 e in rw dash

aton_name-shifted :
    (left : ℕ) (name : List ℕ) (k : ℕ) (suffix : List ℕ)
    → All IsNameChar name
    → left ≡ length name + k
    → ends_name suffix ≡ true
    → aton_name left (name ++ suffix) ≡ some (shifted name ++ blanks k, suffix)
unfolding aton_name
aton_name-shifted left [] k suffix chars e ends =
    let same : left ≡ k = omega arith in rw same (aton_name-blanks k suffix ends)
aton_name-shifted zero (c ∷ name) k suffix chars e ends = absurd (omega arith)
aton_name-shifted (suc left) (c ∷ name) k suffix chars e ends =
    let upper : to_upper c ≡ c = ground (arith, chars.0) in
    let no_dash : (c == 0x2d) ≡ false = ground (arith, chars.0) in
    let alnum : is_alnum c ≡ true = ground (arith, chars.0) in
    let byte : c * 2 % 256 ≡ c * 2 = ground (arith, chars.0) in
    let deep = aton_name-shifted left name k suffix chars.1 (omega arith) ends in
    rw (upper, no_dash, alnum) (rw (deep, ◌>>=◌, byte))

abbrev reads_back : ℕ → Bool
reads_back ssid =
    elim (aton_ssid (ntoa_ssid (ssid * 2))) [ none ↦ false | some v ↦ v == ssid ]
    && (bit_and ((ssid + 0x30) * 2) 0x1e == ssid * 2)
    && ends_name (ntoa_ssid (ssid * 2))

ssids : all_below 16 reads_back ≡ true
unfolding all_below aton_ssid ntoa_ssid scan_int scan_signed scan_unsigned scan_digits
ssids = refl

record ReadsBack (ssid : ℕ) : Type 0 where
  value : aton_ssid (ntoa_ssid (ssid * 2)) ≡ some ssid
  byte : bit_and ((ssid + 0x30) * 2) 0x1e ≡ ssid * 2
  ends : ends_name (ntoa_ssid (ssid * 2)) ≡ true

and_parts : (a b c : Bool) → (a && b && c) ≡ true → (a ≡ true) × (b ≡ true) × (c ≡ true)
and_parts a b c e = ground arith

ssid-ReadsBack : (ssid : ℕ) → ssid ≤ 15 → ReadsBack ssid
ssid-ReadsBack ssid h =
    let (v, b, e) = and_parts _ _ _ (all_below_sound 16 reads_back ssid (omega arith) ssids) in
    record { value = go (aton_ssid (ntoa_ssid (ssid * 2))) v; byte = (==_iff _ _).0 b; ends = e }
  where
    go : (o : Option ℕ) → elim o [ none ↦ false | some v ↦ v == ssid ] ≡ true → o ≡ some ssid
    go none e = absurd (cc)
    go (some v) e = ap some ((==_iff v ssid).0 e)

pub length-shifted : (name : List ℕ) → length (shifted name) ≡ length name
length-shifted [] = refl
length-shifted (c ∷ name) = ap suc (length-shifted name)

pub length-blanks : (n : ℕ) → length (blanks n) ≡ n
unfolding blanks
length-blanks zero = refl
length-blanks (suc n) = ap suc (length-blanks n)

get_or-last : (xs : List ℕ) (n y d : ℕ) → n ≡ length xs → get_or (xs ++ (y ∷ [])) n d ≡ y
get_or-last [] zero y d e = refl
get_or-last [] (suc n) y d e = absurd (omega arith)
get_or-last (x ∷ xs) zero y d e = absurd (omega arith)
get_or-last (x ∷ xs) (suc n) y d e = get_or-last xs n y d (omega arith)

pub get_or-address :
    (name : List ℕ) (ssid : ℕ) → length name ≤ 6 → get_or (address name ssid) 6 0 ≡ ssid * 2
unfolding address
get_or-address name ssid few =
    let pad = 6 - length name in
    ap (λ t. get_or t 6 0) (sym (append_assoc (shifted name) (blanks pad) (ssid * 2 ∷ [])))
    ∙ get_or-last (shifted name ++ blanks pad) 6 (ssid * 2) 0 (
        omega (
          arith,
          length-append (shifted name) (blanks pad),
          length-shifted name,
          length-blanks pad,
        ))

pub ax25_ntoa-address :
    (name : List ℕ) (ssid : ℕ)
    → All IsNameChar name
    → length name ≤ 6
    → ax25_ntoa (address name ssid) ≡ name ++ ntoa_ssid (ssid * 2)
unfolding ax25_ntoa address
ax25_ntoa-address name ssid chars few =
    let pad = 6 - length name in
    let last = get_or-address name ssid few in
    rw (last, ntoa_chars-shifted 6 name pad (ssid * 2 ∷ []) chars (omega arith))

-- The address of a callsign of up to six digits and capital letters with an SSID up to 15 is written
-- by `ax25_ntoa` as a text that `ax25_aton_entry` reads as this address again.
pub ax25_aton_entry-ax25_ntoa :
    (name : List ℕ) (ssid : ℕ)
    → All IsNameChar name
    → length name ≤ 6
    → ssid ≤ 15
    → ax25_aton_entry (ax25_ntoa (address name ssid)) ≡ some (address name ssid)
unfolding ax25_aton_entry address
ax25_aton_entry-ax25_ntoa name ssid chars few small =
    let pad = 6 - length name in
    let back = ssid-ReadsBack ssid small in
    let read = aton_name-shifted 6 name pad (ntoa_ssid (ssid * 2)) chars (omega arith) back.ends in
    ap ax25_aton_entry (ax25_ntoa-address name ssid chars few)
    ∙ rw (read, ◌>>=◌)
        (rw (back.value, ◌>>=◌, back.byte)
          (ap some (append_assoc (shifted name) (blanks pad) (ssid * 2 ∷ []))))

aton_name-length :
    (left : ℕ) (p cs rest : List ℕ) → aton_name left p ≡ some (cs, rest) → length cs ≡ left
unfolding aton_name blanks
aton_name-length zero p cs rest e = sym (ap (λ r. length r.0) (some_inj e))
aton_name-length (suc left) [] cs rest e =
    sym (ap (λ r. length r.0) (some_inj e)) ∙ length-blanks (suc left)
aton_name-length (suc left) (c ∷ p) cs rest e = elim (Bool-cases (to_upper c == 0x2d)) [
  | inl dash ↦
      sym (ap (λ r. length r.0) (some_inj (rw (dash, aton_name) at e))) ∙ length-blanks (suc left)
  | inr on ↦ elim (Bool-cases (is_alnum (to_upper c))) [
    | inr bad ↦ absurd (let gone = rw (on, bad, aton_name) at e in cc)
    | inl good ↦ elim (Option-cases (aton_name left p)) [
      | inl bad ↦ absurd (let gone = rw (on, good, bad, aton_name, ◌>>=◌) at e in cc)
      | inr ((cs', rest'), read) ↦
          sym (ap (λ r. length r.0) (some_inj (rw (on, good, read, aton_name, ◌>>=◌) at e)))
          ∙ ap suc (aton_name-length left p cs' rest' read)
    ]
  ]
]

-- An address that is read has seven bytes.
pub ax25_aton_entry-length : (name a : List ℕ) → ax25_aton_entry name ≡ some a → length a ≡ 7
unfolding ax25_aton_entry
ax25_aton_entry-length name a e = elim (Option-cases (aton_name 6 name)) [
  | inl bad ↦ absurd (let gone = rw (bad, ◌>>=◌) at e in cc)
  | inr ((cs, rest), read) ↦ elim (Option-cases (aton_ssid rest)) [
    | inl bad ↦ absurd (let gone = rw (read, ◌>>=◌, bad) at e in cc)
    | inr (ssid, read') ↦
        let last = bit_and ((ssid + 0x30) * 2) 0x1e ∷ [] in
        let whole : cs ++ last ≡ a = some_inj (rw (read, ◌>>=◌, read') at e) in
        sym (ap length whole)
        ∙ omega (arith, length-append cs last, aton_name-length 6 name cs rest read)
  ]
]
