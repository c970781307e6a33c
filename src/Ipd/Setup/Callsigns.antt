-- ===== src/Ipd/Setup/Callsigns.antt =====
-- A callsign, written by `call_to_a` and read by `a_to_call`.
use linuxax.Prelude.{
  ℕ, zero, suc, ◌+◌, ◌-◌, ◌*◌, ◌/◌, ◌%◌, ◌≤◌, ◌≡◌, refl, ap, sym, ◌∙◌, bit_and, Bool, true, false,
  not, ◌&&◌, List, [], ◌∷◌, ◌++◌, some, ◌==◌, ==_iff, ltb, if◌then◌else◌, length, length-append,
  All, arith, append_assoc, append-nil, same, same_iff,
}
use linuxax.Prelude.Bits.{all_below, all_below_sound, and_0f}
use linuxax.Address.Text.{
  to_upper, blanks, scan_int, scan_signed, scan_unsigned, scan_digits, ntoa_ssid, ax25_ntoa,
  ax25_aton_entry,
}
use linuxax.Address.Text.Entry.{
  IsNameChar, shifted, address, length-shifted, get_or-address, ax25_ntoa-address,
  ax25_aton_entry-ax25_ntoa,
}
use linuxax.Ipd.Setup.{atoi, filled, a_from, a_to_call, call_chars, call_to_a}

-- What `call_to_a` writes for the SSID.
abbrev suffix : ℕ → List ℕ
suffix ssid =
    if ltb 0 ssid
    then 0x2d ∷ (if ltb 9 ssid then 0x31 ∷ (0x30 + (ssid - 10)) ∷ [] else (0x30 + ssid) ∷ [])
    else []

a_from-shifted :
    (cs name rest : List ℕ)
    → All IsNameChar name
    → length cs + length name ≤ 6
    → a_from cs (name ++ rest) ≡ a_from (cs ++ shifted name) rest
unfolding a_from
a_from-shifted cs [] rest chars few = ap (λ t. a_from t rest) (sym (append-nil cs))
a_from-shifted cs (c ∷ name) rest chars few =
    let upper : to_upper c ≡ c = ground (arith, chars.0) in
    let no_dash : (c == 0x2d) ≡ false = ground (arith, chars.0) in
    let byte : c * 2 % 256 ≡ c * 2 = ground (arith, chars.0) in
    let room : ltb 5 (length cs) ≡ false = ground arith in
    let deep =
      a_from-shifted (cs ++ (c * 2 ∷ [])) name rest chars.1
        (omega (arith, length-append cs (c * 2 ∷ []))) in
    rw (upper, no_dash, room, byte)
      (deep ∙ ap (λ t. a_from t rest) (append_assoc cs (c * 2 ∷ []) (shifted name)))

and_parts : (a b c : Bool) → (a && b && c) ≡ true → (a ≡ true) × ((b ≡ true) × (c ≡ true))
and_parts a b c e = ground arith

not-true : (b : Bool) → not b ≡ true → b ≡ false
not-true b e = ground arith

abbrev reads_back : ℕ → Bool
reads_back ssid = elim (suffix ssid) [
  | [] ↦ ssid == 0
  | d ∷ text ↦ (d == 0x2d) && not (atoi text).0 && ((atoi text).1 == ssid)
]

ssids : all_below 16 reads_back ≡ true
unfolding all_below atoi scan_int scan_signed scan_unsigned scan_digits
ssids = refl

call_chars-shifted :
    (left : ℕ) (name : List ℕ) (k : ℕ) (after : List ℕ)
    → All IsNameChar name
    → left ≡ length name + k
    → call_chars left (shifted name ++ (blanks k ++ after)) ≡ name
unfolding call_chars blanks
call_chars-shifted zero [] k after chars e = refl
call_chars-shifted zero (c ∷ name) k after chars e = absurd (omega arith)
call_chars-shifted (suc left) [] zero after chars e = absurd (omega arith)
call_chars-shifted (suc left) [] (suc k) after chars e = refl
call_chars-shifted (suc left) (c ∷ name) k after chars e =
    let plain : (c * 2 / 2 ≡ c) × ((c * 2 == 0x40) ≡ false) = ground (arith, chars.0) in
    rw (plain.0, plain.1)
      (ap (λ t. c ∷ t) (call_chars-shifted left name k after chars.1 (omega arith)))

nibble : (ssid : ℕ) → ssid ≤ 15 → bit_and (ssid * 2 / 2) 0x0f ≡ ssid
nibble ssid small = omega (arith, and_0f (ssid * 2 / 2))

call_to_a-address :
    (name : List ℕ) (ssid : ℕ)
    → All IsNameChar name
    → length name ≤ 6
    → ssid ≤ 15
    → call_to_a (address name ssid) ≡ name ++ suffix ssid
unfolding call_to_a address
call_to_a-address name ssid chars few small =
    rw
      (
        get_or-address name ssid few,
        nibble ssid small,
        call_chars-shifted 6 name (6 - length name) (ssid * 2 ∷ []) chars (omega arith),
      )
      refl

filled-address : (name : List ℕ) (ssid : ℕ) → filled (shifted name) (ssid * 2) ≡ address name ssid
unfolding address
filled-address name ssid = rw (length-shifted name) refl

a_from-suffix :
    (name : List ℕ) (ssid : ℕ)
    → ssid ≤ 15
    → a_from (shifted name) (suffix ssid) ≡ (true, address name ssid)
unfolding a_from
a_from-suffix name ssid small =
    go (suffix ssid) (all_below_sound 16 reads_back ssid (omega arith) ssids)
  where
    go :
        (s : List ℕ)
        → elim s [
          | [] ↦ ssid == 0
          | d ∷ text ↦ (d == 0x2d) && not (atoi text).0 && ((atoi text).1 == ssid)
        ]
          ≡ true
        → a_from (shifted name) s ≡ (true, address name ssid)
    go [] e =
        let none_told : ssid ≡ 0 = (==_iff ssid 0).0 e in
        rw none_told (ap (λ t. (true, t)) (filled-address name 0))
    go (d ∷ text) e =
        let parts = and_parts (d == 0x2d) (not (atoi text).0) ((atoi text).1 == ssid) e in
        let plus : (atoi text).0 ≡ false = not-true (atoi text).0 parts.1.0 in
        let value : (atoi text).1 ≡ ssid = (==_iff _ _).0 parts.1.1 in
        let fits : ltb 15 ssid ≡ false = ground arith in
        rw (parts.0, plus, value, fits) (ap (λ t. (true, t)) (filled-address name ssid))

-- The address of a callsign of one to six digits and capital letters with an SSID up to 15 is written
-- by `call_to_a` as a text that `a_to_call` reads as this address again, whatever `tcall` held.
pub a_to_call-call_to_a :
    (c : ℕ) (name : List ℕ) (ssid : ℕ) (tcall : List ℕ)
    → All IsNameChar (c ∷ name)
    → length (c ∷ name) ≤ 6
    → ssid ≤ 15
    → a_to_call (call_to_a (address (c ∷ name) ssid)) tcall ≡ (true, address (c ∷ name) ssid)
unfolding a_to_call
a_to_call-call_to_a c name ssid tcall chars few small =
    ap (λ t. a_to_call t tcall) (call_to_a-address (c ∷ name) ssid chars few small)
    ∙ a_from-shifted [] (c ∷ name) (suffix ssid) chars (omega arith)
    ∙ a_from-suffix (c ∷ name) ssid small

suffixes : all_below 16 (λ ssid. same (suffix ssid) (ntoa_ssid (ssid * 2))) ≡ true
unfolding all_below ntoa_ssid same
suffixes = refl

-- The address of a callsign of one to six digits and capital letters with an SSID up to 15:
-- `call_to_a` writes it as `ax25_ntoa` of libax25 does, and what `a_to_call` reads of this text,
-- whatever `tcall` held, is what `ax25_aton_entry` reads of it, the address itself.
pub call_to_a-ax25_ntoa :
    (c : ℕ) (name : List ℕ) (ssid : ℕ) (tcall : List ℕ)
    → All IsNameChar (c ∷ name)
    → length (c ∷ name) ≤ 6
    → ssid ≤ 15
    → ((call_to_a (address (c ∷ name) ssid)) ≡ ax25_ntoa (address (c ∷ name) ssid))
      × (ax25_aton_entry (call_to_a (address (c ∷ name) ssid)) ≡ some (address (c ∷ name) ssid))
      × (a_to_call (call_to_a (address (c ∷ name) ssid)) tcall ≡ (true, address (c ∷ name) ssid))
call_to_a-ax25_ntoa c name ssid tcall chars few small =
    let wrote = call_to_a-address (c ∷ name) ssid chars few small in
    let wrote' = ax25_ntoa-address (c ∷ name) ssid chars few in
    let ends : suffix ssid ≡ ntoa_ssid (ssid * 2) =
      (same_iff (suffix ssid) (ntoa_ssid (ssid * 2))).0 (
        all_below_sound 16 (λ i. same (suffix i) (ntoa_ssid (i * 2))) ssid (omega arith)
          suffixes) in
    let alike = wrote ∙ ap (λ t. (c ∷ name) ++ t) ends ∙ sym wrote' in
    (
      alike,
      ap ax25_aton_entry alike ∙ ax25_aton_entry-ax25_ntoa (c ∷ name) ssid chars few small,
      a_to_call-call_to_a c name ssid tcall chars few small,
    )
