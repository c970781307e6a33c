-- ===== src/Call/Yapp/Header.antt =====
-- The header of a file, as `Send_HD` writes it and the download takes it apart.
use linuxax.Prelude.{
  ℕ, zero, suc, ◌+◌, ◌-◌, ◌/◌, ◌%◌, ◌^◌, ◌≤◌, ◌<◌, min, ◌≡◌, refl, ap, ◌∙◌, Bool, true, false, not,
  List, [], ◌∷◌, ◌++◌, Option, none, some, ◌==◌, ltb, length, length-append, take, All, arith,
  Bool-cases, inl, inr,
}
use linuxax.Ipd.Frame.{◌>>=◌}
use linuxax.Call.Dostime.Text.{unix2yapp}
use linuxax.Call.Dostime.Text.Hex.{yapp2unix-unix2yapp}
use linuxax.Call.Yapp.{soh, decimal, digits_from}
use linuxax.Call.Yapp.Receive.{take_field, header_fields}
use linuxax.Call.Yapp.Transmit.{send_hd}

-- A string of C: no byte of it is 0.
abbrev pub IsPlain : List ℕ → Type 0
IsPlain = All (λ c. (c == 0) ≡ false)

take_field-append : (f rest : List ℕ) → IsPlain f → take_field (f ++ (0 ∷ rest)) ≡ some (f, rest)
unfolding take_field
take_field-append [] rest h = refl
take_field-append (c ∷ f) rest h = rw (h.0, take_field-append f rest h.1) refl

digits_from-IsPlain :
    (fuel n : ℕ) (after : List ℕ) → IsPlain after → IsPlain (digits_from fuel n after)
unfolding digits_from
digits_from-IsPlain zero n after h = h
digits_from-IsPlain (suc fuel) n after h = elim (Bool-cases (ltb n 10)) [
  | inl e ↦ rw (e) (ground arith, h)
  | inr e ↦ rw (e) (digits_from-IsPlain fuel (n / 10) ((0x30 + n % 10) ∷ after) (ground arith, h))
]

length-digits_from :
    (k fuel n : ℕ) (after : List ℕ)
    → n < 10 ^ (suc k)
    → length (digits_from fuel n after) ≤ suc k + length after
unfolding digits_from
length-digits_from k zero n after h = omega arith
length-digits_from zero (suc fuel) n after h =
    let small : ltb n 10 ≡ true = ground (arith, h) in rw (small) (omega arith)
length-digits_from (suc k) (suc fuel) n after h = elim (Bool-cases (ltb n 10)) [
  | inl e ↦ rw (e) (omega arith)
  | inr e ↦
      let rest = length-digits_from k fuel (n / 10) ((0x30 + n % 10) ∷ after) (omega (arith, h)) in
      rw (e) (omega (arith, rest))
]

take_all : (n : ℕ) (xs : List ℕ) → n ≡ length xs → take n xs ≡ xs
take_all zero [] h = refl
take_all zero (x ∷ xs) h = absurd (omega arith)
take_all (suc n) [] h = absurd (omega arith)
take_all (suc n) (x ∷ xs) h = ap (λ t. x ∷ t) (take_all n xs (omega arith))

-- A time that a header can hold, where the file has one.
abbrev pub IsTime : Option ℕ → Type 0
IsTime none = Unit
IsTime (some t) = (315532800 ≤ t) × (t < 2 ^ 31)

abbrev pub has_time : Option ℕ → Bool
has_time none = false
has_time (some t) = true

-- A header that is written whole.
pub record Header (filename : List ℕ) (size : ℕ) (mtime : Option ℕ) : Type 0 where
  pub body : List ℕ
  pub text : List (List ℕ)
  pub written : send_hd filename size mtime ≡ some (soh ∷ length body ∷ body)
  pub some_body : 1 ≤ length body
  pub fits : length body ≤ 255
  pub fields : header_fields 3 body ≡ filename ∷ decimal size ∷ text
  pub timed : (length text == 0) ≡ not (has_time mtime)

decimal-IsPlain : (n : ℕ) → IsPlain (decimal n)
unfolding decimal
decimal-IsPlain n = digits_from-IsPlain (suc n) n [] tt

length-decimal : (n : ℕ) → n < 10 ^ 11 → length (decimal n) ≤ 11
unfolding decimal
length-decimal n h = length-digits_from 10 (suc n) n [] h

header_fields-append :
    (f g rest : List ℕ)
    → IsPlain f
    → IsPlain g
    → header_fields 3 (f ++ (0 ∷ (g ++ (0 ∷ rest)))) ≡ f ∷ g ∷ header_fields 1 rest
unfolding header_fields
header_fields-append f g rest h k =
    rw (take_field-append f (g ++ (0 ∷ rest)) h, header_fields)
      (rw (take_field-append g rest k, header_fields) refl)

header_fields-one : (f : List ℕ) → IsPlain f → header_fields 1 (f ++ (0 ∷ [])) ≡ f ∷ []
unfolding header_fields
header_fields-one f h = rw (take_field-append f [] h, header_fields) refl

-- The header with the text of the time `stamp`, of `timed` bytes.
written :
    (filename : List ℕ) (size : ℕ) (mtime : Option ℕ)
    → length filename ≤ 233
    → size < 10 ^ 11
    → (stamp : List ℕ)
    → elim mtime as (λ o. Option (List ℕ)) [
      | none ↦ some []
      | some t ↦ unix2yapp t >>= λ text. some (text ++ (0 ∷ []))
    ]
      ≡ some stamp
    → send_hd filename size mtime
      ≡ some (
          soh ∷ length (filename ++ (0 ∷ decimal size ++ (0 ∷ stamp))) ∷ filename
          ++ (0 ∷ decimal size ++ (0 ∷ stamp)))
unfolding send_hd
written filename size mtime short few stamp e =
    let long = length-decimal size few in
    let small : ltb 12 (length (decimal size) + 1) ≡ false = ground (arith, long) in
    let left = elim mtime as (λ o. ℕ) [ none ↦ 0 | some t ↦ 9 ] in
    let nine : left ≤ 9 = elim mtime as (λ o. elim o as (λ o. ℕ) [ none ↦ 0 | some t ↦ 9 ] ≤ 9) [
      | none ↦ omega arith
      | some t ↦ omega arith
    ] in
    let room : ((255 - (length (decimal size) + 1) - left) == 0) ≡ false =
      ground (arith, long, nine) in
    let name =
      take_all (min (length filename + 1) (255 - (length (decimal size) + 1) - left) - 1) filename
        (omega (arith, long, nine, short)) in
    rw (small, room, name, e, ◌>>=◌) refl

pub send_hd_lem :
    (filename : List ℕ) (size : ℕ) (mtime : Option ℕ)
    → IsPlain filename
    → length filename ≤ 233
    → size < 10 ^ 11
    → IsTime mtime
    → Header filename size mtime
unfolding header_fields
send_hd_lem filename size none plain short few h = record {
  body = filename ++ (0 ∷ decimal size ++ (0 ∷ []));
  text = [];
  written = written filename size none short few [] refl;
  some_body = omega (arith, length-append filename (0 ∷ decimal size ++ (0 ∷ [])));
  fits = omega (
    arith,
    length-append filename (0 ∷ decimal size ++ (0 ∷ [])),
    length-append (decimal size) (0 ∷ []),
    length-decimal size few,
  );
  fields = header_fields-append filename (decimal size) [] plain (decimal-IsPlain size);
  timed = refl;
}
send_hd_lem filename size (some t) plain short few h =
    let (text, made, stamp, again) = yapp2unix-unix2yapp t h.0 h.1 in
    record {
      body = filename ++ (0 ∷ decimal size ++ (0 ∷ (text ++ (0 ∷ []))));
      text = text ∷ [];
      written = written filename size (some t) short few (text ++ (0 ∷ [])) (rw (made, ◌>>=◌) refl);
      some_body =
          omega (arith, length-append filename (0 ∷ decimal size ++ (0 ∷ (text ++ (0 ∷ [])))));
      fits = omega (
        arith,
        length-append filename (0 ∷ decimal size ++ (0 ∷ (text ++ (0 ∷ [])))),
        length-append (decimal size) (0 ∷ (text ++ (0 ∷ []))),
        length-append text (0 ∷ []),
        stamp.eight,
        length-decimal size few,
      );
      fields =
          header_fields-append filename (decimal size) (text ++ (0 ∷ [])) plain
            (decimal-IsPlain size)
          ∙ ap (λ t. filename ∷ decimal size ∷ t) (header_fields-one text stamp.plain);
      timed = refl;
    }
