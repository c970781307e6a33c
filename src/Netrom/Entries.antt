-- ===== src/Netrom/Entries.antt =====
-- An entry as it is written into a broadcast and read from it.
use linuxax.Prelude.{
  ℕ, zero, suc, ◌%◌, ◌<◌, ◌≤◌, ◌≡◌, ◌∙◌, refl, ap, sym, false, ◌||◌, List, [], ◌∷◌, ◌++◌, some,
  ◌==◌, length, length-append, length-take, take, All, arith, append_assoc,
}
use linuxax.Ipd.Frame.{◌>>=◌}
use linuxax.Netrom.{Entry, pad, unpad, get_bytes, put_entry, get_entry}

-- A character of a mnemonic: neither the end of a string nor a blank.
abbrev pub IsPlain : ℕ → Type 0
IsPlain c = ((c == 0) || (c == 0x20)) ≡ false

pub record FitsMnemonic (s : List ℕ) : Type 0 where
  pub plain : All IsPlain s
  pub few : length s ≤ 6

pub record FitsEntry (e : Entry) : Type 0 where
  pub callsign : length e.callsign ≡ 7
  pub mnemonic : FitsMnemonic e.mnemonic
  pub best_neighbour : length e.best_neighbour ≡ 7
  pub best_quality : e.best_quality < 256

pub get_bytes-append :
    (n : ℕ) (xs rest : List ℕ) → length xs ≡ n → get_bytes n (xs ++ rest) ≡ some (xs, rest)
unfolding get_bytes
get_bytes-append zero [] rest e = refl
get_bytes-append zero (x ∷ xs) rest e = absurd (omega arith)
get_bytes-append (suc n) [] rest e = absurd (omega arith)
get_bytes-append (suc n) (x ∷ xs) rest e = rw (get_bytes-append n xs rest (omega arith), ◌>>=◌)

abbrev seven_blanks : List ℕ
seven_blanks = 0x20 ∷ 0x20 ∷ 0x20 ∷ 0x20 ∷ 0x20 ∷ 0x20 ∷ 0x20 ∷ []

pub length-pad : (s : List ℕ) → length (pad s) ≡ 6
unfolding pad
length-pad s = omega (arith, length-take 6 (s ++ seven_blanks), length-append s seven_blanks)

unpad-take :
    (n : ℕ) (s : List ℕ) → All IsPlain s → length s ≤ n → unpad (take n (s ++ seven_blanks)) ≡ s
unfolding unpad
unpad-take zero [] plain few = refl
unpad-take (suc n) [] plain few = refl
unpad-take zero (c ∷ s) plain few = absurd (omega arith)
unpad-take (suc n) (c ∷ s) plain few =
    rw plain.0 (ap (λ t. c ∷ t) (unpad-take n s plain.1 (omega arith)))

pub unpad-pad : (s : List ℕ) → FitsMnemonic s → unpad (pad s) ≡ s
unfolding pad
unpad-pad s fits = unpad-take 6 s fits.plain fits.few

pub get_entry-put_entry :
    (e : Entry) (rest : List ℕ) → FitsEntry e → get_entry (put_entry e ++ rest) ≡ some (e, rest)
unfolding get_entry put_entry
get_entry-put_entry e rest fits =
    let quality : e.best_quality % 256 ≡ e.best_quality = omega (arith, fits.best_quality) in
    let last = e.best_quality % 256 ∷ [] in
    let whole : put_entry e ++ rest
        ≡ e.callsign ++ (pad e.mnemonic ++ (e.best_neighbour ++ (last ++ rest))) =
      append_assoc e.callsign (pad e.mnemonic ++ (e.best_neighbour ++ last)) rest
      ∙ ap (λ t. e.callsign ++ t)
          (append_assoc (pad e.mnemonic) (e.best_neighbour ++ last) rest
            ∙ ap (λ t. pad e.mnemonic ++ t) (append_assoc e.best_neighbour last rest)) in
    let behind = e.best_neighbour ++ (last ++ rest) in
    let first = get_bytes-append 7 e.callsign (pad e.mnemonic ++ behind) fits.callsign in
    let second = get_bytes-append 6 (pad e.mnemonic) behind (length-pad e.mnemonic) in
    let third = get_bytes-append 7 e.best_neighbour (last ++ rest) fits.best_neighbour in
    rw whole (
      rw (first, ◌>>=◌)
        (rw (second, ◌>>=◌) (rw (third, ◌>>=◌, unpad-pad e.mnemonic fits.mnemonic, quality))))

pub length-put_entry :
    (e : Entry) → length e.callsign ≡ 7 → length e.best_neighbour ≡ 7 → length (put_entry e) ≡ 21
unfolding put_entry
length-put_entry e h k =
    let last = e.best_quality % 256 ∷ [] in
    omega (
      arith,
      h,
      k,
      length-append e.callsign (pad e.mnemonic ++ (e.best_neighbour ++ last)),
      length-append (pad e.mnemonic) (e.best_neighbour ++ last),
      length-append e.best_neighbour last,
      length-pad e.mnemonic,
    )

-- The entries of a broadcast as a description of the format, apart from the loops.
unfoldable pub payload : List Entry → List ℕ
payload [] = []
payload (e ∷ es) = put_entry e ++ payload es

pub payload-append : (xs ys : List Entry) → payload (xs ++ ys) ≡ payload xs ++ payload ys
unfolding payload
payload-append [] ys = refl
payload-append (x ∷ xs) ys =
    ap (λ t. put_entry x ++ t) (payload-append xs ys)
    ∙ sym (append_assoc (put_entry x) (payload xs) (payload ys))
