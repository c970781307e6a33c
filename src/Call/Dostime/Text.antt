-- ===== src/Call/Dostime/Text.antt =====
-- ax25apps/call/dostime.c: a time and a date as eight hexadecimal digits.
pub mod Hex
use linuxax.Prelude.{
  ℕ, zero, suc, ◌+◌, ◌-◌, ◌*◌, ◌/◌, ◌%◌, Bool, true, false, not, ◌&&◌, ◌||◌, List, [], ◌∷◌, ◌++◌,
  Option, none, some, ◌==◌, ltb, leb, if◌then◌else◌, length, take, drop,
}
use linuxax.Ipd.Frame.{◌>>=◌}
use linuxax.Call.Dostime.{date_dos2unix, date_unix2dos}

-- A digit of `%X`, and of `%04X`.
unfoldable pub hex_digit : ℕ → ℕ
hex_digit n = if ltb n 10 then 0x30 + n else 0x41 + (n - 10)

unfoldable pub hex_word : ℕ → List ℕ
hex_word n =
    hex_digit (n / 4096 % 16)
    ∷ hex_digit (n / 256 % 16)
    ∷ hex_digit (n / 16 % 16)
    ∷ hex_digit (n % 16)
    ∷ []

-- `isxdigit`, and the value of such a character.
unfoldable pub digit_value : ℕ → Option ℕ
digit_value c =
    if leb 0x30 c && leb c 0x39
    then some (c - 0x30)
    else if leb 0x41 c && leb c 0x46
    then some (c - 0x41 + 10)
    else if leb 0x61 c && leb c 0x66
    then some (c - 0x61 + 10)
    else none

-- `strtoul` with base 16, of a string of such characters.
unfoldable pub strtoul : ℕ → List ℕ → Option ℕ
unfolding digit_value
strtoul value [] = some value
strtoul value (c ∷ s) = digit_value c >>= λ d. strtoul (value * 16 + d) s

unfoldable pub unix2yapp : ℕ → Option (List ℕ)
unix2yapp unix_date =
    date_unix2dos unix_date >>= λ (time, date). some (hex_word date ++ hex_word time)

unfoldable pub yapp2unix : List ℕ → Option ℕ
yapp2unix ytime = if not (length ytime == 8) then some 0 else elim (strtoul 0 (drop 4 ytime)) [
  | none ↦ some 0
  | some time ↦ elim (strtoul 0 (take 4 ytime)) [
    | none ↦ some 0
    | some date ↦ date_dos2unix time date
  ]
]
