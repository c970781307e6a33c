-- ===== src/Call/Dostime/Text/Hex.antt =====
-- A time as eight hexadecimal digits, read again.
use linuxax.Prelude.{
  ℕ, ◌-◌, ◌/◌, ◌%◌, ◌^◌, ◌≤◌, ◌<◌, ◌≡◌, refl, ap, Bool, true, false, not, ◌&&◌, List, ◌++◌, Option,
  none, some, ◌==◌, ==_iff, length, All, arith,
}
use linuxax.Prelude.Bits.{all_below, all_below_sound}
use linuxax.Ipd.Frame.{◌>>=◌}
use linuxax.Call.Dostime.RoundTrip.{date_unix2dos-IsPacked}
use linuxax.Call.Dostime.Text.{hex_digit, hex_word, digit_value, strtoul, unix2yapp, yapp2unix}

abbrev reads_back : ℕ → Bool
reads_back n =
    elim (digit_value (hex_digit n)) [ none ↦ false | some v ↦ v == n ] && not (hex_digit n == 0)

digits : all_below 16 reads_back ≡ true
unfolding all_below hex_digit digit_value
digits = refl

and_parts : (a b : Bool) → (a && b) ≡ true → (a ≡ true) × (b ≡ true)
and_parts a b e = ground arith

digit_value-hex_digit :
    (n : ℕ) → n < 16 → (digit_value (hex_digit n) ≡ some n) × ((hex_digit n == 0) ≡ false)
digit_value-hex_digit n h =
    let (read, plain) = and_parts _ _ (all_below_sound 16 reads_back n h digits) in
    (go (digit_value (hex_digit n)) read, not-true (hex_digit n == 0) plain)
  where
    go : (o : Option ℕ) → elim o [ none ↦ false | some v ↦ v == n ] ≡ true → o ≡ some n
    go none e = cc
    go (some v) e = ap some ((==_iff v n).0 e)

    not-true : (b : Bool) → not b ≡ true → b ≡ false
    not-true b e = ground arith

pub hex_word_plain : (w : ℕ) → All (λ c. (c == 0) ≡ false) (hex_word w)
unfolding hex_word
hex_word_plain w = (
  (digit_value-hex_digit (w / 4096 % 16) (omega arith)).1,
  (
    (digit_value-hex_digit (w / 256 % 16) (omega arith)).1,
    (
      (digit_value-hex_digit (w / 16 % 16) (omega arith)).1,
      ((digit_value-hex_digit (w % 16) (omega arith)).1, tt),
    ),
  ),
)

strtoul-hex_word : (w : ℕ) → w < 2 ^ 16 → strtoul 0 (hex_word w) ≡ some w
unfolding strtoul hex_word
strtoul-hex_word w h =
    let a = (digit_value-hex_digit (w / 4096 % 16) (omega arith)).0 in
    let b = (digit_value-hex_digit (w / 256 % 16) (omega arith)).0 in
    let c = (digit_value-hex_digit (w / 16 % 16) (omega arith)).0 in
    let d = (digit_value-hex_digit (w % 16) (omega arith)).0 in
    rw (a, ◌>>=◌) (rw (b, ◌>>=◌) (rw (c, ◌>>=◌) (rw (d, ◌>>=◌) (ap some (omega arith)))))

-- A text of eight characters, none of them a 0.
pub record IsStamp (text : List ℕ) : Type 0 where
  pub eight : length text ≡ 8
  pub plain : All (λ c. (c == 0) ≡ false) text

-- A time from 1980 on that fits 31 bits is written by `unix2yapp` as eight characters, none of them
-- a 0, which `yapp2unix` reads as the same time, down to two seconds.
pub yapp2unix-unix2yapp :
    (t : ℕ)
    → 315532800 ≤ t
    → t < 2 ^ 31
    → (text : List ℕ) × (unix2yapp t ≡ some text)
      × IsStamp text
      × (yapp2unix text ≡ some (t - t % 2))
unfolding unix2yapp yapp2unix hex_word
yapp2unix-unix2yapp t since before =
    let p = date_unix2dos-IsPacked t since before in
    let (a, (b, (c, (d, e)))) = hex_word_plain p.date in
    (
      hex_word p.date ++ hex_word p.time,
      rw (p.packed, ◌>>=◌) refl,
      record { eight = refl; plain = (a, (b, (c, (d, hex_word_plain p.time)))) },
      rw (strtoul-hex_word p.time p.time_fits, strtoul-hex_word p.date p.date_fits) p.again,
    )
