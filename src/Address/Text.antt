-- ===== src/Address/Text.antt =====
-- libax25/lib/ax25/axutils.c: callsigns as text. Characters are their codes in ASCII and the tests on
-- them those of the C locale; `sscanf` reads numbers without a limit.
pub mod Entry
pub mod Tokens
mod Tests
use mathlib.Core.List.{map}
use linuxax.Prelude.{
  ℕ, zero, suc, ◌+◌, ◌-◌, ◌*◌, ◌/◌, ◌%◌, bit_and, Bool, true, false, not, ◌&&◌, ◌||◌, List, [], ◌∷◌,
  ◌++◌, Option, none, some, ◌==◌, ltb, leb, if◌then◌else◌, length, get_or, same,
}
use linuxax.Ipd.Frame.{◌>>=◌}

-- `toupper`, `isalnum`, `isspace` and `isdigit`
abbrev pub is_digit : ℕ → Bool
is_digit c = leb 0x30 c && leb c 0x39

abbrev pub is_upper : ℕ → Bool
is_upper c = leb 0x41 c && leb c 0x5a

abbrev pub is_lower : ℕ → Bool
is_lower c = leb 0x61 c && leb c 0x7a

abbrev pub to_upper : ℕ → ℕ
to_upper c = if is_lower c then c - 0x20 else c

abbrev pub is_alnum : ℕ → Bool
is_alnum c = is_digit c || is_upper c || is_lower c

abbrev pub is_space : ℕ → Bool
is_space c = (c == 0x20) || (leb 9 c && leb c 13)

-- `' ' << 1`, for the characters that are left.
unfoldable pub blanks : ℕ → List ℕ
blanks zero = []
blanks (suc n) = 0x40 ∷ blanks n

-- The first two loops of `ax25_aton_entry`: the characters of the callsign, and what is left of the
-- name.
unfoldable pub aton_name : ℕ → List ℕ → Option (List ℕ × List ℕ)
unfolding blanks
aton_name zero p = some ([], p)
aton_name (suc left) [] = some (blanks (suc left), [])
aton_name (suc left) (c ∷ p) =
    let more = aton_name left p >>= λ (cs, rest). some (to_upper c * 2 % 256 ∷ cs, rest) in
    if to_upper c == 0x2d
    then some (blanks (suc left), c ∷ p)
    else if not (is_alnum (to_upper c))
    then none
    else more

-- `sscanf` with `%d`: the digits, a sign and what is skipped before it.
unfoldable pub scan_digits : ℕ → List ℕ → ℕ
scan_digits value [] = value
scan_digits value (c ∷ p) =
    let more = scan_digits (value * 10 + (c - 0x30)) p in if is_digit c then more else value

unfoldable pub scan_unsigned : List ℕ → Option ℕ
unfolding scan_digits
scan_unsigned [] = none
scan_unsigned (c ∷ p) = if is_digit c then some (scan_digits 0 (c ∷ p)) else none

-- The sign, true for `-`, and the value.
unfoldable pub scan_signed : List ℕ → Option (Bool × ℕ)
unfolding scan_unsigned
scan_signed [] = none
scan_signed (c ∷ p) =
    if c == 0x2d
    then (scan_unsigned p >>= λ v. some (true, v))
    else if c == 0x2b
    then (scan_unsigned p >>= λ v. some (false, v))
    else scan_unsigned (c ∷ p) >>= λ v. some (false, v)

unfoldable pub scan_int : List ℕ → Option (Bool × ℕ)
unfolding scan_signed
scan_int [] = none
scan_int (c ∷ p) = let skipped = scan_int p in if is_space c then skipped else scan_signed (c ∷ p)

-- The SSID at the end of a name; the character before it is passed over, whatever it is.
unfoldable pub aton_ssid : List ℕ → Option ℕ
unfolding scan_int
aton_ssid [] = some 0
aton_ssid (c ∷ p) = do
  (negative, ssid) ← scan_int p
  if (negative && not (ssid == 0)) || ltb 15 ssid then none else some ssid

unfoldable pub ax25_aton_entry : List ℕ → Option (List ℕ)
unfolding aton_name aton_ssid
ax25_aton_entry name = do
  (cs, rest) ← aton_name 6 name
  ssid ← aton_ssid rest
  some (cs ++ (bit_and ((ssid + 0x30) * 2) 0x1e ∷ []))

-- The loop of `ax25_ntoa`.
pub ntoa_chars : ℕ → List ℕ → List ℕ
ntoa_chars zero a = []
ntoa_chars (suc left) [] = []
ntoa_chars (suc left) (b ∷ a) =
    let c = bit_and (b / 2) 0x7f in
    let rest = ntoa_chars left a in if c == 0x20 then rest else c ∷ rest

-- What `ax25_ntoa` writes for the last byte.
unfoldable pub ntoa_ssid : ℕ → List ℕ
ntoa_ssid b =
    let n = bit_and (b / 2) 0x0f in
    if bit_and b 0x1e == 0
    then []
    else if ltb 9 n
    then 0x2d ∷ 0x31 ∷ (n - 10 + 0x30) ∷ []
    else 0x2d ∷ (n + 0x30) ∷ []

pub ax25_ntoa : List ℕ → List ℕ
unfolding ntoa_chars ntoa_ssid
ax25_ntoa a = ntoa_chars 6 a ++ ntoa_ssid (get_or a 6 0)

-- `AX25_MAX_DIGIS` of netax25/ax25.h
abbrev pub ax25_max_digis : ℕ
ax25_max_digis = 8

-- `strcasecmp` with `V` and with `VIA`
pub is_via : List ℕ → Bool
is_via token =
    same (map to_upper token) (0x56 ∷ []) || same (map to_upper token) (0x56 ∷ 0x49 ∷ 0x41 ∷ [])

-- The string from its first character on that is no blank.
pub skip_spaces : List ℕ → List ℕ
skip_spaces [] = []
skip_spaces (c ∷ s) = let rest = skip_spaces s in if is_space c then rest else c ∷ s

-- The token at the start, and what is left behind the blank that ends it.
pub next_token : List ℕ → List ℕ × List ℕ
next_token [] = ([], [])
next_token (c ∷ s) =
    let (token, rest) = next_token s in if is_space c then ([], s) else (c ∷ token, rest)

-- `while (n <= AX25_MAX_DIGIS && *bp)`, before a further round of `ax25_aton`.
pub aton_again :
    (List ℕ → List (List ℕ) → Option (List (List ℕ)))
    → List ℕ
    → List (List ℕ)
    → Option (List (List ℕ))
aton_again round [] addrs = some addrs
aton_again round (c ∷ s) addrs = elim (leb (length addrs) ax25_max_digis) [
  | true ↦ round (c ∷ s) addrs
  | false ↦ some addrs
]

-- `addrs` are the addresses so far, as many as `n`.
pub aton_from : ℕ → List ℕ → List (List ℕ) → Option (List (List ℕ))
unfolding ax25_aton_entry is_via skip_spaces next_token aton_again
aton_from zero s addrs = none
aton_from (suc fuel) s addrs =
    let (token, rest) = next_token (skip_spaces s) in
    elim ((length addrs == 1) && is_via token) [
      | true ↦ aton_again (aton_from fuel) rest addrs
      | false ↦
          ax25_aton_entry token >>= λ addr. aton_again (aton_from fuel) rest (addrs ++ (addr ∷ []))
    ]

-- The callsign and the digipeaters; `ndigis` is their number less one. A round takes a character.
pub ax25_aton : List ℕ → Option (List (List ℕ))
unfolding aton_from
ax25_aton call = aton_from (suc (length call)) call []

-- `while (n <= AX25_MAX_DIGIS && call[argp] != NULL)`; at the null pointer the loop ends.
pub arglist_again :
    (List (List ℕ) → Option (List (List ℕ))) → List (List ℕ) → Option (List (List ℕ))
arglist_again round addrs = elim (leb (length addrs) ax25_max_digis) [
  | true ↦ round addrs
  | false ↦ some addrs
]

-- The loop of `ax25_aton_arglist`; the list ends at the null pointer.
pub arglist_from : List (List ℕ) → List (List ℕ) → Option (List (List ℕ))
unfolding ax25_aton_entry is_via arglist_again
arglist_from [] addrs = some addrs
arglist_from (token ∷ call) addrs = elim ((length addrs == 1) && is_via token) [
  | true ↦ arglist_again (arglist_from call) addrs
  | false ↦
      ax25_aton_entry token >>= λ addr. arglist_again (arglist_from call) (addrs ++ (addr ∷ []))
]

pub ax25_aton_arglist : List (List ℕ) → Option (List (List ℕ))
unfolding arglist_from
ax25_aton_arglist call = arglist_from call []

abbrev to_lower : ℕ → ℕ
to_lower c = if is_upper c then c + 0x20 else c

pub strupr : List ℕ → List ℕ
strupr [] = []
strupr (c ∷ s) = to_upper c ∷ strupr s

pub strlwr : List ℕ → List ℕ
strlwr [] = []
strlwr (c ∷ s) = to_lower c ∷ strlwr s
