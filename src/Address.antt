-- ===== src/Address.antt =====
-- libax25/lib/ax25/axutils.c: addresses of AX.25 and of Rose. An `ax25_address` is the list of its
-- seven bytes, a `rose_address` that of its five, a string the list of its characters before the 0.
pub mod Compare
pub mod Rose
pub mod Text
mod Tests
use linuxax.Prelude.{
  ℕ, zero, suc, ◌+◌, ◌-◌, ◌*◌, ◌/◌, ◌%◌, bit_and, bit_or, Bool, true, false, not, ◌&&◌, ◌||◌, List,
  [], ◌∷◌, Option, none, some, ◌==◌, ltb, leb, if◌then◌else◌, length, get_or,
}

-- `(a->ax25_call[i] & m) != (b->ax25_call[i] & m)`
unfoldable pub unlike : ℕ → ℕ → List ℕ → List ℕ → Bool
unlike m i a b = not (bit_and (get_or a i 0) m == bit_and (get_or b i 0) m)

unfoldable pub ax25_cmp : List ℕ → List ℕ → ℕ
unfolding unlike
ax25_cmp a b =
    if unlike 0xfe 0 a b
    then 1
    else if unlike 0xfe 1 a b
    then 1
    else if unlike 0xfe 2 a b
    then 1
    else if unlike 0xfe 3 a b
    then 1
    else if unlike 0xfe 4 a b
    then 1
    else if unlike 0xfe 5 a b
    then 1
    else if unlike 0x1e 6 a b
    then 2
    else 0

-- The loop of `rose_cmp` from byte `i` on.
pub rose_differ : ℕ → ℕ → List ℕ → List ℕ → ℕ
rose_differ zero i a b = 0
rose_differ (suc left) i a b =
    let rest = rose_differ left (i + 1) a b in
    if not (get_or a i 0 == get_or b i 0) then 1 else rest

pub rose_cmp : List ℕ → List ℕ → ℕ
unfolding rose_differ
rose_cmp a b = rose_differ 5 0 a b

-- `strspn`, the set given as a test.
unfoldable pub strspn : List ℕ → (ℕ → Bool) → ℕ
strspn [] accept = 0
strspn (c ∷ s) accept = if accept c then suc (strspn s accept) else 0

pub is_digit : ℕ → Bool
is_digit c = leb 0x30 c && leb c 0x39

-- The loop of `rose_aton`: two digits a byte.
pub rose_bytes : List ℕ → List ℕ
rose_bytes [] = []
rose_bytes (c ∷ []) = []
rose_bytes (c ∷ d ∷ addr) = bit_or ((c - 0x30) * 16) (d - 0x30) ∷ rose_bytes addr

pub rose_aton : List ℕ → Option (List ℕ)
unfolding strspn is_digit rose_bytes
rose_aton addr =
    if not (length addr == 10)
    then none
    else if not (strspn addr is_digit == 10)
    then none
    else some (rose_bytes addr)

-- `%02X` at a byte: its two digits.
pub hex_digit : ℕ → ℕ
hex_digit n = if ltb n 10 then 0x30 + n else 0x37 + n

pub rose_ntoa : List ℕ → List ℕ
unfolding hex_digit
rose_ntoa [] = []
rose_ntoa (b ∷ a) = hex_digit (bit_and b 0xff / 16) ∷ hex_digit (bit_and b 0xff % 16) ∷ rose_ntoa a

-- The characters of `ax25_validate`: digits, capital letters and the blank.
pub is_call_char : ℕ → Bool
is_call_char c = (leb 0x30 c && leb c 0x39) || (leb 0x41 c && leb c 0x5a) || (c == 0x20)

pub ax25_validate : List ℕ → Bool
unfolding strspn is_call_char
ax25_validate call =
    let s =
      bit_and (get_or call 0 0 / 2) 0x7f
      ∷ bit_and (get_or call 1 0 / 2) 0x7f
      ∷ bit_and (get_or call 2 0 / 2) 0x7f
      ∷ bit_and (get_or call 3 0 / 2) 0x7f
      ∷ bit_and (get_or call 4 0 / 2) 0x7f
      ∷ bit_and (get_or call 5 0 / 2) 0x7f
      ∷ [] in
    strspn s is_call_char == 6
