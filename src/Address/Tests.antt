-- ===== src/Address/Tests.antt =====
-- The theorems on addresses at concrete ones.
use linuxax.Prelude.{ℕ, ◌≡◌, List, [], ◌∷◌, some, refl}
use linuxax.Address.{strspn, is_digit, rose_bytes, rose_aton, rose_ntoa}
use linuxax.Address.Rose.{rose_ntoa-rose_aton}

abbrev call_with : ℕ → List ℕ
call_with last = 0x82 ∷ 0x84 ∷ 0x86 ∷ 0x62 ∷ 0x40 ∷ 0x40 ∷ last ∷ []

abbrev ten_digits : List ℕ
ten_digits = 0x35 ∷ 0x30 ∷ 0x35 ∷ 0x32 ∷ 0x39 ∷ 0x38 ∷ 0x34 ∷ 0x31 ∷ 0x30 ∷ 0x37 ∷ []

abbrev ten_digits_bytes : List ℕ
ten_digits_bytes = 0x50 ∷ 0x52 ∷ 0x98 ∷ 0x41 ∷ 0x07 ∷ []

ten_digits_read : rose_aton ten_digits ≡ some ten_digits_bytes
unfolding rose_aton strspn is_digit rose_bytes
ten_digits_read = refl

rose_ntoa-rose_aton_example : rose_ntoa ten_digits_bytes ≡ ten_digits
rose_ntoa-rose_aton_example = rose_ntoa-rose_aton ten_digits ten_digits_bytes ten_digits_read
