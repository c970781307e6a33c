-- ===== src/Address/Rose.antt =====
-- A Rose address read from ten digits prints as these digits.
use linuxax.Prelude.{
  ℕ, suc, ◌+◌, ◌-◌, ◌*◌, ◌/◌, ◌%◌, ◌≤◌, ◌<◌, ◌≡◌, ◌↔◌, get_or, ◌∙◌, sym, ap, refl, Bool, true, List,
  [], ◌∷◌, some, bit_and, bit_or, ◌==◌, length, All, arith, Bool-cases, inl, inr, ==_iff, some_inj,
}
use linuxax.Prelude.Bits.{and_ff, all_below, all_below_sound}
use linuxax.Address.{
  strspn, is_digit, rose_differ, rose_cmp, rose_bytes, rose_aton, hex_digit, rose_ntoa,
}

strspn-length_le : (s : List ℕ) (accept : ℕ → Bool) → strspn s accept ≤ length s
unfolding strspn
strspn-length_le [] accept = omega arith
strspn-length_le (c ∷ s) accept = ground (arith, strspn-length_le s accept)

-- `strspn` reaches the end exactly if every character is in the set.
pub strspn-All :
    (s : List ℕ) (accept : ℕ → Bool) → strspn s accept ≡ length s → All (λ c. accept c ≡ true) s
unfolding strspn
strspn-All [] accept e = tt
strspn-All (c ∷ s) accept e = elim (Bool-cases (accept c)) [
  | inl here ↦ (here, strspn-All s accept (ground arith))
  | inr out ↦ absurd (ground arith)
]

pub strspn-length :
    (s : List ℕ) (accept : ℕ → Bool) → All (λ c. accept c ≡ true) s → strspn s accept ≡ length s
unfolding strspn
strspn-length [] accept all = refl
strspn-length (c ∷ s) accept (here, all) = rw here (ap suc (strspn-length s accept all))

two_digits : all_below 10 (λ h. all_below 10 (λ l. bit_or (h * 16) l == h * 16 + l)) ≡ true
unfolding all_below
two_digits = refl

or-two_digits : (h l : ℕ) → h < 10 → l < 10 → bit_or (h * 16) l ≡ h * 16 + l
or-two_digits h l p q =
    let row = all_below_sound 10 _ h p two_digits in (==_iff _ _).0 (all_below_sound 10 _ l q row)

digit_bounds : (c : ℕ) → is_digit c ≡ true → (0x30 ≤ c) × (c < 0x3a)
unfolding is_digit
digit_bounds c e = ground arith

hex_digit-digit : (n : ℕ) → n < 10 → hex_digit n ≡ 0x30 + n
unfolding hex_digit
hex_digit-digit n h = ground arith

rose_ntoa-rose_bytes :
    (addr : List ℕ)
    → All (λ c. is_digit c ≡ true) addr
    → length addr % 2 ≡ 0
    → rose_ntoa (rose_bytes addr) ≡ addr
unfolding rose_ntoa rose_bytes
rose_ntoa-rose_bytes [] digits even = refl
rose_ntoa-rose_bytes (c ∷ []) digits even = absurd (omega arith)
rose_ntoa-rose_bytes (c ∷ d ∷ addr) (first, (second, rest)) even =
    let low = digit_bounds c first in
    let high = digit_bounds d second in
    let h = c - 0x30 in
    let l = d - 0x30 in
    let byte : bit_and (bit_or (h * 16) l) 0xff ≡ h * 16 + l =
      omega (arith, and_ff (bit_or (h * 16) l), or-two_digits h l (omega arith) (omega arith)) in
    let upper : (h * 16 + l) / 16 ≡ h = omega arith in
    let lower : (h * 16 + l) % 16 ≡ l = omega arith in
    let one : hex_digit h ≡ c = hex_digit-digit h (omega arith) ∙ omega arith in
    let two : hex_digit l ≡ d = hex_digit-digit l (omega arith) ∙ omega arith in
    let tail = rose_ntoa-rose_bytes addr rest (omega arith) in
    rw (byte, upper, lower, one, two, tail)

-- A string that `rose_aton` accepts is what `rose_ntoa` prints of the address it gives.
pub rose_ntoa-rose_aton : (addr a : List ℕ) → rose_aton addr ≡ some a → rose_ntoa a ≡ addr
unfolding rose_aton
rose_ntoa-rose_aton addr a e = elim (Bool-cases (length addr == 10)) [
  | inr other ↦ absurd (ground arith)
  | inl ten ↦ elim (Bool-cases (strspn addr is_digit == 10)) [
    | inr other ↦ absurd (ground arith)
    | inl all ↦
        let count : length addr ≡ 10 = (==_iff _ _).0 ten in
        let reach : strspn addr is_digit ≡ 10 = (==_iff _ _).0 all in
        let bytes : rose_bytes addr ≡ a = some_inj (rw (ten, all) at e) in
        rw (sym bytes)
          (rose_ntoa-rose_bytes addr (strspn-All addr is_digit (reach ∙ sym count)) (omega arith))
  ]
]

-- Every string of ten digits is accepted, and nothing else is.
pub rose_aton_iff :
    (addr : List ℕ)
    → ((a : List ℕ) × (rose_aton addr ≡ some a))
      ↔ ((length addr ≡ 10) × All (λ c. is_digit c ≡ true) addr)
unfolding rose_aton
rose_aton_iff addr = (
  (λ (a, e). elim (Bool-cases (length addr == 10)) [
    | inr other ↦ absurd (ground arith)
    | inl ten ↦ elim (Bool-cases (strspn addr is_digit == 10)) [
      | inr other ↦ absurd (ground arith)
      | inl all ↦
          let count : length addr ≡ 10 = (==_iff _ _).0 ten in
          (count, strspn-All addr is_digit ((==_iff _ _).0 all ∙ sym count))
    ]
  ]),
  (λ (count, digits).
      let ten = (==_iff (length addr) 10).1 count in
      let all = (==_iff (strspn addr is_digit) 10).1 (strspn-length addr is_digit digits ∙ count) in
      (rose_bytes addr, rw (ten, all))),
)

-- `rose_cmp` answers 0 exactly if the five bytes agree.
pub rose_cmp_iff :
    (a b : List ℕ)
    → (rose_cmp a b ≡ 0) ↔ (
        (get_or a 0 0 ≡ get_or b 0 0)
        × (get_or a 1 0 ≡ get_or b 1 0)
        × (get_or a 2 0 ≡ get_or b 2 0)
        × (get_or a 3 0 ≡ get_or b 3 0)
        × (get_or a 4 0 ≡ get_or b 4 0))
unfolding rose_cmp rose_differ
rose_cmp_iff a b = ground (
  arith,
  ==_iff (get_or a 0 0) (get_or b 0 0),
  ==_iff (get_or a 1 0) (get_or b 1 0),
  ==_iff (get_or a 2 0) (get_or b 2 0),
  ==_iff (get_or a 3 0) (get_or b 3 0),
  ==_iff (get_or a 4 0) (get_or b 4 0),
)
