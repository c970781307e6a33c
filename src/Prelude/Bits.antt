-- ===== src/Prelude/Bits.antt =====
-- Laws of the native bit operations at variables: the lowest binary digit first, then the laws
-- of `^` (`bit_xor`) that the checksums rest on, and a check of a byte by its 256 values.
use Prim.Native.Nat.{ℕ, zero, suc, ◌+◌, ◌-◌, ◌*◌, ◌/◌, ◌%◌, ◌^◌, ◌≤◌, ◌<◌, min, max, differ}
use Prim.Native.Nat.{bit_and, bit_or, bit_xor, digits, bitwise}
use Prim.Native.Nat.{bit_and-bitwise, bit_or-bitwise, bit_xor-bitwise}
use mathlib.Core.Path.{◌≡◌, refl, sym, ap, ap₂, ◌∙◌, ◌≡⟨◌⟩◌, ◌∎}
use mathlib.Core.Bool.{Bool, true, ◌&&◌}
use mathlib.Core.Logic.{◌↔◌}
use native.Mathlib.Nat.{
  le_refl, pow-suc, one-le-pow, mod-lt, mod-eq_of_lt, div-add-mod', mul-add-mod_self_right,
  div-div-eq-div-mul, div-one, mul-one,
}
use native.Mathlib.Omega.{arith}

-- A property of every number below a bound, by evaluation.
unfoldable pub all_below : ℕ → (ℕ → Bool) → Bool
all_below zero test = true
all_below (suc bound) test = all_below bound test && test bound

pub all_below_sound :
    (bound : ℕ) (test : ℕ → Bool) (x : ℕ) → x < bound → all_below bound test ≡ true → test x ≡ true
unfolding all_below
all_below_sound zero test x lt all = absurd (omega arith)
all_below_sound (suc bound) test x lt all = ground (arith, all_below_sound bound test x)

-- One more digit of fuel than the number needs changes nothing, and so no number of them does.
module _ (z : ℕ → ℕ) (f : ℕ → ℕ → ℕ) where
  digits-suc : (a b n : ℕ) → a ≤ n → digits z f (suc n) a b ≡ digits z f n a b
  digits-suc zero b zero enough = refl
  digits-suc zero b (suc n) enough = refl
  digits-suc (suc a) b zero enough = absurd (omega arith)
  digits-suc (suc a) b (suc n) enough =
      ap (λ t. t * 2 + f (suc a % 2) (b % 2)) (digits-suc (suc a / 2) (b / 2) n (omega arith))

  digits-enough : (k a b n : ℕ) → n ≡ a + k → digits z f n a b ≡ bitwise z f a b
  digits-enough zero a b n e = let same : n ≡ a = omega arith in rw same (refl)
  digits-enough (suc k) a b n e =
      let more : n ≡ suc (a + k) = omega arith in
      rw more (digits-suc a b (a + k) (omega arith) ∙ digits-enough k a b (a + k) refl)

  bitwise-suc :
      (x y : ℕ)
      → bitwise z f (suc x) y ≡ bitwise z f (suc x / 2) (y / 2) * 2 + f (suc x % 2) (y % 2)
  bitwise-suc x y =
      ap (λ t. t * 2 + f (suc x % 2) (y % 2))
        (digits-enough (x - suc x / 2) (suc x / 2) (y / 2) x (omega arith))

differ-mod : (x y : ℕ) → x < 2 → y < 2 → differ x y ≡ (x + y) % 2
differ-mod zero y h k = omega arith
differ-mod (suc zero) zero h k = refl
differ-mod (suc zero) (suc zero) h k = refl
differ-mod (suc zero) (suc (suc y)) h k = absurd (omega arith)
differ-mod (suc (suc x)) y h k = absurd (omega arith)

pub xor_step : (a b : ℕ) → bit_xor a b ≡ bit_xor (a / 2) (b / 2) * 2 + (a % 2 + b % 2) % 2
xor_step zero b = simp bit_xor-bitwise (omega arith)
xor_step (suc a) b = omega (
  arith,
  bit_xor-bitwise (suc a) b,
  bit_xor-bitwise (suc a / 2) (b / 2),
  bitwise-suc (λ y. y) differ a b,
  differ-mod (suc a % 2) (b % 2) (omega arith) (omega arith),
)

pub and_step : (x y : ℕ) → bit_and x y ≡ bit_and (x / 2) (y / 2) * 2 + min (x % 2) (y % 2)
and_step zero y = simp bit_and-bitwise (omega arith)
and_step (suc x) y = simp bit_and-bitwise (bitwise-suc (λ t. 0) min x y)

pub or_step : (x y : ℕ) → bit_or x y ≡ bit_or (x / 2) (y / 2) * 2 + max (x % 2) (y % 2)
or_step zero y = simp bit_or-bitwise (omega arith)
or_step (suc x) y = simp bit_or-bitwise (bitwise-suc (λ t. t) max x y)

-- The laws go from the halves to the number, hence a bound that falls.
pub xor_comm_below : (n a b : ℕ) → a ≤ n → b ≤ n → bit_xor a b ≡ bit_xor b a
xor_comm_below zero zero zero h k = refl
xor_comm_below zero (suc a) b h k = absurd (omega arith)
xor_comm_below zero a (suc b) h k = absurd (omega arith)
xor_comm_below (suc n) a b h k = omega (
  arith,
  xor_step a b,
  xor_step b a,
  xor_comm_below n (a / 2) (b / 2) (omega arith) (omega arith),
)

pub xor_comm : (a b : ℕ) → bit_xor a b ≡ bit_xor b a
xor_comm a b = xor_comm_below (a + b) a b (omega arith) (omega arith)

xor_self_below : (n a : ℕ) → a ≤ n → bit_xor a a ≡ 0
xor_self_below n zero h = refl
xor_self_below zero (suc a) h = absurd (omega arith)
xor_self_below (suc n) (suc a) h =
    omega (arith, xor_step (suc a) (suc a), xor_self_below n (suc a / 2) (omega arith))

pub xor_self : (a : ℕ) → bit_xor a a ≡ 0
xor_self a = xor_self_below a a (le_refl _)

pub zero-xor : (a : ℕ) → bit_xor 0 a ≡ a
zero-xor a = bit_xor-bitwise 0 a

pub xor-zero : (a : ℕ) → bit_xor a 0 ≡ a
xor-zero a = xor_comm a 0 ∙ zero-xor a

pub xor-div : (a b : ℕ) → bit_xor a b / 2 ≡ bit_xor (a / 2) (b / 2)
xor-div a b = omega (arith, xor_step a b)

pub xor-mod : (a b : ℕ) → bit_xor a b % 2 ≡ (a % 2 + b % 2) % 2
xor-mod a b = omega (arith, xor_step a b)

xor_step_left :
    (a b c : ℕ)
    → bit_xor (bit_xor a b) c
      ≡ bit_xor (bit_xor (a / 2) (b / 2)) (c / 2) * 2 + ((a % 2 + b % 2) % 2 + c % 2) % 2
xor_step_left a b c = xor_step (bit_xor a b) c ∙ rw (xor-div a b, xor-mod a b)

xor_step_right :
    (a b c : ℕ)
    → bit_xor a (bit_xor b c)
      ≡ bit_xor (a / 2) (bit_xor (b / 2) (c / 2)) * 2 + (a % 2 + (b % 2 + c % 2) % 2) % 2
xor_step_right a b c = xor_step a (bit_xor b c) ∙ rw (xor-div b c, xor-mod b c)

xor_assoc_below :
    (n a b c : ℕ) → a ≤ n → b ≤ n → c ≤ n → bit_xor (bit_xor a b) c ≡ bit_xor a (bit_xor b c)
xor_assoc_below zero zero zero zero h k l = refl
xor_assoc_below zero (suc a) b c h k l = absurd (omega arith)
xor_assoc_below zero a (suc b) c h k l = absurd (omega arith)
xor_assoc_below zero a b (suc c) h k l = absurd (omega arith)
xor_assoc_below (suc n) a b c h k l = omega (
  arith,
  xor_step_left a b c,
  xor_step_right a b c,
  xor_assoc_below n (a / 2) (b / 2) (c / 2) (omega arith) (omega arith) (omega arith),
)

pub xor_assoc : (a b c : ℕ) → bit_xor (bit_xor a b) c ≡ bit_xor a (bit_xor b c)
xor_assoc a b c = xor_assoc_below (a + b + c) a b c (omega arith) (omega arith) (omega arith)

div_pow_suc : (a k : ℕ) → a / 2 ^ suc k ≡ a / 2 ^ k / 2
div_pow_suc a k = rw (pow-suc 2 k) (sym (div-div-eq-div-mul a (2 ^ k) 2))

-- `^` acts on the bits above the lowest `k` and on those below by themselves.
pub xor-div_pow : (k a b : ℕ) → bit_xor a b / 2 ^ k ≡ bit_xor (a / 2 ^ k) (b / 2 ^ k)
xor-div_pow zero a b = simp div-one
xor-div_pow (suc k) a b =
    bit_xor a b / 2 ^ suc k
    ≡⟨ div_pow_suc (bit_xor a b) k ⟩ bit_xor a b / 2 ^ k / 2
    ≡⟨ ap (λ t. t / 2) (xor-div_pow k a b) ⟩ bit_xor (a / 2 ^ k) (b / 2 ^ k) / 2
    ≡⟨ xor-div (a / 2 ^ k) (b / 2 ^ k) ⟩ bit_xor (a / 2 ^ k / 2) (b / 2 ^ k / 2)
    ≡⟨ (rw (div_pow_suc a k, div_pow_suc b k)) ⟩ bit_xor (a / 2 ^ suc k) (b / 2 ^ suc k) ∎

mul_pow_suc : (q k : ℕ) → q * 2 ^ suc k ≡ 2 * (q * 2 ^ k)
mul_pow_suc q k = omega (arith, ap (λ (t : ℕ). q * t) (pow-suc 2 k))

xor_fields : (k q r : ℕ) → r < 2 ^ k → bit_xor (q * 2 ^ k) r ≡ q * 2 ^ k + r
xor_fields zero q r fits = ground (arith, xor-zero q)
xor_fields (suc k) q r fits =
    ground
      (arith, xor_step (q * 2 ^ suc k) r, mul_pow_suc q k, xor_fields k q (r / 2) (omega arith))

and-zero_below : (n a : ℕ) → a ≤ n → bit_and a 0 ≡ 0
and-zero_below n zero h = refl
and-zero_below zero (suc a) h = absurd (omega arith)
and-zero_below (suc n) (suc a) h =
    omega (arith, and_step (suc a) 0, and-zero_below n (suc a / 2) (omega arith))

and-zero : (a : ℕ) → bit_and a 0 ≡ 0
and-zero a = and-zero_below a a (le_refl _)

pub and-one : (a : ℕ) → bit_and a 1 ≡ a % 2
and-one a = omega (arith, and_step a 1, and-zero (a / 2))

and_03 : (a : ℕ) → bit_and a 0x03 ≡ a % 4
and_03 a = omega (arith, and_step a 3, and-one (a / 2))

and_07 : (a : ℕ) → bit_and a 0x07 ≡ a % 8
and_07 a = omega (arith, and_step a 7, and_03 (a / 2))

pub and_0f : (a : ℕ) → bit_and a 0x0f ≡ a % 16
and_0f a = omega (arith, and_step a 15, and_07 (a / 2))

-- A value over a multiple of 256 is a sum.
pub xor-shifted : (hi lo : ℕ) → lo < 256 → bit_xor (hi * 256) lo ≡ hi * 256 + lo
xor-shifted hi lo h = xor_fields 8 hi lo h

xor-mul_pow : (k a b : ℕ) → bit_xor (a * 2 ^ k) (b * 2 ^ k) ≡ bit_xor a b * 2 ^ k
xor-mul_pow zero a b = simp mul-one
xor-mul_pow (suc k) a b =
    let half_a : a * 2 ^ suc k / 2 ≡ a * 2 ^ k = omega (arith, mul_pow_suc a k) in
    let half_b : b * 2 ^ suc k / 2 ≡ b * 2 ^ k = omega (arith, mul_pow_suc b k) in
    xor_step (a * 2 ^ suc k) (b * 2 ^ suc k)
    ∙ rw (half_a, half_b, xor-mul_pow k a b)
        (omega (arith, mul_pow_suc a k, mul_pow_suc b k, mul_pow_suc (bit_xor a b) k))

pub xor_lt : (k a b : ℕ) → a < 2 ^ k → b < 2 ^ k → bit_xor a b < 2 ^ k
xor_lt zero a b h l =
    let za : a ≡ 0 = omega arith in let zb : b ≡ 0 = omega arith in rw (za, zb) (omega arith)
xor_lt (suc k) a b h l = omega (
  arith,
  pow-suc 2 k,
  xor_step a b,
  xor_lt k (a / 2) (b / 2) (omega (arith, pow-suc 2 k)) (omega (arith, pow-suc 2 k)),
)

and_1f : (a : ℕ) → bit_and a 0x1f ≡ a % 32
and_1f a = omega (arith, and_step a 31, and_0f (a / 2))

and_3f : (a : ℕ) → bit_and a 0x3f ≡ a % 64
and_3f a = omega (arith, and_step a 63, and_1f (a / 2))

pub and_7f : (a : ℕ) → bit_and a 0x7f ≡ a % 128
and_7f a = omega (arith, and_step a 127, and_3f (a / 2))

pub and_ff : (a : ℕ) → bit_and a 0xff ≡ a % 256
and_ff a = omega (arith, and_step a 255, and_7f (a / 2))

pub xor_swap :
    (a b c d : ℕ) → bit_xor (bit_xor a b) (bit_xor c d) ≡ bit_xor (bit_xor a c) (bit_xor b d)
xor_swap a b c d = rw (
  xor_assoc a b (bit_xor c d),
  ← xor_assoc b c d,
  xor_comm b c,
  xor_assoc c b d,
  ← xor_assoc a c (bit_xor b d),
)

pub xor_cancel : (a b : ℕ) → bit_xor (bit_xor a b) b ≡ a
xor_cancel a b = rw (xor_assoc a b b, xor_self b) (xor-zero a)

pub xor_right_inj : (a b c : ℕ) → bit_xor a c ≡ bit_xor b c → a ≡ b
xor_right_inj a b c e = sym (xor_cancel a c) ∙ ap (λ t. bit_xor t c) e ∙ xor_cancel b c

-- `^` acts on the lowest `k` bits by themselves.
pub xor-mod_pow : (k a b : ℕ) → bit_xor a b % 2 ^ k ≡ bit_xor (a % 2 ^ k) (b % 2 ^ k)
xor-mod_pow k a b = ap (λ t. t % 2 ^ k) apart ∙ top_drops (bit_xor (a / 2 ^ k) (b / 2 ^ k)) _ below
  where
    below : bit_xor (a % 2 ^ k) (b % 2 ^ k) < 2 ^ k
    below =
        xor_lt k (a % 2 ^ k) (b % 2 ^ k) (mod-lt a (one-le-pow k 2 (omega arith)))
          (mod-lt b (one-le-pow k 2 (omega arith)))

    split : (x : ℕ) → x ≡ bit_xor (x / 2 ^ k * 2 ^ k) (x % 2 ^ k)
    split x =
        sym (div-add-mod' x (2 ^ k))
        ∙ sym (xor_fields k (x / 2 ^ k) (x % 2 ^ k) (mod-lt x (one-le-pow k 2 (omega arith))))

    apart :
        bit_xor a b
        ≡ bit_xor (bit_xor (a / 2 ^ k) (b / 2 ^ k) * 2 ^ k) (bit_xor (a % 2 ^ k) (b % 2 ^ k))
    apart =
        ap₂ bit_xor (split a) (split b)
        ∙ xor_swap (a / 2 ^ k * 2 ^ k) (a % 2 ^ k) (b / 2 ^ k * 2 ^ k) (b % 2 ^ k)
        ∙ ap (λ t. bit_xor t (bit_xor (a % 2 ^ k) (b % 2 ^ k)))
            (xor-mul_pow k (a / 2 ^ k) (b / 2 ^ k))

    top_drops : (q r : ℕ) → r < 2 ^ k → bit_xor (q * 2 ^ k) r % 2 ^ k ≡ r
    top_drops q r h = rw (xor_fields k q r h) (mul-add-mod_self_right q (2 ^ k) r ∙ mod-eq_of_lt h)

pub xor-mod_256 : (a b : ℕ) → bit_xor a b % 256 ≡ bit_xor (a % 256) (b % 256)
xor-mod_256 = xor-mod_pow 8

-- One bit, read: from the lowest to the highest of a byte.
and_02 : (a : ℕ) → bit_and a 0x02 ≡ a / 2 % 2 * 2
and_02 a = omega (arith, and_step a 2, and-one (a / 2))

and_04 : (a : ℕ) → bit_and a 0x04 ≡ a / 4 % 2 * 4
and_04 a = omega (arith, and_step a 4, and_02 (a / 2))

and_08 : (a : ℕ) → bit_and a 0x08 ≡ a / 8 % 2 * 8
and_08 a = omega (arith, and_step a 8, and_04 (a / 2))

and_10 : (a : ℕ) → bit_and a 0x10 ≡ a / 16 % 2 * 16
and_10 a = omega (arith, and_step a 16, and_08 (a / 2))

and_20 : (a : ℕ) → bit_and a 0x20 ≡ a / 32 % 2 * 32
and_20 a = omega (arith, and_step a 32, and_10 (a / 2))

and_40 : (a : ℕ) → bit_and a 0x40 ≡ a / 64 % 2 * 64
and_40 a = omega (arith, and_step a 64, and_20 (a / 2))

pub and_80 : (a : ℕ) → bit_and a 0x80 ≡ a / 128 % 2 * 128
and_80 a = omega (arith, and_step a 128, and_40 (a / 2))

pub or-one : (a : ℕ) → bit_or a 1 % 2 ≡ 1
or-one a = omega (arith, or_step a 1)

-- One bit, set: it is set, and those below are kept.
or_02 : (a : ℕ) → (bit_or a 0x02 / 2 % 2 ≡ 1) × (bit_or a 0x02 % 2 ≡ a % 2)
or_02 a = omega (arith, or_step a 2, or-one (a / 2))

or_04 : (a : ℕ) → (bit_or a 0x04 / 4 % 2 ≡ 1) × (bit_or a 0x04 % 4 ≡ a % 4)
or_04 a = omega (arith, or_step a 4, or_02 (a / 2))

or_08 : (a : ℕ) → (bit_or a 0x08 / 8 % 2 ≡ 1) × (bit_or a 0x08 % 8 ≡ a % 8)
or_08 a = omega (arith, or_step a 8, or_04 (a / 2))

or_10 : (a : ℕ) → (bit_or a 0x10 / 16 % 2 ≡ 1) × (bit_or a 0x10 % 16 ≡ a % 16)
or_10 a = omega (arith, or_step a 16, or_08 (a / 2))

or_20 : (a : ℕ) → (bit_or a 0x20 / 32 % 2 ≡ 1) × (bit_or a 0x20 % 32 ≡ a % 32)
or_20 a = omega (arith, or_step a 32, or_10 (a / 2))

or_40 : (a : ℕ) → (bit_or a 0x40 / 64 % 2 ≡ 1) × (bit_or a 0x40 % 64 ≡ a % 64)
or_40 a = omega (arith, or_step a 64, or_20 (a / 2))

pub or_80 : (a : ℕ) → (bit_or a 0x80 / 128 % 2 ≡ 1) × (bit_or a 0x80 % 128 ≡ a % 128)
or_80 a = omega (arith, or_step a 128, or_40 (a / 2))

-- The bits of a character of a call (all but the lowest), and those of the SSID.
pub and_fe : (a : ℕ) → bit_and a 0xfe ≡ a % 256 / 2 * 2
and_fe a = omega (arith, and_step a 254, and_7f (a / 2))

pub and_1e : (a : ℕ) → bit_and a 0x1e ≡ a / 2 % 16 * 2
and_1e a = omega (arith, and_step a 30, and_0f (a / 2))

xor_eq_zero : (a b : ℕ) → bit_xor a b ≡ 0 → a ≡ b
xor_eq_zero a b e = xor_right_inj a b b (e ∙ sym (xor_self b))

-- The bits from 1 up to `k` of `a ^ b` are all 0 exactly if `a` and `b` agree there.
pub xor_bits_iff : (k a b : ℕ) → (bit_xor a b / 2 % 2 ^ k ≡ 0) ↔ (a / 2 % 2 ^ k ≡ b / 2 % 2 ^ k)
xor_bits_iff k a b = (
  (λ e. xor_eq_zero (a / 2 % 2 ^ k) (b / 2 % 2 ^ k) (sym split ∙ e)),
  (λ e. split ∙ ap (λ t. bit_xor t (b / 2 % 2 ^ k)) e ∙ xor_self (b / 2 % 2 ^ k)),
)
  where
    split : bit_xor a b / 2 % 2 ^ k ≡ bit_xor (a / 2 % 2 ^ k) (b / 2 % 2 ^ k)
    split = rw (xor-div a b) (xor-mod_pow k (a / 2) (b / 2))
