-- ===== src/Ipd/Call/Order.antt =====
-- Callsigns in the form of the tables, and what `addrcompare` tells of two of them.
use linuxax.Prelude.{
  ℕ, zero, suc, ◌+◌, ◌-◌, ◌*◌, ◌/◌, ◌%◌, ◌≤◌, ◌<◌, ◌≡◌, ◌↔◌, bit_and, bit_or, true, List, [], ◌∷◌,
  ◌==◌, ==_iff, get_or, length, arith, refl, sym, ◌∙◌,
}
use linuxax.Prelude.Bits.{and_fe, and_1e, all_below, all_below_sound}
use native.Mathlib.Decide.{ℕ_discrete}
use linuxax.Ipd.Call.{zero_diff, diff, first_diff, addrcompare, normal_call}

abbrev pub IsEvenByte : ℕ → Type 0
IsEvenByte x = (x < 256) × (x % 2 ≡ 0)

-- Seven bytes with the lowest bit clear.
pub record IsNormal (c : List ℕ) : Type 0 where
  pub seven : length c ≡ 7
  pub even : (i : ℕ) → IsEvenByte (get_or c i 0)

or_60 : (v : ℕ) → v < 32 → bit_or v 0x60 ≡ v + 0x60
or_60 v h = (==_iff _ _).0 (all_below_sound 32 (λ x. bit_or x 0x60 == x + 0x60) v h table)
  where
    table : all_below 32 (λ x. bit_or x 0x60 == x + 0x60) ≡ true
    table = unfold all_below in refl

normal_ssid : (x : ℕ) → bit_or (bit_and x 0x1e) 0x60 ≡ x / 2 % 16 * 2 + 96
normal_ssid x = rw (and_1e x) (or_60 (x / 2 % 16 * 2) (omega arith))

-- What is entered in a table, or looked up, has the normal form, whatever was given.
pub normal_call-IsNormal : (call : List ℕ) → IsNormal (normal_call call)
unfolding normal_call
normal_call-IsNormal call = record { seven = refl; even = λ i. even i }
  where
    even : (i : ℕ) → IsEvenByte (get_or (normal_call call) i 0)
    even zero = omega (arith, and_fe (get_or call 0 0))
    even (suc zero) = omega (arith, and_fe (get_or call 1 0))
    even (suc (suc zero)) = omega (arith, and_fe (get_or call 2 0))
    even (suc (suc (suc zero))) = omega (arith, and_fe (get_or call 3 0))
    even (suc (suc (suc (suc zero)))) = omega (arith, and_fe (get_or call 4 0))
    even (suc (suc (suc (suc (suc zero))))) = omega (arith, and_fe (get_or call 5 0))
    even (suc (suc (suc (suc (suc (suc zero)))))) = omega (arith, normal_ssid (get_or call 6 0))
    even (suc (suc (suc (suc (suc (suc (suc i))))))) = omega arith

diff-zero_iff :
    (i : ℕ) (a b : List ℕ)
    → IsEvenByte (get_or a i 0)
    → IsEvenByte (get_or b i 0)
    → (diff i a b ≡ zero_diff) ↔ (get_or a i 0 ≡ get_or b i 0)
unfolding diff
diff-zero_iff i a b ha hb = ground (arith, and_fe ((get_or a i 0 + 256 - get_or b i 0) % 256))

module _ (a b : List ℕ) (ha : IsNormal a) (hb : IsNormal b) where
  first_diff-zero :
      (left i : ℕ)
      → first_diff left i a b ≡ zero_diff
      → (j : ℕ) → i ≤ j
      → j < i + left
      → get_or a j 0 ≡ get_or b j 0
  unfolding first_diff
  first_diff-zero zero i e j p q = absurd (omega arith)
  first_diff-zero (suc left) i e j p q = elim (ℕ_discrete j i) [
    | yes here ↦ rw here ((diff-zero_iff i a b (ha.even i) (hb.even i)).0 (head_zero i left e))
    | no more ↦ first_diff-zero left (i + 1) (rest_zero i left e) j (omega arith) (omega arith)
  ]
    where
      head_zero : (i left : ℕ) → first_diff (suc left) i a b ≡ zero_diff → diff i a b ≡ zero_diff
      head_zero i left e = ground arith

      rest_zero :
          (i left : ℕ)
          → first_diff (suc left) i a b ≡ zero_diff
          → first_diff left (i + 1) a b ≡ zero_diff
      rest_zero i left e = ground arith

pub get_or_ext :
    (xs ys : List ℕ)
    → length xs ≡ length ys
    → ((i : ℕ) → i < length xs → get_or xs i 0 ≡ get_or ys i 0)
    → xs ≡ ys
get_or_ext [] [] e h = refl
get_or_ext [] (y ∷ ys) e h = absurd (omega arith)
get_or_ext (x ∷ xs) [] e h = absurd (omega arith)
get_or_ext (x ∷ xs) (y ∷ ys) e h =
    cc (h 0 (omega arith), get_or_ext xs ys (omega arith) (λ i lt. h (suc i) (omega arith)))

diff_self : (i : ℕ) (a : List ℕ) → get_or a i 0 < 256 → diff i a a ≡ zero_diff
unfolding diff
diff_self i a h = ground (arith, and_fe ((get_or a i 0 + 256 - get_or a i 0) % 256))

first_diff_self : (left i : ℕ) (a : List ℕ) → IsNormal a → first_diff left i a a ≡ zero_diff
unfolding first_diff
first_diff_self zero i a h = refl
first_diff_self (suc left) i a h =
    rw (diff_self i a (h.even i).0, first_diff) (first_diff_self left (i + 1) a h)

-- Of callsigns in normal form `addrcompare` finds no difference exactly if they are the same.
pub addrcompare-zero_iff :
    (a b : List ℕ) → IsNormal a → IsNormal b → (addrcompare a b ≡ zero_diff) ↔ (a ≡ b)
unfolding addrcompare
addrcompare-zero_iff a b ha hb = (
  (λ e.
      get_or_ext a b (ha.seven ∙ sym hb.seven)
        (λ i lt. first_diff-zero a b ha hb 7 0 e i (omega arith) (omega (arith, ha.seven)))),
  (λ e. rw (← e) (first_diff_self 7 0 a ha)),
)
