-- ===== src/Address/Compare.antt =====
-- What the result of `ax25_cmp` tells of two addresses.
use linuxax.Prelude.{
  ℕ, ◌/◌, ◌≡◌, ◌≢◌, ◌↔◌, ◌∷◌, [], ◌∙◌, All, ◌==◌, ==_iff, sym, length, refl, true, false, List,
  get_or, arith,
}
use linuxax.Prelude.Bits.{and_fe, and_1e, and_7f}
use linuxax.Ipd.Call.Match.{char, ssid}
use linuxax.Address.Rose.{strspn-All, strspn-length}
use linuxax.Address.{unlike, ax25_cmp, is_call_char, strspn, ax25_validate}

unlike-char : (i : ℕ) (a b : List ℕ) → (unlike 0xfe i a b ≡ false) ↔ (char a i ≡ char b i)
unfolding unlike
unlike-char i a b = ground (arith, and_fe (get_or a i 0), and_fe (get_or b i 0))

unlike-ssid : (a b : List ℕ) → (unlike 0x1e 6 a b ≡ false) ↔ (ssid a ≡ ssid b)
unfolding unlike
unlike-ssid a b = ground (arith, and_1e (get_or a 6 0), and_1e (get_or b 6 0))

abbrev pub SameChars : List ℕ → List ℕ → Type 0
SameChars a b =
    (char a 0 ≡ char b 0)
    × (char a 1 ≡ char b 1)
    × (char a 2 ≡ char b 2)
    × (char a 3 ≡ char b 3)
    × (char a 4 ≡ char b 4)
    × (char a 5 ≡ char b 5)

-- `ax25_cmp` answers 0 exactly if the six characters and the SSIDs agree, 2 exactly if the
-- characters agree and the SSIDs do not, and 1 exactly if some character differs.
pub ax25_cmp_lem :
    (a b : List ℕ)
    → ((ax25_cmp a b ≡ 0) ↔ (SameChars a b × (ssid a ≡ ssid b)))
      × ((ax25_cmp a b ≡ 2) ↔ (SameChars a b × (ssid a ≢ ssid b)))
      × ((ax25_cmp a b ≡ 1) ↔ (SameChars a b → ⊥))
unfolding ax25_cmp
ax25_cmp_lem a b = ground (
  arith,
  unlike-char 0 a b,
  unlike-char 1 a b,
  unlike-char 2 a b,
  unlike-char 3 a b,
  unlike-char 4 a b,
  unlike-char 5 a b,
  unlike-ssid a b,
)

-- `ax25_validate` answers true exactly if the six characters are digits, capital letters or blanks.
pub ax25_validate_iff :
    (call : List ℕ)
    → (ax25_validate call ≡ true)
      ↔ All
          (λ c. is_call_char c ≡ true)
          (char call 0 ∷ char call 1 ∷ char call 2 ∷ char call 3 ∷ char call 4 ∷ char call 5 ∷ [])
unfolding ax25_validate
ax25_validate_iff call =
    rw
      (
        and_7f (get_or call 0 0 / 2),
        and_7f (get_or call 1 0 / 2),
        and_7f (get_or call 2 0 / 2),
        and_7f (get_or call 3 0 / 2),
        and_7f (get_or call 4 0 / 2),
        and_7f (get_or call 5 0 / 2),
      )
      (spans
        (char call 0 ∷ char call 1 ∷ char call 2 ∷ char call 3 ∷ char call 4 ∷ char call 5 ∷ [])
        refl)
  where
    spans :
        (s : List ℕ)
        → length s ≡ 6
        → ((strspn s is_call_char == 6) ≡ true) ↔ All (λ c. is_call_char c ≡ true) s
    spans s six = (
      (λ e. strspn-All s is_call_char ((==_iff _ _).0 e ∙ sym six)),
      (λ all. (==_iff _ _).1 (strspn-length s is_call_char all ∙ six)),
    )
