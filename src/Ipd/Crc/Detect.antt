-- ===== src/Ipd/Crc/Detect.antt =====
-- The checksum loses no byte: from the register after a byte, the byte can be had back.
use linuxax.Prelude.{
  ℕ, suc, ◌/◌, ◌%◌, ◌<◌, bit_xor, ◌≡◌, refl, sym, ap, ◌∙◌, true, ◌&&◌, List, [], ◌∷◌, ◌++◌, ◌==◌,
  ==_iff, if◌then◌else◌, arith, All, get_or,
}
use linuxax.Prelude.Bits.{
  all_below, all_below_sound, xor_comm, zero-xor, xor-div_pow, xor_lt, and_ff, xor_right_inj,
}
use linuxax.Ipd.Crc.{fcs_table, fcs_byte, pppfcs, init_fcs, ok_crc}
use linuxax.Ipd.Crc.Reference.{xor_byte-div}

-- The place of the first entry with the given upper byte.
find_high : ℕ → List ℕ → ℕ
find_high h [] = 0
find_high h (t ∷ ts) = if t / 256 == h then 0 else suc (find_high h ts)

abbrev entry : ℕ → ℕ
entry i = get_or fcs_table i 0

entries :
    all_below 256 (λ i. (entry i / 65536 == 0) && (find_high (entry i / 256) fcs_table == i)) ≡ true
unfolding all_below fcs_table find_high
entries = refl

-- An entry fits 16 bits, and its upper byte tells its place.
entry_facts : (i : ℕ) → i < 256 → (entry i / 65536 ≡ 0) × (find_high (entry i / 256) fcs_table ≡ i)
entry_facts i h = ground (
  arith,
  all_below_sound 256 (λ i. (entry i / 65536 == 0) && (find_high (entry i / 256) fcs_table == i)) i
      h entries,
)

entry_inj : (i j : ℕ) → i < 256 → j < 256 → entry i / 256 ≡ entry j / 256 → i ≡ j
entry_inj i j h k e =
    sym (entry_facts i h).1 ∙ ap (λ t. find_high t fcs_table) e ∙ (entry_facts j k).1

fcs_byte-eq-entry : (fcs c : ℕ) → fcs_byte fcs c ≡ bit_xor (fcs / 256) (entry (bit_xor fcs c % 256))
unfolding fcs_byte
fcs_byte-eq-entry fcs c = rw (and_ff (bit_xor fcs c))

-- What the loop keeps: the register fits 16 bits.
pub fcs_byte-lt : (fcs c : ℕ) → fcs < 65536 → fcs_byte fcs c < 65536
fcs_byte-lt fcs c h = rw (fcs_byte-eq-entry fcs c) (
    xor_lt 16 (fcs / 256) (entry (bit_xor fcs c % 256)) (omega arith)
      (omega (arith, entry_facts (bit_xor fcs c % 256) (omega arith))))

pub pppfcs-lt : (fcs : ℕ) (cp : List ℕ) → fcs < 65536 → pppfcs fcs cp < 65536
unfolding pppfcs
pppfcs-lt fcs [] h = h
pppfcs-lt fcs (c ∷ cp) h = pppfcs-lt (fcs_byte fcs c) cp (fcs_byte-lt fcs c h)

-- The upper byte of the new register is that of the entry.
fcs_byte-div : (fcs c : ℕ) → fcs < 65536 → fcs_byte fcs c / 256 ≡ entry (bit_xor fcs c % 256) / 256
fcs_byte-div fcs c h =
    let none_left : fcs / 256 / 256 ≡ 0 = omega arith in
    rw (fcs_byte-eq-entry fcs c)
      (xor-div_pow 8 (fcs / 256) (entry (bit_xor fcs c % 256)) ∙ rw none_left (zero-xor _))

fcs_byte_inj :
    (f g c d : ℕ)
    → f < 65536
    → g < 65536
    → c < 256
    → d < 256
    → fcs_byte f c ≡ fcs_byte g d
    → bit_xor f c ≡ bit_xor g d
fcs_byte_inj f g c d hf hg hc hd e =
    omega (arith, low, high low, xor_byte-div f c hc, xor_byte-div g d hd)
  where
    low : bit_xor f c % 256 ≡ bit_xor g d % 256
    low =
        entry_inj (bit_xor f c % 256) (bit_xor g d % 256) (omega arith) (omega arith)
          (sym (fcs_byte-div f c hf) ∙ ap (λ t. t / 256) e ∙ fcs_byte-div g d hg)

    high : bit_xor f c % 256 ≡ bit_xor g d % 256 → f / 256 ≡ g / 256
    high l =
        xor_right_inj (f / 256) (g / 256) (entry (bit_xor g d % 256))
          (rw l at (sym (fcs_byte-eq-entry f c) ∙ e ∙ fcs_byte-eq-entry g d))

-- The same bytes lead from different registers to different registers.
pppfcs_inj :
    (s : List ℕ) (f g : ℕ)
    → f < 65536
    → g < 65536
    → All (λ c. c < 256) s
    → pppfcs f s ≡ pppfcs g s
    → f ≡ g
unfolding pppfcs
pppfcs_inj [] f g hf hg h e = e
pppfcs_inj (c ∷ s) f g hf hg h e = xor_right_inj f g c (
    fcs_byte_inj f g c c hf hg h.0 h.0
      (pppfcs_inj s (fcs_byte f c) (fcs_byte g c) (fcs_byte-lt f c hf) (fcs_byte-lt g c hg) h.1 e))

-- Two neighbouring bytes can be had back from the register that they lead to.
pub fcs_two_bytes_inj :
    (f c c' d d' : ℕ)
    → f < 65536
    → c < 256
    → c' < 256
    → d < 256
    → d' < 256
    → fcs_byte (fcs_byte f c) c' ≡ fcs_byte (fcs_byte f d) d'
    → (c ≡ d) × (c' ≡ d')
fcs_two_bytes_inj f c c' d d' hf hc hc' hd hd' e = (first, second)
  where
    inner : bit_xor (fcs_byte f c) c' ≡ bit_xor (fcs_byte f d) d'
    inner =
        fcs_byte_inj (fcs_byte f c) (fcs_byte f d) c' d' (fcs_byte-lt f c hf) (fcs_byte-lt f d hf)
          hc' hd' e

    places : bit_xor f c % 256 ≡ bit_xor f d % 256
    places = entry_inj (bit_xor f c % 256) (bit_xor f d % 256) (omega arith) (omega arith) (
        omega (
          arith,
          ap (λ t. t / 256) inner,
          xor_byte-div (fcs_byte f c) c' hc',
          xor_byte-div (fcs_byte f d) d' hd',
          fcs_byte-div f c hf,
          fcs_byte-div f d hf,
        ))

    whole : bit_xor f c ≡ bit_xor f d
    whole = omega (arith, places, xor_byte-div f c hc, xor_byte-div f d hd)

    first : c ≡ d
    first = xor_right_inj c d f (xor_comm c f ∙ whole ∙ xor_comm f d)

    second : c' ≡ d'
    second = xor_right_inj c' d' (fcs_byte f d) (
        xor_comm c' (fcs_byte f d)
        ∙ ap (λ t. bit_xor (fcs_byte f t) c') (sym first)
        ∙ inner
        ∙ xor_comm (fcs_byte f d) d')

pub pppfcs-append : (f : ℕ) (p q : List ℕ) → pppfcs f (p ++ q) ≡ pppfcs (pppfcs f p) q
unfolding pppfcs
pppfcs-append f [] q = refl
pppfcs-append f (c ∷ p) q = pppfcs-append (fcs_byte f c) p q

-- Error detection: of two buffers that differ in one byte or in two neighbouring bytes and agree
-- elsewhere, `ok_crc` accepts at most one.
pub ok_crc_detects :
    (p s : List ℕ) (c c' d d' : ℕ)
    → c < 256
    → c' < 256
    → d < 256
    → d' < 256
    → All (λ b. b < 256) s
    → ok_crc (p ++ (c ∷ c' ∷ s)) ≡ true
    → ok_crc (p ++ (d ∷ d' ∷ s)) ≡ true
    → (c ≡ d) × (c' ≡ d')
unfolding ok_crc pppfcs
ok_crc_detects p s c c' d d' hc hc' hd hd' hs e e' =
    fcs_two_bytes_inj f c c' d d' small hc hc' hd hd' (
      pppfcs_inj s (fcs_byte (fcs_byte f c) c') (fcs_byte (fcs_byte f d) d')
        (fcs_byte-lt _ c' (fcs_byte-lt f c small)) (fcs_byte-lt _ d' (fcs_byte-lt f d small)) hs
        (sym (pppfcs-append init_fcs p (c ∷ c' ∷ s))
          ∙ (==_iff _ _).0 e
          ∙ sym ((==_iff _ _).0 e')
          ∙ pppfcs-append init_fcs p (d ∷ d' ∷ s)))
  where
    f : ℕ
    f = pppfcs init_fcs p

    small : f < 65536
    small = pppfcs-lt init_fcs p (omega arith)
