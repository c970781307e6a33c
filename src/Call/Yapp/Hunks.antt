-- ===== src/Call/Yapp/Hunks.antt =====
-- Where the hunks that are read begin and end makes no difference to either side of YAPP.
pub mod Drained
pub mod Overlap
pub mod Pieces
pub mod Reads
pub mod Runs
use linuxax.Prelude.{
  ℕ, zero, suc, ◌+◌, ◌-◌, ◌≤◌, ◌<◌, ◌≡◌, refl, ap, sym, ◌∙◌, Bool, true, false, ◌||◌, List, [], ◌∷◌,
  ◌++◌, Option, none, some, ◌==◌, leb, leb→le, length, length-append, drop, All, arith,
  append_assoc, append-nil, Bool-cases, inl, inr, if◌then◌else◌,
}
use linuxax.Ipd.Frame.{◌>>=◌}
use linuxax.Call.Yapp.{packet_length, drain, read_hunk, read_hunks}

abbrev pub IsByte : ℕ → Type 0
IsByte c = c < 256

pub two-le-packet_length : (yappc : Bool) (b0 b1 : ℕ) → 2 ≤ packet_length yappc b0 b1
unfolding packet_length
two-le-packet_length yappc b0 b1 = ground arith

pub packet_length-le : (yappc : Bool) (b0 b1 : ℕ) → b1 < 256 → packet_length yappc b0 b1 ≤ 259
unfolding packet_length
packet_length-le yappc b0 b1 h = ground arith

pub length-drop {ℓ} : {A : Type ℓ} (n : ℕ) (xs : List A) → length (drop n xs) ≡ length xs - n
length-drop zero xs = omega arith
length-drop (suc n) [] = omega arith
length-drop (suc n) (x ∷ xs) = omega (arith, length-drop n xs)

pub drop-append {ℓ} :
    {A : Type ℓ} (n : ℕ) (xs ys : List A) → n ≤ length xs → drop n (xs ++ ys) ≡ drop n xs ++ ys
drop-append zero xs ys h = refl
drop-append (suc n) [] ys h = absurd (omega arith)
drop-append (suc n) (x ∷ xs) ys h = drop-append n xs ys (omega arith)

pub All-drop {ℓ κ} :
    {A : Type ℓ} (P : A → Type κ) (n : ℕ) (xs : List A) → All P xs → All P (drop n xs)
All-drop P zero xs h = h
All-drop P (suc n) [] h = h
All-drop P (suc n) (x ∷ xs) h = All-drop P n xs h.1

pub All-append {ℓ κ} :
    {A : Type ℓ} (P : A → Type κ) (xs ys : List A) → All P xs → All P ys → All P (xs ++ ys)
All-append P [] ys h k = k
All-append P (x ∷ xs) ys h k = (h.0, All-append P xs ys h.1 k)

or_true : (a b : Bool) → b ≡ true → (a || b) ≡ true
or_true true b e = refl
or_true false b e = e

drop_all {ℓ} : {A : Type ℓ} (n : ℕ) (xs : List A) → n ≡ length xs → drop n xs ≡ []
drop_all zero [] h = refl
drop_all zero (x ∷ xs) h = absurd (omega arith)
drop_all (suc n) [] h = absurd (omega arith)
drop_all (suc n) (x ∷ xs) h = drop_all n xs (omega arith)

module _ {S : Type 0} (handle : S → (b0 b1 : ℕ) (body : List ℕ) → Bool × S) (yappc : S → Bool) where
  -- The handler looks at the bytes of its packet only.
  abbrev pub IsLocal : Type 0
  IsLocal =
      (s : S) (b0 b1 : ℕ) (body ys : List ℕ)
      → packet_length (yappc s) b0 b1 ≤ length (b0 ∷ b1 ∷ body)
      → handle s b0 b1 (body ++ ys) ≡ handle s b0 b1 body

  -- More fuel than there are bytes changes nothing.
  pub drain_fuel :
      (fuel fuel' : ℕ) (s : S) (buffer : List ℕ)
      → length buffer < fuel
      → length buffer < fuel'
      → drain true handle yappc fuel s buffer ≡ drain true handle yappc fuel' s buffer
  unfolding drain
  drain_fuel zero fuel' s buffer h k = absurd (omega arith)
  drain_fuel (suc fuel) zero s buffer h k = absurd (omega arith)
  drain_fuel (suc fuel) (suc fuel') s [] h k = refl
  drain_fuel (suc fuel) (suc fuel') s (b0 ∷ []) h k = refl
  drain_fuel (suc fuel) (suc fuel') s (b0 ∷ b1 ∷ body) h k =
      let n = packet_length (yappc s) b0 b1 in
      elim (Bool-cases (leb n (length (b0 ∷ b1 ∷ body)))) [
        | inr short ↦ rw (short, drain) refl
        | inl whole ↦ elim (Bool-cases (handle s b0 b1 body).0) [
          | inr over ↦ rw (whole, over, drain) refl
          | inl on ↦
              let shorter : length (drop n (b0 ∷ b1 ∷ body)) + 2 ≤ length (b0 ∷ b1 ∷ body) =
                omega
                  (arith, length-drop n (b0 ∷ b1 ∷ body), two-le-packet_length (yappc s) b0 b1) in
              rw (whole, on, drain)
                (drain_fuel fuel fuel' (handle s b0 b1 body).1 (drop n (b0 ∷ b1 ∷ body))
                  (omega (arith, shorter)) (omega (arith, shorter)))
        ]
      ]

  -- One round of the loop over a whole packet.
  pub drain_stops :
      (moves : Bool) (fuel : ℕ) (s : S) (b0 b1 : ℕ) (body : List ℕ)
      → packet_length (yappc s) b0 b1 ≤ length (b0 ∷ b1 ∷ body)
      → (handle s b0 b1 body).0 ≡ false
      → drain moves handle yappc (suc fuel) s (b0 ∷ b1 ∷ body)
        ≡ some (false, (handle s b0 b1 body).1, b0 ∷ b1 ∷ body)
  unfolding drain
  drain_stops moves fuel s b0 b1 body h over =
      let whole : leb (packet_length (yappc s) b0 b1) (length (b0 ∷ b1 ∷ body)) ≡ true =
        ground (arith, h) in
      rw (whole, over, drain) refl

  -- A packet with nothing behind it leaves nothing to move.
  pub drain_alone :
      (moves : Bool) (fuel : ℕ) (s : S) (b0 b1 : ℕ) (body : List ℕ)
      → packet_length (yappc s) b0 b1 ≡ length (b0 ∷ b1 ∷ body)
      → (handle s b0 b1 body).0 ≡ true
      → drain moves handle yappc (suc (suc fuel)) s (b0 ∷ b1 ∷ body)
        ≡ some (true, (handle s b0 b1 body).1, [])
  unfolding drain
  drain_alone moves fuel s b0 b1 body e on =
      let n = packet_length (yappc s) b0 b1 in
      let whole : leb n (length (b0 ∷ b1 ∷ body)) ≡ true = ground (arith, e) in
      let apart : (moves || leb (length (b0 ∷ b1 ∷ body) - n) n) ≡ true =
        or_true moves (leb (length (b0 ∷ b1 ∷ body) - n) n) (ground (arith, e)) in
      let gone : drop n (b0 ∷ b1 ∷ body) ≡ [] = drop_all n (b0 ∷ b1 ∷ body) e in
      rw (whole, on, drain) (rw (apart, gone) refl)

  pub drain_goes :
      (fuel : ℕ) (s : S) (b0 b1 : ℕ) (body : List ℕ)
      → packet_length (yappc s) b0 b1 ≤ length (b0 ∷ b1 ∷ body)
      → (handle s b0 b1 body).0 ≡ true
      → drain true handle yappc (suc fuel) s (b0 ∷ b1 ∷ body)
        ≡ drain true handle yappc fuel
            (handle s b0 b1 body).1
            (drop (packet_length (yappc s) b0 b1) (b0 ∷ b1 ∷ body))
  unfolding drain
  drain_goes fuel s b0 b1 body h on =
      let whole : leb (packet_length (yappc s) b0 b1) (length (b0 ∷ b1 ∷ body)) ≡ true =
        ground (arith, h) in
      rw (whole, on, drain) refl
