-- ===== src/Rtd/Entries.antt =====
-- The list operations of the caches: what unlinking an entry and making room leave of a list whose
-- keys are all different.
use linuxax.Prelude.{
  ℕ, zero, suc, ◌-◌, ◌≤◌, ◌≡◌, ◌≢◌, inl, inr, refl, sym, ap, ◌∙◌, Bool, true, false, List, [], ◌∷◌,
  ◌++◌, none, some, length, take, All, arith, leb, if◌then◌else◌, Bool-cases, Option-cases,
  some_inj, take-nil, take-all, length-take, leb→le,
}
use mathlib.Core.Path.{subst}
use linuxax.Ipd.Frame.{◌>>=◌}
use linuxax.Rtd.{unlink, drop_last, make_room}

module _ {ℓ} {A : Type ℓ} where
  -- The entries that do not meet the test.
  unfoldable pub without : (A → Bool) → List A → List A
  without test [] = []
  without test (e ∷ es) = if test e then without test es else e ∷ without test es

  pub record Unlinked (test : A → Bool) (es : List A) (e : A) (rest : List A) : Type ℓ where
    pub before : List A
    pub after : List A
    pub whole : es ≡ before ++ (e ∷ after)
    pub left : rest ≡ before ++ after
    pub hit : test e ≡ true

  pub unlink-Unlinked :
      (test : A → Bool) (es : List A) (e : A) (rest : List A)
      → unlink test es ≡ some (e, rest)
      → Unlinked test es e rest
  unfolding unlink
  unlink-Unlinked test [] e rest h = absurd (cc)
  unlink-Unlinked test (x ∷ es) e rest h = elim (Bool-cases (test x)) [
    | inl hit ↦
        let same : (x, es) ≡ (e, rest) = some_inj (rw hit at h) in
        let first : x ≡ e = ap (λ t. t.0) same in
        record {
          before = [];
          after = es;
          whole = ap (λ t. t ∷ es) first;
          left = sym (ap (λ t. t.1) same);
          hit = subst (λ t. test t ≡ true) first hit;
        }
    | inr miss ↦ elim (Option-cases (unlink test es)) [
      | inl stop ↦ absurd (let bad = rw (miss, stop, ◌>>=◌) at h in cc)
      | inr ((found, rest'), go) ↦
          let same : (found, x ∷ rest') ≡ (e, rest) = some_inj (rw (miss, go, ◌>>=◌) at h) in
          let first : found ≡ e = ap (λ t. t.0) same in
          let deep = unlink-Unlinked test es found rest' go in
          record {
            before = x ∷ deep.before;
            after = deep.after;
            whole = ap (λ t. x ∷ t) (deep.whole ∙ ap (λ t. deep.before ++ (t ∷ deep.after)) first);
            left = sym (ap (λ t. t.1) same) ∙ ap (λ t. x ∷ t) deep.left;
            hit = subst (λ t. test t ≡ true) first deep.hit;
          }
    ]
  ]

  pub unlink-none :
      (test : A → Bool) (es : List A) → unlink test es ≡ none → All (λ e. test e ≡ false) es
  unfolding unlink
  unlink-none test [] h = tt
  unlink-none test (x ∷ es) h = elim (Bool-cases (test x)) [
    | inl hit ↦ absurd (let bad = rw hit at h in cc)
    | inr miss ↦ elim (Option-cases (unlink test es)) [
      | inl stop ↦ (miss, unlink-none test es stop)
      | inr ((found, rest), go) ↦ absurd (let bad = rw (miss, go, ◌>>=◌) at h in cc)
    ]
  ]

  pub All-map {κ μ} :
      (P : A → Type κ) (Q : A → Type μ) (es : List A) → ((e : A) → P e → Q e) → All P es → All Q es
  All-map P Q [] f h = tt
  All-map P Q (e ∷ es) f h = (f e h.0, All-map P Q es f h.1)

  pub All-middle {κ} :
      (P : A → Type κ) (xs : List A) (e : A) (ys : List A)
      → All P (xs ++ (e ∷ ys))
      → P e × All P (xs ++ ys)
  All-middle P [] e ys h = h
  All-middle P (x ∷ xs) e ys h = let (p, rest) = All-middle P xs e ys h.1 in (p, (h.0, rest))

  pub length-middle :
      (xs : List A) (e : A) (ys : List A) → length (xs ++ (e ∷ ys)) ≡ suc (length (xs ++ ys))
  length-middle [] e ys = refl
  length-middle (x ∷ xs) e ys = ap suc (length-middle xs e ys)

  pub All-take {κ} : (P : A → Type κ) (n : ℕ) (es : List A) → All P es → All P (take n es)
  All-take P zero es h = tt
  All-take P (suc n) [] h = tt
  All-take P (suc n) (e ∷ es) h = (h.0, All-take P n es h.1)

  pub drop_last-take : (n : ℕ) (es : List A) → length es ≡ suc n → drop_last es ≡ take n es
  unfolding drop_last
  drop_last-take zero (e ∷ []) h = refl
  drop_last-take (suc n) (e ∷ e' ∷ es) h =
      ap (λ t. e ∷ t) (drop_last-take n (e' ∷ es) (omega arith))
  drop_last-take n es h = absurd (omega arith)

  -- Room for one more is what the first `max - 1` entries leave.
  pub make_room-take :
      (max : ℕ) (es : List A)
      → length es ≤ suc max
      → make_room (suc max) (length es) es ≡ some (length (take max es), take max es)
  unfolding make_room
  make_room-take max [] h =
      let fits : leb (suc max) 0 ≡ false = ground arith in rw (take-nil max, fits)
  make_room-take max (e ∷ es) h = elim (Bool-cases (leb (suc max) (suc (length es)))) [
    | inl full ↦
        let all : length es ≡ max = omega (arith, leb→le _ _ full) in
        let kept : drop_last (e ∷ es) ≡ take max (e ∷ es) =
          drop_last-take max (e ∷ es) (ap suc all) in
        let count : length (take max (e ∷ es)) ≡ length es =
          omega (arith, length-take max (e ∷ es)) in
        let one_less : suc (length es) - 1 ≡ length es = omega arith in
        rw (full, kept, count, one_less)
    | inr room ↦
        let less : length (e ∷ es) ≤ max = ground arith in rw (room, take-all max (e ∷ es) less)
  ]

  pub make_room-none : make_room {A = A} 0 0 [] ≡ none
  unfolding make_room
  make_room-none = refl

  pub without-none :
      (test : A → Bool) (es : List A) → All (λ e. test e ≡ false) es → without test es ≡ es
  unfolding without
  without-none test [] h = refl
  without-none test (e ∷ es) h = rw h.0 (ap (λ t. e ∷ t) (without-none test es h.1))

  pub without-middle :
      (test : A → Bool) (xs : List A) (e : A) (ys : List A)
      → test e ≡ true
      → without test (xs ++ (e ∷ ys)) ≡ without test (xs ++ ys)
  unfolding without
  without-middle test [] e ys h = rw h
  without-middle test (x ∷ xs) e ys h = rw (without-middle test xs e ys h)

  -- The keys of the entries are all different.
  module _ {κ} {K : Type κ} (key : A → K) where
    abbrev pub Distinct : List A → Type (ℓ ⊔ κ)
    Distinct [] = Unit
    Distinct (e ∷ es) = All (λ e'. key e ≢ key e') es × Distinct es

    pub Distinct-middle :
        (xs : List A) (e : A) (ys : List A)
        → Distinct (xs ++ (e ∷ ys))
        → All (λ e'. key e ≢ key e') (xs ++ ys) × Distinct (xs ++ ys)
    Distinct-middle [] e ys h = h
    Distinct-middle (x ∷ xs) e ys h =
        let (ne, apart) = All-middle (λ e'. key x ≢ key e') xs e ys h.0 in
        let (others, rest) = Distinct-middle xs e ys h.1 in
        (((λ eq. ne (sym eq)), others), (apart, rest))

    pub Distinct-take : (n : ℕ) (es : List A) → Distinct es → Distinct (take n es)
    Distinct-take zero es h = tt
    Distinct-take (suc n) [] h = tt
    Distinct-take (suc n) (e ∷ es) h = (All-take _ n es h.0, Distinct-take n es h.1)
