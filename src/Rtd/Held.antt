-- ===== src/Rtd/Held.antt =====
-- What both caches keep: a count that is right, the limit, and keys that are all different.
use mathlib.Core.Path.{subst}
use linuxax.Prelude.{
  ℕ, zero, suc, ◌+◌, ◌-◌, ◌≤◌, ◌≡◌, ◌≢◌, sym, ap, ◌∙◌, Bool, List, [], ◌∷◌, some, length, take, All,
  arith, some_inj, length-take,
}
use linuxax.Rtd.{make_room}
use linuxax.Rtd.Entries.{
  Unlinked, length-middle, All-take, make_room-take, make_room-none, Distinct, Distinct-middle,
  Distinct-take,
}

module _ {ℓ κ} {A : Type ℓ} {K : Type κ} (key : A → K) where
  -- One cache: its limit, its count, and its entries.
  pub record Held (maxroutes cnt : ℕ) (es : List A) : Type (ℓ ⊔ κ) where
    pub counted : cnt ≡ length es
    pub bounded : length es ≤ maxroutes
    pub distinct : Distinct key es

  module _ (maxroutes cnt : ℕ) (es : List A) (h : Held maxroutes cnt es) where
    pub Unlinked-Distinct :
        {test : A → Bool} {e : A} {rest : List A}
        → Unlinked test es e rest
        → All (λ e'. key e ≢ key e') rest × Distinct key rest
    Unlinked-Distinct {e} u =
        let parts =
          Distinct-middle key u.before e u.after (subst (Distinct key) u.whole h.distinct) in
        rw u.left parts

    pub Unlinked-length :
        {test : A → Bool} {e : A} {rest : List A}
        → Unlinked test es e rest
        → length es ≡ suc (length rest)
    Unlinked-length {e} u =
        ap length u.whole ∙ length-middle u.before e u.after ∙ ap (λ t. suc (length t)) (sym u.left)

    -- An entry moves to the front, whatever it then holds beside its key.
    pub Held-front :
        {test : A → Bool} {e : A} {rest : List A} (e' : A)
        → Unlinked test es e rest
        → key e' ≡ key e
        → Held maxroutes cnt (e' ∷ rest)
    Held-front e' u same_key =
        let (apart, distinct) = Unlinked-Distinct u in
        let count = Unlinked-length u in
        record {
          counted = h.counted ∙ count;
          bounded = omega (arith, h.bounded);
          distinct = (rw same_key apart, distinct);
        }

    pub Held-unlink :
        {test : A → Bool} {e : A} {rest : List A}
        → Unlinked test es e rest
        → Held maxroutes (cnt - 1) rest
    Held-unlink u =
        let count = Unlinked-length u in
        record {
          counted = omega (arith, h.counted);
          bounded = omega (arith, h.bounded);
          distinct = (Unlinked-Distinct u).1;
        }

  -- A new entry, with room made for it.
  pub Held-new :
      (maxroutes cnt cnt' : ℕ) (es es' : List A) (e : A)
      → Held maxroutes cnt es
      → All (λ e'. key e ≢ key e') es
      → make_room maxroutes cnt es ≡ some (cnt', es')
      → Held maxroutes (cnt' + 1) (e ∷ es')
  Held-new zero cnt cnt' [] es' e h apart made =
      absurd (let bad = rw (h.counted, make_room-none) at made in cc)
  Held-new zero cnt cnt' (x ∷ es) es' e h apart made = absurd (omega (arith, h.bounded))
  Held-new (suc max) cnt cnt' es es' e h apart made =
      let same : (length (take max es), take max es) ≡ (cnt', es') =
        some_inj (sym (make_room-take max es h.bounded) ∙ (rw (h.counted) at made)) in
      let kept : take max es ≡ es' = ap (λ t. t.1) same in
      let count : length (take max es) ≡ cnt' = ap (λ t. t.0) same in
      subst (λ t. Held (suc max) (cnt' + 1) (e ∷ t)) kept
        (record {
          counted = omega arith;
          bounded = omega (arith, length-take max es);
          distinct = (All-take _ max es apart, Distinct-take key max es h.distinct);
        })
