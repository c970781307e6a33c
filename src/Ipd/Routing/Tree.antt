-- ===== src/Ipd/Routing/Tree.antt =====
-- The tree of return paths is a map from callsigns to routes. `addrcompare` need not be an order
-- for this: the way to a callsign is fixed by the callsigns passed.
use linuxax.Prelude.{
  ℕ, ◌<◌, ◌≡◌, ◌≢◌, List, some, refl, ◌∙◌, sym, ◌≤◌, some_inj, ◌⊎◌, inl, inr, arith,
}
use mathlib.Core.Path.{subst}
use linuxax.Ipd.Call.{Sign, negative, zero_diff, positive, addrcompare}
use linuxax.Ipd.Call.Order.{IsNormal, addrcompare-zero_iff}
use linuxax.Ipd.Routing.{CallTree, leaf, node, update_return_path, find_call}

-- Every callsign of the tree is in normal form, and every route is one of the first `n`.
abbrev pub IsTree : ℕ → CallTree → Type 0
IsTree n leaf = Unit
IsTree n (node c r prev next) = IsNormal c × (r < n) × IsTree n prev × IsTree n next

pub Sign-cases : (s : Sign) → (s ≡ negative) ⊎ (s ≡ zero_diff) ⊎ (s ≡ positive)
Sign-cases negative = inl refl
Sign-cases zero_diff = inr (inl refl)
Sign-cases positive = inr (inr refl)

find-update_self :
    (k : List ℕ) (r : ℕ) (t : CallTree)
    → IsNormal k
    → find_call k (update_return_path k r t) ≡ some r
unfolding find_call update_return_path
find-update_self k r leaf h = rw ((addrcompare-zero_iff k k h h).1 refl, find_call)
find-update_self k r (node c r' prev next) h = elim (Sign-cases (addrcompare k c)) [
  | inl e ↦ rw (e, find_call, update_return_path) (rw (e, find_call) (find-update_self k r prev h))
  | inr (inl e) ↦ rw (e, find_call, update_return_path) (rw (e, find_call))
  | inr (inr e) ↦
      rw (e, find_call, update_return_path) (rw (e, find_call) (find-update_self k r next h))
]

find_call-node :
    (j c : List ℕ) (r : ℕ) (p p' q q' : CallTree)
    → find_call j p ≡ find_call j p'
    → find_call j q ≡ find_call j q'
    → find_call j (node c r p q) ≡ find_call j (node c r p' q')
unfolding find_call
find_call-node j c r p p' q q' hp hq = elim (Sign-cases (addrcompare j c)) [
  | inl e ↦ rw (e, find_call) hp
  | inr (inl e) ↦ rw (e, find_call)
  | inr (inr e) ↦ rw (e, find_call) hq
]

find_call-other :
    (j c : List ℕ) (r r' : ℕ) (p q : CallTree)
    → addrcompare j c ≢ zero_diff
    → find_call j (node c r p q) ≡ find_call j (node c r' p q)
unfolding find_call
find_call-other j c r r' p q ne = elim (Sign-cases (addrcompare j c)) [
  | inl e ↦ rw (e, find_call)
  | inr (inl e) ↦ absurd (ne e)
  | inr (inr e) ↦ rw (e, find_call)
]

find-update_ne :
    (k j : List ℕ) (r n : ℕ) (t : CallTree)
    → IsNormal k
    → IsNormal j
    → j ≢ k
    → IsTree n t
    → find_call j (update_return_path k r t) ≡ find_call j t
unfolding update_return_path
find-update_ne k j r n leaf hk hj ne w =
    unfold find_call in
    elim (Sign-cases (addrcompare j k)) [
      | inl e ↦ rw (e, find_call)
      | inr (inl e) ↦ absurd (ne ((addrcompare-zero_iff j k hj hk).0 e))
      | inr (inr e) ↦ rw (e, find_call)
    ]
find-update_ne k j r n (node c r' prev next) hk hj ne w = elim (Sign-cases (addrcompare k c)) [
  | inl e ↦
      rw (e, update_return_path)
        (find_call-node j c r' _ prev next next (find-update_ne k j r n prev hk hj ne w.2) refl)
  | inr (inl e) ↦
      let same : k ≡ c = (addrcompare-zero_iff k c hk w.0).0 e in
      rw (e, update_return_path)
        (find_call-other j c r r' prev next
          (λ z. ne ((addrcompare-zero_iff j c hj w.0).0 z ∙ sym same)))
  | inr (inr e) ↦
      rw (e, update_return_path)
        (find_call-node j c r' prev prev _ next refl (find-update_ne k j r n next hk hj ne w.3))
]

pub IsTree-update :
    (k : List ℕ) (r n : ℕ) (t : CallTree)
    → IsNormal k
    → r < n
    → IsTree n t
    → IsTree n (update_return_path k r t)
unfolding update_return_path
IsTree-update k r n leaf h lt w = (h, lt, tt, tt)
IsTree-update k r n (node c r' prev next) h lt w = elim (Sign-cases (addrcompare k c)) [
  | inl e ↦ rw (e, update_return_path) (w.0, w.1, IsTree-update k r n prev h lt w.2, w.3)
  | inr (inl e) ↦ rw (e, update_return_path) (w.0, lt, w.2, w.3)
  | inr (inr e) ↦ rw (e, update_return_path) (w.0, w.1, w.2, IsTree-update k r n next h lt w.3)
]

pub route-lt :
    (k : List ℕ) (n : ℕ) (t : CallTree) {r : ℕ} → IsTree n t → find_call k t ≡ some r → r < n
unfolding find_call
route-lt k n leaf w e = cc
route-lt k n (node c r' prev next) w e = elim (Sign-cases (addrcompare k c)) [
  | inl s ↦ route-lt k n prev w.2 (rw (s, find_call) at e)
  | inr (inl s) ↦ subst (λ t. t < n) (some_inj (rw (s, find_call) at e)) w.1
  | inr (inr s) ↦ route-lt k n next w.3 (rw (s, find_call) at e)
]

pub IsTree-mono : (n m : ℕ) (t : CallTree) → n ≤ m → IsTree n t → IsTree m t
IsTree-mono n m leaf le w = tt
IsTree-mono n m (node c r prev next) le w =
    (w.0, omega arith, IsTree-mono n m prev le w.2, IsTree-mono n m next le w.3)

-- After a return path was entered in a tree in normal form, its callsign is found with its route,
-- and every other callsign as before.
pub find_call-update :
    (k : List ℕ) (r n : ℕ) (t : CallTree)
    → IsNormal k
    → IsTree n t
    → (find_call k (update_return_path k r t) ≡ some r)
      × ((j : List ℕ) → IsNormal j → j ≢ k → find_call j (update_return_path k r t) ≡ find_call j t)
find_call-update k r n t hk w =
    (find-update_self k r t hk, λ j hj ne. find-update_ne k j r n t hk hj ne w)
