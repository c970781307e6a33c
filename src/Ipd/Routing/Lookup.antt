-- ===== src/Ipd/Routing/Lookup.antt =====
-- The two linear searches of the tables, and the order in which `call_to_ip` asks them.
use mathlib.Core.Option
use mathlib.Core.Path.{subst}
use linuxax.Prelude.{
  ℕ, ◌<◌, ◌≡◌, inl, inr, true, false, List, [], ◌∷◌, ◌++◌, Option, none, some, ap, sym, length,
  get_elem?, get_elem?-some, All, Bool-cases, Option-cases, some_inj,
}
use linuxax.Ipd.Call.{addrmatch, normal_call}
use linuxax.Ipd.Routing.{Route, Routes, Dest, retrieveip, find_route, find_call, call_to_ip}
use linuxax.Ipd.Routing.Tree.{IsTree, route-lt}

-- `r` is the first route of the table with a matching callsign.
pub record IsFirst (mycall : List ℕ) (rs : List Route) (r : Route) : Type 0 where
  pub before : List Route
  pub after : List Route
  pub split : rs ≡ before ++ (r ∷ after)
  pub misses : All (λ (b : Route). addrmatch mycall b.callsign ≡ false) before
  pub matches : addrmatch mycall r.callsign ≡ true

find_route-IsFirst :
    (mycall : List ℕ) (rs : List Route) (r : Route)
    → find_route mycall rs ≡ some r
    → IsFirst mycall rs r
unfolding find_route
find_route-IsFirst mycall [] r e = absurd (cc)
find_route-IsFirst mycall (b ∷ rs) r e = elim (Bool-cases (addrmatch mycall b.callsign)) [
  | inl m ↦
      let same : b ≡ r = some_inj (rw m at e) in
      record {
        before = [];
        after = rs;
        split = ap (λ t. t ∷ rs) same;
        misses = tt;
        matches = subst (λ (t : Route). addrmatch mycall t.callsign ≡ true) same m;
      }
  | inr m ↦
      let rest = find_route-IsFirst mycall rs r (rw m at e) in
      record {
        before = b ∷ rest.before;
        after = rest.after;
        split = ap (λ t. b ∷ t) rest.split;
        misses = (m, rest.misses);
        matches = rest.matches;
      }
]

pub find_route-none :
    (mycall : List ℕ) (rs : List Route)
    → find_route mycall rs ≡ none
    → All (λ (b : Route). addrmatch mycall b.callsign ≡ false) rs
unfolding find_route
find_route-none mycall [] e = tt
find_route-none mycall (b ∷ rs) e = elim (Bool-cases (addrmatch mycall b.callsign)) [
  | inl m ↦ absurd (some-ne-none (rw m at e))
  | inr m ↦ (m, find_route-none mycall rs (rw m at e))
]
  where
    some-ne-none : {r : Route} → some r ≡ none → ⊥
    some-ne-none p = cc

-- What a lookup may answer, in the order of the search: the first route whose callsign matches;
-- if none does, the route on which the callsign was heard; if there is none, the default route;
-- if there is none, nothing.
pub data Answer (call : List ℕ) (t : Routes) : Option Dest → Type 0 where
  by_route :
      (r : Route) → IsFirst (normal_call call) t.route_tbl r → Answer call t (some (retrieveip r))
  by_heard :
      (i : ℕ) (r : Route)
      → All (λ (b : Route). addrmatch (normal_call call) b.callsign ≡ false) t.route_tbl
      → find_call (normal_call call) t.callsign_lookup ≡ some i
      → get_elem? t.route_tbl i ≡ some r
      → Answer call t (some (retrieveip r))
  by_default :
      (i : ℕ) (r : Route)
      → All (λ (b : Route). addrmatch (normal_call call) b.callsign ≡ false) t.route_tbl
      → find_call (normal_call call) t.callsign_lookup ≡ none
      → t.default_route ≡ some i
      → get_elem? t.route_tbl i ≡ some r
      → Answer call t (some (retrieveip r))
  nowhere :
      All (λ (b : Route). addrmatch (normal_call call) b.callsign ≡ false) t.route_tbl
      → find_call (normal_call call) t.callsign_lookup ≡ none
      → t.default_route ≡ none
      → Answer call t none

-- The places kept in the default route and in the tree are places of the table.
pub record HasPlaces (t : Routes) : Type 0 where
  pub default_in : (i : ℕ) → t.default_route ≡ some i → i < length t.route_tbl
  pub tree_in : IsTree (length t.route_tbl) t.callsign_lookup

module _ (call : List ℕ) (t : Routes) where
  via_route :
      (r : Route)
      → find_route (normal_call call) t.route_tbl ≡ some r
      → call_to_ip call t ≡ some (retrieveip r)
  unfolding call_to_ip
  via_route r e = rw (e, call_to_ip)

  pub via_heard :
      (i : ℕ) (r : Route)
      → find_route (normal_call call) t.route_tbl ≡ none
      → find_call (normal_call call) t.callsign_lookup ≡ some i
      → get_elem? t.route_tbl i ≡ some r
      → call_to_ip call t ≡ some (retrieveip r)
  unfolding call_to_ip
  via_heard i r e f g = rw (e, call_to_ip) (rw (f, call_to_ip) (rw (g, Option.map)))

  via_default :
      (i : ℕ) (r : Route)
      → find_route (normal_call call) t.route_tbl ≡ none
      → find_call (normal_call call) t.callsign_lookup ≡ none
      → t.default_route ≡ some i
      → get_elem? t.route_tbl i ≡ some r
      → call_to_ip call t ≡ some (retrieveip r)
  unfolding call_to_ip
  via_default i r e f d g =
      rw (e, call_to_ip) (rw (f, call_to_ip) (rw (d, call_to_ip) (rw (g, Option.map))))

  via_none :
      find_route (normal_call call) t.route_tbl ≡ none
      → find_call (normal_call call) t.callsign_lookup ≡ none
      → t.default_route ≡ none
      → call_to_ip call t ≡ none
  unfolding call_to_ip
  via_none e f d = rw (e, call_to_ip) (rw (f, call_to_ip) (rw (d, call_to_ip)))

  without_path :
      HasPlaces t
      → find_route (normal_call call) t.route_tbl ≡ none
      → find_call (normal_call call) t.callsign_lookup ≡ none
      → Answer call t (call_to_ip call t)
  without_path p e f = elim (Option-cases t.default_route) [
    | inl d ↦ subst (Answer call t) (sym (via_none e f d)) (nowhere (find_route-none _ _ e) f d)
    | inr (i, d) ↦
        let (r, g) = get_elem?-some t.route_tbl i (p.default_in i d) in
        subst (Answer call t) (sym (via_default i r e f d g))
          (by_default i r (find_route-none _ _ e) f d g)
  ]

  without_route :
      HasPlaces t
      → find_route (normal_call call) t.route_tbl ≡ none
      → Answer call t (call_to_ip call t)
  without_route p e = elim (Option-cases (find_call (normal_call call) t.callsign_lookup)) [
    | inl f ↦ without_path p e f
    | inr (i, f) ↦
        let (r, g) =
          get_elem?-some t.route_tbl i
            (route-lt (normal_call call) _ t.callsign_lookup p.tree_in f) in
        subst (Answer call t) (sym (via_heard i r e f g)) (by_heard i r (find_route-none _ _ e) f g)
  ]

  -- Where the places kept are places of the table, `call_to_ip` answers in the order of `Answer`,
  -- and never follows a pointer that leads nowhere.
  pub call_to_ip-Answer : HasPlaces t → Answer call t (call_to_ip call t)
  call_to_ip-Answer p = elim (Option-cases (find_route (normal_call call) t.route_tbl)) [
    | inl e ↦ without_route p e
    | inr (r, e) ↦
        subst (Answer call t) (sym (via_route r e)) (by_route r (find_route-IsFirst _ _ r e))
  ]
