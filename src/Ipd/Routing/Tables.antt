-- ===== src/Ipd/Routing/Tables.antt =====
-- The invariant of the module's variables, over any sequence of calls with the runs of the thread
-- `update_dnsthread` between them, each run as one step.
use mathlib.Core.Path.{subst}
use linuxax.Prelude.{
  ℕ, suc, ◌+◌, ◌<◌, ◌≡◌, Bool, true, false, List, [], ◌∷◌, ◌++◌, Option, none, some, refl, ap, sym,
  ◌∙◌, map, length, length-snoc, All, arith, Bool-cases, inl, inr, some_inj, if◌then◌else◌, ◌⊎◌,
  not, ◌&&◌, Option-cases,
}
use linuxax.Ipd.Call.{normal_call}
use linuxax.Ipd.Call.Order.{IsNormal, normal_call-IsNormal}
use linuxax.Ipd.Routing.{
  Route, Routes, Env, route_init, route_add, bcast_add, update_dns, route_process, return_path,
  find_ip, process_routes, dns_route, dns_routes, dns_thread, has_flag, axrt_default, is_call_bcast,
}
use linuxax.Ipd.Routing.Tree.{IsTree, IsTree-update, IsTree-mono}
use linuxax.Ipd.Routing.Lookup.{HasPlaces}
use linuxax.Ipd.Routing.Learn.{
  learned, process_routes-learned, route_process-learned, callsign-learned, update_dns-SameTables,
  find_ip-lt,
}

abbrev HasNormalCalls : List Route → Type 0
HasNormalCalls rs = All (λ (r : Route). IsNormal r.callsign) rs

-- Every place kept is a place of the table, and every callsign of the tables is in normal form.
pub record IsValid (t : Routes) : Type 0 where
  pub places : HasPlaces t
  pub calls : HasNormalCalls t.route_tbl
  pub bcasts : All IsNormal t.bcast_tbl

-- The calls that change the variables.
pub data Op : Type 0 where
  add_route : (host : List ℕ) (ip : Option ℕ) (call : Option (List ℕ)) (udpport flags : ℕ) → Op
  add_bcast : Option (List ℕ) → Op
  packet : Env → (ip : ℕ) (call : List ℕ) → Op
  ask_dns : Env → (wait : ℕ) → Op
  dns_run : (List ℕ → Option ℕ) → Op

pub apply : Op → Routes → Routes
apply (add_route host ip call udpport flags) t = route_add host ip call udpport flags t
apply (add_bcast call) t = bcast_add call t
apply (packet env ip call) t = route_process env ip call t
apply (ask_dns env wait) t = update_dns env wait t
apply (dns_run resolve) t = dns_thread resolve t

pub apply_all : List Op → Routes → Routes
apply_all [] t = t
apply_all (op ∷ ops) t = apply_all ops (apply op t)

All-snoc {ℓ κ} :
    {A : Type ℓ} (P : A → Type κ) (xs : List A) (x : A) → All P xs → P x → All P (xs ++ (x ∷ []))
All-snoc P [] x h k = (k, tt)
All-snoc P (y ∷ xs) x h k = (h.0, All-snoc P xs x h.1 k)

-- A change of the routes that keeps their callsigns keeps the invariant.
HasNormalCalls-map :
    (f : Route → Route) (rs : List Route)
    → ((r : Route) → (f r).callsign ≡ r.callsign)
    → HasNormalCalls rs
    → HasNormalCalls (map f rs)
HasNormalCalls-map f [] same h = tt
HasNormalCalls-map f (r ∷ rs) same h = (rw (same r) h.0, HasNormalCalls-map f rs same h.1)

length-map : (f : Route → Route) (rs : List Route) → length (map f rs) ≡ length rs
length-map f [] = refl
length-map f (r ∷ rs) = ap suc (length-map f rs)

route_add-IsValid :
    (host : List ℕ) (ip : Option ℕ) (call : Option (List ℕ)) (udpport flags : ℕ) (t : Routes)
    → IsValid t
    → IsValid (route_add host ip call udpport flags t)
unfolding route_add
route_add-IsValid host none call udpport flags t v = v
route_add-IsValid host (some ip) none udpport flags t v = v
route_add-IsValid host (some ip) (some call) udpport flags t v = record {
  places = record {
    default_in = λ i e. default_in i (Bool-cases (has_flag flags axrt_default)) e;
    tree_in =
        IsTree-mono _ _ t.callsign_lookup (omega (arith, length-snoc {0} t.route_tbl))
          v.places.tree_in;
  };
  calls =
      All-snoc (λ (r : Route). IsNormal r.callsign) t.route_tbl _ v.calls
        (normal_call-IsNormal call);
  bcasts = v.bcasts;
}
  where
    longer : (x : Route) → length (t.route_tbl ++ (x ∷ [])) ≡ length t.route_tbl + 1
    longer x = length-snoc t.route_tbl x

    default_in :
        (i : ℕ)
        → (has_flag flags axrt_default ≡ true) ⊎ (has_flag flags axrt_default ≡ false)
        → (if has_flag flags axrt_default then some (length t.route_tbl) else t.default_route)
          ≡ some i
        → i < length (route_add host (some ip) (some call) udpport flags t).route_tbl
    default_in i (inl is_default) e =
        let here : length t.route_tbl ≡ i = some_inj (rw is_default at e) in
        omega (arith, longer, here)
    default_in i (inr other) e = omega (arith, longer, v.places.default_in i (rw other at e))

bcast_add-IsValid : (call : Option (List ℕ)) (t : Routes) → IsValid t → IsValid (bcast_add call t)
unfolding bcast_add
bcast_add-IsValid none t v = v
bcast_add-IsValid (some call) t v = record {
  places = record { default_in = v.places.default_in; tree_in = v.places.tree_in };
  calls = v.calls;
  bcasts = All-snoc IsNormal t.bcast_tbl (normal_call call) v.bcasts (normal_call-IsNormal call);
}

-- What is to be shown of an operation that keeps the number of routes, the default route and the
-- broadcast addresses.
IsValid-kept :
    (t u : Routes)
    → length u.route_tbl ≡ length t.route_tbl
    → u.default_route ≡ t.default_route
    → u.bcast_tbl ≡ t.bcast_tbl
    → HasNormalCalls u.route_tbl
    → IsTree (length t.route_tbl) u.callsign_lookup
    → IsValid t
    → IsValid u
IsValid-kept t u same_length q b calls tree v = record {
  places = record {
    default_in = λ i e. omega (arith, v.places.default_in i (sym q ∙ e));
    tree_in = rw same_length tree;
  };
  calls = calls;
  bcasts = subst (All IsNormal) (sym b) v.bcasts;
}

update_dns-IsValid :
    (env : Env) (wait : ℕ) (t : Routes) → IsValid t → IsValid (update_dns env wait t)
update_dns-IsValid env wait t v =
    let (same_tbl, same_default, same_bcast, same_tree) = update_dns-SameTables env wait t in
    IsValid-kept t (update_dns env wait t) (ap length same_tbl) same_default same_bcast
      (subst HasNormalCalls (sym same_tbl) v.calls)
      (subst (IsTree (length t.route_tbl)) (sym same_tree) v.places.tree_in) v

callsign-dns_route :
    (resolve : List ℕ → Option ℕ) (r : Route) → (dns_route resolve r).callsign ≡ r.callsign
unfolding dns_route
callsign-dns_route resolve r = ground arith

dns_routes-eq-map :
    (resolve : List ℕ → Option ℕ) (rs : List Route)
    → dns_routes resolve rs ≡ map (dns_route resolve) rs
unfolding dns_routes
dns_routes-eq-map resolve [] = refl
dns_routes-eq-map resolve (r ∷ rs) =
    ap (λ t. dns_route resolve r ∷ t) (dns_routes-eq-map resolve rs)

dns_thread-IsValid :
    (resolve : List ℕ → Option ℕ) (t : Routes) → IsValid t → IsValid (dns_thread resolve t)
unfolding dns_thread
dns_thread-IsValid resolve t v =
    IsValid-kept t (dns_thread resolve t)
      (ap length mapped ∙ length-map (dns_route resolve) t.route_tbl) refl refl
      (subst HasNormalCalls (sym mapped)
        (HasNormalCalls-map (dns_route resolve) t.route_tbl (callsign-dns_route resolve) v.calls))
      v.places.tree_in v
  where
    mapped : dns_routes resolve t.route_tbl ≡ map (dns_route resolve) t.route_tbl
    mapped = dns_routes-eq-map resolve t.route_tbl

return_path-IsTree :
    (ip : ℕ) (call : List ℕ) (isroute : Bool) (t : Routes)
    → IsTree (length t.route_tbl) t.callsign_lookup
    → IsTree (length t.route_tbl) (return_path ip call isroute t).callsign_lookup
unfolding return_path
return_path-IsTree ip call isroute t w =
    elim (Bool-cases (not isroute && not (is_call_bcast call t))) [
      | inr skip ↦ rw (skip, return_path) w
      | inl set ↦ elim (Option-cases (find_ip ip 0 t.route_tbl)) [
        | inl e ↦ rw (set, return_path) (rw (e, return_path) w)
        | inr (i, e) ↦
            rw (set, return_path)
              (rw (e, return_path)
                (IsTree-update (normal_call call) i (length t.route_tbl) t.callsign_lookup
                  (normal_call-IsNormal call) (find_ip-lt ip i t.route_tbl e) w))
      ]
    ]

route_process-IsTree :
    (env : Env) (ip : ℕ) (call : List ℕ) (t : Routes)
    → IsTree (length t.route_tbl) t.callsign_lookup
    → IsTree (length t.route_tbl) (route_process env ip call t).callsign_lookup
unfolding route_process
route_process-IsTree env ip call t w =
    let (tbl, t', isroute) = process_routes env ip (normal_call call) t.route_tbl t in
    let (mapped, same) = process_routes-learned env ip (normal_call call) t.route_tbl t in
    let same_length : length tbl ≡ length t.route_tbl =
      ap length mapped ∙ length-map (learned ip (normal_call call)) t.route_tbl in
    let after : Routes = record (t') { route_tbl = tbl } in
    subst (λ n. IsTree n (return_path ip call isroute after).callsign_lookup) same_length
      (return_path-IsTree ip call isroute after
        (rw same_length (subst (IsTree (length t.route_tbl)) (sym same.3) w)))

route_process-IsValid :
    (env : Env) (ip : ℕ) (call : List ℕ) (t : Routes)
    → IsValid t
    → IsValid (route_process env ip call t)
route_process-IsValid env ip call t v =
    let (same_tbl, same_default, same_bcast) = route_process-learned env ip call t in
    let learn = learned ip (normal_call call) in
    IsValid-kept t (route_process env ip call t) (ap length same_tbl ∙ length-map learn t.route_tbl)
      same_default same_bcast
      (subst HasNormalCalls (sym same_tbl)
        (HasNormalCalls-map learn t.route_tbl (callsign-learned ip (normal_call call)) v.calls))
      (route_process-IsTree env ip call t v.places.tree_in) v

pub apply-IsValid : (op : Op) (t : Routes) → IsValid t → IsValid (apply op t)
unfolding apply
apply-IsValid (add_route host ip call udpport flags) t v =
    route_add-IsValid host ip call udpport flags t v
apply-IsValid (add_bcast call) t v = bcast_add-IsValid call t v
apply-IsValid (packet env ip call) t v = route_process-IsValid env ip call t v
apply-IsValid (ask_dns env wait) t v = update_dns-IsValid env wait t v
apply-IsValid (dns_run resolve) t v = dns_thread-IsValid resolve t v

apply_all-IsValid : (ops : List Op) (t : Routes) → IsValid t → IsValid (apply_all ops t)
unfolding apply_all
apply_all-IsValid [] t v = v
apply_all-IsValid (op ∷ ops) t v = apply_all-IsValid ops (apply op t) (apply-IsValid op t v)

-- After `route_init` and any sequence of the module's calls and of runs of its thread, the default
-- route and every return path are routes of the table, and every callsign is in normal form.
pub route_init-IsValid : (env : Env) (ops : List Op) → IsValid (apply_all ops (route_init env))
unfolding route_init
route_init-IsValid env ops = apply_all-IsValid ops (route_init env) (record {
  places = record { default_in = λ i e. absurd (none-ne-some e); tree_in = tt };
  calls = tt;
  bcasts = tt;
})
  where
    none-ne-some : {i : ℕ} → none ≡ some i → ⊥
    none-ne-some e = cc
