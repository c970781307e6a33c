-- ===== src/Ipd/Routing/Learn.antt =====
-- What `route_process` learns from a packet: the address of the station, or the way back to it.
use mathlib.Core.Path.{ap₂}
use linuxax.Prelude.{
  ℕ, suc, ◌+◌, ◌-◌, ◌≤◌, ◌<◌, ◌≡◌, inl, inr, Bool, true, false, not, ◌&&◌, List, [], ◌∷◌, none,
  some, refl, ap, sym, ◌∙◌, map, length, get_elem?, lt-length_of_get, All, arith, Bool-cases, ◌==◌,
  ==_iff, some_inj, if◌then◌else◌,
}
use native.Mathlib.Nat.{sub-zero}
use linuxax.Ipd.Call.{addrmatch, normal_call}
use linuxax.Ipd.Call.Order.{normal_call-IsNormal}
use linuxax.Ipd.Routing.{
  Route, Routes, Env, find_route, call_to_ip, find_ip, has_flag, axrt_learn, update_dns,
  update_dyndns, learn_ip, process_routes, return_path, route_process, update_return_path,
  is_call_bcast,
}
use linuxax.Ipd.Routing.Tree.{find_call-update}
use linuxax.Ipd.Routing.Lookup.{HasPlaces, via_heard}

-- The route with what was learned: a route with a matching callsign and AXRT_LEARN has the address
-- that the packet came from.
pub learned : ℕ → List ℕ → Route → Route
learned ip mycall r =
    if addrmatch mycall r.callsign && has_flag r.flags axrt_learn
    then record r { ip_addr = ip }
    else r

pub callsign-learned :
    (ip : ℕ) (mycall : List ℕ) (r : Route) → (learned ip mycall r).callsign ≡ r.callsign
unfolding learned
callsign-learned ip mycall r = ground arith

-- `update_dns` changes the clock and the flag of the thread only.
abbrev pub SameTables : Routes → Routes → Type 0
SameTables t u =
    (u.route_tbl ≡ t.route_tbl)
    × (u.default_route ≡ t.default_route)
    × (u.bcast_tbl ≡ t.bcast_tbl)
    × (u.callsign_lookup ≡ t.callsign_lookup)

pub update_dns-SameTables :
    (env : Env) (wait : ℕ) (t : Routes) → SameTables t (update_dns env wait t)
unfolding update_dns
update_dns-SameTables env wait t = ground arith

update_dyndns-SameTables :
    (env : Env) (r : Route) (t : Routes) → SameTables t (update_dyndns env r t)
unfolding update_dyndns
update_dyndns-SameTables env r t = ground (arith, update_dns-SameTables env 300 t)

same_address : (r : Route) (ip : ℕ) → ip ≡ r.ip_addr → record r { ip_addr = ip } ≡ r
same_address r ip e = λ i. record r { ip_addr = e i }

learned-eq-code :
    (ip : ℕ) (mycall : List ℕ) (r : Route)
    → (if addrmatch mycall r.callsign && not (ip == r.ip_addr) then learn_ip ip r else r)
      ≡ learned ip mycall r
unfolding learned learn_ip
learned-eq-code ip mycall r = elim (Bool-cases (ip == r.ip_addr)) [
  | inl e ↦ ground (arith, same_address r ip ((==_iff ip r.ip_addr).0 e))
  | inr e ↦ rw e (ground arith)
]

SameTables-trans : (t u v : Routes) → SameTables t u → SameTables u v → SameTables t v
SameTables-trans t u v p q = (q.0 ∙ p.0, q.1 ∙ p.1, q.2 ∙ p.2, q.3 ∙ p.3)

moved-SameTables :
    (moved : Bool) (env : Env) (r : Route) (t : Routes)
    → SameTables t (if moved then update_dyndns env r t else t)
moved-SameTables true env r t = update_dyndns-SameTables env r t
moved-SameTables false env r t = (refl, refl, refl, refl)

pub process_routes-learned :
    (env : Env) (ip : ℕ) (mycall : List ℕ) (rs : List Route) (t : Routes)
    → ((process_routes env ip mycall rs t).0 ≡ map (learned ip mycall) rs)
      × SameTables t (process_routes env ip mycall rs t).1
unfolding process_routes
process_routes-learned env ip mycall [] t = (refl, (refl, refl, refl, refl))
process_routes-learned env ip mycall (r ∷ rs) t =
    let moved = addrmatch mycall r.callsign && not (ip == r.ip_addr) in
    let t1 = if moved then update_dyndns env r t else t in
    let rest = process_routes-learned env ip mycall rs t1 in
    (
      ap₂ ◌∷◌ (learned-eq-code ip mycall r) rest.0,
      SameTables-trans t t1 (process_routes env ip mycall rs t1).1 (moved-SameTables moved env r t)
          rest.1,
    )

return_path-keeps :
    (ip : ℕ) (call : List ℕ) (isroute : Bool) (t : Routes)
    → ((return_path ip call isroute t).route_tbl ≡ t.route_tbl)
      × ((return_path ip call isroute t).default_route ≡ t.default_route)
      × ((return_path ip call isroute t).bcast_tbl ≡ t.bcast_tbl)
unfolding return_path
return_path-keeps ip call isroute t = ground arith

-- `route_process` adds and removes no route: it gives the address of the packet to the routes with
-- a matching callsign and AXRT_LEARN, and changes neither any other field of a route, nor the
-- default route, nor the broadcast addresses.
pub route_process-learned :
    (env : Env) (ip : ℕ) (call : List ℕ) (t : Routes)
    → ((route_process env ip call t).route_tbl ≡ map (learned ip (normal_call call)) t.route_tbl)
      × ((route_process env ip call t).default_route ≡ t.default_route)
      × ((route_process env ip call t).bcast_tbl ≡ t.bcast_tbl)
unfolding route_process
route_process-learned env ip call t =
    let (tbl, t', isroute) = process_routes env ip (normal_call call) t.route_tbl t in
    let (same_tbl, same) = process_routes-learned env ip (normal_call call) t.route_tbl t in
    let after : Routes = record (t') { route_tbl = tbl } in
    let kept = return_path-keeps ip call isroute after in
    (kept.0 ∙ same_tbl, kept.1 ∙ same.1, kept.2 ∙ same.2)

abbrev pub NoRoute : List ℕ → List Route → Type 0
NoRoute mycall rs = All (λ (b : Route). addrmatch mycall b.callsign ≡ false) rs

process_routes-NoRoute :
    (env : Env) (ip : ℕ) (mycall : List ℕ) (rs : List Route) (t : Routes)
    → NoRoute mycall rs
    → process_routes env ip mycall rs t ≡ (rs, t, false)
unfolding process_routes
process_routes-NoRoute env ip mycall [] t h = refl
process_routes-NoRoute env ip mycall (r ∷ rs) t h =
    rw (h.0, process_routes-NoRoute env ip mycall rs t h.1)

find_route-NoRoute :
    (mycall : List ℕ) (rs : List Route) → NoRoute mycall rs → find_route mycall rs ≡ none
unfolding find_route
find_route-NoRoute mycall [] h = refl
find_route-NoRoute mycall (r ∷ rs) h = rw h.0 (find_route-NoRoute mycall rs h.1)

-- The place that `find_ip` gives is that of a route with the address.
find_ip-some :
    (ip i k : ℕ) (rs : List Route)
    → find_ip ip i rs ≡ some k
    → (r : Route) × (i ≤ k) × (get_elem? rs (k - i) ≡ some r) × (r.ip_addr ≡ ip)
unfolding find_ip
find_ip-some ip i k [] e = absurd (cc)
find_ip-some ip i k (r ∷ rs) e = elim (Bool-cases (ip == r.ip_addr)) [
  | inl m ↦
      let here : i ≡ k = some_inj (rw m at e) in
      let none_left : k - i ≡ 0 = omega arith in
      (r, omega arith, rw none_left, sym ((==_iff ip r.ip_addr).0 m))
  | inr m ↦
      let (r', le, at_place, same) = find_ip-some ip (i + 1) k rs (rw m at e) in
      let one_more : k - i ≡ suc (k - (i + 1)) = omega arith in
      (r', omega arith, rw one_more at_place, same)
]

pub find_ip-lt : (ip k : ℕ) (rs : List Route) → find_ip ip 0 rs ≡ some k → k < length rs
find_ip-lt ip k rs e =
    let (r, _, from_start, same) = find_ip-some ip 0 k rs e in
    lt-length_of_get rs k (rw (sub-zero k) at from_start)

process-NoRoute :
    (env : Env) (ip : ℕ) (call : List ℕ) (t : Routes)
    → NoRoute (normal_call call) t.route_tbl
    → route_process env ip call t ≡ return_path ip call false t
unfolding route_process
process-NoRoute env ip call t h =
    ap
      (λ (st : List Route × Routes × Bool).
        return_path ip call st.2 (record (st.1) { route_tbl = st.0 }))
      (process_routes-NoRoute env ip (normal_call call) t.route_tbl t h)

return_path-heard :
    (ip i : ℕ) (call : List ℕ) (t : Routes)
    → is_call_bcast call t ≡ false
    → find_ip ip 0 t.route_tbl ≡ some i
    → return_path ip call false t
      ≡ record t { callsign_lookup = update_return_path (normal_call call) i t.callsign_lookup }
unfolding return_path
return_path-heard ip i call t b e = ground arith

return_path-unknown :
    (ip : ℕ) (call : List ℕ) (t : Routes)
    → find_ip ip 0 t.route_tbl ≡ none
    → return_path ip call false t ≡ t
unfolding return_path
return_path-unknown ip call t e = ground arith

-- A station that no route matches and that is no broadcast address, heard from the address of some
-- route, is from then on reached through the first route with this address.
pub route_process-heard :
    (env : Env) (ip i : ℕ) (call : List ℕ) (t : Routes)
    → HasPlaces t
    → NoRoute (normal_call call) t.route_tbl
    → is_call_bcast call t ≡ false
    → find_ip ip 0 t.route_tbl ≡ some i
    → (r : Route) × (get_elem? t.route_tbl i ≡ some r)
      × (r.ip_addr ≡ ip)
      × (call_to_ip call (route_process env ip call t) ≡ some (ip, r.udp_port))
route_process-heard env ip i call t p h b e =
    let (r, _, from_start, same) = find_ip-some ip 0 i t.route_tbl e in
    let place : get_elem? t.route_tbl i ≡ some r = rw (sub-zero i) at from_start in
    let mycall = normal_call call in
    (
      r,
      place,
      same,
      ap (call_to_ip call) (process-NoRoute env ip call t h ∙ return_path-heard ip i call t b e)
          ∙ via_heard call
              (record t { callsign_lookup = update_return_path mycall i t.callsign_lookup }) i r
              (find_route-NoRoute mycall t.route_tbl h)
              (find_call-update mycall i (length t.route_tbl) t.callsign_lookup
                (normal_call-IsNormal call) p.tree_in).0
              place
          ∙ ap (λ (a : ℕ). some (a, r.udp_port)) same,
    )

-- A packet from a station that no route matches and from an address of no route changes nothing.
pub route_process-unknown :
    (env : Env) (ip : ℕ) (call : List ℕ) (t : Routes)
    → NoRoute (normal_call call) t.route_tbl
    → find_ip ip 0 t.route_tbl ≡ none
    → route_process env ip call t ≡ t
route_process-unknown env ip call t h e =
    process-NoRoute env ip call t h ∙ return_path-unknown ip call t e
