-- ===== src/Ipd/Routing/Tests.antt =====
-- The theorems on the tables at a table of one route with AXRT_LEARN.
use linuxax.Prelude.{ℕ, ◌≡◌, true, false, List, [], ◌∷◌, none, some, get_elem?, map, refl}
use linuxax.Ipd.Call.{differs, addrmatch, normal_call}
use linuxax.Ipd.Routing.{
  Route, Routes, Env, leaf, axrt_learn, route_init, call_to_ip, is_call_bcast, in_bcasts, find_ip,
  route_process,
}
use linuxax.Ipd.Routing.Lookup.{HasPlaces, Answer, call_to_ip-Answer}
use linuxax.Ipd.Routing.Learn.{NoRoute, learned, route_process-learned, route_process-heard}
use linuxax.Ipd.Routing.Tables.{IsValid, add_route, packet, apply_all, route_init-IsValid}

abbrev station : ℕ → List ℕ
station c = c ∷ 0x84 ∷ 0x86 ∷ 0x62 ∷ 0x88 ∷ 0x8a ∷ 0x62 ∷ []

abbrev clock : Env
clock = record { now = 1000; thread_created = true }

abbrev gateway : Route
gateway = record {
  callsign = normal_call (station 0x82);
  ip_addr = 44;
  udp_port = 93;
  flags = axrt_learn;
  hostnm = [];
}

abbrev one_route : Routes
one_route = record {
  route_tbl = gateway ∷ [];
  default_route = none;
  bcast_tbl = [];
  callsign_lookup = leaf;
  last_dns_time = 0;
  threadrunning = false;
}

one_route-HasPlaces : HasPlaces one_route
one_route-HasPlaces = record { default_in = λ i e. absurd (cc); tree_in = tt }

no_route : NoRoute (normal_call (station 0x90)) one_route.route_tbl
unfolding addrmatch differs normal_call
no_route = (refl, tt)

no_bcast : is_call_bcast (station 0x90) one_route ≡ false
unfolding is_call_bcast in_bcasts
no_bcast = refl

route_init-IsValid_example : IsValid (
    apply_all
      (add_route [] (some 44) (some (station 0x82)) 93 axrt_learn
        ∷ packet clock 44 (station 0x90)
        ∷ [])
      (route_init clock))
route_init-IsValid_example = route_init-IsValid clock (
    add_route [] (some 44) (some (station 0x82)) 93 axrt_learn
    ∷ packet clock 44 (station 0x90)
    ∷ [])

call_to_ip-Answer_example : Answer (station 0x82) one_route (call_to_ip (station 0x82) one_route)
call_to_ip-Answer_example = call_to_ip-Answer (station 0x82) one_route one_route-HasPlaces

heard_at : find_ip 44 0 one_route.route_tbl ≡ some 0
unfolding find_ip
heard_at = refl

heard_nowhere : find_ip 45 0 one_route.route_tbl ≡ none
unfolding find_ip
heard_nowhere = refl

route_process-heard_example :
    (r : Route) × (get_elem? one_route.route_tbl 0 ≡ some r)
    × (r.ip_addr ≡ 44)
    × (call_to_ip (station 0x90) (route_process clock 44 (station 0x90) one_route)
        ≡ some (44, r.udp_port))
route_process-heard_example =
    route_process-heard clock 44 0 (station 0x90) one_route one_route-HasPlaces no_route no_bcast
      heard_at

route_process-learned_example :
    ((route_process clock 45 (station 0x82) one_route).route_tbl
      ≡ map (learned 45 (normal_call (station 0x82))) one_route.route_tbl)
    × ((route_process clock 45 (station 0x82) one_route).default_route ≡ none)
    × ((route_process clock 45 (station 0x82) one_route).bcast_tbl ≡ [])
route_process-learned_example = route_process-learned clock 45 (station 0x82) one_route
