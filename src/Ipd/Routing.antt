-- ===== src/Ipd/Routing.antt =====
-- ax25apps/ax25ipd/routing.c: the tables of routes and of broadcast addresses, and the tree of
-- callsigns heard on a route. A pointer to a route is its place in the list of routes, which only
-- grows. The mutex and what is logged are left out; `retrieveip` is the copy that it makes.
pub mod Tree
pub mod Lookup
pub mod Learn
pub mod Tables
mod Tests
use mathlib.Core.Option
use linuxax.Prelude.{
  ℕ, zero, suc, ◌+◌, ◌%◌, ◌^◌, bit_and, Bool, true, false, not, ◌&&◌, ◌||◌, List, [], ◌∷◌, ◌++◌,
  Option, none, some, ◌==◌, ltb, if◌then◌else◌, length, get_elem?,
}
use linuxax.Ipd.Call.{Sign, negative, zero_diff, positive, addrmatch, addrcompare, normal_call}

-- An IP address is the 32-bit word that the four bytes make in memory, and a port the number that
-- `htons` stores: 0 stands for a route that uses raw IP.
pub record Route : Type 0 where
  pub callsign : List ℕ
  pub ip_addr : ℕ
  pub udp_port : ℕ
  pub flags : ℕ
  pub hostnm : List ℕ

-- `callsign_lookup`
pub data CallTree : Type 0 where
  leaf : CallTree
  node : (callsign : List ℕ) (route : ℕ) (prev next : CallTree) → CallTree

-- The variables of the module.
pub record Routes : Type 0 where
  pub route_tbl : List Route
  pub default_route : Option ℕ
  pub bcast_tbl : List (List ℕ)
  pub callsign_lookup : CallTree
  pub last_dns_time : ℕ
  pub threadrunning : Bool

-- What a call finds around it: the clock, and whether `pthread_create` succeeds.
pub record Env : Type 0 where
  pub now : ℕ
  pub thread_created : Bool

-- `AXRT_BCAST`, `AXRT_DEFAULT`, `AXRT_PERMANENT` and `AXRT_LEARN`
abbrev pub axrt_bcast : ℕ
axrt_bcast = 1

abbrev pub axrt_default : ℕ
axrt_default = 2

abbrev pub axrt_permanent : ℕ
axrt_permanent = 4

abbrev pub axrt_learn : ℕ
axrt_learn = 8

pub has_flag : ℕ → ℕ → Bool
has_flag flags f = not (bit_and flags f == 0)

pub route_init : Env → Routes
route_init env = record {
  route_tbl = [];
  default_route = none;
  bcast_tbl = [];
  callsign_lookup = leaf;
  last_dns_time = env.now;
  threadrunning = false;
}

-- A null pointer for `ip` or `call` is `none`.
unfoldable pub route_add : List ℕ → Option ℕ → Option (List ℕ) → ℕ → ℕ → Routes → Routes
unfolding has_flag
route_add host none call udpport flags t = t
route_add host (some ip) none udpport flags t = t
route_add host (some ip) (some call) udpport flags t =
    let rn : Route = record {
      callsign = normal_call call;
      ip_addr = ip;
      udp_port = udpport % 2 ^ 16;
      flags = flags;
      hostnm = host;
    } in
    record t {
      route_tbl = t.route_tbl ++ (rn ∷ []);
      default_route =
          if has_flag flags axrt_default then some (length t.route_tbl) else t.default_route;
    }

pub bcast_add : Option (List ℕ) → Routes → Routes
bcast_add none t = t
bcast_add (some call) t = record t { bcast_tbl = t.bcast_tbl ++ (normal_call call ∷ []) }

-- `update_dns`: `wait` is a number of seconds, 0 for at once. The thread clears `threadrunning` when
-- it ends.
pub update_dns : Env → ℕ → Routes → Routes
update_dns env wait t =
    if t.threadrunning
    then t
    else if not (wait == 0) && ltb env.now (t.last_dns_time + wait)
    then t
    else record t { last_dns_time = env.now; threadrunning = env.thread_created }

-- `route_updatereturnpath`, at the tree that `*clookupp` points to.
pub update_return_path : List ℕ → ℕ → CallTree → CallTree
update_return_path mycall rn leaf = node mycall rn leaf leaf
update_return_path mycall rn (node c r prev next) = elim (addrcompare mycall c) [
  | positive ↦ node c r prev (update_return_path mycall rn next)
  | negative ↦ node c r (update_return_path mycall rn prev) next
  | zero_diff ↦ node c rn prev next
]

pub find_call : List ℕ → CallTree → Option ℕ
find_call mycall leaf = none
find_call mycall (node c r prev next) = elim (addrcompare mycall c) [
  | positive ↦ find_call mycall next
  | negative ↦ find_call mycall prev
  | zero_diff ↦ some r
]

-- What is copied to `ipstorage`: the address and the port behind it.
abbrev pub Dest : Type 0
Dest = ℕ × ℕ

abbrev pub retrieveip : Route → Dest
retrieveip r = (r.ip_addr, r.udp_port)

-- The first loop of `call_to_ip`: the place of the first route whose callsign matches.
unfoldable pub find_route : List ℕ → List Route → Option Route
find_route mycall [] = none
find_route mycall (r ∷ rs) = if addrmatch mycall r.callsign then some r else find_route mycall rs

-- The callsign is given by a pointer into a frame, which is not null.
unfoldable pub call_to_ip : List ℕ → Routes → Option Dest
unfolding find_route find_call
call_to_ip call t =
    let mycall = normal_call call in
    elim (find_route mycall t.route_tbl) [
      | some r ↦ some (retrieveip r)
      | none ↦ elim (find_call mycall t.callsign_lookup) [
        | some i ↦ Option.map retrieveip (get_elem? t.route_tbl i)
        | none ↦ elim t.default_route [
          | some i ↦ Option.map retrieveip (get_elem? t.route_tbl i)
          | none ↦ none
        ]
      ]
    ]

unfoldable pub in_bcasts : List ℕ → List (List ℕ) → Bool
in_bcasts bccall [] = false
in_bcasts bccall (b ∷ bs) = if addrmatch bccall b then true else in_bcasts bccall bs

unfoldable pub is_call_bcast : List ℕ → Routes → Bool
unfolding in_bcasts
is_call_bcast call t = in_bcasts (normal_call call) t.bcast_tbl

-- The destinations of `send_broadcast`, in order.
pub broadcast_dests : List Route → List Dest
unfolding has_flag
broadcast_dests [] = []
broadcast_dests (r ∷ rs) =
    if has_flag r.flags axrt_bcast then retrieveip r ∷ broadcast_dests rs else broadcast_dests rs

-- `route_updatedyndns`, its effect on the route; on the rest it is `update_dns`.
pub learn_ip : ℕ → Route → Route
unfolding has_flag
learn_ip ip r = if has_flag r.flags axrt_learn then record r { ip_addr = ip } else r

pub update_dyndns : Env → Route → Routes → Routes
unfolding has_flag update_dns
update_dyndns env r t = if has_flag r.flags axrt_permanent then t else update_dns env 300 t

-- The first loop of `route_process` over the routes from place to place: the routes as it leaves
-- them, the rest of the variables, and `isroute`.
pub process_routes : Env → ℕ → List ℕ → List Route → Routes → List Route × Routes × Bool
unfolding learn_ip update_dyndns
process_routes env ip mycall [] t = ([], t, false)
process_routes env ip mycall (r ∷ rs) t =
    let here = addrmatch mycall r.callsign in
    let moved = here && not (ip == r.ip_addr) in
    let (rs', t', isroute) =
      process_routes env ip mycall rs (if moved then update_dyndns env r t else t) in
    ((if moved then learn_ip ip r else r) ∷ rs', t', here || isroute)

-- The second loop: the place of the first route with the address.
pub find_ip : ℕ → ℕ → List Route → Option ℕ
find_ip ip i [] = none
find_ip ip i (r ∷ rs) = if ip == r.ip_addr then some i else find_ip ip (i + 1) rs

-- `route_process` after its first loop.
pub return_path : ℕ → List ℕ → Bool → Routes → Routes
unfolding find_ip update_return_path is_call_bcast
return_path ip call isroute t =
    if not isroute && not (is_call_bcast call t)
    then elim (find_ip ip 0 t.route_tbl) [
      | some i ↦ record t {
        callsign_lookup = update_return_path (normal_call call) i t.callsign_lookup;
      }
      | none ↦ t
    ]
    else t

pub route_process : Env → ℕ → List ℕ → Routes → Routes
unfolding process_routes return_path
route_process env ip call t =
    let (tbl, t', isroute) = process_routes env ip (normal_call call) t.route_tbl t in
    return_path ip call isroute (record (t') { route_tbl = tbl })

-- `update_dnsthread`: `resolve` is `gethostbyname` with the first address of its answer.
pub dns_route : (List ℕ → Option ℕ) → Route → Route
unfolding has_flag
dns_route resolve r = elim r.hostnm [
  | [] ↦ r
  | _ ∷ _ ↦
      if not (has_flag r.flags axrt_permanent) || (r.ip_addr == 0)
      then elim (resolve r.hostnm) [ some ip ↦ record r { ip_addr = ip } | none ↦ r ]
      else r
]

pub dns_routes : (List ℕ → Option ℕ) → List Route → List Route
unfolding dns_route
dns_routes resolve [] = []
dns_routes resolve (r ∷ rs) = dns_route resolve r ∷ dns_routes resolve rs

pub dns_thread : (List ℕ → Option ℕ) → Routes → Routes
unfolding dns_routes
dns_thread resolve t = record t {
  route_tbl = dns_routes resolve t.route_tbl;
  threadrunning = false;
}
