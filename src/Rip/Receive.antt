-- ===== src/Rip/Receive.antt =====
-- ax25tools/tcpip/rip98r.c: what a message changes in the table, and what is asked of the kernel.
pub mod RoundTrip
use linuxax.Prelude.{
  ℕ, zero, suc, ◌+◌, ◌-◌, ◌*◌, ◌/◌, ◌%◌, ◌^◌, bit_and, Bool, true, false, not, ◌&&◌, ◌||◌, List, [],
  ◌∷◌, ◌++◌, Option, none, some, ◌==◌, ltb, leb, if◌then◌else◌, length, get_elem?,
}
use linuxax.Ipd.Frame.{◌>>=◌}
use linuxax.Rip.{
  ripcmd_response, rip_version_98, rip98_infinity, rip98_header, rip98_entry, Action, orig_route,
  fixed_route, new_route, del_route, Route, is_deleted, bits2mask, build_header, put_entry,
  get_entry,
}

-- `inet_netof`: the network number of an address of class A, B or C.
pub inet_netof : ℕ → ℕ
inet_netof addr =
    if ltb addr (2 ^ 31)
    then addr / 2 ^ 24
    else if ltb addr (3 * 2 ^ 30)
    then addr / 2 ^ 16
    else addr / 2 ^ 8

-- `UNMATCH_ROUTE`, `NO_ROUTE`, `REPLACE_ROUTE` and `ADDITIONAL_ROUTE`
pub data Comparison : Type 0 where
  unmatch_route no_route replace_route additional_route : Comparison

pub cmp_route : Route → (addr bits metric : ℕ) → Option Comparison
unfolding bits2mask
cmp_route route addr bits metric = do
  old_mask ← bits2mask route.bits
  new_mask ← bits2mask bits
  let mask = if ltb bits route.bits then new_mask else old_mask
  let closer =
      if leb route.metric metric
      then no_route
      else if leb route.bits bits
      then elim route.action [ orig_route ↦ replace_route | _ ↦ additional_route ]
      else additional_route
  let same_net = if bit_and route.addr mask == bit_and addr mask then closer else unmatch_route
  some (elim route.action [ del_route ↦ unmatch_route | new_route ↦ unmatch_route | _ ↦ same_net ])

-- The loop over the routes for one entry of a message: the routes as it leaves them, `found` and
-- `matched`.
pub scan_routes : (addr bits metric : ℕ) → List Route → Option (List Route × Bool × Bool)
unfolding cmp_route
scan_routes addr bits metric [] = some ([], false, false)
scan_routes addr bits metric (route ∷ rs) = do
  c ← cmp_route route addr bits metric
  (rs', found, matched) ← scan_routes addr bits metric rs
  some (elim c [
    | unmatch_route ↦ (route ∷ rs', found, matched)
    | no_route ↦ (route ∷ rs', found, true)
    | replace_route ↦ (record route { action = del_route } ∷ rs', true, true)
    | additional_route ↦ (route ∷ rs', true, true)
  ])

-- One entry of a message, its metric counted up: a new route is put at the head.
pub learn_route : (addr bits metric : ℕ) → List Route → Option (List Route)
unfolding scan_routes
learn_route addr bits metric rs = do
  (rs', found, matched) ← scan_routes addr bits metric rs
  let new : Route = record { addr = addr; bits = bits; metric = metric; action = new_route }
  some (if found || not matched then new ∷ rs' else rs')

pub is_rejected : Bool → ℕ → Bool
unfolding inet_netof
is_rejected route_restrict addr =
    let network = inet_netof addr in
    (network == 0) || (network == 127) || (route_restrict && not (network == 44))

-- An entry as the loop of `receive_routes` takes it.
pub take_entry : Bool → ℕ × ℕ × ℕ → List Route → Option (List Route)
unfolding is_rejected learn_route
take_entry route_restrict (addr, bits, metric) rs =
    if is_rejected route_restrict addr
    then some rs
    else learn_route addr bits
        (if ltb rip98_infinity (metric + 1) then rip98_infinity else metric + 1) rs

-- The loop over the message from `p` on; a round goes six bytes on.
pub receive_from : ℕ → Bool → List ℕ → ℕ → ℕ → List Route → Option (List Route)
unfolding get_entry take_entry
receive_from zero route_restrict message mess_len p rs = none
receive_from (suc fuel) route_restrict message mess_len p rs = elim (ltb p mess_len) [
  | false ↦ some rs
  | true ↦ get_entry message p >>= λ e. take_entry route_restrict e rs >>= λ rs'.
      receive_from fuel route_restrict message mess_len (p + rip98_entry) rs'
]

-- What is asked of the kernel. `none` for the mask is RTF_HOST.
pub data Request : Type 0 where
  del_rt : (dst : ℕ) → Request
  add_rt : (dst : ℕ) (genmask : Option ℕ) (metric gateway : ℕ) → Request

pub del_requests : List Route → List Request
unfolding is_deleted
del_requests [] = []
del_requests (r ∷ rs) =
    if is_deleted r.action then del_rt r.addr ∷ del_requests rs else del_requests rs

pub add_requests : ℕ → List Route → Option (List Request)
unfolding bits2mask
add_requests gateway [] = some []
add_requests gateway (r ∷ rs) = add_requests gateway rs >>= λ others. elim r.action [
  | new_route ↦
      if r.bits == 32
      then some (add_rt r.addr none (r.metric + 1) gateway ∷ others)
      else bits2mask r.bits >>= λ mask.
          some (add_rt r.addr (some mask) (r.metric + 1) gateway ∷ others)
  | _ ↦ some others
]

unfoldable pub is_dest : ℕ → List ℕ → Bool
is_dest rem_addr [] = false
is_dest rem_addr (dest ∷ dests) = (rem_addr == dest) || is_dest rem_addr dests

-- `message` is the buffer of 500 bytes after `recvfrom`, which has succeeded.
pub receive_routes :
    Bool
    → List ℕ
    → List ℕ
    → (mess_len rem_addr : ℕ) → List Route
    → Option (List Route × List Request)
unfolding receive_from del_requests add_requests is_dest
receive_routes route_restrict dests message mess_len rem_addr rs = do
  cmd ← get_elem? message 0
  vers ← get_elem? message 1
  let learnt = do
    rs' ← receive_from (suc mess_len) route_restrict message mess_len rip98_header rs
    added ← add_requests rem_addr rs'
    some (rs', del_requests rs' ++ added)
  if not (cmd == ripcmd_response) || not (vers == rip_version_98)
      then some (rs, [])
      else if not (is_dest rem_addr dests)
      then some (rs, [])
      else learnt
