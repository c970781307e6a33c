-- ===== src/Netrom/Receive.antt =====
-- ax25tools/netrom/netromr.c: the routes that the kernel is asked to set after a broadcast.
pub mod Learnt
use linuxax.Prelude.{
  ℕ, zero, suc, ◌+◌, ◌-◌, ◌*◌, ◌/◌, bit_and, Bool, true, false, not, ◌&&◌, ◌||◌, List, [], ◌∷◌,
  ◌++◌, Option, none, some, ◌==◌, ltb, leb, if◌then◌else◌, length, same,
}
use linuxax.Ipd.Frame.{◌>>=◌}
use linuxax.Address.{ax25_cmp, strspn}
use linuxax.Address.Text.{is_digit, is_upper, is_lower, ax25_ntoa}
use linuxax.Netrom.{mnemonic_len, route_len, NeighLine, Entry, get_bytes, unpad, get_entry}

-- The fields of `nr_route_struct` that change; `type` is NETROM_NODE and `ndigis` is 0.
pub record NodeRoute : Type 0 where
  pub callsign : List ℕ
  pub mnemonic : List ℕ
  pub neighbour : List ℕ
  pub device : List ℕ
  pub quality : ℕ
  pub obs_count : ℕ

-- `port_struct`, as far as it is read here.
pub record Port : Type 0 where
  pub device : List ℕ
  pub default_qual : ℕ
  pub worst_qual : ℕ

-- The loop of `validcallsign`: the characters that are left, and `end`.
unfoldable pub valid_chars : ℕ → Bool → List ℕ → Bool
valid_chars zero ended a = true
valid_chars (suc left) ended [] = false
valid_chars (suc left) ended (b ∷ a) =
    let c = bit_and (b / 2) 0x7f in
    let going = valid_chars left ended a in
    let over = valid_chars left true a in
    if not ended && (is_upper c || is_digit c) then going else if c == 0x20 then over else false

unfoldable pub validcallsign : List ℕ → Bool
unfolding valid_chars
validcallsign a = valid_chars 6 false a

unfoldable pub is_mnemonic_char : Bool → ℕ → Bool
is_mnemonic_char compliant c =
    (c == 0x23)
    || (c == 0x5f)
    || (c == 0x26)
    || (c == 0x2d)
    || (c == 0x2f)
    || is_upper c
    || is_digit c
    || (not compliant && is_lower c)

unfoldable pub validmnemonic : Bool → List ℕ → Bool
unfolding strspn is_mnemonic_char
validmnemonic compliant mnemonic = strspn mnemonic (is_mnemonic_char compliant) == length mnemonic

-- What `add_node` returns: -1, FALSE or TRUE.
pub data Added : Type 0 where
  failed skipped set : Added

-- The loop over the neighbours: the quality of a locked route to the station, else that of the port.
pub port_quality : Port → List ℕ → List NeighLine → ℕ
unfolding same
port_quality port portcall [] = port.default_qual
port_quality port portcall (n ∷ ns) =
    let later = port_quality port portcall ns in
    if same n.callsign portcall && same n.device port.device && (n.lock == 1) then n.qual else later

-- What the loop does with the answer of `add_node`: -1 ends it.
pub after_node :
    Added × List NodeRoute → (List NodeRoute → Option (List NodeRoute)) → Option (List NodeRoute)
after_node (failed, asked) more = some asked
after_node (skipped, asked) more = more asked
after_node (set, asked) more = more asked

-- `compliant`, `my_call`, and the kernel's answer to SIOCADDRT after the requests before.
module _ (compliant : Bool) (my_call : List ℕ) (add_route : List NodeRoute → NodeRoute → Bool)
    (port : Port) where
  -- The second part of `receive_nodes` for one entry: the requests with the new one, if any.
  unfoldable pub add_node :
      (neighbour : List ℕ) (quality obs_count : ℕ) → Entry → List NodeRoute → Added × List NodeRoute
  unfolding validcallsign validmnemonic ax25_cmp
  add_node neighbour quality obs_count e asked =
      let r : NodeRoute = record {
        callsign = e.callsign;
        mnemonic = e.mnemonic;
        neighbour = neighbour;
        device = port.device;
        quality = (quality * e.best_quality + 128) / 256;
        obs_count = obs_count;
      } in
      if not (validcallsign e.callsign)
      then (failed, asked)
      else if not (validmnemonic compliant e.mnemonic)
      then (failed, asked)
      else if not (validcallsign e.best_neighbour)
      then (failed, asked)
      else if ax25_cmp my_call e.best_neighbour == 0
      then (skipped, asked)
      else if ltb r.quality port.worst_qual
      then (skipped, asked)
      else (if add_route asked r then set else failed, asked ++ (r ∷ []))

  -- The loop over the entries.
  pub receive_from :
      ℕ
      → (neighbour : List ℕ) (quality obs_count : ℕ) (buffer : List ℕ) (left : ℕ) → List NodeRoute
      → Option (List NodeRoute)
  unfolding add_node after_node get_entry
  receive_from zero neighbour quality obs_count buffer left asked = none
  receive_from (suc fuel) neighbour quality obs_count buffer left asked =
      elim (leb route_len left) [
        | false ↦ some asked
        | true ↦ get_entry buffer >>= λ (e, buffer').
            after_node (add_node neighbour quality obs_count e asked)
              (receive_from fuel neighbour quality obs_count buffer' (left - route_len))
      ]

  -- `receive_nodes`: what the kernel is asked for, in order; `buffer` is what is left of the frame's
  -- buffer behind NODES_SIG. The files can be read and the socket opened.
  pub receive_nodes :
      (obs_count : ℕ)
      → List NeighLine
      → (buffer : List ℕ) (left : ℕ) (neighbour : List ℕ) → Option (List NodeRoute)
  unfolding receive_from port_quality get_bytes unpad validcallsign validmnemonic
  receive_nodes obs_count neighs buffer left neighbour =
      if not (validcallsign neighbour) then some [] else do
        let quality = port_quality port (ax25_ntoa neighbour) neighs
        (bytes, buffer') ← get_bytes mnemonic_len buffer
        let mnemonic = unpad bytes
        let own : NodeRoute = record {
          callsign = neighbour;
          mnemonic = mnemonic;
          neighbour = neighbour;
          device = port.device;
          quality = quality;
          obs_count = obs_count;
        }
        let loop = receive_from (suc left) neighbour quality obs_count buffer' (left - mnemonic_len)
        if not (validmnemonic compliant mnemonic)
            then loop []
            else if add_route [] own
            then loop (own ∷ [])
            else some (own ∷ [])
