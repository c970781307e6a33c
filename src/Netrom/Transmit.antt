-- ===== src/Netrom/Transmit.antt =====
-- ax25tools/netrom/netromt.c: the broadcasts of the nodes that the kernel knows.
pub mod Told
pub mod Chunks
use linuxax.Prelude.{
  ℕ, zero, suc, ◌+◌, ◌%◌, Bool, true, false, not, ◌&&◌, ◌||◌, List, [], ◌∷◌, ◌++◌, Option, none,
  some, ◌==◌, ltb, if◌then◌else◌, length, same,
}
use linuxax.Ipd.Frame.{◌>>=◌}
use linuxax.Address.Text.{ax25_aton_entry}
use linuxax.Netrom.{
  nodes_sig, mnemonic_len, nodes_paclen, route_len, NeighLine, NodeLine, Entry, pad, put_entry,
}

-- `build_header`, with the alias of the first port.
pub build_header : List ℕ → List ℕ
unfolding pad
build_header alias = nodes_sig ∷ pad alias

-- The search of the neighbours.
pub find_neighbour : ℕ → List NeighLine → Option (List ℕ)
find_neighbour neigh_no [] = none
find_neighbour neigh_no (n ∷ ns) =
    let later = find_neighbour neigh_no ns in
    if n.number == neigh_no then some n.callsign else later

-- What a line of the nodes adds to a message, `none` if it is passed over.
pub put_node : ℕ → List NeighLine → NodeLine → Option (List ℕ)
unfolding find_neighbour put_entry
put_node min_obs neighs n = if ltb n.obs_count min_obs || (n.quality == 0) then none else do
  neighbour ← find_neighbour n.neigh_no neighs
  callsign ← ax25_aton_entry n.callsign
  best ← ax25_aton_entry neighbour
  let entry : Entry = record {
    callsign = callsign;
    mnemonic = if same n.mnemonic (0x2a ∷ []) then [] else n.mnemonic;
    best_neighbour = best;
    best_quality = n.quality;
  }
  some (put_entry entry)

-- The inner loop of `build_others`: the message, and the lines that are left.
pub fill_message : ℕ → List NeighLine → List ℕ → List NodeLine → List ℕ × List NodeLine
unfolding put_node
fill_message min_obs neighs message [] = (message, [])
fill_message min_obs neighs message (n ∷ ns) = elim (put_node min_obs neighs n) [
  | none ↦ fill_message min_obs neighs message ns
  | some bytes ↦ elim (ltb nodes_paclen (length (message ++ bytes) + route_len)) [
    | true ↦ (message ++ bytes, ns)
    | false ↦ fill_message min_obs neighs (message ++ bytes) ns
  ]
]

-- The outer loop: the messages sent, in order. It goes on as long as a message was full.
pub others_from : ℕ → List ℕ → ℕ → List NeighLine → List NodeLine → Option (List (List ℕ))
unfolding fill_message build_header
others_from zero alias min_obs neighs ns = none
others_from (suc fuel) alias min_obs neighs ns =
    let (message, left) = fill_message min_obs neighs (build_header alias) ns in
    let sent = if ltb (length (build_header alias)) (length message) then message ∷ [] else [] in
    elim (ltb nodes_paclen (length message + route_len)) [
      | true ↦ others_from fuel alias min_obs neighs left >>= λ more. some (sent ++ more)
      | false ↦ some sent
    ]

-- `build_others`; `sendto` is taken to succeed.
pub build_others : List ℕ → ℕ → List NeighLine → List NodeLine → Option (List (List ℕ))
unfolding others_from
build_others alias min_obs neighs ns = others_from (suc (length ns)) alias min_obs neighs ns
