-- ===== src/Netrom/Tests.antt =====
-- Broadcasts of concrete nodes.
use linuxax.Prelude.{
  ◌≤◌, ◌↔◌, same, ℕ, ◌+◌, ◌*◌, ◌≡◌, refl, true, List, [], ◌∷◌, ◌++◌, some, map, length, All, arith,
}
use linuxax.Address.{ax25_cmp, strspn, unlike}
use linuxax.Address.Text.{ax25_ntoa, ax25_aton_entry, aton_name, aton_ssid, blanks}
use linuxax.Netrom.{NeighLine, NodeLine, Entry, pad}
use linuxax.Netrom.Mine.{PortLine, build_mine, IsFurther, Sends, build_mine-Sends_iff}
use linuxax.Netrom.Entries.{FitsMnemonic, payload}
use linuxax.Netrom.Transmit.{build_others}
use linuxax.Netrom.Transmit.Told.{told}
use linuxax.Netrom.Transmit.Chunks.{message_of, flatten, IsChunk, build_others-Sends}
use linuxax.Netrom.Receive.{
  Port, validcallsign, valid_chars, validmnemonic, is_mnemonic_char, add_node, skipped,
  port_quality, receive_nodes,
}
use linuxax.Netrom.Receive.Learnt.{own_route, learnt}
use linuxax.Netrom.Exchange.{FitsLine, receive_nodes-build_others}

-- ABC, and the same as an address.
abbrev abc : List ℕ
abc = 0x41 ∷ 0x42 ∷ 0x43 ∷ []

abbrev abc_call : List ℕ
abc_call = 0x82 ∷ 0x84 ∷ 0x86 ∷ 0x40 ∷ 0x40 ∷ 0x40 ∷ 0 ∷ []

abbrev xyz_call : List ℕ
xyz_call = 0xb0 ∷ 0xb2 ∷ 0xb4 ∷ 0x40 ∷ 0x40 ∷ 0x40 ∷ 0 ∷ []

abbrev neighbours : List NeighLine
neighbours = record { number = 1; callsign = abc; device = 0x61 ∷ []; qual = 200; lock = 0 } ∷ []

-- One node that is told, and one that is not heard often enough.
abbrev nodes : List NodeLine
nodes =
    record { callsign = abc; mnemonic = 0x2a ∷ []; quality = 192; obs_count = 5; neigh_no = 1 }
    ∷ record { callsign = abc; mnemonic = abc; quality = 10; obs_count = 1; neigh_no = 1 }
    ∷ []

abbrev channel : Port
channel = record { device = 0x61 ∷ []; default_qual = 192; worst_qual = 3 }

abc_fits : FitsMnemonic abc
abc_fits = record { plain = (refl, (refl, (refl, tt))); few = omega arith }

nodes_fit : All FitsLine nodes
nodes_fit = (
  record { mnemonic = record { plain = (refl, tt); few = omega arith }; quality = omega arith },
  (record { mnemonic = abc_fits; quality = omega arith }, tt),
)

abc_valid : validcallsign abc_call ≡ true
unfolding validcallsign valid_chars
abc_valid = refl

build_others-Sends_example :
    (chunks : List (List Entry)) × (build_others abc 3 neighbours nodes
      ≡ some (map (message_of abc) chunks))
    × (flatten chunks ≡ told 3 neighbours nodes)
    × All IsChunk chunks
build_others-Sends_example = build_others-Sends abc 3 neighbours nodes

receive_nodes-build_others_example :
    (chunks : List (List Entry)) × (build_others abc 3 neighbours nodes
      ≡ some (map (message_of abc) chunks))
    × (flatten chunks ≡ told 3 neighbours nodes)
    × All
        (λ (es : List Entry).
          receive_nodes true xyz_call
            (λ asked r. true)
            channel
            6
            neighbours
            ((pad abc ++ payload es) ++ (7 ∷ []))
            (6 + 21 * length es)
            abc_call
          ≡ some (
              own_route true xyz_call channel 6 neighbours abc abc_call
              ++ learnt true xyz_call channel abc_call
                  (port_quality channel (ax25_ntoa abc_call) neighbours)
                  6
                  es))
        chunks
receive_nodes-build_others_example =
    receive_nodes-build_others abc 3 neighbours nodes true xyz_call channel (λ asked r. true) 6
      neighbours abc_call (7 ∷ []) abc_fits nodes_fit (λ asked r. refl) abc_valid

-- A port of its own, with the address ABC, where the first port is XYZ.
abbrev abc_port : PortLine
abc_port = record { addr = some abc; alias = abc }

abbrev xyz : List ℕ
xyz = 0x58 ∷ 0x59 ∷ 0x5a ∷ []

abc_read : ax25_aton_entry abc ≡ some abc_call
unfolding ax25_aton_entry aton_name aton_ssid blanks
abc_read = refl

xyz_read : ax25_aton_entry xyz ≡ some xyz_call
unfolding ax25_aton_entry aton_name aton_ssid blanks
xyz_read = refl

abc_port-IsFurther : IsFurther xyz abc_port
unfolding same
abc_port-IsFurther = record {
  name = abc;
  call = abc_call;
  named = refl;
  other = refl;
  read = abc_read;
  short = omega arith;
}

build_mine-Sends_iff_example :
    Sends xyz (build_mine abc xyz 192 (abc_port ∷ abc_port ∷ [])) ↔ (2 ≤ 4)
build_mine-Sends_iff_example =
    build_mine-Sends_iff xyz xyz_call xyz_read 192 abc (abc_port ∷ abc_port ∷ []) (omega arith)
      (abc_port-IsFurther, (abc_port-IsFurther, tt))

abbrev heard : Entry
heard = record {
  callsign = xyz_call;
  mnemonic = abc;
  best_neighbour = abc_call;
  best_quality = 128;
}

-- A node that the sender reaches through this station is passed over.
route_back :
    add_node true abc_call (λ asked r. true) channel xyz_call 192 6 heard [] ≡ (skipped, [])
unfolding add_node validcallsign valid_chars validmnemonic strspn is_mnemonic_char ax25_cmp unlike
route_back = refl
