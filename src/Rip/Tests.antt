-- ===== src/Rip/Tests.antt =====
-- The theorems on RIP98 at two routes to the network 44, of which one is deleted.
use linuxax.Prelude.{◌≡◌, ◌++◌, true, List, [], ◌∷◌, some, length, arith, refl, All, map}
use linuxax.Rip.{Route, orig_route, del_route, build_header, put_entry, is_deleted}
use linuxax.Rip.Message.{FitsEntry, message_of, live}
use linuxax.Rip.Transmit.{transmit_from, fill_message, transmit_routes}
use linuxax.Rip.Transmit.Chunks.{flatten, IsChunk, to_each, transmit_routes-Sends}
use linuxax.Rip.Receive.{Request, is_dest, del_requests, add_requests, receive_routes}
use linuxax.Rip.Receive.RoundTrip.{learn_all, receive_routes-message_of}

abbrev ampr : Route
ampr = record { addr = 0x2c000000; bits = 8; metric = 3; action = orig_route }

abbrev gone : Route
gone = record { addr = 0x2c820000; bits = 16; metric = 5; action = del_route }

transmit_routes-Sends_example :
    (chunks : List (List Route)) × (transmit_routes (9 ∷ 7 ∷ []) (gone ∷ ampr ∷ [])
      ≡ some (to_each (9 ∷ 7 ∷ []) (map message_of chunks)))
    × (flatten chunks ≡ live (gone ∷ ampr ∷ []))
    × All IsChunk chunks
transmit_routes-Sends_example = transmit_routes-Sends (9 ∷ 7 ∷ []) (gone ∷ ampr ∷ [])

-- One message with the one entry.
sent_one :
    transmit_from 2 (gone ∷ ampr ∷ []) ≡ some ((2 ∷ 98 ∷ 0 ∷ 0 ∷ 44 ∷ 0 ∷ 0 ∷ 0 ∷ 8 ∷ 3 ∷ []) ∷ [])
unfolding transmit_from fill_message build_header put_entry is_deleted
sent_one = refl

ampr-FitsEntry : FitsEntry ampr
ampr-FitsEntry = record { addr = omega arith; bits = omega arith; metric = omega arith }

known : is_dest 7 (9 ∷ 7 ∷ []) ≡ true
unfolding is_dest
known = refl

receive_routes-message_of_example :
    (rs' : List Route) × (added : List Request) × (learn_all true (ampr ∷ []) (gone ∷ [])
      ≡ some rs')
    × (add_requests 7 rs' ≡ some added)
    × (receive_routes true
          (9 ∷ 7 ∷ [])
          (message_of (ampr ∷ []) ++ (0 ∷ 0 ∷ []))
          (length (message_of (ampr ∷ [])))
          7
          (gone ∷ [])
        ≡ some (rs', del_requests rs' ++ added))
receive_routes-message_of_example =
    receive_routes-message_of true (9 ∷ 7 ∷ []) (ampr ∷ []) (0 ∷ 0 ∷ []) 7 (gone ∷ [])
      (ampr-FitsEntry, tt) (omega arith, tt) (omega arith, tt) known
