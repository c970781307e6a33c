-- ===== src/Rip/Transmit.antt =====
-- ax25tools/tcpip/rip98t.c: the routes of the table in messages of up to thirty entries.
pub mod Chunks
use mathlib.Core.List.{map}
use linuxax.Prelude.{
  ℕ, zero, suc, ◌+◌, ◌-◌, ◌*◌, ◌/◌, ◌%◌, ◌^◌, bit_and, Bool, true, false, not, ◌&&◌, ◌||◌, List, [],
  ◌∷◌, ◌++◌, Option, none, some, ◌==◌, ltb, leb, if◌then◌else◌, length, get_elem?,
}
use linuxax.Ipd.Frame.{◌>>=◌}
use linuxax.Rip.{
  ripcmd_response, rip_version_98, rip98_infinity, rip98_header, rip98_entry, Action, orig_route,
  fixed_route, new_route, del_route, Route, is_deleted, bits2mask, build_header, put_entry,
  get_entry,
}

-- The inner loop of `transmit_routes`: the message, and the routes that are left for the next.
unfoldable pub fill_message : List ℕ → List Route → List ℕ × List Route
unfolding is_deleted put_entry
fill_message message [] = (message, [])
fill_message message (r ∷ rs) =
    let message' = if is_deleted r.action then message else message ++ put_entry r in
    elim (ltb (length message) 184) [ true ↦ fill_message message' rs | false ↦ (message, r ∷ rs) ]

-- The outer loop for one destination: the messages sent, in order.
unfoldable pub transmit_from : ℕ → List Route → Option (List (List ℕ))
unfolding fill_message build_header
transmit_from zero [] = some []
transmit_from zero (r ∷ rs) = none
transmit_from (suc fuel) [] = some []
transmit_from (suc fuel) (r ∷ rs) =
    let (message, left) = fill_message build_header (r ∷ rs) in
    transmit_from fuel left >>= λ sent.
    some (if ltb rip98_header (length message) then message ∷ sent else sent)

-- `transmit_routes`: the same messages to every destination.
pub transmit_routes : List ℕ → List Route → Option (List (ℕ × List ℕ))
unfolding transmit_from
transmit_routes [] rs = some []
transmit_routes (dest ∷ dests) rs = transmit_from (length rs) rs >>= λ sent.
    transmit_routes dests rs >>= λ others. some (map (λ message. (dest, message)) sent ++ others)
