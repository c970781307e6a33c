-- ===== src/Ipd/Process.antt =====
-- ax25apps/ax25ipd/process.c: what the daemon does with a frame from the serial line and with a
-- packet from the network, with `send_ip` and `send_tty` of io.c. A read outside a frame is `none`.
-- A sent packet is what is handed to `sendto`, `write` or `send_bpq`; that these may fail and are
-- tried again is left out. TNC_FILTER is not defined.
pub mod Hops
pub mod Kiss
pub mod Network
pub mod Tunnel
pub mod Beacon
mod Tests
use mathlib.Core.List.{foldl}
use linuxax.Prelude.{
  ℕ, suc, ◌+◌, ◌-◌, bit_or, Bool, true, false, not, ◌&&◌, ◌||◌, List, [], ◌∷◌, ◌++◌, Option, none,
  some, ◌==◌, ltb, if◌then◌else◌, length, take, drop, get_or,
}
use linuxax.Ipd.Crc.{ok_crc, add_crc}
use linuxax.Ipd.Kiss.{send_kiss}
use linuxax.Ipd.Frame.{◌>>=◌, addr_field_ok, next_addr, from_addr, set_repeated}
use linuxax.Ipd.Call.{addrmatch}
use linuxax.Ipd.Routing.{
  Routes, Env, Dest, call_to_ip, is_call_bcast, broadcast_dests, route_process,
}

-- The settings of ax25ipd.h that these functions read. `ttyfd_bpq` is a flag.
pub record Config : Type 0 where
  pub mycallsign : List ℕ
  pub myalias : List ℕ
  pub mycallsign2 : List ℕ
  pub myalias2 : List ℕ
  pub digi : Bool
  pub dual_port : Bool
  pub ttyfd_bpq : Bool
  pub udp_mode : Bool
  pub ip_mode : Bool
  pub bc_text : List ℕ

pub data Sent : Type 0 where
  ip_packet : (buf : List ℕ) (targetip : Dest) → Sent
  serial : List ℕ → Sent
  bpq : List ℕ → Sent

-- The counters of `ax25ipd_stats` that these functions change.
pub record Stats : Type 0 where
  pub kiss_out : ℕ
  pub kiss_beacon_outs : ℕ
  pub kiss_tooshort : ℕ
  pub kiss_not_for_me : ℕ
  pub kiss_i_am_dest : ℕ
  pub kiss_no_ip_addr : ℕ
  pub udp_out : ℕ
  pub ip_out : ℕ
  pub ip_failed_crc : ℕ
  pub ip_tooshort : ℕ
  pub ip_not_for_me : ℕ
  pub ip_i_am_dest : ℕ

-- `bcbuf` is `none` while `bclen` is -1, and all that was sent is kept in order.
pub record Daemon : Type 0 where
  pub stats : Stats
  pub routes : Routes
  pub bcbuf : Option (List ℕ)
  pub sent : List Sent

pub process_init : Daemon → Daemon
process_init d = record d { bcbuf = none }

-- The address that a pointer into the frame points to.
abbrev pub addr_at : List ℕ → ℕ → List ℕ
addr_at f a = take 7 (drop a f)

-- `IS_ME` and `FOR_PORT2`
pub is_me : Config → List ℕ → Bool
is_me cfg p =
    addrmatch p cfg.mycallsign
    || addrmatch p cfg.myalias
    || addrmatch p cfg.mycallsign2
    || addrmatch p cfg.myalias2

pub for_port2 : Config → List ℕ → Bool
for_port2 cfg p = addrmatch p cfg.mycallsign2 || addrmatch p cfg.myalias2

abbrev pub with_sent : Daemon → Sent → Daemon
with_sent d s = record d { sent = d.sent ++ (s ∷ []) }

pub send_ip : Config → Daemon → List ℕ → Dest → Daemon
send_ip cfg d [] to = d
send_ip cfg d (b ∷ bs) to =
    let d' = with_sent d (ip_packet (b ∷ bs) to) in
    if to.0 == 0
    then d
    else if not (to.1 == 0)
    then if cfg.udp_mode
      then record (d') { stats = record (d.stats) { udp_out = d.stats.udp_out + 1 } }
      else d
    else if cfg.ip_mode
    then record (d') { stats = record (d.stats) { ip_out = d.stats.ip_out + 1 } }
    else d

pub send_tty : Daemon → List ℕ → Daemon
send_tty d [] = d
send_tty d (b ∷ bs) = record d {
  stats = record (d.stats) { kiss_out = d.stats.kiss_out + 1 };
  sent = d.sent ++ (serial (b ∷ bs) ∷ []);
}

pub send_broadcast : Config → Daemon → List ℕ → Daemon
unfolding send_ip
send_broadcast cfg d buf =
    foldl (λ e to. send_ip cfg e buf to) d (broadcast_dests d.routes.route_tbl)

-- `from_kiss` from the look-up on: `a` is the address of who gets the frame next.
pub forward_to : Config → Daemon → List ℕ → ℕ → Daemon
unfolding send_ip send_broadcast
forward_to cfg d buf a =
    let to_all = is_call_bcast (addr_at buf a) d.routes in
    elim (call_to_ip (addr_at buf a) d.routes) [
      | none ↦ if to_all then send_broadcast cfg d (add_crc buf) else record d {
        stats = record (d.stats) { kiss_no_ip_addr = d.stats.kiss_no_ip_addr + 1 };
      }
      | some ipaddr ↦
          let d' = send_ip cfg d (add_crc buf) ipaddr in
          if to_all then send_broadcast cfg d' (add_crc buf) else d'
    ]

kiss_tooshort : Daemon → Daemon
kiss_tooshort d = record d {
  stats = record (d.stats) { kiss_tooshort = d.stats.kiss_tooshort + 1 };
}

-- `from_kiss` in digipeater mode, where `a` is the station that is to pick up the frame.
pub kiss_digi : Config → Daemon → List ℕ → ℕ → Option Daemon
unfolding is_me forward_to
kiss_digi cfg d buf a =
    if not (is_me cfg (addr_at buf a))
    then some
        (record d { stats = record (d.stats) { kiss_not_for_me = d.stats.kiss_not_for_me + 1 } })
    else if a == 0
    then some
        (record d { stats = record (d.stats) { kiss_i_am_dest = d.stats.kiss_i_am_dest + 1 } })
    else do f ← set_repeated buf a; a' ← next_addr f; some (forward_to cfg d f a')

pub from_kiss : Config → Daemon → List ℕ → Option Daemon
unfolding kiss_digi kiss_tooshort
from_kiss cfg d buf =
    if ltb (length buf) 15
    then some (kiss_tooshort d)
    else if not (addr_field_ok buf)
    then some (kiss_tooshort d)
    else do
      a ← next_addr buf
      if cfg.digi then kiss_digi cfg d buf a else some (forward_to cfg d buf a)

ip_tooshort : Daemon → Daemon
ip_tooshort d = record d { stats = record (d.stats) { ip_tooshort = d.stats.ip_tooshort + 1 } }

-- The line in use: a KISS line, or the kernel's interface.
abbrev pub to_line : Config → Daemon → ℕ → List ℕ → Daemon
to_line cfg d port buf =
    if cfg.ttyfd_bpq then with_sent d (bpq buf) else send_tty d (send_kiss port buf)

-- The end of `from_ip`.
pub to_serial : Config → Env → Daemon → ℕ → List ℕ → ℕ → Option Daemon
unfolding send_tty
to_serial cfg env d port buf ip = from_addr cfg.digi buf >>= λ f.
    let d' = record d { routes = route_process env ip (addr_at buf f) d.routes } in
    some (to_line cfg d' port buf)

-- `from_ip` in digipeater mode.
pub ip_digi : Config → Env → Daemon → List ℕ → ℕ → ℕ → Option Daemon
unfolding is_me for_port2 to_serial
ip_digi cfg env d buf a ip =
    if not (is_me cfg (addr_at buf a))
    then some (record d { stats = record (d.stats) { ip_not_for_me = d.stats.ip_not_for_me + 1 } })
    else if a == 0
    then some (record d { stats = record (d.stats) { ip_i_am_dest = d.stats.ip_i_am_dest + 1 } })
    else do
      f ← set_repeated buf a
      to_serial cfg env d (if cfg.dual_port && for_port2 cfg (addr_at buf a) then 0x10 else 0) f ip

-- `ip` is the address that the packet came from.
pub from_ip : Config → Env → Daemon → List ℕ → ℕ → Option Daemon
unfolding ip_digi ip_tooshort
from_ip cfg env d packet ip =
    let buf = take (length packet - 2) packet in
    if not (ok_crc packet)
    then some (record d { stats = record (d.stats) { ip_failed_crc = d.stats.ip_failed_crc + 1 } })
    else if ltb (length buf) 15
    then some (ip_tooshort d)
    else if not (addr_field_ok buf)
    then some (ip_tooshort d)
    else do
      a ← next_addr buf
      if cfg.digi then ip_digi cfg env d buf a ip else to_serial cfg env d 0 buf ip

-- The frame that `do_beacon` builds: to ID, from `mycallsign`, a UI frame with the text.
pub beacon_frame : Config → List ℕ
beacon_frame cfg =
    (0x92
      ∷ 0x88
      ∷ 0x40
      ∷ 0x40
      ∷ 0x40
      ∷ 0x40
      ∷ 0x60
      ∷ get_or cfg.mycallsign 0 0
      ∷ get_or cfg.mycallsign 1 0
      ∷ get_or cfg.mycallsign 2 0
      ∷ get_or cfg.mycallsign 3 0
      ∷ get_or cfg.mycallsign 4 0
      ∷ get_or cfg.mycallsign 5 0
      ∷ bit_or (bit_or (get_or cfg.mycallsign 6 0) 0x60) 0x01
      ∷ 0x03
      ∷ 0xf0
      ∷ [])
    ++ cfg.bc_text

-- The string is built once, and is at least 16 bytes long.
pub id_string : Config → Option (List ℕ) → List ℕ
unfolding beacon_frame
id_string cfg none = beacon_frame cfg
id_string cfg (some buf) = buf

pub do_beacon : Config → Daemon → Daemon
unfolding send_tty id_string
do_beacon cfg d =
    let buf = id_string cfg d.bcbuf in
    let d' = record d {
      bcbuf = some buf;
      stats = record (d.stats) { kiss_beacon_outs = d.stats.kiss_beacon_outs + 1 };
    } in
    to_line cfg d' 0 buf
