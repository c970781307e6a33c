-- ===== src/Ipd/Process/Tests.antt =====
-- The theorems on the daemon at a frame between two stations and a table of one route.
use linuxax.Prelude.{ℕ, ◌≡◌, true, false, List, [], ◌∷◌, ◌++◌, none, some, refl, inl}
use linuxax.Ipd.Crc.{add_crc}
use linuxax.Ipd.Kiss.{send_kiss}
use linuxax.Ipd.Frame.{is_last, field_ok, addr_field_ok, next_addr}
use linuxax.Ipd.Frame.Layout.{HasAddresses}
use linuxax.Ipd.Call.{differs, addrmatch, normal_call}
use linuxax.Ipd.Routing.{Route, Env, Dest, leaf, find_route, call_to_ip, in_bcasts, is_call_bcast}
use linuxax.Ipd.Process.{
  Config, Daemon, ip_packet, serial, addr_at, from_kiss, from_ip, beacon_frame, do_beacon,
}
use linuxax.Ipd.Process.Kiss
use linuxax.Ipd.Process.Network
use linuxax.Ipd.Process.Tunnel.{CanSend, from_kiss-sends, from_ip-receives}
use linuxax.Ipd.Process.Beacon.{HasBeacon, sent_as, do_beacon-HasBeacon}

abbrev station : ℕ → ℕ → List ℕ
station c flag = c ∷ 0x84 ∷ 0x86 ∷ 0x62 ∷ 0x88 ∷ 0x8a ∷ flag ∷ []

-- To one station from another, no digipeater.
abbrev direct : List ℕ
direct = station 0x82 0x60 ++ station 0x90 0x61 ++ (0x03 ∷ 0xf0 ∷ 0x48 ∷ [])

abbrev clock : Env
clock = record { now = 1000; thread_created = true }

abbrev gateway : Route
gateway = record {
  callsign = station 0x82 0x60;
  ip_addr = 44;
  udp_port = 93;
  flags = 0;
  hostnm = [];
}

abbrev to_gateway : Dest
to_gateway = (44, 93)

abbrev tnc : Config
tnc = record {
  mycallsign = station 0x94 0x60;
  myalias = [];
  mycallsign2 = [];
  myalias2 = [];
  digi = false;
  dual_port = false;
  ttyfd_bpq = false;
  udp_mode = true;
  ip_mode = false;
  bc_text = 0x68 ∷ 0x69 ∷ [];
}

abbrev idle : Daemon
idle = record {
  stats = record {
    kiss_out = 0;
    kiss_beacon_outs = 0;
    kiss_tooshort = 0;
    kiss_not_for_me = 0;
    kiss_i_am_dest = 0;
    kiss_no_ip_addr = 0;
    udp_out = 0;
    ip_out = 0;
    ip_failed_crc = 0;
    ip_tooshort = 0;
    ip_not_for_me = 0;
    ip_i_am_dest = 0;
  };
  routes = record {
    route_tbl = gateway ∷ [];
    default_route = none;
    bcast_tbl = [];
    callsign_lookup = leaf;
    last_dns_time = 0;
    threadrunning = false;
  };
  bcbuf = none;
  sent = [];
}

direct_checked : addr_field_ok direct ≡ true
unfolding addr_field_ok field_ok is_last
direct_checked = refl

direct_next : next_addr direct ≡ some 0
unfolding next_addr is_last
direct_next = refl

gateway_found : call_to_ip (addr_at direct 0) idle.routes ≡ some to_gateway
unfolding call_to_ip find_route addrmatch differs normal_call
gateway_found = refl

no_bcast : is_call_bcast (addr_at direct 0) idle.routes ≡ false
unfolding is_call_bcast in_bcasts
no_bcast = refl

gateway-CanSend : CanSend tnc to_gateway
gateway-CanSend = record { known = refl; udp = λ e. refl; ip = λ e. absurd (cc) }

from_kiss-sends_example :
    (d' : Daemon) × (from_kiss tnc idle direct ≡ some d')
    × (d'.sent ≡ ip_packet (add_crc direct) to_gateway ∷ [])
from_kiss-sends_example =
    from_kiss-sends tnc idle direct 0 to_gateway refl direct_checked direct_next gateway_found
      no_bcast gateway-CanSend

from_ip-receives_example :
    (d' : Daemon) × (from_ip tnc clock idle (add_crc direct) 44 ≡ some d')
    × (d'.sent ≡ serial (send_kiss 0 direct) ∷ [])
from_ip-receives_example = from_ip-receives tnc clock idle direct 44 refl refl direct_checked

from_kiss-Outcome_example :
    (d' : Daemon) × (from_kiss tnc idle direct ≡ some d') × Kiss.Outcome tnc idle direct d'
from_kiss-Outcome_example = Kiss.from_kiss-Outcome tnc idle direct

from_ip-Outcome_example :
    (d' : Daemon) × (from_ip tnc clock idle (add_crc direct) 44 ≡ some d')
    × Network.Outcome tnc clock idle (add_crc direct) 44 d'
from_ip-Outcome_example = Network.from_ip-Outcome tnc clock idle (add_crc direct) 44

do_beacon-HasBeacon_example :
    ((do_beacon tnc idle).sent ≡ sent_as tnc ∷ [])
    × HasAddresses 2 (beacon_frame tnc)
    × HasBeacon tnc (do_beacon tnc idle)
    × ((do_beacon tnc idle).stats.kiss_beacon_outs ≡ 1)
do_beacon-HasBeacon_example = do_beacon-HasBeacon tnc idle (inl refl)
