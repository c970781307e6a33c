-- ===== src/Ipd/Process/Tunnel.antt =====
-- Two daemons in TNC mode as a tunnel: what goes in at one serial line comes out at the other.
use mathlib.Core.Path.{subst}
use linuxax.Prelude.{
  ℕ, ◌-◌, ◌≡◌, true, false, List, [], ◌∷◌, ◌++◌, some, if-false, arith, Bool-cases, inl, inr, refl,
  ap, sym, ◌∙◌, length, length-append, take-append_exact, ◌/◌, bit_and, ◌==◌,
}
use linuxax.Ipd.Crc.{add_crc, compute_crc}
use linuxax.Ipd.Crc.Residue.{ok_crc-add_crc}
use linuxax.Ipd.Kiss.{send_kiss}
use linuxax.Ipd.Kiss.Encoding.{send_kiss-cons}
use linuxax.Ipd.Frame.{addr_field_ok, next_addr, from_addr}
use linuxax.Ipd.Routing.{Env, Dest, call_to_ip, is_call_bcast, route_process}
use linuxax.Ipd.Process.{
  Config, Daemon, ip_packet, serial, addr_at, send_ip, send_tty, to_serial, forward_to, from_kiss,
  from_ip,
}
use linuxax.Ipd.Process.Hops.{Hop, checked-Hop}
use linuxax.Ipd.Process.Kiss.{from_kiss-checked}
use linuxax.Ipd.Process.Network.{frame_of, passed_on, checked, from_addr_total, to_serial-from}

-- The daemon has a socket for the destination, and the address is not 0.
pub record CanSend (cfg : Config) (to : Dest) : Type 0 where
  pub known : (to.0 == 0) ≡ false
  pub udp : (to.1 == 0) ≡ false → cfg.udp_mode ≡ true
  pub ip : (to.1 == 0) ≡ true → cfg.ip_mode ≡ true

send_ip-sent :
    (cfg : Config) (d : Daemon) (b : ℕ) (bs : List ℕ) (to : Dest)
    → CanSend cfg to
    → (send_ip cfg d (b ∷ bs) to).sent ≡ d.sent ++ (ip_packet (b ∷ bs) to ∷ [])
unfolding send_ip
send_ip-sent cfg d b bs to can = elim (Bool-cases (to.1 == 0)) [
  | inl raw ↦ rw (can.known, raw, can.ip raw)
  | inr port ↦ rw (can.known, port, can.udp port)
]

send_ip-add_crc :
    (cfg : Config) (d : Daemon) (buf : List ℕ) (to : Dest)
    → CanSend cfg to
    → (send_ip cfg d (add_crc buf) to).sent ≡ d.sent ++ (ip_packet (add_crc buf) to ∷ [])
unfolding add_crc
send_ip-add_crc cfg d [] to can = send_ip-sent cfg d _ _ to can
send_ip-add_crc cfg d (b ∷ bs) to can = send_ip-sent cfg d b _ to can

frame_of-add_crc : (buf : List ℕ) → frame_of (add_crc buf) ≡ buf
unfolding add_crc
frame_of-add_crc buf =
    drops buf (bit_and (compute_crc buf) 0xff ∷ bit_and (compute_crc buf / 256) 0xff ∷ []) refl
  where
    drops : (xs ys : List ℕ) → length ys ≡ 2 → frame_of (xs ++ ys) ≡ xs
    drops xs ys e =
        take-append_exact (length (xs ++ ys) - 2) xs ys (omega (arith, length-append xs ys))

forward_to-one :
    (cfg : Config) (d : Daemon) (buf : List ℕ) (a : ℕ) (to : Dest)
    → call_to_ip (addr_at buf a) d.routes ≡ some to
    → is_call_bcast (addr_at buf a) d.routes ≡ false
    → forward_to cfg d buf a ≡ send_ip cfg d (add_crc buf) to
unfolding forward_to
forward_to-one cfg d buf a to e b = rw (e, forward_to) (rw b)

-- A frame with a checked address field, given to `from_kiss` in TNC mode, whose next hop the tables
-- of routes know and which is no broadcast address, is handed to the network once, for that
-- address, with the checksum behind it and otherwise unchanged, if the daemon has a socket for the
-- destination; and nothing else is sent.
pub from_kiss-sends :
    (cfg : Config) (d : Daemon) (buf : List ℕ) (a : ℕ) (to : Dest)
    → cfg.digi ≡ false
    → addr_field_ok buf ≡ true
    → next_addr buf ≡ some a
    → call_to_ip (addr_at buf a) d.routes ≡ some to
    → is_call_bcast (addr_at buf a) d.routes ≡ false
    → CanSend cfg to
    → (d' : Daemon) × (from_kiss cfg d buf ≡ some d')
      × (d'.sent ≡ d.sent ++ (ip_packet (add_crc buf) to ∷ []))
from_kiss-sends cfg d buf a to tnc good next known one can = (
  forward_to cfg d buf a,
  from_kiss-checked cfg d buf a good next ∙ if-false _ _ tnc,
  ap (λ (e : Daemon). e.sent) (forward_to-one cfg d buf a to known one)
      ∙ send_ip-add_crc cfg d buf to can,
)

pub send_tty-sent :
    (d : Daemon) (type : ℕ) (buf : List ℕ)
    → (send_tty d (send_kiss type buf)).sent ≡ d.sent ++ (serial (send_kiss type buf) ∷ [])
unfolding send_tty
send_tty-sent d type buf = let (bs, e) = send_kiss-cons type buf in rw e

passed_on-sent :
    (cfg : Config) (env : Env) (d : Daemon) (port : ℕ) (buf : List ℕ) (ip f : ℕ)
    → cfg.ttyfd_bpq ≡ false
    → (passed_on cfg env d port buf ip f).sent ≡ d.sent ++ (serial (send_kiss port buf) ∷ [])
passed_on-sent cfg env d port buf ip f line =
    ap (λ (e : Daemon). e.sent) (if-false _ _ line)
    ∙ send_tty-sent (record d { routes = route_process env ip (addr_at buf f) d.routes }) port buf

-- A packet that `add_crc` made of a frame with a checked address field, given to `from_ip` in TNC
-- mode with a KISS line, comes out on the serial line as the KISS frame of this frame for port 0,
-- once; and nothing else is sent.
pub from_ip-receives :
    (cfg : Config) (env : Env) (d : Daemon) (buf : List ℕ) (ip : ℕ)
    → cfg.digi ≡ false
    → cfg.ttyfd_bpq ≡ false
    → addr_field_ok buf ≡ true
    → (d' : Daemon) × (from_ip cfg env d (add_crc buf) ip ≡ some d')
      × (d'.sent ≡ d.sent ++ (serial (send_kiss 0 buf) ∷ []))
from_ip-receives cfg env d buf ip tnc line good =
    let (f, last) = from_addr_total h.count false buf h.layout in
    (
      passed_on cfg env d 0 buf ip f,
      checked cfg env d (add_crc buf) ip h.place (ok_crc-add_crc buf)
            (rw (frame_of-add_crc buf) good) (rw (frame_of-add_crc buf) h.found)
          ∙ if-false _ _ tnc
          ∙ ap (λ t. to_serial cfg env d 0 t ip) (frame_of-add_crc buf)
          ∙ to_serial-from cfg env d 0 buf ip f
              (subst (λ b. from_addr b buf ≡ some f) (sym tnc) last),
      passed_on-sent cfg env d 0 buf ip f line,
    )
  where
    h : Hop buf
    h = checked-Hop buf good
