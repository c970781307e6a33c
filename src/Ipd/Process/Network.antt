-- ===== src/Ipd/Process/Network.antt =====
-- `from_ip`: every outcome of a packet from the network.
use mathlib.Core.Path.{subst}
use linuxax.Prelude.{
  ℕ, ◌+◌, ◌-◌, ◌*◌, ◌≡◌, Bool, true, false, List, Option, some, true-ne-false, if-true, if-false,
  arith, Bool-cases, inl, inr, ap, sym, ◌∙◌, ◌&&◌, ◌==◌, if◌then◌else◌, ==_iff, length, take,
}
use linuxax.Ipd.Crc.{ok_crc}
use linuxax.Ipd.Frame.{addr_field_ok, next_addr, from_addr, set_repeated, ◌>>=◌}
use linuxax.Ipd.Frame.Layout.{HasAddresses}
use linuxax.Ipd.Frame.Mark.{marked, marked-HasAddresses}
use linuxax.Ipd.Frame.From.{from_addr_stops}
use linuxax.Ipd.Routing.{Env, route_process}
use linuxax.Ipd.Process.{
  Config, Daemon, addr_at, is_me, for_port2, to_line, to_serial, ip_digi, from_ip,
}
use linuxax.Ipd.Process.Hops.{Hop, AtDigi, checked_length, checked-Hop, digi-Hop, mark_at}

-- The frame of a packet, without the checksum.
abbrev pub frame_of : List ℕ → List ℕ
frame_of packet = take (length packet - 2) packet

-- What `from_ip` does with a frame that it passes on, whose last station is the address at `f`.
abbrev pub passed_on : Config → Env → Daemon → ℕ → List ℕ → ℕ → ℕ → Daemon
passed_on cfg env d port buf ip f =
    let d' : Daemon = record d { routes = route_process env ip (addr_at buf f) d.routes } in
    to_line cfg d' port buf

pub data Outcome (cfg : Config) (env : Env) (d : Daemon) (packet : List ℕ) (ip : ℕ)
    : Daemon → Type 0 where
  failed_crc :
      ok_crc packet ≡ false
      → Outcome cfg env d packet ip
          (record d { stats = record (d.stats) { ip_failed_crc = d.stats.ip_failed_crc + 1 } })
  -- No well-formed address field.
  tooshort :
      ok_crc packet ≡ true
      → addr_field_ok (frame_of packet) ≡ false
      → Outcome cfg env d packet ip
          (record d { stats = record (d.stats) { ip_tooshort = d.stats.ip_tooshort + 1 } })
  -- TNC mode: the frame goes to the serial line as it is.
  passed :
      ok_crc packet ≡ true
      → cfg.digi ≡ false
      → (h : Hop (frame_of packet)) (f : ℕ) → from_addr false (frame_of packet) ≡ some f
      → Outcome cfg env d packet ip (passed_on cfg env d 0 (frame_of packet) ip f)
  -- Digipeater mode: the next hop is another station.
  not_for_me :
      ok_crc packet ≡ true
      → cfg.digi ≡ true
      → (h : Hop (frame_of packet)) → is_me cfg (addr_at (frame_of packet) h.place) ≡ false
      → Outcome cfg env d packet ip
          (record d { stats = record (d.stats) { ip_not_for_me = d.stats.ip_not_for_me + 1 } })
  -- Digipeater mode: the next hop is this station, as the destination.
  i_am_dest :
      ok_crc packet ≡ true
      → cfg.digi ≡ true
      → (h : Hop (frame_of packet)) → is_me cfg (addr_at (frame_of packet) h.place) ≡ true
      → h.place ≡ 0
      → Outcome cfg env d packet ip
          (record d { stats = record (d.stats) { ip_i_am_dest = d.stats.ip_i_am_dest + 1 } })
  -- Digipeater mode: this station is digipeater `k`, and marks the frame; it goes to the port of the
  -- TNC that the callsign belongs to.
  digipeated :
      ok_crc packet ≡ true
      → cfg.digi ≡ true
      → (n k f : ℕ) → AtDigi (frame_of packet) n k
      → is_me cfg (addr_at (frame_of packet) (k * 7)) ≡ true
      → from_addr true (marked (frame_of packet) k) ≡ some f
      → Outcome cfg env d packet ip (
          passed_on cfg env d
            (if cfg.dual_port && for_port2 cfg (addr_at (frame_of packet) (k * 7)) then 0x10 else 0)
            (marked (frame_of packet) k)
            ip
            f)

-- `from_addr` answers on every well-formed frame.
pub from_addr_total :
    (n : ℕ) (digi : Bool) (f : List ℕ) → HasAddresses n f → (a : ℕ) × (from_addr digi f ≡ some a)
from_addr_total n digi f h = elim (from_addr_stops n digi f h) [
  | inl (_, e) ↦ (7, e)
  | inr (k, _, e) ↦ (_, e)
]

pub to_serial-from :
    (cfg : Config) (env : Env) (d : Daemon) (port : ℕ) (buf : List ℕ) (ip f : ℕ)
    → from_addr cfg.digi buf ≡ some f
    → to_serial cfg env d port buf ip ≡ some (passed_on cfg env d port buf ip f)
unfolding to_serial
to_serial-from cfg env d port buf ip f e = rw (e, ◌>>=◌)

ip_digi-marks :
    (cfg : Config) (env : Env) (d : Daemon) (buf f : List ℕ) (a ip : ℕ)
    → is_me cfg (addr_at buf a) ≡ true
    → (a == 0) ≡ false
    → set_repeated buf a ≡ some f
    → ip_digi cfg env d buf a ip
      ≡ to_serial cfg env d
          (if cfg.dual_port && for_port2 cfg (addr_at buf a) then 0x10 else 0)
          f
          ip
unfolding ip_digi
ip_digi-marks cfg env d buf f a ip me digi marks = rw (me, digi, marks, ◌>>=◌)

module _ (cfg : Config) (env : Env) (d : Daemon) (packet : List ℕ) (ip : ℕ) where
  abbrev pub buf : List ℕ
  buf = frame_of packet

  abbrev Done : Option Daemon → Type 0
  Done r = (d' : Daemon) × (r ≡ some d') × Outcome cfg env d packet ip d'

  bad_crc :
      ok_crc packet ≡ false
      → from_ip cfg env d packet ip
        ≡ some (record d { stats = record (d.stats) { ip_failed_crc = d.stats.ip_failed_crc + 1 } })
  unfolding from_ip
  bad_crc e = rw e

  unchecked :
      ok_crc packet ≡ true
      → addr_field_ok buf ≡ false
      → from_ip cfg env d packet ip
        ≡ some (record d { stats = record (d.stats) { ip_tooshort = d.stats.ip_tooshort + 1 } })
  unfolding from_ip
  unchecked e bad = ground arith

  pub checked :
      (a : ℕ)
      → ok_crc packet ≡ true
      → addr_field_ok buf ≡ true
      → next_addr buf ≡ some a
      → from_ip cfg env d packet ip
        ≡ (if cfg.digi then ip_digi cfg env d buf a ip else to_serial cfg env d 0 buf ip)
  unfolding from_ip
  checked a e good next = rw (e, checked_length buf good, good, next, ◌>>=◌)

  Done-digi :
      (h : Hop buf)
      → ok_crc packet ≡ true
      → cfg.digi ≡ true
      → Done (ip_digi cfg env d buf h.place ip)
  Done-digi h crc mode = elim (Bool-cases (is_me cfg (addr_at buf h.place))) [
    | inr other ↦ (_, other_hop other, not_for_me crc mode h other)
    | inl me ↦ elim (Bool-cases (h.place == 0)) [
      | inl dest ↦ (_, my_frame me dest, i_am_dest crc mode h me ((==_iff h.place 0).0 dest))
      | inr digi ↦
          let (k, e, at) = digi-Hop buf h (λ z. true-ne-false ((==_iff h.place 0).1 z) digi) in
          let (f, last) =
            from_addr_total h.count true (marked buf k)
              (marked-HasAddresses h.count k buf at.addresses at.within) in
          (
            _,
            ap (λ t. ip_digi cfg env d buf t ip) e
                ∙ ip_digi-marks cfg env d buf (marked buf k) (k * 7) ip
                    (subst (λ t. is_me cfg (addr_at buf t) ≡ true) e me)
                    (subst (λ t. (t == 0) ≡ false) e digi) (mark_at buf h.count k at)
                ∙ to_serial-from cfg env d _ (marked buf k) ip f
                    (subst (λ b. from_addr b (marked buf k) ≡ some f) (sym mode) last),
            digipeated crc mode h.count k f at (subst (λ t. is_me cfg (addr_at buf t) ≡ true) e me)
                last,
          )
    ]
  ]
    where
      other_hop :
          is_me cfg (addr_at buf h.place) ≡ false
          → ip_digi cfg env d buf h.place ip
            ≡ some (record d {
              stats = record (d.stats) { ip_not_for_me = d.stats.ip_not_for_me + 1 };
            })
      other_hop other = unfold ip_digi in rw other

      my_frame :
          is_me cfg (addr_at buf h.place) ≡ true
          → (h.place == 0) ≡ true
          → ip_digi cfg env d buf h.place ip
            ≡ some
                (record d { stats = record (d.stats) { ip_i_am_dest = d.stats.ip_i_am_dest + 1 } })
      my_frame me dest = unfold ip_digi in rw (me, dest)

  -- `from_ip` reads nothing outside the packet's frame and always ends, in the outcome that the
  -- checksum, the address field, the mode and the station's own callsigns call for.
  pub from_ip-Outcome :
      (d' : Daemon) × (from_ip cfg env d packet ip ≡ some d') × Outcome cfg env d packet ip d'
  from_ip-Outcome = elim (Bool-cases (ok_crc packet)) [
    | inr bad ↦ (_, bad_crc bad, failed_crc bad)
    | inl crc ↦ elim (Bool-cases (addr_field_ok buf)) [
      | inr bad ↦ (_, unchecked crc bad, tooshort crc bad)
      | inl good ↦
          let h = checked-Hop buf good in
          let start = checked h.place crc good h.found in
          elim (Bool-cases cfg.digi) [
            | inl mode ↦
                let (d', e, o) = Done-digi h crc mode in (d', start ∙ if-true _ _ mode ∙ e, o)
            | inr tnc ↦
                let (f, last) = from_addr_total h.count false buf h.layout in
                (
                  _,
                  start
                      ∙ if-false _ _ tnc
                      ∙ to_serial-from cfg env d 0 buf ip f
                          (subst (λ b. from_addr b buf ≡ some f) (sym tnc) last),
                  passed crc tnc h f last,
                )
          ]
    ]
  ]
