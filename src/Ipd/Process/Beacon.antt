-- ===== src/Ipd/Process/Beacon.antt =====
-- `do_beacon`: the identification that is sent at intervals.
use linuxax.Prelude.{
  ℕ, ◌+◌, ◌≡◌, ◌⊎◌, inl, inr, true, List, [], ◌∷◌, ◌++◌, none, some, arith, refl, ap, ◌∙◌, bit_or,
  get_or, Bool-cases, if◌then◌else◌,
}
use linuxax.Prelude.Bits.{and-one, or-one}
use linuxax.Ipd.Kiss.{send_kiss}
use linuxax.Ipd.Frame.{is_last}
use linuxax.Ipd.Frame.Layout.{HasAddresses}
use linuxax.Ipd.Process.{
  Config, Daemon, Sent, serial, bpq, beacon_frame, id_string, do_beacon, to_line, send_tty,
}
use linuxax.Ipd.Process.Tunnel.{send_tty-sent}

last_bit : (b : ℕ) → is_last (bit_or b 1) ≡ true
unfolding is_last
last_bit b = ground (arith, and-one (bit_or b 1), or-one b)

beacon_frame-HasAddresses : (cfg : Config) → HasAddresses 2 (beacon_frame cfg)
unfolding beacon_frame
beacon_frame-HasAddresses cfg = record {
  two = omega arith;
  few = omega arith;
  inside = omega arith;
  last = last_bit (bit_or (get_or cfg.mycallsign 6 0) 0x60);
  others = λ i p q. absurd (omega arith);
}

-- `bcbuf` holds nothing or the beacon of the settings.
abbrev pub HasBeacon : Config → Daemon → Type 0
HasBeacon cfg d = (d.bcbuf ≡ none) ⊎ (d.bcbuf ≡ some (beacon_frame cfg))

abbrev pub sent_as : Config → Sent
sent_as cfg =
    if cfg.ttyfd_bpq then bpq (beacon_frame cfg) else serial (send_kiss 0 (beacon_frame cfg))

id_string-beacon_frame :
    (cfg : Config) (d : Daemon) → HasBeacon cfg d → id_string cfg d.bcbuf ≡ beacon_frame cfg
unfolding id_string
id_string-beacon_frame cfg d (inl e) = ap (id_string cfg) e
id_string-beacon_frame cfg d (inr e) = ap (id_string cfg) e

send_tty-keeps :
    (d : Daemon) (bs : List ℕ)
    → ((send_tty d bs).bcbuf ≡ d.bcbuf)
      × ((send_tty d bs).stats.kiss_beacon_outs ≡ d.stats.kiss_beacon_outs)
unfolding send_tty
send_tty-keeps d [] = (refl, refl)
send_tty-keeps d (b ∷ bs) = (refl, refl)

to_line_lem :
    (cfg : Config) (d : Daemon) (buf : List ℕ)
    → ((to_line cfg d 0 buf).sent
        ≡ d.sent ++ ((if cfg.ttyfd_bpq then bpq buf else serial (send_kiss 0 buf)) ∷ []))
      × ((to_line cfg d 0 buf).bcbuf ≡ d.bcbuf)
      × ((to_line cfg d 0 buf).stats.kiss_beacon_outs ≡ d.stats.kiss_beacon_outs)
to_line_lem cfg d buf = elim (Bool-cases cfg.ttyfd_bpq) [
  | inl e ↦ rw e (refl, refl, refl)
  | inr e ↦ let (k, c) = send_tty-keeps d (send_kiss 0 buf) in rw e (send_tty-sent d 0 buf, k, c)
]

-- `do_beacon`, the first time and every time after it, sends one frame to the line in use, the same
-- each time, which has a well-formed address field of two addresses; it counts it, and leaves the
-- buffer as it is to be found the next time.
pub do_beacon-HasBeacon :
    (cfg : Config) (d : Daemon)
    → HasBeacon cfg d
    → ((do_beacon cfg d).sent ≡ d.sent ++ (sent_as cfg ∷ []))
      × HasAddresses 2 (beacon_frame cfg)
      × HasBeacon cfg (do_beacon cfg d)
      × ((do_beacon cfg d).stats.kiss_beacon_outs ≡ d.stats.kiss_beacon_outs + 1)
unfolding do_beacon
do_beacon-HasBeacon cfg d b =
    let buf = id_string cfg d.bcbuf in
    let same = id_string-beacon_frame cfg d b in
    let built : Daemon = record d {
      bcbuf = some buf;
      stats = record (d.stats) { kiss_beacon_outs = d.stats.kiss_beacon_outs + 1 };
    } in
    let (sends, keeps, counts) = to_line_lem cfg built buf in
    (
      sends
          ∙ ap (λ t. d.sent ++ ((if cfg.ttyfd_bpq then bpq t else serial (send_kiss 0 t)) ∷ []))
              same,
      beacon_frame-HasAddresses cfg,
      inr (keeps ∙ ap some same),
      counts,
    )
