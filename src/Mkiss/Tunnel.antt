-- ===== src/Mkiss/Tunnel.antt =====
-- A packet of a pseudo terminal, over the serial line to the same one of another mkiss.
use linuxax.Prelude.{
  ℕ, ◌+◌, ◌*◌, ◌/◌, ◌%◌, ◌≤◌, ◌<◌, ◌≡◌, ◌≢◌, refl, ap, ◌∙◌, bit_and, Bool, true, List, [], ◌∷◌,
  some, ◌==◌, ==_iff, ltb, length, arith,
}
use linuxax.Prelude.Bits.{all_below, all_below_sound}
use linuxax.Mkiss.{UseCrc, no_crc, g8bpq_crc, flex_crc, kiss_tx, Iface, rx_loop, written, from_tty}
use linuxax.Mkiss.Checked.{data_of, delivered}
use linuxax.Mkiss.RoundTrip.{kiss_rx-kiss_tx}

port_bits : all_below 16 (λ j. bit_and (j * 16) 0xf0 / 16 == j) ≡ true
unfolding all_below
port_bits = refl

delivered-data :
    (u : UseCrc) (port : ℕ) (s : List ℕ)
    → u ≢ flex_crc
    → delivered u port 0 s ≡ ((port * 16) ∷ s) ∷ []
unfolding delivered data_of
delivered-data no_crc port s h =
    let head : 0 % 16 + port * 16 ≡ port * 16 = omega arith in ap (λ c. (c ∷ s) ∷ []) head
delivered-data g8bpq_crc port s h =
    let head : 0 % 16 + port * 16 ≡ port * 16 = omega arith in ap (λ c. (c ∷ s) ∷ []) head
delivered-data flex_crc port s h = absurd (h refl)

-- Without FLEX: a data packet of up to 2045 bytes that pseudo terminal `j` of 16 at most hands to the one
-- mkiss, and that goes over the line to another that has a terminal `j` open, is written there so that
-- a reader between two frames gets the same packet.
pub from_tty-kiss_tx :
    (u : UseCrc) (j numptys : ℕ) (has_fd : ℕ → Bool) (s : List ℕ) (tty client : Iface)
    → u ≢ flex_crc
    → j < numptys
    → numptys ≤ 16
    → has_fd j ≡ true
    → length s ≤ 2044
    → tty.obuf ≡ []
    → client.obuf ≡ []
    → (line frame out : List ℕ) × (last read : Iface) × (kiss_tx u j (0 ∷ s) ≡ some line)
      × (rx_loop u tty line ≡ some (frame ∷ [], last))
      × (from_tty numptys has_fd frame ≡ written j out)
      × (rx_loop no_crc client out ≡ some ((0 ∷ s) ∷ [], read))
unfolding from_tty delivered data_of
from_tty-kiss_tx u j numptys has_fd s tty client h below few open_fd short idle idle' =
    let (line, last, put, got, again) = kiss_rx-kiss_tx u j 0 s tty idle short in
    let (out, read, put', got', again') = kiss_rx-kiss_tx no_crc 0 (j * 16) s client idle' short in
    let port : bit_and (j * 16) 0xf0 / 16 ≡ j =
      (==_iff _ _).0
        (all_below_sound 16 (λ j. bit_and (j * 16) 0xf0 / 16 == j) j (omega arith) port_bits) in
    let listed : ltb j numptys ≡ true = ground (arith, below) in
    (
      line,
      (j * 16) ∷ s,
      out,
      last,
      read,
      put,
      got ∙ ap (λ f. some (f, last)) (delivered-data u j s h),
      rw (port, listed, open_fd, put') (ap (λ i. written i out) port),
      got' ∙ ap (λ f. some (f, read)) (own j),
    )
  where
    own : (j : ℕ) → delivered no_crc 0 (j * 16) s ≡ (0 ∷ s) ∷ []
    own j = let head : j * 16 % 16 + 0 * 16 ≡ 0 = omega arith in ap (λ c. (c ∷ s) ∷ []) head
