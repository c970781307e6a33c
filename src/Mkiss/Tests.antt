-- ===== src/Mkiss/Tests.antt =====
-- A packet on port 2, with a FEND and an ESC in it, through each of the checksums.
use linuxax.Prelude.{ℕ, ◌≡◌, ◌≢◌, true, refl, false, List, [], ◌∷◌, some, arith}
use linuxax.Mkiss.{
  no_crc, g8bpq_crc, flex_crc, from_tty, written, kiss_tx, put_all, put_ubyte, crc_step, tx_crc,
  first_byte, first_crc, crc_bytes, Iface, rx_loop,
}
use linuxax.Mkiss.Checked.{delivered}
use linuxax.Mkiss.Tunnel.{from_tty-kiss_tx}
use linuxax.Mkiss.RoundTrip.{kiss_rx-kiss_tx}

abbrev packet : List ℕ
packet = 0xc0 ∷ 1 ∷ 0xdb ∷ []

abbrev idle : Iface
idle = record {
  escaped = false;
  crc = 0;
  obuf = [];
  errors = 0;
  nondata = 0;
  rxpackets = 0;
  rxbytes = 0;
  crc_errors = 0;
  return_polls = 0;
}

on_port_two :
    kiss_tx g8bpq_crc 2 (0 ∷ packet)
    ≡ some (0xc0 ∷ 0x20 ∷ 0xdb ∷ 0xdc ∷ 1 ∷ 0xdb ∷ 0xdd ∷ 0x3a ∷ 0xc0 ∷ [])
unfolding kiss_tx put_all put_ubyte crc_step tx_crc first_byte first_crc crc_bytes
on_port_two = refl

kiss_rx-kiss_tx_example :
    (line : List ℕ) × (last : Iface) × (kiss_tx g8bpq_crc 2 (0 ∷ packet) ≡ some line)
    × (rx_loop g8bpq_crc idle line ≡ some (delivered g8bpq_crc 2 0 packet, last))
    × (last.obuf ≡ [])
kiss_rx-kiss_tx_example = kiss_rx-kiss_tx g8bpq_crc 2 0 packet idle refl (omega arith)

g8bpq_not_flex : g8bpq_crc ≢ flex_crc
g8bpq_not_flex e = cc

from_tty-kiss_tx_example :
    (line frame out : List ℕ) × (last read : Iface) × (kiss_tx g8bpq_crc 2 (0 ∷ packet) ≡ some line)
    × (rx_loop g8bpq_crc idle line ≡ some (frame ∷ [], last))
    × (from_tty 3 (λ i. true) frame ≡ written 2 out)
    × (rx_loop no_crc idle out ≡ some ((0 ∷ packet) ∷ [], read))
from_tty-kiss_tx_example =
    from_tty-kiss_tx g8bpq_crc 2 3 (λ i. true) packet idle idle g8bpq_not_flex (omega arith)
      (omega arith) refl (omega arith) refl refl
