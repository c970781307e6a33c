-- ===== src/Mkiss.antt =====
-- ax25tools/kiss/mkiss.c: KISS frames with a port and one of two checksums, between a serial line and
-- the pseudo terminals.
pub mod Checked
pub mod Line
pub mod Residue
pub mod RoundTrip
mod Tests
pub mod Tunnel
use linuxax.Prelude.{
  ℕ, zero, suc, ◌+◌, ◌-◌, ◌*◌, ◌/◌, ◌%◌, ◌^◌, bit_and, bit_xor, Bool, true, false, not, ◌&&◌, ◌||◌,
  List, [], ◌∷◌, ◌++◌, Option, none, some, ◌==◌, ltb, leb, if◌then◌else◌, length, take, drop,
  get_or,
}
use linuxax.Ipd.Frame.{◌>>=◌}
use linuxax.Ipd.Kiss.{fend, fesc, tfend, tfesc}

-- `SIZE`, of the buffers.
abbrev pub size : ℕ
size = 4096

abbrev pub ackreq : ℕ
ackreq = 0x0c

abbrev pub poll : ℕ
poll = 0x0e

-- `CRCTYP`
abbrev pub crctyp : ℕ
crctyp = 0x20

-- `usecrc`: FALSE, G8BPQ_CRC and FLEX_CRC
pub data UseCrc : Type 0 where
  no_crc g8bpq_crc flex_crc : UseCrc

-- The rounds of `init_crc` that are left for an entry of `crctab`.
unfoldable pub entry_rounds : ℕ → (byte accum : ℕ) → ℕ
entry_rounds zero byte accum = accum
entry_rounds (suc j) byte accum =
    entry_rounds j (byte / 2)
      (if bit_and (bit_xor byte accum) 1 == 0 then accum / 2 else bit_xor (accum / 2) 0x8408)

unfoldable pub crctab : ℕ → ℕ
unfolding entry_rounds
crctab i = entry_rounds 8 i 0xffff

-- The checksum with one byte more, as both `put_ubyte` and `kiss_rx` count it.
unfoldable pub crc_step : UseCrc → (crc c : ℕ) → ℕ
crc_step no_crc crc c = crc
crc_step g8bpq_crc crc c = bit_xor crc c
crc_step flex_crc crc c = bit_xor (crc * 256) (crctab (bit_xor (crc / 256) c)) % 2 ^ 16

-- `put_ubyte`: the bytes put, and the checksum.
unfoldable pub put_ubyte : UseCrc → (crc c : ℕ) → List ℕ × ℕ
put_ubyte usecrc crc c = (
  (if c == fend then fesc ∷ tfend ∷ [] else c ∷ (if c == fesc then tfesc ∷ [] else [])),
  crc_step usecrc crc c,
)

unfoldable pub put_all : UseCrc → ℕ → List ℕ → List ℕ × ℕ
unfolding put_ubyte
put_all usecrc crc [] = ([], crc)
put_all usecrc crc (c ∷ s) =
    let (bytes, crc') = put_ubyte usecrc crc c in
    let (more, last) = put_all usecrc crc' s in (bytes ++ more, last)

-- Frames of other commands get no checksum byte.
unfoldable pub tx_crc : UseCrc → ℕ → UseCrc
tx_crc no_crc cmd = no_crc
tx_crc g8bpq_crc cmd = if not (cmd == 0) && not (cmd == ackreq) then no_crc else g8bpq_crc
tx_crc flex_crc cmd = flex_crc

-- The first byte, and the checksum to begin with.
unfoldable pub first_byte : UseCrc → (port c : ℕ) → ℕ
first_byte no_crc port c = c % 16 + port * 16
first_byte g8bpq_crc port c = c % 16 + port * 16
first_byte flex_crc port c = crctyp

unfoldable pub first_crc : UseCrc → ℕ
first_crc no_crc = 0
first_crc g8bpq_crc = 0
first_crc flex_crc = 0xffff

unfoldable pub crc_bytes : UseCrc → ℕ → List ℕ
crc_bytes no_crc crc = []
crc_bytes g8bpq_crc crc = bit_and crc 0xff ∷ []
crc_bytes flex_crc crc = crc / 256 ∷ bit_and crc 0xff ∷ []

-- `kiss_tx` to a port below 16; `none` is a read of an empty packet, or a write past the end of `obuf`.
unfoldable pub kiss_tx : UseCrc → ℕ → List ℕ → Option (List ℕ)
unfolding put_all tx_crc first_byte first_crc crc_bytes
kiss_tx usecrc port [] = none
kiss_tx usecrc port (c ∷ s) =
    let usecrc' = tx_crc usecrc (c % 16) in
    let (bytes, crc) = put_all (usecrc') (first_crc usecrc') (first_byte usecrc' port c ∷ s) in
    let (sum, crc') = put_all (usecrc') crc (crc_bytes usecrc' crc) in
    let line = fend ∷ (bytes ++ (sum ++ (fend ∷ []))) in
    if leb (length line) size then some line else none

-- `struct iface`, of which `obuf` is what stands before `optr`, with the counters `crc_errors` and
-- `return_polls`, which only the serial line changes.
pub record Iface : Type 0 where
  pub escaped : Bool
  pub crc : ℕ
  pub obuf : List ℕ
  pub errors : ℕ
  pub nondata : ℕ
  pub rxpackets : ℕ
  pub rxbytes : ℕ
  pub crc_errors : ℕ
  pub return_polls : ℕ

-- What is left of a frame by its checksum, with its counters.
unfoldable pub checked : UseCrc → Iface → List ℕ → List ℕ × Iface
checked usecrc i [] = ([], i)
checked no_crc i frame = (frame, i)
checked g8bpq_crc i frame =
    let cmd = get_or frame 0 0 % 16 in
    if not (cmd == 0)
    then (if cmd == poll
        then ([], record i { return_polls = i.return_polls + 1 })
        else (frame, record i { nondata = i.nondata + 1 }))
    else if not (bit_and i.crc 0xff == 0)
    then ([], record i { crc_errors = i.crc_errors + 1 })
    else (take (length frame - 1) frame, i)
checked flex_crc i frame =
    if ltb 14 (length frame) && (i.crc == 0x7070)
    then (0 ∷ drop 1 (take (length frame - 2) frame), i)
    else ([], record i { crc_errors = i.crc_errors + 1 })

-- A FEND: the frame, which is empty where `len` is 0.
unfoldable pub frame_end : UseCrc → Iface → List ℕ × Iface
unfolding checked first_crc
frame_end usecrc i =
    let broken = not (length i.obuf == 0) && i.escaped in
    let (frame, i') =
      checked usecrc (record i { errors = i.errors + (if broken then 1 else 0) })
        (if broken then [] else i.obuf) in
    (
      frame,
      record (i') {
        rxpackets = i'.rxpackets + (if length frame == 0 then 0 else 1);
        rxbytes = i'.rxbytes + length frame;
        obuf = [];
        crc = first_crc usecrc;
        escaped = false;
      },
    )

-- `kiss_rx`; `none` is a write past the end of `obuf`.
unfoldable pub kiss_rx : UseCrc → Iface → ℕ → Option (List ℕ × Iface)
unfolding frame_end crc_step
kiss_rx usecrc i c =
    let plain = not (c == tfesc) && not (c == tfend) in
    let c' =
      if not i.escaped then c else if c == tfesc then fesc else if c == tfend then fend else c in
    if c == fend
    then some (frame_end usecrc i)
    else if c == fesc
    then some ([], record i { escaped = true })
    else if ltb (length i.obuf) size
    then some (
      [],
      record i {
        obuf = i.obuf ++ (c' ∷ []);
        escaped = false;
        errors = i.errors + (if plain && i.escaped then 1 else 0);
        crc = crc_step usecrc i.crc c';
      },
    )
    else none

-- The loop over what was read: the frames that are passed on.
unfoldable pub rx_loop : UseCrc → Iface → List ℕ → Option (List (List ℕ) × Iface)
unfolding kiss_rx
rx_loop usecrc i [] = some ([], i)
rx_loop usecrc i (c ∷ ibuf) = kiss_rx usecrc i c >>= λ (frame, i').
    (rx_loop usecrc i' ibuf >>= λ (frames, last).
    some ((if length frame == 0 then frames else frame ∷ frames), last))

-- What the main loop does with a frame of the serial line: `overflow` is a write past the end of `obuf`.
pub data Passed : Type 0 where
  invalid_port closed overflow : Passed
  written : ℕ → List ℕ → Passed

-- `has_fd` tells of a pseudo terminal that its `fd` is not -1.
unfoldable pub from_tty : (numptys : ℕ) (has_fd : ℕ → Bool) (frame : List ℕ) → Passed
unfolding kiss_tx
from_tty numptys has_fd frame =
    let i = bit_and (get_or frame 0 0) 0xf0 / 16 in
    let line : Passed = elim (kiss_tx no_crc 0 frame) [ none ↦ overflow | some s ↦ written i s ] in
    if ltb i numptys then (if has_fd i then line else closed) else invalid_port
