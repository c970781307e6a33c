-- ===== src/Call/Yapp.antt =====
-- ax25apps/call/yapp.c: the packets of the file transfer protocol YAPP, and what both sides do with
-- the bytes that arrive. `sent` of a side keeps what is written to the connection, in order, where
-- `write` takes it whole.
pub mod Blocks
pub mod Cuts
pub mod Damage
pub mod Delivery
pub mod Header
pub mod Hunks
pub mod Packets
pub mod Receive
mod Tests
pub mod Stream
pub mod Transfer
pub mod Transmit
pub mod Writes
use linuxax.Prelude.{
  ℕ, zero, suc, ◌+◌, ◌-◌, ◌/◌, ◌%◌, min, Bool, true, false, not, ◌&&◌, ◌||◌, List, [], ◌∷◌, ◌++◌,
  Option, none, some, ◌==◌, ltb, leb, if◌then◌else◌, length, take, drop,
}
use linuxax.Ipd.Frame.{◌>>=◌}

-- `SOH`, `STX`, `ETX`, `EOT`, `ENQ`, `ACK`, `NAK` and `CAN`
abbrev pub soh : ℕ
soh = 0x01

abbrev pub stx : ℕ
stx = 0x02

abbrev pub etx : ℕ
etx = 0x03

abbrev pub eot : ℕ
eot = 0x04

abbrev pub enq : ℕ
enq = 0x05

abbrev pub ack : ℕ
ack = 0x06

abbrev pub nak : ℕ
nak = 0x15

abbrev pub can : ℕ
can = 0x18

-- `STATE_S` to `STATE_RD`
pub data State : Type 0 where
  state_s state_sh state_sd state_se state_st state_r state_rh state_rd : State

-- `Send_RR`, `Send_RF`, `Send_RT`, `Send_AF`, `Send_AT`, `Send_SI`, `Send_ET` and `Send_EF`
abbrev pub rr : List ℕ
rr = ack ∷ 1 ∷ []

abbrev pub rf : List ℕ
rf = ack ∷ 2 ∷ []

abbrev pub rt : List ℕ
rt = ack ∷ ack ∷ []

abbrev pub af : List ℕ
af = ack ∷ 3 ∷ []

abbrev pub at : List ℕ
at = ack ∷ 4 ∷ []

abbrev pub si : List ℕ
si = enq ∷ 1 ∷ []

abbrev pub et : List ℕ
et = eot ∷ 1 ∷ []

abbrev pub ef : List ℕ
ef = etx ∷ 1 ∷ []

-- `Send_DT`
unfoldable pub dt : ℕ → List ℕ
dt length = stx ∷ (if ltb 255 length then 0 else length) ∷ []

-- `Send_NR` and `Send_CN`
pub nr : List ℕ → List ℕ
nr reason = nak ∷ min (length reason) 255 ∷ take (min (length reason) 255) reason

pub cn : List ℕ → List ℕ
cn reason = can ∷ min (length reason) 255 ∷ take (min (length reason) 255) reason

-- The digits of `%d` before those in `after`.
unfoldable pub digits_from : ℕ → ℕ → List ℕ → List ℕ
digits_from zero n after = after
digits_from (suc fuel) n after =
    let more = digits_from fuel (n / 10) ((0x30 + n % 10) ∷ after) in
    if ltb n 10 then (0x30 + n) ∷ after else more

unfoldable pub decimal : ℕ → List ℕ
unfolding digits_from
decimal n = digits_from (suc n) n []

-- `Send_RS`
pub rs : ℕ → List ℕ
rs n =
    let digits = decimal n in nak ∷ (length digits + 5) ∷ b'R' ∷ 0 ∷ (digits ++ (0 ∷ b'C' ∷ 0 ∷ []))

-- `checksum`
unfoldable pub sum_from : ℕ → List ℕ → ℕ
sum_from sum [] = sum
sum_from sum (b ∷ buf) = sum_from ((sum + b) % 256) buf

unfoldable pub checksum : List ℕ → ℕ
checksum buf = sum_from 0 buf

-- The packets that have two bytes; the others tell their length.
unfoldable pub is_short : ℕ → Bool
is_short b = (b == ack) || (b == enq) || (b == etx) || (b == eot)

-- `buffer[1]` as a length.
unfoldable pub length_of : ℕ → ℕ
length_of b = if b == 0 then 256 else b

-- How many bytes the packet at the head of the buffer has; `yappc` is only asked for by the receiver.
unfoldable pub packet_length : Bool → ℕ → ℕ → ℕ
unfolding is_short length_of
packet_length yappc b0 b1 =
    if is_short b0 then 2 else length_of b1 + (if (b0 == stx) && yappc then 1 else 0) + 2

-- What ends a transfer without a packet of the other side, and the reason that is sent then.
pub data Interruption : Type 0 where
  internal_error timeout cancelled_by_user : Interruption

pub reason : Interruption → List ℕ
reason internal_error =
    b'I' ∷ b'n' ∷ b't' ∷ b'e' ∷ b'r' ∷ b'n' ∷ b'a' ∷ b'l' ∷ b' ' ∷ b'e' ∷ b'r' ∷ b'r' ∷ b'o' ∷ b'r'
    ∷ []
reason timeout = b'T' ∷ b'i' ∷ b'm' ∷ b'e' ∷ b'o' ∷ b'u' ∷ b't' ∷ []
reason cancelled_by_user =
    b'C' ∷ b'a' ∷ b'n' ∷ b'c' ∷ b'e' ∷ b'l' ∷ b'l' ∷ b'e' ∷ b'd' ∷ b' ' ∷ b'b' ∷ b'y' ∷ b' ' ∷ b'u'
    ∷ b's' ∷ b'e' ∷ b'r' ∷ []

-- What `select` finds: bytes to read, a connection that takes `n` bytes, or a reason to end.
pub data Event : Type 0 where
  hears : List ℕ → Event
  takes : ℕ → Event
  ends : Interruption → Event

-- The two loops over what is read, for a side `S` with its handler of a packet.
-- `moves` is whether `memcpy` of areas that overlap moves the bytes as `memmove` does, which C leaves
-- undefined: where it is false, such a call is `none`.
module _ (moves : Bool) {S : Type 0} (handle : S → (b0 b1 : ℕ) (body : List ℕ) → Bool × S)
    (yappc : S → Bool) where
  -- The inner loop: whether the side goes on, and what is left in the buffer. With fewer than two
  -- bytes the code looks at a byte that is left from before, and finds no packet.
  unfoldable pub drain : ℕ → S → List ℕ → Option (Bool × S × List ℕ)
  unfolding packet_length
  drain zero s buffer = none
  drain (suc fuel) s [] = some (true, s, [])
  drain (suc fuel) s (b0 ∷ []) = some (true, s, b0 ∷ [])
  drain (suc fuel) s (b0 ∷ b1 ∷ body) =
      let n = packet_length (yappc s) b0 b1 in
      elim (leb n (length (b0 ∷ b1 ∷ body))) [
        | false ↦ some (true, s, b0 ∷ b1 ∷ body)
        | true ↦
            let (go, s') = handle s b0 b1 body in
            elim go [
              | false ↦ some (false, s', b0 ∷ b1 ∷ body)
              | true ↦ elim (moves || leb (length (b0 ∷ b1 ∷ body) - n) n) [
                | false ↦ none
                | true ↦ drain fuel s' (drop n (b0 ∷ b1 ∷ body))
              ]
            ]
      ]

  -- One `read` of a hunk into `buffer` of 1024 bytes; `none` is a write past its end.
  unfoldable pub read_hunk : S → List ℕ → List ℕ → Option (Bool × S × List ℕ)
  unfolding drain
  read_hunk s buffer hunk =
      if leb (length (buffer ++ hunk)) 1024
      then drain (suc (length (buffer ++ hunk))) s (buffer ++ hunk)
      else none

  -- The reads alone, up to where the side returns.
  unfoldable pub read_hunks : S → List ℕ → List (List ℕ) → Option (Bool × S × List ℕ)
  unfolding read_hunk
  read_hunks s buffer [] = some (true, s, buffer)
  read_hunks s buffer (hunk ∷ hunks) = read_hunk s buffer hunk >>= λ (go, s', buffer'). elim go [
    | false ↦ some (false, s', buffer')
    | true ↦ read_hunks s' buffer' hunks
  ]

  -- The outer loop, up to where the side returns; `writable` is what the side does when the connection
  -- takes bytes.
  module _ (writable : ℕ → S → S) (says : S → List ℕ → S) where
    unfoldable pub select_loop : S → List ℕ → List Event → Option (Bool × S × List ℕ)
    unfolding read_hunk
    select_loop s buffer [] = some (true, s, buffer)
    select_loop s buffer (hears hunk ∷ events) = read_hunk s buffer hunk >>= λ (go, s', buffer').
        elim go [ false ↦ some (false, s', buffer') | true ↦ select_loop s' buffer' events ]
    select_loop s buffer (takes n ∷ events) = select_loop (writable n s) buffer events
    select_loop s buffer (ends why ∷ events) = some (false, says s (cn (reason why)), buffer)
