-- ===== src/Rip.antt =====
-- ax25tools/tcpip/rip98d.c, rip98r.c and rip98t.c: the routes that are told to other routers, and
-- those that are learnt from them. Addresses are in the host's order, an `unsigned int` is a number
-- below 2 ^ 32. A read out of a buffer, and a shift by more than 32 bits, is `none`.
pub mod Masks
pub mod Message
pub mod Transmit
pub mod Receive
mod Tests
use linuxax.Prelude.{
  ℕ, zero, suc, ◌+◌, ◌-◌, ◌*◌, ◌/◌, ◌%◌, ◌^◌, bit_and, Bool, true, false, not, ◌&&◌, ◌||◌, List, [],
  ◌∷◌, ◌++◌, Option, none, some, ◌==◌, ltb, leb, if◌then◌else◌, length, get_elem?,
}
use linuxax.Ipd.Frame.{◌>>=◌}

-- `RIPCMD_RESPONSE`, `RIP_VERSION_98`, `RIP98_INFINITY`, `RIP98_HEADER` and `RIP98_ENTRY`
abbrev pub ripcmd_response : ℕ
ripcmd_response = 2

abbrev pub rip_version_98 : ℕ
rip_version_98 = 98

abbrev pub rip98_infinity : ℕ
rip98_infinity = 16

abbrev pub rip98_header : ℕ
rip98_header = 4

abbrev pub rip98_entry : ℕ
rip98_entry = 6

-- `ORIG_ROUTE`, `FIXED_ROUTE`, `NEW_ROUTE` and `DEL_ROUTE`
pub data Action : Type 0 where
  orig_route fixed_route new_route del_route : Action

pub record Route : Type 0 where
  pub addr : ℕ
  pub bits : ℕ
  pub metric : ℕ
  pub action : Action

pub is_deleted : Action → Bool
is_deleted del_route = true
is_deleted _ = false

pub bits2mask : ℕ → Option ℕ
bits2mask bits =
    if bits == 0 then some 0 else if leb bits 32 then some (2 ^ 32 - 2 ^ (32 - bits)) else none

-- `__builtin_clz` of a word of `width` bits, which is not 0.
pub leading_zeros : ℕ → ℕ → ℕ
leading_zeros zero x = 0
leading_zeros (suc width) x =
    let rest = leading_zeros width x in if leb (2 ^ width) x then 0 else suc rest

pub mask2bits : ℕ → ℕ
unfolding leading_zeros
mask2bits mask =
    let inverse = 2 ^ 32 - 1 - mask in if inverse == 0 then 32 else leading_zeros 32 inverse

-- `build_header`
pub build_header : List ℕ
build_header = ripcmd_response ∷ rip_version_98 ∷ 0 ∷ 0 ∷ []

-- One entry of a message: the address in network order, and two bytes.
pub put_entry : Route → List ℕ
put_entry r =
    r.addr / 2 ^ 24 % 256
    ∷ r.addr / 2 ^ 16 % 256
    ∷ r.addr / 2 ^ 8 % 256
    ∷ r.addr % 256
    ∷ r.bits % 256
    ∷ r.metric % 256
    ∷ []

-- The six bytes at `p`.
pub get_entry : List ℕ → ℕ → Option (ℕ × ℕ × ℕ)
get_entry message p = do
  a ← get_elem? message p
  b ← get_elem? message (p + 1)
  c ← get_elem? message (p + 2)
  d ← get_elem? message (p + 3)
  bits ← get_elem? message (p + 4)
  metric ← get_elem? message (p + 5)
  some (a * 2 ^ 24 + b * 2 ^ 16 + c * 2 ^ 8 + d, bits, metric)
