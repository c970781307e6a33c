-- ===== src/Ipd/Frame.antt =====
-- ax25apps/ax25ipd/process.c: the address field of an AX.25 frame. A frame is the list of its
-- bytes, without the checksum; a pointer into it is an offset, and a read past the end is `none`.
pub mod Layout
pub mod Field
pub mod Next
pub mod From
pub mod Mark
mod Tests
use linuxax.Prelude.{
  ℕ, zero, suc, ◌+◌, ◌-◌, ◌*◌, bit_and, bit_or, Bool, true, false, not, ◌&&◌, ◌||◌, List, Option,
  none, some, ◌==◌, ltb, if◌then◌else◌, length, get_elem?, get_or, set,
}

-- `MAX_DIGIS`
abbrev pub max_digis : ℕ
max_digis = 8

-- The tests on the last byte of an address: `IS_LAST` and `REPEATED`.
unfoldable pub is_last : ℕ → Bool
is_last b = not (bit_and b 0x01 == 0)

pub repeated : ℕ → Bool
repeated b = not (bit_and b 0x80 == 0)

-- The chain of reads: `none` is a read past the end of the frame.
infixl 5 ◌>>=◌
abbrev pub ◌>>=◌ {ℓ κ} : {A : Type ℓ} {B : Type κ} → Option A → (A → Option B) → Option B
none >>= f = none
some a >>= f = f a

-- The loop of `addr_field_ok` with its rounds left.
unfoldable pub field_ok : ℕ → ℕ → List ℕ → Bool
field_ok zero n buf = false
field_ok (suc left) n buf =
    let rest = field_ok left (n + 1) buf in
    if ltb (length buf) (n * 7 + 1)
    then false
    else if is_last (get_or buf ((n - 1) * 7 + 6) 0)
    then true
    else rest

unfoldable pub addr_field_ok : List ℕ → Bool
unfolding field_ok is_last
addr_field_ok buf = field_ok (max_digis + 1) 2 buf

-- The loop of `next_addr` at address `a`; the fuel bounds the addresses that fit the frame.
pub next_digi : ℕ → List ℕ → ℕ → Option ℕ
next_digi zero f a = none
next_digi (suc fuel) f a = do
  b ← get_elem? f (a + 6)
  let rest = next_digi fuel f (a + 7)
  if not (repeated b) then some a else if is_last b then some 0 else rest

unfoldable pub next_addr : List ℕ → Option ℕ
unfolding next_digi is_last repeated
next_addr f = do b ← get_elem? f 13; if is_last b then some 0 else next_digi (length f) f 14

-- The loop of `from_addr` at address `a`, and what stands after it.
pub from_digi : ℕ → Bool → List ℕ → ℕ → Option ℕ
from_digi zero digi f a = none
from_digi (suc fuel) digi f a = do
  b ← get_elem? f (a + 6)
  let rest = from_digi fuel digi f (a + 7)
  if not (is_last b) && repeated b
      then rest
      else if digi || not (repeated b)
      then some (a - 7)
      else some a

pub from_addr : Bool → List ℕ → Option ℕ
unfolding from_digi is_last repeated
from_addr digi f = do
  b ← get_elem? f 13
  if is_last b then some 7 else from_digi (length f) digi f 14

-- `SETREPEATED`
pub set_repeated : List ℕ → ℕ → Option (List ℕ)
set_repeated f a = do b ← get_elem? f (a + 6); some (set f (a + 6) (bit_or b 0x80))
