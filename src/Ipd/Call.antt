-- ===== src/Ipd/Call.antt =====
-- ax25apps/ax25ipd/process.c and routing.c: callsigns as they stand in a frame, six shifted
-- characters and a byte with the SSID, and the tests on two of them. A callsign is the list of its
-- bytes.
pub mod Match
pub mod Order
mod Tests
use linuxax.Prelude.{
  ℕ, zero, suc, ◌+◌, ◌-◌, ◌%◌, bit_and, bit_or, bit_xor, Bool, true, false, not, ◌||◌, List, [],
  ◌∷◌, ◌==◌, ltb, if◌then◌else◌, get_or,
}

-- The bytes differ under the mask `m`: `(a[i] ^ b[i]) & m`.
unfoldable pub differs : ℕ → ℕ → List ℕ → List ℕ → Bool
differs m i a b = not (bit_and (bit_xor (get_or a i 0) (get_or b i 0)) m == 0)

unfoldable pub addrmatch : List ℕ → List ℕ → Bool
unfolding differs
addrmatch a b =
    if (get_or a 0 0 == 0) || (get_or b 0 0 == 0)
    then false
    else if differs 0xfe 0 a b
    then false
    else if differs 0xfe 1 a b
    then false
    else if differs 0xfe 2 a b
    then false
    else if differs 0xfe 3 a b
    then false
    else if differs 0xfe 4 a b
    then false
    else if differs 0xfe 5 a b
    then false
    else if bit_and (get_or b 6 0) 0x1e == 0
    then true
    else if differs 0x1e 6 a b
    then false
    else true

-- The sign of a `signed char`.
pub data Sign : Type 0 where
  negative zero_diff positive : Sign

-- `(signed char)((a[i] - b[i]) & 0xfe)`: the pattern of the difference in 8 bits, and its sign.
pub diff : ℕ → List ℕ → List ℕ → Sign
diff i a b =
    let d = bit_and ((get_or a i 0 + 256 - get_or b i 0) % 256) 0xfe in
    if d == 0 then zero_diff else if ltb d 128 then positive else negative

-- The first difference that is not 0, over the bytes from `i` on.
pub first_diff : ℕ → ℕ → List ℕ → List ℕ → Sign
first_diff zero i a b = zero_diff
first_diff (suc left) i a b =
    let rest = first_diff left (i + 1) a b in
    elim (diff i a b) [ zero_diff ↦ rest | positive ↦ positive | negative ↦ negative ]

pub addrcompare : List ℕ → List ℕ → Sign
unfolding first_diff diff
addrcompare a b = first_diff 7 0 a b

-- `mycall`, `bccall` and the callsigns of the tables: the flags off, the reserved bits set.
unfoldable pub normal_call : List ℕ → List ℕ
normal_call call =
    bit_and (get_or call 0 0) 0xfe
    ∷ bit_and (get_or call 1 0) 0xfe
    ∷ bit_and (get_or call 2 0) 0xfe
    ∷ bit_and (get_or call 3 0) 0xfe
    ∷ bit_and (get_or call 4 0) 0xfe
    ∷ bit_and (get_or call 5 0) 0xfe
    ∷ bit_or (bit_and (get_or call 6 0) 0x1e) 0x60
    ∷ []
