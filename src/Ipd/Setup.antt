-- ===== src/Ipd/Setup.antt =====
-- ax25apps/ax25ipd/config.c: the lines of the configuration file, and callsigns as text. A string is
-- the list of its characters before the 0 byte, an `int` that `atoi` makes is a sign and a number,
-- and what `parse_line` returns is given without its sign. `inet_addr` and `gethostbyname` are
-- parameters.
pub mod Callsigns
pub mod Words
pub mod Lines
pub mod RouteLine
mod Tests
use linuxax.Prelude.{
  ℕ, zero, suc, ◌+◌, ◌-◌, ◌*◌, ◌/◌, ◌%◌, ◌^◌, bit_and, bit_or, Bool, true, false, not, ◌&&◌, ◌||◌,
  List, [], ◌∷◌, ◌++◌, Option, none, some, ◌==◌, ltb, leb, if◌then◌else◌, length, take, get_or,
  same,
}
use linuxax.Ipd.Frame.{◌>>=◌}
use linuxax.Ipd.Kiss.{param_add}
use linuxax.Ipd.Routing.{
  Routes, axrt_bcast, axrt_default, axrt_permanent, axrt_learn, route_add, bcast_add,
}
use linuxax.Ipd.Process.{Config}
use linuxax.Address.Text.{to_upper, is_digit, blanks, scan_int, scan_digits}

-- `atoi`: whether the value has a minus, and the value.
abbrev pub SignedNumber : Type 0
SignedNumber = Bool × ℕ

unfoldable pub atoi : List ℕ → SignedNumber
atoi s = elim (scan_int s) [ none ↦ (false, 0) | some i ↦ i ]

-- The 32 bits of an `int`.
abbrev word : SignedNumber → ℕ
word (negative, v) = if negative then (2 ^ 32 - v % 2 ^ 32) % 2 ^ 32 else v % 2 ^ 32

-- `tcall`, as the loop of `a_to_call` leaves it: the characters, blanks and the last byte.
abbrev pub filled : List ℕ → ℕ → List ℕ
filled cs last = cs ++ (blanks (6 - length cs) ++ (last ∷ []))

-- The loop of `a_to_call` from a character on: `cs` is stored already. False is -1.
pub a_from : List ℕ → List ℕ → Bool × List ℕ
unfolding atoi
a_from cs [] = (true, filled cs 0)
a_from cs (c ∷ text) =
    let (negative, ssid) = atoi text in
    let more = a_from (cs ++ (to_upper c * 2 % 256 ∷ [])) text in
    if c == 0x2d
    then (if (negative && not (ssid == 0)) || ltb 15 ssid
        then (false, filled cs 0)
        else (true, filled cs (ssid * 2)))
    else if ltb 5 (length cs)
    then (false, filled cs 0)
    else more

-- The result, and what is left in `tcall`.
pub a_to_call : List ℕ → List ℕ → Bool × List ℕ
unfolding a_from
a_to_call [] tcall = (false, tcall)
a_to_call (c ∷ text) tcall = a_from [] (c ∷ text)

-- The loop of `call_to_a`.
pub call_chars : ℕ → List ℕ → List ℕ
call_chars zero tcall = []
call_chars (suc left) [] = []
call_chars (suc left) (b ∷ tcall) =
    let rest = call_chars left tcall in if b == 0x40 then [] else b / 2 ∷ rest

pub call_to_a : List ℕ → List ℕ
unfolding call_chars
call_to_a tcall =
    let ssid = bit_and (get_or tcall 6 0 / 2) 0x0f in
    call_chars 6 tcall
    ++ (if ltb 0 ssid
        then 0x2d ∷ (if ltb 9 ssid then 0x31 ∷ (0x30 + (ssid - 10)) ∷ [] else (0x30 + ssid) ∷ [])
        else [])
