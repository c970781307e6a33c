-- ===== src/Netrom.antt =====
-- ax25tools/netrom/netromr.c and netromt.c: the broadcasts in which NET/ROM nodes tell each other the
-- nodes that they reach. A string is the list of its characters before the 0 byte; a line of a file
-- under /proc is a record of the fields that `strtok` and `atoi` make of it.
pub mod Entries
pub mod Transmit
pub mod Mine
pub mod Receive
pub mod Exchange
mod Tests
use linuxax.Prelude.{
  ℕ, zero, suc, ◌+◌, ◌%◌, Bool, true, false, not, ◌&&◌, ◌||◌, List, [], ◌∷◌, ◌++◌, Option, none,
  some, ◌==◌, take, if◌then◌else◌,
}
use linuxax.Ipd.Frame.{◌>>=◌}

-- `NODES_SIG`, `CALLSIGN_LEN`, `MNEMONIC_LEN`, `NODES_PACLEN` and `ROUTE_LEN`
abbrev pub nodes_sig : ℕ
nodes_sig = 0xff

abbrev pub callsign_len : ℕ
callsign_len = 7

abbrev pub mnemonic_len : ℕ
mnemonic_len = 6

abbrev pub nodes_paclen : ℕ
nodes_paclen = 256

abbrev pub route_len : ℕ
route_len = 21

-- A line of PROC_NR_NEIGH_FILE.
pub record NeighLine : Type 0 where
  pub number : ℕ
  pub callsign : List ℕ
  pub device : List ℕ
  pub qual : ℕ
  pub lock : ℕ

-- A line of PROC_NR_NODES_FILE.
pub record NodeLine : Type 0 where
  pub callsign : List ℕ
  pub mnemonic : List ℕ
  pub quality : ℕ
  pub obs_count : ℕ
  pub neigh_no : ℕ

-- The fields of an entry of a broadcast, its mnemonic as a string.
pub record Entry : Type 0 where
  pub callsign : List ℕ
  pub mnemonic : List ℕ
  pub best_neighbour : List ℕ
  pub best_quality : ℕ

-- The six bytes of a mnemonic that `strcpy` and `strncat` leave in a message; Mine has how far they write.
pub pad : List ℕ → List ℕ
pad s = take mnemonic_len (s ++ (0x20 ∷ 0x20 ∷ 0x20 ∷ 0x20 ∷ 0x20 ∷ 0x20 ∷ 0x20 ∷ []))

-- The string of these bytes, which ends at a 0 or a blank.
pub unpad : List ℕ → List ℕ
unpad [] = []
unpad (c ∷ s) = let rest = unpad s in if (c == 0) || (c == 0x20) then [] else c ∷ rest

-- `memcpy` of the first bytes of a buffer, with what follows them.
pub get_bytes : ℕ → List ℕ → Option (List ℕ × List ℕ)
get_bytes zero buffer = some ([], buffer)
get_bytes (suc n) [] = none
get_bytes (suc n) (b ∷ buffer) = get_bytes n buffer >>= λ (bs, rest). some (b ∷ bs, rest)

pub put_entry : Entry → List ℕ
unfolding pad
put_entry e = e.callsign ++ (pad e.mnemonic ++ (e.best_neighbour ++ (e.best_quality % 256 ∷ [])))

pub get_entry : List ℕ → Option (Entry × List ℕ)
unfolding get_bytes unpad
get_entry buffer = do
  (callsign, buffer) ← get_bytes callsign_len buffer
  (mnemonic, buffer) ← get_bytes mnemonic_len buffer
  (best_neighbour, buffer) ← get_bytes callsign_len buffer
  elim buffer [
    | [] ↦ none
    | (best_quality ∷ rest) ↦
        let e : Entry = record {
          callsign = callsign;
          mnemonic = unpad mnemonic;
          best_neighbour = best_neighbour;
          best_quality = best_quality;
        } in
        some (e, rest)
  ]
