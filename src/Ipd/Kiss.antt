-- ===== src/Ipd/Kiss.antt =====
-- ax25apps/ax25ipd/kiss.c: KISS frames on the serial line. `iframe` with `ifcount` is the list of
-- the bytes held, `oframe` with `ofcount` the list of those emitted; what is logged is left out.
pub mod Encoding
pub mod Stream
pub mod RoundTrip
pub mod Params
mod Tests
use linuxax.Prelude.{
  ℕ, ◌+◌, ◌-◌, bit_and, Bool, true, false, List, [], ◌∷◌, ◌++◌, map, ◌==◌, ltb, leb, if◌then◌else◌,
  length,
}

abbrev pub fend : ℕ
fend = 0xc0

abbrev pub fesc : ℕ
fesc = 0xdb

abbrev pub tfend : ℕ
tfend = 0xdc

abbrev pub tfesc : ℕ
tfesc = 0xdd

-- `MAX_FRAME` of ax25ipd.h
abbrev pub max_frame : ℕ
max_frame = 2048

-- `PTABLE_SIZE`
abbrev pub ptable_size : ℕ
ptable_size = 10

-- `iframe`, `iescaped` and the counters of `stats` that only the assembly of frames counts.
pub record Receiver : Type 0 where
  pub iframe : List ℕ
  pub iescaped : Bool
  pub kiss_in : ℕ
  pub kiss_toobig : ℕ
  pub kiss_badtype : ℕ

-- `kiss_init`, with the counters as the program starts.
abbrev pub kiss_init : Receiver
kiss_init = record { iframe = []; iescaped = false; kiss_in = 0; kiss_toobig = 0; kiss_badtype = 0 }

-- The byte that stands for another after FESC.
pub unescape : ℕ → ℕ
unescape c = if c == tfend then fend else if c == tfesc then fesc else c

-- A byte that is neither FEND nor FESC.
pub store_byte : ℕ → Receiver → Receiver
unfolding unescape
store_byte c r =
    let c' = if r.iescaped then unescape c else c in
    if ltb (length r.iframe) max_frame
    then record r { iframe = r.iframe ++ (c' ∷ []); iescaped = false }
    else record r { iescaped = false }

-- After FEND nothing is held.
pub reset {ℓ} : {S : Type ℓ} → Receiver × S → Receiver × S
reset (r, s) = (record r { iframe = []; iescaped = false }, s)

-- `S` is the state of the rest of the daemon, which `from_kiss` changes.
module _ {ℓ} {S : Type ℓ} (from_kiss : S → List ℕ → S) where
  -- What FEND does with the frame held, before it is reset.
  pub end_frame : List ℕ → Receiver → S → Receiver × S
  end_frame [] r s = (r, s)
  end_frame (control ∷ body) r s =
      if bit_and control 0xf == 0
      then if ltb (length (control ∷ body)) (max_frame - 2)
        then (record r { kiss_in = r.kiss_in + 1 }, from_kiss s body)
        else (record r { kiss_toobig = r.kiss_toobig + 1 }, s)
      else (record r { kiss_badtype = r.kiss_badtype + 1 }, s)

  -- One round of the loop of `assemble_kiss`.
  pub assemble_byte : ℕ → Receiver × S → Receiver × S
  unfolding end_frame reset store_byte
  assemble_byte c (r, s) =
      if c == fend
      then reset (end_frame r.iframe r s)
      else if c == fesc
      then (record r { iescaped = true }, s)
      else (store_byte c r, s)

  pub assemble_kiss : List ℕ → Receiver × S → Receiver × S
  assemble_kiss [] st = st
  assemble_kiss (c ∷ buf) st = assemble_kiss buf (assemble_byte c st)

-- `KISSEMIT`
pub emit : List ℕ → ℕ → List ℕ
emit out x = if ltb (length out) max_frame then out ++ (x ∷ []) else out

-- The three-way choice of `send_kiss`, for the type byte and for each byte of the frame.
pub emit_escaped : List ℕ → ℕ → List ℕ
unfolding emit
emit_escaped out c =
    if c == fend
    then emit (emit out fesc) tfend
    else if c == fesc
    then emit (emit out fesc) tfesc
    else emit out c

pub emit_all : List ℕ → List ℕ → List ℕ
emit_all out [] = out
emit_all out (c ∷ buf) = emit_all (emit_escaped out c) buf

-- What `send_kiss` hands to `send_tty`.
pub send_kiss : ℕ → List ℕ → List ℕ
unfolding emit emit_escaped emit_all
send_kiss type buf = emit (emit_all (emit_escaped (emit [] fend) type) buf) fend

-- `param_tbl` up to `param_tbl_top`, an entry a parameter with its value. An `int` is given by its
-- two's complement pattern.
pub param_add : List (ℕ × ℕ) → ℕ → ℕ → List (ℕ × ℕ)
param_add table p v =
    if leb ptable_size (length table)
    then table
    else table ++ ((bit_and p 0xff, bit_and v 0xff) ∷ [])

-- The frames that `send_params` sends, in order.
pub send_params : List (ℕ × ℕ) → List (List ℕ)
send_params [] = []
send_params ((p, v) ∷ table) = send_kiss p (v ∷ []) ∷ send_params table
