-- ===== src/Call/Yapp/Receive.antt =====
-- ax25apps/call/yapp.c: the download.
use linuxax.Prelude.{
  ℕ, zero, suc, ◌+◌, Bool, true, false, not, ◌&&◌, ◌||◌, List, [], ◌∷◌, ◌++◌, Option, none, some,
  ◌==◌, if◌then◌else◌, length, take, get_or,
}
use linuxax.Ipd.Frame.{◌>>=◌}
use linuxax.Call.Yapp.{
  soh, stx, etx, eot, enq, nak, can, State, state_r, state_rh, state_rd, rr, rf, rt, af, at, rs, nr,
  cn, length_of, checksum, Event, select_loop,
}

-- `total` is an `int` that is only printed: it is unbounded here. `filefd` is the content of the file that is open, and `none` for -1; `closed` has those of the
-- files that were received.
pub record Download : Type 0 where
  pub state : State
  pub total : ℕ
  pub yappc : Bool
  pub filefd : Option (List ℕ)
  pub closed : List (List ℕ)
  pub sent : List ℕ

-- The packets that end a transfer, by their reasons.
abbrev unknown_code : List ℕ
unknown_code =
    cn (b'U' ∷ b'n' ∷ b'k' ∷ b'n' ∷ b'o' ∷ b'w' ∷ b'n' ∷ b' ' ∷ b'c' ∷ b'o' ∷ b'd' ∷ b'e' ∷ [])

abbrev invalid_header : List ℕ
invalid_header = nr (
    b'I' ∷ b'n' ∷ b'v' ∷ b'a' ∷ b'l' ∷ b'i' ∷ b'd' ∷ b' ' ∷ b'h' ∷ b'e' ∷ b'a' ∷ b'd' ∷ b'e' ∷ b'r'
    ∷ [])

abbrev invalid_filename : List ℕ
invalid_filename = nr (
    b'I' ∷ b'n' ∷ b'v' ∷ b'a' ∷ b'l' ∷ b'i' ∷ b'd' ∷ b' ' ∷ b'f' ∷ b'i' ∷ b'l' ∷ b'e' ∷ b'n' ∷ b'a'
    ∷ b'm' ∷ b'e' ∷ [])

abbrev pub bad_checksum : List ℕ
bad_checksum =
    cn (b'B' ∷ b'a' ∷ b'd' ∷ b' ' ∷ b'C' ∷ b'h' ∷ b'e' ∷ b'c' ∷ b'k' ∷ b's' ∷ b'u' ∷ b'm' ∷ [])

-- A field that ends with a 0, and what follows it.
unfoldable pub take_field : List ℕ → Option (List ℕ × List ℕ)
take_field [] = none
take_field (c ∷ s) =
    let more = take_field s >>= λ (f, rest). some (c ∷ f, rest) in
    if c == 0 then some ([], s) else more

-- The loop over the fields of a header, of which `left` are still taken.
unfoldable pub header_fields : ℕ → List ℕ → List (List ℕ)
unfolding take_field
header_fields zero s = []
header_fields (suc left) s = elim (take_field s) [
  | none ↦ []
  | some (f, rest) ↦ f ∷ header_fields left rest
]

abbrev pub says : Download → List ℕ → Download
says d packet = record d { sent = d.sent ++ packet }

-- The answer to a header, the file open with what it holds already.
unfoldable pub accept_header : Download → List ℕ → Bool × Download
accept_header d file =
    let reply = if d.yappc then (if length file == 0 then rt else rs (length file)) else rf in
    (true, record d { filefd = some file; state = state_rd; sent = d.sent ++ reply })

-- The file to receive into, with what it holds already: it may be open.
abbrev pub open_file : (List ℕ → Option (List ℕ)) → List ℕ → Option (List ℕ) → Option (List ℕ)
open_file opened name none = opened name
open_file opened name (some file) = some file

unfoldable pub receive_header :
    (List ℕ → Option (List ℕ)) → Download → List (List ℕ) → Bool × Download
unfolding accept_header
receive_header opened d [] = (false, says d invalid_header)
receive_header opened d (name ∷ []) = (false, says d invalid_header)
receive_header opened d (name ∷ size ∷ more) =
    let d' = record d { yappc = not (length more == 0) } in
    elim (open_file opened name d.filefd) [
      | none ↦ (false, says (d') invalid_filename)
      | some file ↦ accept_header (d') file
    ]

-- The data in a packet: `body` is what follows the two first bytes in the buffer.
unfoldable pub receive_data : Download → ℕ → List ℕ → Bool × Download
receive_data d b1 body =
    let n = length_of b1 in
    let d' = record d { total = d.total + n } in
    let file = elim d.filefd as (λ o. List ℕ) [ none ↦ [] | some file ↦ file ] in
    if d.yappc && not (checksum (take n body) == get_or body n 0)
    then (false, says (d') bad_checksum)
    else (true, record (d') { filefd = some (file ++ take n body) })

-- `yapp_download_data`: false is FALSE. `opened` is what `open` finds in the file of a name.
unfoldable pub yapp_download_data :
    (List ℕ → Option (List ℕ)) → Download → (b0 b1 : ℕ) (body : List ℕ) → Bool × Download
unfolding header_fields receive_header receive_data
yapp_download_data opened d b0 b1 body =
    if (b0 == can) || (b0 == nak) then (false, d) else elim d.state [
      | state_r ↦
          if (b0 == enq) && (b1 == 1)
          then (true, record d { state = state_rh; sent = d.sent ++ rr })
          else (false, says d unknown_code)
      | state_rh ↦
          if b0 == soh
          then receive_header opened d (header_fields 3 (take (length_of b1) body))
          else if (b0 == enq) && (b1 == 1)
          then (true, d)
          else if (b0 == eot) && (b1 == 1)
          then (false, says d at)
          else (false, says d unknown_code)
      | state_rd ↦
          if b0 == stx
          then receive_data d b1 body
          else if (b0 == etx) && (b1 == 1)
          then (
            true,
            record d {
              state = state_rh;
              filefd = none;
              closed =
                  d.closed
                  ++ elim d.filefd as (λ o. List (List ℕ)) [ none ↦ [] | some file ↦ file ∷ [] ];
              sent = d.sent ++ af;
            },
          )
          else (false, says d unknown_code)
      | _ ↦ (true, d)
    ]

-- `yapp_download` at its start.
unfoldable pub download_start : Option (List ℕ) → Download
download_start filefd = record {
  state = state_r;
  total = 0;
  yappc = false;
  filefd = filefd;
  closed = [];
  sent = [];
}

-- From what is in the buffer on; the connection is not asked whether it can be written.
unfoldable pub yapp_download :
    (moves : Bool)
    → (List ℕ → Option (List ℕ))
    → Download
    → List ℕ
    → List Event
    → Option (Bool × Download × List ℕ)
unfolding yapp_download_data select_loop
yapp_download moves opened =
    select_loop moves (yapp_download_data opened) (λ (d : Download). d.yappc) (λ n d. d) says
