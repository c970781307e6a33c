-- ===== src/Call/Yapp/Transmit.antt =====
-- ax25apps/call/yapp.c: the upload.
use linuxax.Prelude.{
  ℕ, ◌+◌, ◌-◌, ◌^◌, min, Bool, true, false, not, ◌&&◌, ◌||◌, List, [], ◌∷◌, ◌++◌, Option, none,
  some, ◌==◌, ltb, if◌then◌else◌, length, take, drop, get_or,
}
use linuxax.Ipd.Frame.{◌>>=◌}
use linuxax.Address.Text.{scan_int}
use linuxax.Call.Dostime.Text.{unix2yapp}
use linuxax.Call.Yapp.{
  soh, ack, nak, can, State, state_s, state_sh, state_sd, state_se, state_st, si, et, ef, dt, cn,
  decimal, checksum, Event, select_loop,
}

-- `total` is an `int` that is only printed: it is unbounded here. `file` is what is left to be read of the file, `whole` all of it; `out` is what of `outbuffer` is
-- still to be written, `outlen` bytes from `outbufptr` on.
pub record Upload : Type 0 where
  pub state : State
  pub total : ℕ
  pub yappc : Bool
  pub readlen : ℕ
  pub out : List ℕ
  pub file : List ℕ
  pub whole : List ℕ
  pub sent : List ℕ

-- `Send_HD`, with the time of the file where `stat` gives one; `none` is a write past the end of
-- `size_buffer`, or a time that cannot be written.
unfoldable pub send_hd : (filename : List ℕ) (size : ℕ) (mtime : Option ℕ) → Option (List ℕ)
send_hd filename size mtime =
    let digits = decimal size in
    let len_size = length digits + 1 in
    let stamp : Option (List ℕ) = elim mtime [
      | none ↦ some []
      | some t ↦ unix2yapp t >>= λ text. some (text ++ (0 ∷ []))
    ] in
    let max_fn = 255 - len_size - elim mtime as (λ o. ℕ) [ none ↦ 0 | some t ↦ 9 ] in
    let name = take (min (length filename + 1) max_fn - 1) filename in
    if ltb 12 len_size
    then none
    else if max_fn == 0
    then some []
    else (stamp >>= λ text.
        let body = name ++ (0 ∷ digits ++ (0 ∷ text)) in some (soh ∷ length body ∷ body))

-- `Send_HD` as `yapp_upload_data` calls it, of which `filelength` is an `int`; `none` is also a length that
-- an `int` does not hold.
unfoldable pub send_header :
    (filename : List ℕ) (filelength : ℕ) (mtime : Option ℕ) → Option (List ℕ)
unfolding send_hd
send_header filename filelength mtime =
    if ltb filelength (2 ^ 31) then send_hd filename filelength mtime else none

abbrev says : Upload → List ℕ → Upload
says u packet = record u { sent = u.sent ++ packet }

abbrev unknown_code : List ℕ
unknown_code =
    cn (b'U' ∷ b'n' ∷ b'k' ∷ b'n' ∷ b'o' ∷ b'w' ∷ b'n' ∷ b' ' ∷ b'c' ∷ b'o' ∷ b'd' ∷ b'e' ∷ [])

-- The bytes that are written after `Send_DT`.
abbrev pub block_of : Bool → List ℕ → List ℕ
block_of yappc block = if yappc then block ++ (checksum block ∷ []) else block

-- The first block: also an empty one has its checksum.
unfoldable pub start_data : Upload → Upload
start_data u =
    let block = take u.readlen u.file in
    record u {
      state = state_sd;
      out = block_of u.yappc block;
      file = drop u.readlen u.file;
      sent = u.sent ++ (if length block == 0 then [] else dt (length block));
    }

-- A resume request: what `lseek` leaves of the file, and `yappc`. An offset below 0 is refused.
unfoldable pub resume : Upload → (b0 b1 : ℕ) (body : List ℕ) → Upload
resume u b0 b1 body =
    let (negative, rpos) = elim (scan_int (drop 2 body)) as (λ o. Bool × ℕ) [
      | none ↦ (false, 0)
      | some i ↦ i
    ] in
    record u {
      yappc = u.yappc || (get_or (b0 ∷ b1 ∷ body) b1 0 == b'C');
      file = if negative && not (rpos == 0) then u.file else drop rpos u.whole;
    }

-- `yapp_upload_data`; `hd` is what its call of `Send_HD` writes.
unfoldable pub yapp_upload_data : List ℕ → Upload → (b0 b1 : ℕ) (body : List ℕ) → Bool × Upload
unfolding start_data resume
yapp_upload_data hd u b0 b1 body = if (b0 == can) || (b0 == nak) then (false, u) else elim u.state [
  | state_s ↦
      if (b0 == ack) && (b1 == 1)
      then (true, record u { state = state_sh; sent = u.sent ++ hd })
      else if (b0 == ack) && (b1 == 2)
      then (true, start_data u)
      else (false, says u unknown_code)
  | state_sh ↦
      let asked = (b0 == nak) && (get_or body 0 0 == b'R') in
      let u' = if asked then resume u b0 b1 body else u in
      let b1' = if asked then if u'.yappc then ack else 2 else b1 in
      if (asked || (b0 == ack)) && ((b1' == 2) || (b1' == ack))
      then (true, start_data (record u' { yappc = u'.yappc || (b1' == ack) }))
      else (false, says (u') unknown_code)
  | state_sd ↦ (false, says u unknown_code)
  | state_se ↦
      if (b0 == ack) && (b1 == 3)
      then (true, record u { state = state_st; sent = u.sent ++ et })
      else (false, says u unknown_code)
  | state_st ↦ if (b0 == ack) && (b1 == 4) then (false, u) else (false, says u unknown_code)
  | _ ↦ (true, u)
]

-- The next block of the file, or its end.
unfoldable pub next_block : Upload → Upload
next_block u =
    let block = take u.readlen u.file in
    let more : Upload = record u {
      out = block_of u.yappc block;
      file = drop u.readlen u.file;
      sent = u.sent ++ dt (length block);
    } in
    let done : Upload = record u { state = state_se; sent = u.sent ++ ef } in
    if length block == 0 then done else more

-- `outbuffer` after a `write` of `n` bytes, 0 if it fails.
abbrev pub wrote : ℕ → Upload → Upload
wrote n u = record u {
  out = drop n u.out;
  total = u.total + length (take n u.out);
  sent = u.sent ++ take n u.out;
}

-- What `yapp_upload` does in STATE_SD when the connection can be written; `write` takes `n` bytes, or
-- all where there are fewer.
unfoldable pub writable : ℕ → Upload → Upload
unfolding next_block
writable n u =
    let u' = wrote n u in
    if length u'.out == 0
    then next_block (record u' { total = u'.total - (if u'.yappc then 1 else 0) })
    else u'

-- The bytes in a block; with packets of less than 2 bytes the code takes a number below 0.
unfoldable pub readlen_of : ℕ → ℕ
readlen_of paclen = if ltb 253 (paclen - 2) then 253 else paclen - 2

-- `yapp_upload` at its start; `paclen` is the length of a packet of the connection.
unfoldable pub upload_start : (paclen : ℕ) (content : List ℕ) → Upload
upload_start paclen content = record {
  state = state_s;
  total = 0;
  yappc = false;
  readlen = readlen_of paclen;
  out = [];
  file = content;
  whole = content;
  sent = si;
}

-- The connection is asked whether it can be written in STATE_SD only.
unfoldable pub sends : ℕ → Upload → Upload
unfolding writable
sends n u = elim u.state [ state_sd ↦ writable n u | _ ↦ u ]

unfoldable pub yapp_upload :
    (moves : Bool) → List ℕ → Upload → List ℕ → List Event → Option (Bool × Upload × List ℕ)
unfolding yapp_upload_data sends select_loop
yapp_upload moves hd = select_loop moves (yapp_upload_data hd) (λ (u : Upload). false) sends says
