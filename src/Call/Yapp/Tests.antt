-- ===== src/Call/Yapp/Tests.antt =====
-- A file of three bytes, sent with a time in packets of four bytes, and received.
use linuxax.Prelude.{
  ℕ, ◌≤◌, ◌≡◌, refl, Bool, true, false, List, [], ◌∷◌, ◌++◌, map, Option, none, some, length,
  flatten, All, arith, ◌⊎◌, inr,
}
use linuxax.Call.Dostime.Text.{unix2yapp, hex_digit, hex_word}
use linuxax.Call.Dostime.{date_unix2dos, find_month}
use linuxax.Call.Yapp.{
  state_st, hears, enq, soh, stx, rr, rt, af, at, si, et, ef, dt, decimal, digits_from, checksum,
  packet_length, sum_from,
}
use linuxax.Call.Yapp.Hunks.Reads.{IsHunk, outcome}
use linuxax.Call.Yapp.Cuts.{yapp_download-flatten}
use linuxax.Call.Yapp.Receive.{Download, download_start, bad_checksum, yapp_download}
use linuxax.Call.Yapp.Transmit.{Upload, readlen_of, upload_start, send_hd, send_header, yapp_upload}
use linuxax.Call.Yapp.Blocks.{IsBlock, encode_blocks, runs, receiving}
use linuxax.Call.Yapp.Packets.{IsPacket}
use linuxax.Call.Yapp.Packets.Stream.{ArePieces}
use linuxax.Call.Yapp.Transfer.{session, yapp_upload-session}
use linuxax.Call.Yapp.Delivery.{yapp_download-yapp_upload}
use linuxax.Call.Yapp.Damage.{receive_changed}

abbrev opened : List ℕ → Option (List ℕ)
opened name = some []

abbrev content : List ℕ
content = 1 ∷ 0 ∷ 200 ∷ []

abbrev filename : List ℕ
filename = b'a' ∷ []

abbrev writes : List ℕ
writes = 1 ∷ 1 ∷ 2 ∷ 1 ∷ 9 ∷ 1 ∷ 1 ∷ 1 ∷ 1 ∷ 1 ∷ []

abbrev hd : List ℕ
hd = soh ∷ 13 ∷ b'a' ∷ 0 ∷ b'3' ∷ 0 ∷ b'2' ∷ b'B' ∷ b'2' ∷ b'9' ∷ b'0' ∷ b'D' ∷ b'D' ∷ b'4' ∷ 0 ∷ []

hd_lem : send_header filename (length content) (some 1000000001) ≡ some hd
unfolding send_header send_hd unix2yapp hex_word hex_digit date_unix2dos find_month decimal
    digits_from
hd_lem = refl

-- The header and the first bytes of data, cut at two places.
abbrev header_cut : List (List ℕ)
header_cut = si ∷ (soh ∷ 4 ∷ b'a' ∷ []) ∷ (0 ∷ b'3' ∷ 0 ∷ stx ∷ []) ∷ (2 ∷ []) ∷ []

abbrev header_whole : List (List ℕ)
header_whole = (enq ∷ 1 ∷ soh ∷ 4 ∷ b'a' ∷ 0 ∷ b'3' ∷ 0 ∷ stx ∷ 2 ∷ []) ∷ []

header_cut-IsHunk : All IsHunk header_cut
unfolding IsHunk
header_cut-IsHunk = ground arith

header_whole-IsHunk : All IsHunk header_whole
unfolding IsHunk
header_whole-IsHunk = ground arith

yapp_download-flatten_example :
    (result : Bool × Download) × (outcome
        (yapp_download true opened (download_start none) [] (map hears header_cut))
      ≡ some result)
    × (outcome (yapp_download true opened (download_start none) [] (map hears header_whole))
        ≡ some result)
    × ((outcome (yapp_download false opened (download_start none) [] (map hears header_cut)) ≡ none)
        ⊎ (outcome (yapp_download false opened (download_start none) [] (map hears header_cut))
            ≡ some result))
yapp_download-flatten_example =
    yapp_download-flatten opened (download_start none) header_cut header_whole header_cut-IsHunk
      header_whole-IsHunk refl

-- Three packets in one hunk reach a `memcpy` of areas that overlap, two do not.
three_overlap :
    outcome (yapp_download false opened (download_start none) [] (hears (si ++ (si ++ si)) ∷ []))
    ≡ none
unfolding yapp_download outcome download_start
three_overlap = refl

two_apart :
    outcome (yapp_download false opened (download_start none) [] (hears (si ++ si) ∷ []))
    ≡ outcome (yapp_download true opened (download_start none) [] (hears (si ++ si) ∷ []))
unfolding yapp_download outcome download_start
two_apart = refl

some_each : All (λ n. 1 ≤ n) writes
some_each = ground arith

yapp_upload-session_example :
    (u : Upload) × (blocks : List (List ℕ)) × (outcome
        (yapp_upload false hd (upload_start 4 content) [] (session true writes))
      ≡ some (false, u))
    × (u.sent ≡ si ++ (hd ++ (encode_blocks true blocks ++ et)))
    × (flatten blocks ≡ content)
    × All IsBlock blocks
yapp_upload-session_example =
    yapp_upload-session false hd content 4 true writes (omega arith) some_each (omega arith)
      (λ e. omega arith)

-- The bytes that are written, in pieces of their packets, and the hunks that are read.
abbrev cuts : List (List (List ℕ))
cuts =
    (si ∷ [])
    ∷ (hd ∷ [])
    ∷ ((stx ∷ 2 ∷ 1 ∷ []) ∷ (0 ∷ 1 ∷ []) ∷ [])
    ∷ ((stx ∷ 1 ∷ 200 ∷ 200 ∷ []) ∷ [])
    ∷ (ef ∷ [])
    ∷ (et ∷ [])
    ∷ []

abbrev hunks : List (List ℕ)
hunks = flatten cuts

hunks-ArePieces : ArePieces true hunks
unfolding ArePieces IsPacket packet_length
hunks-ArePieces = (cuts, ground arith, refl)

hunks-IsHunk : All IsHunk hunks
unfolding IsHunk
hunks-IsHunk = ground arith

abbrev uploaded : Upload
uploaded = record (upload_start 4 content) {
  state = state_st;
  total = 3;
  yappc = true;
  out = [];
  file = [];
  sent = flatten hunks;
}

upload_lem :
    outcome (yapp_upload false hd (upload_start 4 content) [] (session true writes))
    ≡ some (false, uploaded)
unfolding yapp_upload session upload_start outcome dt checksum readlen_of sum_from
upload_lem = refl

yapp_download-yapp_upload_example :
    (d : Download) × (outcome
        (yapp_download false opened (download_start none) [] (map hears hunks))
      ≡ some (false, d))
    × ((outcome (yapp_download false opened (download_start none) [] (map hears hunks)) ≡ none)
        ⊎ (outcome (yapp_download false opened (download_start none) [] (map hears hunks))
            ≡ some (false, d)))
    × (d.closed ≡ content ∷ [])
    × (d.sent ≡ rr ++ (rt ++ (af ++ at)))
yapp_download-yapp_upload_example =
    yapp_download-yapp_upload false opened filename content (some 1000000001) 4 writes hd uploaded
      hunks refl (refl, tt) (omega arith) (omega arith) (omega arith, omega arith)
      (λ e. omega arith) (omega arith) some_each (omega arith) hd_lem upload_lem hunks-IsHunk refl
      (inr hunks-ArePieces)

-- The block 1, 0 of which the second byte has become 4.
receive_changed_example :
    runs opened false
      (receiving 0 true [] [] rr)
      (dt 2 ++ ((1 ∷ 4 ∷ []) ++ (checksum (1 ∷ 0 ∷ []) ∷ ef)))
    ≡ some (false, receiving 2 true [] [] (rr ++ bad_checksum))
receive_changed_example =
    receive_changed false opened 0 [] [] rr (1 ∷ []) [] ef 0 4 (omega arith, omega arith)
      (omega arith) (omega arith) (λ e. omega (arith, e))
