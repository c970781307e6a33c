-- ===== src/Call/Yapp/Packets/Stream.antt =====
-- All packets of an upload, where no hunk that is read holds bytes of two of them.
use linuxax.Prelude.{
  ℕ, ◌+◌, ◌≡◌, refl, ap, sym, ◌∙◌, Bool, true, false, List, [], ◌∷◌, ◌++◌, append_assoc, map,
  Option, none, some, length, All, arith, flatten, if◌then◌else◌,
}
use linuxax.Call.Yapp.{state_rh, soh, enq, rr, rf, rt, af, at, si, et, hears, packet_length}
use linuxax.Call.Yapp.Hunks.Reads.{outcome, select_loop-hears}
use linuxax.Call.Yapp.Packets.{
  IsPacket, twice, take_all, packets_unique, block_packets, block_packets-flatten,
  block_packets-IsPacket, reads, next_packet, reads-block_packets,
}
use linuxax.Call.Yapp.Blocks.{IsBlock, encode_blocks, receiving, length_of_self}
use linuxax.Call.Yapp.Header.{has_time, Header}
use linuxax.Call.Yapp.Receive.{
  Download, receive_header, accept_header, yapp_download_data, download_start, yapp_download,
}

-- The hunks are pieces of packets: none of them holds bytes of two packets.
unfoldable pub ArePieces : Bool → List (List ℕ) → Type 0
ArePieces yappc hunks =
    (cuts : List (List (List ℕ))) × All (IsPacket yappc) (map flatten cuts) × (flatten cuts ≡ hunks)

-- What is left of the state when the transfer is over.
abbrev pub ended : Bool → List (List ℕ) → Download
ended yappc blocks = record {
  state = state_rh;
  total = 0 + length (flatten blocks);
  yappc = yappc;
  filefd = none;
  closed = flatten blocks ∷ [];
  sent = ((rr ++ (if yappc then rt else rf)) ++ af) ++ at;
}

flatten-append : (xss yss : List (List ℕ)) → flatten (xss ++ yss) ≡ flatten xss ++ flatten yss
flatten-append [] yss = refl
flatten-append (xs ∷ xss) yss =
    ap (λ t. xs ++ t) (flatten-append xss yss) ∙ sym (append_assoc xs (flatten xss) (flatten yss))

flatten-flatten :
    (cuts : List (List (List ℕ))) → flatten (flatten cuts) ≡ flatten (map flatten cuts)
flatten-flatten [] = refl
flatten-flatten (cut ∷ cuts) =
    flatten-append cut (flatten cuts) ∙ ap (λ t. flatten cut ++ t) (flatten-flatten cuts)

module _ (moves : Bool) (opened : List ℕ → Option (List ℕ)) where
  soh_packet :
      (filename : List ℕ) (size : ℕ) (mtime : Option ℕ)
      → opened filename ≡ some []
      → (hd : Header filename size mtime)
      → yapp_download_data opened
          (record (download_start none) { state = state_rh; sent = rr })
          soh
          (length hd.body)
          hd.body
        ≡ (true, receiving 0 (has_time mtime) [] [] (rr ++ (if has_time mtime then rt else rf)))
  unfolding yapp_download_data receive_header accept_header download_start
  soh_packet filename size mtime free hd =
      rw (length_of_self (length hd.body) hd.some_body, take_all hd.body, hd.fields, free, hd.timed)
        (rw (twice (has_time mtime)) refl)

  reads-packets :
      (filename : List ℕ) (size : ℕ) (mtime : Option ℕ) (blocks : List (List ℕ))
      (cuts : List (List (List ℕ)))
      → opened filename ≡ some []
      → All IsBlock blocks
      → (hd : Header filename size mtime)
      → map flatten cuts
        ≡ si ∷ (soh ∷ length hd.body ∷ hd.body) ∷ block_packets (has_time mtime) blocks
      → outcome (reads moves opened (download_start none) (flatten cuts))
        ≡ some (false, ended (has_time mtime) blocks)
  unfolding yapp_download_data download_start packet_length
  reads-packets filename size mtime blocks cuts free sizes hd e =
      let (cuts1, rest1, run1) =
        next_packet moves opened (download_start none)
          (record (download_start none) { state = state_rh; sent = rr }) enq 1 [] cuts _ e refl
          (omega arith) refl in
      let (cuts2, rest2, run2) =
        next_packet moves opened (record (download_start none) { state = state_rh; sent = rr })
          (receiving 0 (has_time mtime) [] [] (rr ++ (if has_time mtime then rt else rf))) soh
          (length hd.body) hd.body cuts1 (block_packets (has_time mtime) blocks) rest1
          (omega (arith, length_of_self (length hd.body) hd.some_body)) (omega (arith, hd.fits))
          (soh_packet filename size mtime free hd) in
      ap outcome (run1 ∙ run2)
      ∙ reads-block_packets moves opened 0 (has_time mtime) [] []
          (rr ++ (if has_time mtime then rt else rf)) blocks cuts2 sizes rest2

  -- Hunks that are pieces of the packets of an upload.
  pub pieces_stream :
      (filename : List ℕ) (size : ℕ) (mtime : Option ℕ) (blocks hunks : List (List ℕ))
      → opened filename ≡ some []
      → All IsBlock blocks
      → (hd : Header filename size mtime) → ArePieces (has_time mtime) hunks
      → flatten hunks
        ≡ si ++ ((soh ∷ length hd.body ∷ hd.body) ++ (encode_blocks (has_time mtime) blocks ++ et))
      → outcome (yapp_download moves opened (download_start none) [] (map hears hunks))
        ≡ some (false, ended (has_time mtime) blocks)
  unfolding ArePieces IsPacket yapp_download packet_length
  pieces_stream filename size mtime blocks hunks free sizes hd (cuts, whole, same) e =
      let yc = has_time mtime in
      let ps = si ∷ (soh ∷ length hd.body ∷ hd.body) ∷ block_packets yc blocks in
      let packets : All (IsPacket yc) ps = (
        refl,
        (
          omega (arith, length_of_self (length hd.body) hd.some_body),
          block_packets-IsPacket yc blocks sizes,
        ),
      ) in
      let bytes : flatten (map flatten cuts) ≡ flatten ps =
        sym (flatten-flatten cuts)
        ∙ ap flatten same
        ∙ e
        ∙ ap (λ t. si ++ ((soh ∷ length hd.body ∷ hd.body) ++ t))
            (sym (block_packets-flatten yc blocks sizes)) in
      ap outcome (
        select_loop-hears (yapp_download_data opened) (λ (d : Download). d.yappc) (λ n d. d)
          (λ d packet. record d { sent = d.sent ++ packet }) moves (download_start none) [] hunks)
      ∙ ap (λ t. outcome (reads moves opened (download_start none) t)) (sym same)
      ∙ reads-packets filename size mtime blocks cuts free sizes hd
          (packets_unique yc (map flatten cuts) ps whole packets bytes)
