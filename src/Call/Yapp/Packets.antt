-- ===== src/Call/Yapp/Packets.antt =====
-- The packets that the upload writes, each of them read apart from the others.
pub mod Stream
use linuxax.Prelude.{
  take-length_append, ℕ, zero, suc, ◌+◌, ◌≤◌, ◌<◌, ◌≡◌, refl, ap, sym, ◌∙◌, Bool, true, false, not,
  List, [], ◌∷◌, ◌++◌, append_assoc, append-nil, map, Option, none, some, ◌==◌, ==_iff, length,
  length-append, get_or, take, drop, All, arith, flatten, if◌then◌else◌,
}
use linuxax.Call.Yapp.{
  state_rh, soh, stx, etx, enq, eot, rr, rf, rt, af, at, si, et, ef, dt, packet_length, checksum,
  read_hunks,
}
use linuxax.Call.Yapp.Hunks.Reads.{outcome}
use linuxax.Call.Yapp.Hunks.Runs.{drop-length_append}
use linuxax.Call.Yapp.Hunks.Pieces.{pieces_goes, pieces_stops}
use linuxax.Call.Yapp.Blocks.{
  IsBlock, encode_blocks, receiving, length_of_self, dt-eq, get_or-length,
}
use linuxax.Call.Yapp.Header.{has_time, Header}
use linuxax.Call.Yapp.Receive.{
  Download, receive_header, receive_data, accept_header, yapp_download_data, download_start,
}
use linuxax.Call.Yapp.Transmit.{block_of}

-- One whole packet, where blocks have a checksum if `yappc`.
unfoldable pub IsPacket : Bool → List ℕ → Type 0
IsPacket yappc [] = ⊥
IsPacket yappc (b0 ∷ []) = ⊥
IsPacket yappc (b0 ∷ b1 ∷ body) = packet_length yappc b0 b1 ≡ length body + 2

pub twice : (b : Bool) → not (not b) ≡ b
twice true = refl
twice false = refl

heads {ℓ} : {A : Type ℓ} {x y : A} {xs ys : List A} → x ∷ xs ≡ y ∷ ys → (x ≡ y) × (xs ≡ ys)
heads {x} e = (ap (λ l. elim l [ [] ↦ x | z ∷ zs ↦ z ]) e, ap (drop 1) e)

same_parts {ℓ} :
    {A : Type ℓ} (xs xs' ys ys' : List A)
    → length xs ≡ length xs'
    → xs ++ ys ≡ xs' ++ ys'
    → (xs ≡ xs') × (ys ≡ ys')
same_parts xs xs' ys ys' n e = (
  sym (take-length_append (length xs) xs ys refl)
      ∙ ap (take (length xs)) e
      ∙ take-length_append (length xs) xs' ys' n,
  sym (drop-length_append (length xs) xs ys refl)
      ∙ ap (drop (length xs)) e
      ∙ drop-length_append (length xs) xs' ys' n,
)

pub take_all : (xs : List ℕ) → take (length xs) xs ≡ xs
take_all [] = refl
take_all (x ∷ xs) = ap (λ t. x ∷ t) (take_all xs)

-- The first two bytes tell where a packet ends.
pub packets_unique :
    (yappc : Bool) (ps qs : List (List ℕ))
    → All (IsPacket yappc) ps
    → All (IsPacket yappc) qs
    → flatten ps ≡ flatten qs
    → ps ≡ qs
unfolding IsPacket
packets_unique yappc [] [] h k e = refl
packets_unique yappc [] ([] ∷ qs) h k e = absurd k.0
packets_unique yappc [] ((c0 ∷ q) ∷ qs) h k e = absurd (omega (arith, ap length e))
packets_unique yappc ([] ∷ ps) qs h k e = absurd h.0
packets_unique yappc ((b0 ∷ p) ∷ ps) [] h k e = absurd (omega (arith, ap length e))
packets_unique yappc ((b0 ∷ p) ∷ ps) ([] ∷ qs) h k e = absurd k.0
packets_unique yappc ((b0 ∷ []) ∷ ps) ((c0 ∷ q) ∷ qs) h k e = absurd h.0
packets_unique yappc ((b0 ∷ b1 ∷ p) ∷ ps) ((c0 ∷ []) ∷ qs) h k e = absurd k.0
packets_unique yappc ((b0 ∷ b1 ∷ p) ∷ ps) ((c0 ∷ c1 ∷ q) ∷ qs) h k e =
    let (same0, e1) = heads e in
    let (same1, rest) = heads e1 in
    let lengths : length p ≡ length q = omega (
      arith,
      h.0,
      k.0,
      ap (λ b. packet_length yappc b b1) same0,
      ap (packet_length yappc c0) same1,
    ) in
    let (same, more) = same_parts p q (flatten ps) (flatten qs) lengths rest in
    let others = packets_unique yappc ps qs h.1 k.1 more in rw (same0, same1, same, others) refl

-- The packets of the blocks, of the end of the file, and the last one.
unfoldable pub block_packets : Bool → List (List ℕ) → List (List ℕ)
block_packets yappc [] = ef ∷ et ∷ []
block_packets yappc (b ∷ bs) = (stx ∷ length b ∷ block_of yappc b) ∷ block_packets yappc bs

pub block_packets-flatten :
    (yappc : Bool) (blocks : List (List ℕ))
    → All IsBlock blocks
    → flatten (block_packets yappc blocks) ≡ encode_blocks yappc blocks ++ et
unfolding block_packets encode_blocks
block_packets-flatten yappc [] h = refl
block_packets-flatten yappc (b ∷ bs) h =
    rw
      (
        dt-eq (length b) h.0.1,
        append_assoc (block_of yappc b) (encode_blocks yappc bs) et,
        block_packets-flatten yappc bs h.1,
      )
      refl

pub block_packets-IsPacket :
    (yappc : Bool) (blocks : List (List ℕ))
    → All IsBlock blocks
    → All (IsPacket yappc) (block_packets yappc blocks)
unfolding block_packets IsPacket packet_length
block_packets-IsPacket yappc [] h = (refl, (refl, tt))
block_packets-IsPacket true (b ∷ bs) h = (
  omega (arith, length_of_self (length b) h.0.0, length-append b (checksum b ∷ [])),
  block_packets-IsPacket true bs h.1,
)
block_packets-IsPacket false (b ∷ bs) h =
    (omega (arith, length_of_self (length b) h.0.0), block_packets-IsPacket false bs h.1)

module _ (moves : Bool) (opened : List ℕ → Option (List ℕ)) where
  abbrev pub reads : Download → List (List ℕ) → Option (Bool × Download × List ℕ)
  reads d hunks =
      read_hunks moves (yapp_download_data opened) (λ (d : Download). d.yappc) d [] hunks

  -- The next packet of those that are read in pieces.
  pub next_packet :
      (d d' : Download) (b0 b1 : ℕ) (body : List ℕ) (cuts : List (List (List ℕ)))
      (ps : List (List ℕ))
      → map flatten cuts ≡ (b0 ∷ b1 ∷ body) ∷ ps
      → packet_length d.yappc b0 b1 ≡ length body + 2
      → length body + 2 ≤ 1024
      → yapp_download_data opened d b0 b1 body ≡ (true, d')
      → (cuts' : List (List (List ℕ))) × (map flatten cuts' ≡ ps)
        × (reads d (flatten cuts) ≡ reads d' (flatten cuts'))
  next_packet d d' b0 b1 body [] ps e n room h = absurd (omega (arith, ap length e))
  next_packet d d' b0 b1 body (cut ∷ cuts) ps e n room h = (
    cuts,
    (heads e).1,
    pieces_goes moves (yapp_download_data opened) (λ (d : Download). d.yappc) d d' b0 b1 body [] cut
        (flatten cuts) n room h (heads e).0 (omega arith),
  )

  last_packet :
      (d d' : Download) (b0 b1 : ℕ) (body : List ℕ) (cuts : List (List (List ℕ)))
      → map flatten cuts ≡ (b0 ∷ b1 ∷ body) ∷ []
      → packet_length d.yappc b0 b1 ≡ length body + 2
      → length body + 2 ≤ 1024
      → yapp_download_data opened d b0 b1 body ≡ (false, d')
      → outcome (reads d (flatten cuts)) ≡ some (false, d')
  unfolding outcome
  last_packet d d' b0 b1 body [] e n room h = absurd (omega (arith, ap length e))
  last_packet d d' b0 b1 body (cut ∷ (cut' ∷ cuts)) e n room h = absurd (omega (arith, ap length e))
  last_packet d d' b0 b1 body (cut ∷ []) e n room h = ap outcome (
      ap (reads d) (append-nil cut)
      ∙ pieces_stops moves (yapp_download_data opened) (λ (d : Download). d.yappc) d d' b0 b1 body
          [] cut n room h (heads e).0 (omega arith))

  block_packet :
      (total : ℕ) (yappc : Bool) (file : List ℕ) (closed : List (List ℕ)) (sent b : List ℕ)
      → IsBlock b
      → (packet_length yappc stx (length b) ≡ length (block_of yappc b) + 2)
        × (length (block_of yappc b) + 2 ≤ 1024)
        × (yapp_download_data opened
              (receiving total yappc file closed sent)
              stx
              (length b)
              (block_of yappc b)
            ≡ (true, receiving (total + length b) yappc (file ++ b) closed sent))
  unfolding yapp_download_data receive_data packet_length
  block_packet total true file closed sent b h = (
    omega (arith, length_of_self (length b) h.0, length-append b (checksum b ∷ [])),
    omega (arith, h.1, length-append b (checksum b ∷ [])),
    rw
        (
          length_of_self (length b) h.0,
          take-length_append (length b) b (checksum b ∷ []) refl,
          get_or-length (length b) b [] (checksum b) 0 refl,
          (==_iff (checksum b) (checksum b)).1 refl,
        )
        refl,
  )
  block_packet total false file closed sent b h = (
    omega (arith, length_of_self (length b) h.0),
    omega (arith, h.1),
    rw (length_of_self (length b) h.0, take_all b) refl,
  )

  -- The blocks, the end of the file and the last packet.
  pub reads-block_packets :
      (total : ℕ) (yappc : Bool) (file : List ℕ) (closed : List (List ℕ)) (sent : List ℕ)
      (blocks : List (List ℕ)) (cuts : List (List (List ℕ)))
      → All IsBlock blocks
      → map flatten cuts ≡ block_packets yappc blocks
      → outcome (reads (receiving total yappc file closed sent) (flatten cuts))
        ≡ some (
          false,
          record {
            state = state_rh;
            total = total + length (flatten blocks);
            yappc = yappc;
            filefd = none;
            closed = closed ++ ((file ++ flatten blocks) ∷ []);
            sent = (sent ++ af) ++ at;
          },
        )
  unfolding yapp_download_data packet_length block_packets
  reads-block_packets total yappc file closed sent [] cuts h e =
      let (cuts', rest, run) = next_packet _ _ etx 1 [] cuts (et ∷ []) e refl (omega arith) refl in
      rw (append-nil file, sum_zero total)
        (ap outcome run ∙ last_packet _ _ eot 1 [] cuts' rest refl (omega arith) refl)
    where
      sum_zero : (n : ℕ) → n + 0 ≡ n
      sum_zero n = omega arith
  reads-block_packets total yappc file closed sent (b ∷ bs) cuts h e =
      let sizes : total + length b + length (flatten bs) ≡ total + length (b ++ flatten bs) =
        omega (arith, length-append b (flatten bs)) in
      let (n, room, taken) = block_packet total yappc file closed sent b h.0 in
      let (cuts', rest, run) =
        next_packet _ _ stx (length b) (block_of yappc b) cuts (block_packets yappc bs) e n room
          taken in
      let next =
        reads-block_packets (total + length b) yappc (file ++ b) closed sent bs cuts' h.1 rest in
      rw (sym (append_assoc file b (flatten bs)), sym sizes) (ap outcome run ∙ next)
