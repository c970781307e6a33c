-- ===== src/Call/Yapp/Blocks.antt =====
-- The blocks of a file, as the upload writes them and the download takes them.
use linuxax.Prelude.{
  take-length_append, ℕ, zero, suc, ◌+◌, ◌≤◌, ◌≡◌, refl, ap, sym, Bool, true, false, List, [], ◌∷◌,
  ◌++◌, append_assoc, append-nil, Option, none, some, ◌==◌, ==_iff, length, length-append, get_or,
  All, arith, flatten,
}
use linuxax.Call.Yapp.{state_rh, state_rd, stx, etx, ef, af, dt, length_of, packet_length, checksum}
use linuxax.Call.Yapp.Hunks.Runs.{run, run_goes}
use linuxax.Call.Yapp.Receive.{Download, receive_data, yapp_download_data}
use linuxax.Call.Yapp.Transmit.{block_of}

-- The length of a block of data.
abbrev pub IsBlock : List ℕ → Type 0
IsBlock b = (1 ≤ length b) × (length b ≤ 253)

-- The packets of the blocks, and the end of the file.
unfoldable pub encode_blocks : Bool → List (List ℕ) → List ℕ
encode_blocks yappc [] = ef
encode_blocks yappc (b ∷ bs) = dt (length b) ++ (block_of yappc b ++ encode_blocks yappc bs)

pub dt-eq : (n : ℕ) → n ≤ 253 → dt n ≡ stx ∷ n ∷ []
unfolding dt
dt-eq n h = ap (λ m. stx ∷ m ∷ []) (ground (arith, h))

pub length_of_self : (n : ℕ) → 1 ≤ n → length_of n ≡ n
unfolding length_of
length_of_self n h = ground (arith, h)

same_sum : (n : ℕ) → (n == n) ≡ true
same_sum n = (==_iff n n).1 refl

pub get_or-length :
    (n : ℕ) (xs ys : List ℕ) (y d : ℕ) → n ≡ length xs → get_or (xs ++ (y ∷ ys)) n d ≡ y
get_or-length zero [] ys y d h = refl
get_or-length zero (x ∷ xs) ys y d h = absurd (omega arith)
get_or-length (suc n) [] ys y d h = absurd (omega arith)
get_or-length (suc n) (x ∷ xs) ys y d h = get_or-length n xs ys y d (omega arith)

-- The download with a file open.
abbrev pub receiving : ℕ → Bool → List ℕ → List (List ℕ) → List ℕ → Download
receiving total yappc file closed sent = record {
  state = state_rd;
  total = total;
  yappc = yappc;
  filefd = some file;
  closed = closed;
  sent = sent;
}

module _ (opened : List ℕ → Option (List ℕ)) where
  abbrev pub runs : (moves : Bool) → Download → List ℕ → Option (Bool × Download)
  runs moves = run moves (yapp_download_data opened) (λ (d : Download). d.yappc)

  -- A block, added to the file.
  run-block :
      (total : ℕ) (yappc : Bool) (file : List ℕ) (closed : List (List ℕ)) (sent b rest : List ℕ)
      → IsBlock b
      → runs true
          (receiving total yappc file closed sent)
          (dt (length b) ++ (block_of yappc b ++ rest))
        ≡ runs true (receiving (total + length b) yappc (file ++ b) closed sent) rest
  unfolding yapp_download_data receive_data packet_length
  run-block total true file closed sent b rest h = rw (dt-eq (length b) h.1) (
      run_goes (yapp_download_data opened) (λ (d : Download). d.yappc) _ _ stx (length b)
        (b ++ (checksum b ∷ [])) rest
        (omega (arith, length_of_self (length b) h.0, length-append b (checksum b ∷ [])))
        (rw
          (
            length_of_self (length b) h.0,
            append_assoc b (checksum b ∷ []) rest,
            take-length_append (length b) b (checksum b ∷ rest) refl,
            get_or-length (length b) b rest (checksum b) 0 refl,
            same_sum (checksum b),
          )
          refl))
  run-block total false file closed sent b rest h = rw (dt-eq (length b) h.1) (
      run_goes (yapp_download_data opened) (λ (d : Download). d.yappc) _ _ stx (length b) b rest
        (omega (arith, length_of_self (length b) h.0))
        (rw (length_of_self (length b) h.0, take-length_append (length b) b rest refl) refl))

  -- All of them, and the end of the file.
  pub run-encode_blocks :
      (total : ℕ) (yappc : Bool) (file : List ℕ) (closed : List (List ℕ)) (sent : List ℕ)
      (blocks : List (List ℕ)) (rest : List ℕ)
      → All IsBlock blocks
      → runs true (receiving total yappc file closed sent) (encode_blocks yappc blocks ++ rest)
        ≡ runs true
            (record {
              state = state_rh;
              total = total + length (flatten blocks);
              yappc = yappc;
              filefd = none;
              closed = closed ++ ((file ++ flatten blocks) ∷ []);
              sent = sent ++ af;
            })
            rest
  unfolding yapp_download_data packet_length encode_blocks
  run-encode_blocks total yappc file closed sent [] rest h =
      rw (append-nil file, sum_zero total)
        (run_goes (yapp_download_data opened) (λ (d : Download). d.yappc) _ _ etx 1 [] rest refl
          refl)
    where
      sum_zero : (n : ℕ) → n + 0 ≡ n
      sum_zero n = omega arith
  run-encode_blocks total yappc file closed sent (b ∷ bs) rest h =
      let next = run-encode_blocks (total + length b) yappc (file ++ b) closed sent bs rest h.1 in
      let sizes : total + length b + length (flatten bs) ≡ total + length (b ++ flatten bs) =
        omega (arith, length-append b (flatten bs)) in
      rw
        (
          append_assoc (dt (length b)) (block_of yappc b ++ encode_blocks yappc bs) rest,
          append_assoc (block_of yappc b) (encode_blocks yappc bs) rest,
          run-block total yappc file closed sent b (encode_blocks yappc bs ++ rest) h.0,
          sym (append_assoc file b (flatten bs)),
          sym sizes,
        )
        next
