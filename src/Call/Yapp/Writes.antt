-- ===== src/Call/Yapp/Writes.antt =====
-- What the upload has written when the connection has taken enough.
use linuxax.Prelude.{
  ℕ, zero, suc, ◌+◌, ◌-◌, ◌*◌, ◌≤◌, ◌<◌, min, ◌≡◌, refl, ap, sym, ◌∙◌, Bool, true, false, List, [],
  ◌∷◌, ◌++◌, append_assoc, append-nil, map, ◌==◌, ==_iff, length, length-append, take, drop, All,
  arith, flatten, Bool-cases, inl, inr, if◌then◌else◌,
}
use linuxax.Call.Yapp.{state_sd, state_se, Event, takes, ef, dt, select_loop, checksum}
use linuxax.Call.Yapp.Hunks.{length-drop}
use linuxax.Call.Yapp.Blocks.{IsBlock, encode_blocks}
use linuxax.Call.Yapp.Transmit.{Upload, block_of, next_block, writable, sends, yapp_upload}

pub after_writes : List ℕ → Upload → Upload
after_writes [] u = u
after_writes (n ∷ ns) u = after_writes ns (sends n u)

pub yapp_upload-takes :
    (moves : Bool) (hd : List ℕ) (ns : List ℕ) (u : Upload) (events : List Event)
    → yapp_upload moves hd u [] (map takes ns ++ events)
      ≡ yapp_upload moves hd (after_writes ns u) [] events
unfolding yapp_upload select_loop after_writes
yapp_upload-takes moves hd [] u events = refl
yapp_upload-takes moves hd (n ∷ ns) u events = yapp_upload-takes moves hd ns (sends n u) events

take-drop : (n : ℕ) (xs : List ℕ) → take n xs ++ drop n xs ≡ xs
take-drop zero xs = refl
take-drop (suc n) [] = refl
take-drop (suc n) (x ∷ xs) = ap (λ t. x ∷ t) (take-drop n xs)

pub length-take : (n : ℕ) (xs : List ℕ) → length (take n xs) ≡ min n (length xs)
length-take zero xs = omega arith
length-take (suc n) [] = omega arith
length-take (suc n) (x ∷ xs) = omega (arith, length-take n xs)

pub length-zero : (xs : List ℕ) → length xs ≡ 0 → [] ≡ xs
length-zero [] h = refl
length-zero (x ∷ xs) h = absurd (omega arith)

sends-end : (n : ℕ) (u : Upload) → u.state ≡ state_se → sends n u ≡ u
unfolding sends
sends-end n u e = ap (λ st. elim st as (λ s. Upload) [ state_sd ↦ writable n u | _ ↦ u ]) e

-- The upload after its last block.
after_end : (ns : List ℕ) (u : Upload) → u.state ≡ state_se → after_writes ns u ≡ u
unfolding after_writes
after_end [] u e = refl
after_end (n ∷ ns) u e = ap (after_writes ns) (sends-end n u e) ∙ after_end ns u e

-- In the state in which data is sent.
abbrev pub sending : ℕ → Bool → ℕ → List ℕ → List ℕ → List ℕ → List ℕ → Upload
sending total yappc readlen out file whole sent = record {
  state = state_sd;
  total = total;
  yappc = yappc;
  readlen = readlen;
  out = out;
  file = file;
  whole = whole;
  sent = sent;
}

pub record Finished (yappc : Bool) (out file sent : List ℕ) (u : Upload) : Type 0 where
  pub blocks : List (List ℕ)
  pub ended : u.state ≡ state_se
  pub all : u.sent ≡ sent ++ (out ++ encode_blocks yappc blocks)
  pub content : flatten blocks ≡ file
  pub sizes : All IsBlock blocks

after_writes-Finished :
    (ns : List ℕ) (yappc : Bool) (out file sent : List ℕ) (u : Upload)
    → u.state ≡ state_se
    → Finished yappc out file sent u
    → Finished yappc out file sent (after_writes ns u)
after_writes-Finished ns yappc out file sent u e d = rw (after_end ns u e) d

pub length-block_of : (yappc : Bool) (b : List ℕ) → length (block_of yappc b) ≤ length b + 1
length-block_of true b = omega (arith, length-append b (checksum b ∷ []))
length-block_of false b = omega arith

-- The first `n` bytes of `out` are written, and the rest.
joined :
    (n : ℕ) (sent out more : List ℕ)
    → (sent ++ take n out) ++ (drop n out ++ more) ≡ sent ++ (out ++ more)
joined n sent out more =
    append_assoc sent (take n out) (drop n out ++ more)
    ∙ ap (λ t. sent ++ t) (sym (append_assoc (take n out) (drop n out) more))
    ∙ ap (λ t. sent ++ (t ++ more)) (take-drop n out)

part_written :
    (n : ℕ) (yappc : Bool) (out file sent : List ℕ) (u : Upload)
    → Finished yappc (drop n out) file (sent ++ take n out) u
    → Finished yappc out file sent u
part_written n yappc out file sent u d = record {
  blocks = d.blocks;
  ended = d.ended;
  all = d.all ∙ joined n sent out (encode_blocks yappc d.blocks);
  content = d.content;
  sizes = d.sizes;
}

all_taken : (n : ℕ) (sent out : List ℕ) → length (drop n out) ≡ 0 → sent ++ take n out ≡ sent ++ out
all_taken n sent out gone =
    ap (λ t. sent ++ t)
      (sym (append-nil (take n out))
        ∙ ap (λ t. take n out ++ t) (length-zero (drop n out) gone)
        ∙ take-drop n out)

-- All of `out` is written, and the next block begins.
pub block_begun :
    (n readlen : ℕ) (yappc : Bool) (out file sent : List ℕ) (u : Upload)
    → length (drop n out) ≡ 0
    → IsBlock (take readlen file)
    → Finished yappc
        (block_of yappc (take readlen file))
        (drop readlen file)
        ((sent ++ take n out) ++ dt (length (take readlen file)))
        u
    → Finished yappc out file sent u
unfolding encode_blocks
block_begun n readlen yappc out file sent u gone size d =
    let whole = all_taken n sent out gone in
    let b = take readlen file in
    let more = block_of yappc b ++ encode_blocks yappc d.blocks in
    record {
      blocks = b ∷ d.blocks;
      ended = d.ended;
      all =
          d.all
          ∙ ap (λ t. (t ++ dt (length b)) ++ more) whole
          ∙ append_assoc (sent ++ out) (dt (length b)) more
          ∙ append_assoc sent out (dt (length b) ++ more);
      content = ap (λ t. b ++ t) d.content ∙ take-drop readlen file;
      sizes = (size, d.sizes);
    }

-- The three things that the upload does when the connection takes `n` bytes.
module _ (n total : ℕ) (yappc : Bool) (readlen : ℕ) (out file whole sent : List ℕ) where
  taken : ℕ
  taken = total + length (take n out)

  sends-part :
      (length (drop n out) == 0) ≡ false
      → sends n (sending total yappc readlen out file whole sent)
        ≡ sending taken yappc readlen (drop n out) file whole (sent ++ take n out)
  unfolding sends writable taken
  sends-part left = rw (left) refl

  sends-block :
      (length (drop n out) == 0) ≡ true
      → (length (take readlen file) == 0) ≡ false
      → sends n (sending total yappc readlen out file whole sent)
        ≡ sending
            (taken - (if yappc then 1 else 0))
            yappc
            readlen
            (block_of yappc (take readlen file))
            (drop readlen file)
            whole
            ((sent ++ take n out) ++ dt (length (take readlen file)))
  unfolding sends writable next_block taken
  sends-block gone block = rw (gone) (rw (block) refl)

  sends-last :
      (length (drop n out) == 0) ≡ true
      → (length (take readlen file) == 0) ≡ true
      → sends n (sending total yappc readlen out file whole sent)
        ≡ record (sending
            (taken - (if yappc then 1 else 0))
            yappc
            readlen
            (drop n out)
            file
            whole
            ((sent ++ take n out) ++ ef)) { state = state_se }
  unfolding sends writable next_block taken
  sends-last gone end = rw (gone) (rw (end) refl)

  last_written :
      1 ≤ readlen
      → (length (drop n out) == 0) ≡ true
      → (length (take readlen file) == 0) ≡ true
      → Finished yappc out file sent
          (record (sending
            (taken - (if yappc then 1 else 0))
            yappc
            readlen
            (drop n out)
            file
            whole
            ((sent ++ take n out) ++ ef)) { state = state_se })
  unfolding encode_blocks
  last_written some_len gone end = record {
    blocks = [];
    ended = refl;
    all = ap (λ t. t ++ ef) (all_taken n sent out ((==_iff _ _).0 gone)) ∙ append_assoc sent out ef;
    content = length-zero file (
        omega (
          arith,
          length-take readlen file,
          (==_iff (length (take readlen file)) 0).0 end,
          some_len,
        ));
    sizes = tt;
  }

-- Each write takes a byte at least, so that what is left of `out` and the file grows less.
module _ (readlen : ℕ) (some_len : 1 ≤ readlen) (short : readlen ≤ 253) where
  pub after_writes_lem :
      (ns : List ℕ) (total : ℕ) (yappc : Bool) (out file whole sent : List ℕ)
      → All (λ n. 1 ≤ n) ns
      → length out + 3 * length file < length ns
      → Finished yappc out file sent
          (after_writes ns (sending total yappc readlen out file whole sent))
  unfolding after_writes
  after_writes_lem [] total yappc out file whole sent h lt = absurd (omega arith)
  after_writes_lem (n ∷ ns) total yappc out file whole sent h lt =
      elim (Bool-cases (length (drop n out) == 0)) [
        | inr left ↦ rw (sends-part n total yappc readlen out file whole sent left) (
            part_written n yappc out file sent _ (
              after_writes_lem ns _ yappc (drop n out) file whole (sent ++ take n out) h.1
                (ground (arith, length-drop n out, left, h.0, lt))))
        | inl gone ↦ elim (Bool-cases (length (take readlen file) == 0)) [
          | inl end ↦ rw (sends-last n total yappc readlen out file whole sent gone end) (
              after_writes-Finished ns yappc out file sent _ refl
                (last_written n total yappc readlen out file whole sent some_len gone end))
          | inr block ↦
              let size = length-take readlen file in
              rw (sends-block n total yappc readlen out file whole sent gone block) (
                block_begun n readlen yappc out file sent _ ((==_iff _ _).0 gone)
                  (ground (arith, block), omega (arith, size, short))
                  (after_writes_lem ns _ yappc (block_of yappc (take readlen file))
                    (drop readlen file) whole
                    ((sent ++ take n out) ++ dt (length (take readlen file))) h.1
                    (ground (
                      arith,
                      lt,
                      size,
                      length-drop readlen file,
                      length-block_of yappc (take readlen file),
                      block,
                    ))))
        ]
      ]
