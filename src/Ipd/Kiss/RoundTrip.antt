-- ===== src/Ipd/Kiss/RoundTrip.antt =====
-- A frame that `send_kiss` puts on the line comes out of `assemble_kiss` unchanged.
use linuxax.Prelude.{
  ℕ, ◌+◌, ◌≤◌, ◌<◌, ◌≡◌, refl, ap, ◌∙◌, sym, List, [], ◌∷◌, ◌++◌, ◌==◌, arith, length, length-snoc,
  suc, append_assoc, append-nil, true, false, bit_and, Bool-cases, inl, inr, take-all, lt→ltb,
  ==_iff, All,
}
use mathlib.Core.List.{foldl}
use native.Mathlib.Nat.{add-zero}
use linuxax.Ipd.Kiss.{
  fend, fesc, tfend, tfesc, max_frame, Receiver, end_frame, reset, unescape, store_byte,
  assemble_byte, assemble_kiss, send_kiss,
}
use linuxax.Ipd.Kiss.Encoding.{escape_byte, escape, kiss_frame, send_kiss-eq-take}
use linuxax.Ipd.Kiss.Stream.{assemble_kiss-append}

-- What a plain byte leaves, and a byte after FESC.
stores_plain :
    (c : ℕ) (r : Receiver)
    → r.iescaped ≡ false
    → length r.iframe < max_frame
    → store_byte c r ≡ record r { iframe = r.iframe ++ (c ∷ []); iescaped = false }
unfolding store_byte
stores_plain c r plain room = rw (plain, lt→ltb _ _ room)

stores_escaped :
    (c : ℕ) (r : Receiver)
    → length r.iframe < max_frame
    → store_byte c (record r { iescaped = true })
      ≡ record r { iframe = r.iframe ++ (unescape c ∷ []); iescaped = false }
unfolding store_byte
stores_escaped c r room = rw (lt→ltb _ _ room)

-- What `send_kiss` puts on the line for several frames, one after another.
abbrev pub on_line : ℕ → List (List ℕ) → List ℕ
on_line type [] = []
on_line type (buf ∷ bufs) = send_kiss type buf ++ on_line type bufs

-- A frame whose encoding fits the sender's buffer and which leaves room for the checksum in the
-- receiver's.
abbrev pub Fits : ℕ → List ℕ → Type 0
Fits type buf = (length (kiss_frame type buf) ≤ max_frame) × (length buf + 3 < max_frame)

module _ {ℓ} {S : Type ℓ} (from_kiss : S → List ℕ → S) where
  -- The escaped form of a byte stores the byte.
  escape_byte-stores :
      (c : ℕ) (r : Receiver) (s : S)
      → r.iescaped ≡ false
      → length r.iframe < max_frame
      → assemble_kiss from_kiss (escape_byte c) (r, s)
        ≡ (record r { iframe = r.iframe ++ (c ∷ []); iescaped = false }, s)
  unfolding assemble_kiss assemble_byte escape_byte
  escape_byte-stores c r s plain room = elim (Bool-cases (c == fend)) [
    | inl e ↦ rw (e, (==_iff c fend).0 e) (ap (λ t. (t, s)) (stores_escaped tfend r room))
    | inr e ↦ elim (Bool-cases (c == fesc)) [
      | inl k ↦ rw (e, k, (==_iff c fesc).0 k) (ap (λ t. (t, s)) (stores_escaped tfesc r room))
      | inr k ↦ rw (e, k) (rw (e, k) (ap (λ t. (t, s)) (stores_plain c r plain room)))
    ]
  ]

  escape-stores :
      (buf : List ℕ) (r : Receiver) (s : S)
      → r.iescaped ≡ false
      → length r.iframe + length buf ≤ max_frame
      → assemble_kiss from_kiss (escape buf) (r, s)
        ≡ (record r { iframe = r.iframe ++ buf; iescaped = false }, s)
  unfolding assemble_kiss escape
  escape-stores [] r s plain room =
      λ i. (record r { iframe = sym (append-nil r.iframe) i; iescaped = plain i }, s)
  escape-stores (c ∷ buf) r s plain room =
      assemble_kiss-append from_kiss (escape_byte c) (escape buf) (r, s)
      ∙ ap (assemble_kiss from_kiss (escape buf)) (escape_byte-stores c r s plain (omega arith))
      ∙ escape-stores buf (record r { iframe = r.iframe ++ (c ∷ []); iescaped = false }) s refl
          (omega (arith, length-snoc r.iframe c))
      ∙ ap (λ t. (record r { iframe = t; iescaped = false }, s))
          (append_assoc r.iframe (c ∷ []) buf)

  fend-ends :
      (control : ℕ) (body : List ℕ) (r : Receiver) (s : S)
      → bit_and control 0xf ≡ 0
      → length body + 3 < max_frame
      → assemble_byte from_kiss fend (record r { iframe = control ∷ body; iescaped = false }, s)
        ≡ (record r { iframe = []; iescaped = false; kiss_in = r.kiss_in + 1 }, from_kiss s body)
  unfolding assemble_byte
  fend-ends control body r s type room = rw (type, lt→ltb (suc (length body)) 2046 (omega arith))

  -- Between two FENDs: the receiver was reset by the first.
  framed :
      (type : ℕ) (buf : List ℕ) (r : Receiver) (s : S)
      → bit_and type 0xf ≡ 0
      → length buf + 3 < max_frame
      → r.iframe ≡ []
      → r.iescaped ≡ false
      → assemble_kiss from_kiss (escape (type ∷ buf) ++ (fend ∷ [])) (r, s)
        ≡ (record r { iframe = []; iescaped = false; kiss_in = r.kiss_in + 1 }, from_kiss s buf)
  unfolding assemble_kiss
  framed type buf r s data_frame room fresh plain =
      assemble_kiss-append from_kiss (escape (type ∷ buf)) (fend ∷ []) (r, s)
      ∙ ap (assemble_kiss from_kiss (fend ∷ []))
          (escape-stores (type ∷ buf) r s plain (omega (arith, ap length fresh)))
      ∙ ap
          (λ t.
            assemble_byte from_kiss fend
              (record r { iframe = t ++ (type ∷ buf); iescaped = false }, s))
          fresh
      ∙ fend-ends type buf r s data_frame room

  fend-resets :
      (r : Receiver) (s : S)
      → ((assemble_byte from_kiss fend (r, s)).0.iframe ≡ [])
        × ((assemble_byte from_kiss fend (r, s)).0.iescaped ≡ false)
  unfolding assemble_byte
  fend-resets r s = (refl, refl)

  -- From any state of the receiver, the encoding of a frame whose type byte names a data frame
  -- (its low four bits are 0) and that leaves room for the checksum first ends the frame held, as
  -- every FEND does, and then hands the frame's own bytes, and no others, to `from_kiss` once.
  pub assemble_kiss-kiss_frame :
      (type : ℕ) (buf : List ℕ) (r : Receiver) (s : S)
      → bit_and type 0xf ≡ 0
      → length buf + 3 < max_frame
      → let (r', s') = assemble_byte from_kiss fend (r, s) in
        assemble_kiss from_kiss (kiss_frame type buf) (r, s)
        ≡ (record r' { iframe = []; iescaped = false; kiss_in = r'.kiss_in + 1 }, from_kiss s' buf)
  unfolding kiss_frame assemble_kiss
  assemble_kiss-kiss_frame type buf r s data_frame room =
      let st = assemble_byte from_kiss fend (r, s) in
      let (fresh, plain) = fend-resets r s in framed type buf st.0 st.1 data_frame room fresh plain

  -- What `send_kiss` puts on the line for a data frame comes back to `from_kiss` byte for byte: the
  -- receiver may hold part of another frame before, which the first FEND ends as every FEND does.
  -- The conditions say that the encoding fits the sender's buffer and that the frame leaves room
  -- for the checksum in the receiver's.
  pub assemble_kiss-send_kiss :
      (type : ℕ) (buf : List ℕ) (r : Receiver) (s : S)
      → bit_and type 0xf ≡ 0
      → length (kiss_frame type buf) ≤ max_frame
      → length buf + 3 < max_frame
      → let (r', s') = assemble_byte from_kiss fend (r, s) in
        assemble_kiss from_kiss (send_kiss type buf) (r, s)
        ≡ (record r' { iframe = []; iescaped = false; kiss_in = r'.kiss_in + 1 }, from_kiss s' buf)
  assemble_kiss-send_kiss type buf r s data_frame fits room =
      ap (λ t. assemble_kiss from_kiss t (r, s))
        (send_kiss-eq-take type buf ∙ take-all max_frame (kiss_frame type buf) fits)
      ∙ assemble_kiss-kiss_frame type buf r s data_frame room

  fend_idle :
      (r : Receiver) (s : S)
      → r.iframe ≡ []
      → assemble_byte from_kiss fend (r, s) ≡ (record r { iframe = []; iescaped = false }, s)
  unfolding assemble_byte
  fend_idle r s fresh = ap (λ t. reset (end_frame from_kiss t r s)) fresh

  -- Data frames that `send_kiss` puts on the line back to back reach `from_kiss` all, in order, each
  -- once, from a receiver that holds nothing, if each fits the buffers of both sides; the receiver
  -- holds nothing afterwards, and `kiss_in` has counted them.
  pub assemble_kiss-on_line :
      (type : ℕ) (bufs : List (List ℕ)) (r : Receiver) (s : S)
      → bit_and type 0xf ≡ 0
      → All (Fits type) bufs
      → r.iframe ≡ []
      → r.iescaped ≡ false
      → assemble_kiss from_kiss (on_line type bufs) (r, s) ≡ (
        record r { iframe = []; iescaped = false; kiss_in = r.kiss_in + length bufs },
        foldl from_kiss s bufs,
      )
  unfolding assemble_kiss
  assemble_kiss-on_line type [] r s data_frame room fresh plain = λ i.
      (record r { iframe = fresh i; iescaped = plain i; kiss_in = sym (add-zero r.kiss_in) i }, s)
  assemble_kiss-on_line type (buf ∷ bufs) r s data_frame room fresh plain =
      assemble_kiss-append from_kiss (send_kiss type buf) (on_line type bufs) (r, s)
      ∙ ap (assemble_kiss from_kiss (on_line type bufs)) (
          assemble_kiss-send_kiss type buf r s data_frame room.0.0 room.0.1
          ∙ ap
              (λ (t : Receiver × S). (
                record (t.0) { iframe = []; iescaped = false; kiss_in = t.0.kiss_in + 1 },
                from_kiss t.1 buf,
              ))
              (fend_idle r s fresh))
      ∙ assemble_kiss-on_line type bufs
          (record r { iframe = []; iescaped = false; kiss_in = r.kiss_in + 1 }) (from_kiss s buf)
          data_frame room.1 refl refl
      ∙ ap
          (λ t. (
            record r { iframe = []; iescaped = false; kiss_in = t },
            foldl from_kiss (from_kiss s buf) bufs,
          ))
          (omega arith)
