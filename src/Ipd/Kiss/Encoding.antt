-- ===== src/Ipd/Kiss/Encoding.antt =====
-- What `send_kiss` emits, apart from the limit of its buffer: the plain KISS encoding.
use linuxax.Prelude.{
  ℕ, ◌≡◌, refl, sym, ap, ◌∙◌, List, [], ◌∷◌, ◌++◌, append-nil, append_assoc, ◌==◌, ltb,
  if◌then◌else◌, arith, length, take, take-snoc_lt, take-append_full, ltb→lt, Bool-cases, inl, inr,
}
use linuxax.Ipd.Kiss.{fend, fesc, tfend, tfesc, max_frame, emit, emit_escaped, emit_all, send_kiss}

unfoldable pub escape_byte : ℕ → List ℕ
escape_byte c =
    if c == fend then fesc ∷ tfend ∷ [] else if c == fesc then fesc ∷ tfesc ∷ [] else c ∷ []

unfoldable pub escape : List ℕ → List ℕ
escape [] = []
escape (c ∷ buf) = escape_byte c ++ escape buf

-- The frame on the line: FEND, the type and the bytes with FEND and FESC escaped, FEND.
unfoldable pub kiss_frame : ℕ → List ℕ → List ℕ
kiss_frame type buf = fend ∷ (escape (type ∷ buf) ++ (fend ∷ []))

-- A write past the limit is dropped, so what is held is a prefix of all that was emitted.
emit_to-take :
    (n : ℕ) (xs : List ℕ) (x : ℕ)
    → (if ltb (length (take n xs)) n then take n xs ++ (x ∷ []) else take n xs)
      ≡ take n (xs ++ (x ∷ []))
emit_to-take n xs x = elim (Bool-cases (ltb (length (take n xs)) n)) [
  | inl h ↦ rw h (take-snoc_lt n xs x (ltb→lt _ _ h))
  | inr h ↦ rw h (sym (take-append_full n xs (x ∷ []) (ground arith)))
]

emit-take : (xs : List ℕ) (x : ℕ) → emit (take max_frame xs) x ≡ take max_frame (xs ++ (x ∷ []))
unfolding emit
emit-take xs x = emit_to-take max_frame xs x

emit-emit-take :
    (xs : List ℕ) (x y : ℕ)
    → emit (emit (take max_frame xs) x) y ≡ take max_frame (xs ++ (x ∷ y ∷ []))
emit-emit-take xs x y =
    ap (λ t. emit t y) (emit-take xs x)
    ∙ emit-take (xs ++ (x ∷ [])) y
    ∙ ap (take max_frame) (append_assoc xs (x ∷ []) (y ∷ []))

emit_escaped-take :
    (xs : List ℕ) (c : ℕ)
    → emit_escaped (take max_frame xs) c ≡ take max_frame (xs ++ escape_byte c)
unfolding emit_escaped escape_byte
emit_escaped-take xs c = elim (Bool-cases (c == fend)) [
  | inl h ↦ rw h (emit-emit-take xs fesc tfend)
  | inr h ↦ elim (Bool-cases (c == fesc)) [
    | inl k ↦ rw (h, k) (emit-emit-take xs fesc tfesc)
    | inr k ↦ rw (h, k) (emit-take xs c)
  ]
]

emit_all-take :
    (xs buf : List ℕ) → emit_all (take max_frame xs) buf ≡ take max_frame (xs ++ escape buf)
unfolding emit_all escape
emit_all-take xs [] = ap (take max_frame) (sym (append-nil xs))
emit_all-take xs (c ∷ buf) =
    ap (λ t. emit_all t buf) (emit_escaped-take xs c)
    ∙ emit_all-take (xs ++ escape_byte c) buf
    ∙ ap (take max_frame) (append_assoc xs (escape_byte c) (escape buf))

-- `send_kiss` sends the KISS encoding of the frame, cut off at MAX_FRAME bytes.
pub send_kiss-eq-take :
    (type : ℕ) (buf : List ℕ) → send_kiss type buf ≡ take max_frame (kiss_frame type buf)
unfolding send_kiss
send_kiss-eq-take type buf =
    ap (λ t. emit (emit_all (emit_escaped t type) buf) fend) (emit-take [] fend)
    ∙ ap (λ t. emit (emit_all t buf) fend) (emit_escaped-take (fend ∷ []) type)
    ∙ ap (λ t. emit t fend) (emit_all-take (fend ∷ escape_byte type) buf)
    ∙ emit-take (fend ∷ (escape_byte type ++ escape buf)) fend
    ∙ ap (take max_frame) framed
  where
    framed : (fend ∷ (escape_byte type ++ escape buf)) ++ (fend ∷ []) ≡ kiss_frame type buf
    framed = unfold kiss_frame escape in refl

pub send_kiss-cons : (type : ℕ) (buf : List ℕ) → (bs : List ℕ) × (send_kiss type buf ≡ fend ∷ bs)
unfolding kiss_frame
send_kiss-cons type buf = (_, send_kiss-eq-take type buf)
