-- ===== src/Ipd/Kiss/Stream.antt =====
-- What `assemble_kiss` keeps over any stream of bytes, in hunks of any size.
use linuxax.Prelude.{
  ℕ, ◌+◌, ◌-◌, ◌≤◌, ◌<◌, ◌≡◌, refl, ap, List, [], ◌∷◌, ◌++◌, ◌==◌, arith, length, length-append,
  length-snoc, ltb→lt, All, ltb, bit_and, Bool-cases, inl, inr,
}
use linuxax.Ipd.Kiss.{
  fend, fesc, max_frame, Receiver, end_frame, store_byte, assemble_byte, assemble_kiss,
}

-- Where the hunks of the line's data begin and end makes no difference.
pub assemble_kiss-append {ℓ} :
    {S : Type ℓ} (from_kiss : S → List ℕ → S) (xs ys : List ℕ) (st : Receiver × S)
    → assemble_kiss from_kiss (xs ++ ys) st
      ≡ assemble_kiss from_kiss ys (assemble_kiss from_kiss xs st)
unfolding assemble_kiss
assemble_kiss-append from_kiss [] ys st = refl
assemble_kiss-append from_kiss (x ∷ xs) ys st =
    assemble_kiss-append from_kiss xs ys (assemble_byte from_kiss x st)

-- A predicate on the daemon that `from_kiss` keeps on every frame with room for the checksum.
abbrev pub Keeps {ℓ κ} : {S : Type ℓ} → (S → Type κ) → (S → List ℕ → S) → Type (ℓ ⊔ κ)
Keeps {S} P from_kiss =
    (s : S) (buf : List ℕ) → 1 + length buf + 2 < max_frame → P s → P (from_kiss s buf)

module _ {ℓ κ} {S : Type ℓ} (P : S → Type κ) (from_kiss : S → List ℕ → S)
    (keeps : Keeps P from_kiss) where
  end_frame-keeps :
      (frame : List ℕ) (r : Receiver) (s : S) → P s → P (end_frame from_kiss frame r s).1
  unfolding end_frame
  end_frame-keeps [] r s h = h
  end_frame-keeps (control ∷ body) r s h = elim (Bool-cases (bit_and control 0xf == 0)) [
    | inl zero_type ↦ elim (Bool-cases (ltb (length (control ∷ body)) (max_frame - 2))) [
      | inl fits ↦ rw (zero_type, fits) (keeps s body (ground arith) h)
      | inr big ↦ rw (zero_type, big) h
    ]
    | inr other ↦ rw other h
  ]

  assemble_byte-keeps :
      (c : ℕ) (r : Receiver) (s : S) → P s → P (assemble_byte from_kiss c (r, s)).1
  unfolding assemble_byte
  assemble_byte-keeps c r s h = elim (Bool-cases (c == fend)) [
    | inl e ↦ rw e (end_frame-keeps r.iframe r s h)
    | inr e ↦ elim (Bool-cases (c == fesc)) [ inl k ↦ rw (e, k) h | inr k ↦ rw (e, k) h ]
  ]

  pub assemble_kiss-keeps :
      (buf : List ℕ) (r : Receiver) (s : S) → P s → P (assemble_kiss from_kiss buf (r, s)).1
  unfolding assemble_kiss
  assemble_kiss-keeps [] r s h = h
  assemble_kiss-keeps (c ∷ buf) r s h =
      assemble_kiss-keeps buf (assemble_byte from_kiss c (r, s)).0
        (assemble_byte from_kiss c (r, s)).1 (assemble_byte-keeps c r s h)

-- The handler that only notes the frames that it is given.
abbrev pub note : List (List ℕ) → List ℕ → List (List ℕ)
note log buf = log ++ (buf ∷ [])

abbrev pub HasRoom : List ℕ → Type 0
HasRoom buf = 1 + length buf + 2 < max_frame

HasRoom-note :
    (log : List (List ℕ)) (buf : List ℕ)
    → HasRoom buf
    → All HasRoom log
    → All HasRoom (note log buf)
HasRoom-note [] buf h k = (h, tt)
HasRoom-note (b ∷ log) buf h k = (k.0, HasRoom-note log buf h k.1)

end_frame_counts :
    (frame : List ℕ) (r : Receiver) (log : List (List ℕ))
    → let out = end_frame note frame r log in out.0.kiss_in + length log ≡ r.kiss_in + length out.1
unfolding end_frame
end_frame_counts [] r log = refl
end_frame_counts (control ∷ body) r log = ground (arith, length-append log (body ∷ []))

kiss_in-store_byte : (c : ℕ) (r : Receiver) → (store_byte c r).kiss_in ≡ r.kiss_in
unfolding store_byte
kiss_in-store_byte c r = ground arith

iframe-store_byte :
    (c : ℕ) (r : Receiver)
    → length r.iframe ≤ max_frame
    → length (store_byte c r).iframe ≤ max_frame
unfolding store_byte
iframe-store_byte c r h = elim (Bool-cases (ltb (length r.iframe) max_frame)) [
  | inl e ↦ rw (e, length-snoc) (omega (arith, ltb→lt _ _ e))
  | inr e ↦ rw e h
]

assemble_byte_counts :
    (c : ℕ) (r : Receiver) (log : List (List ℕ))
    → let out = assemble_byte note c (r, log) in
      out.0.kiss_in + length log ≡ r.kiss_in + length out.1
unfolding assemble_byte
assemble_byte_counts c r log = elim (Bool-cases (c == fend)) [
  | inl e ↦ rw e (end_frame_counts r.iframe r log)
  | inr e ↦ elim (Bool-cases (c == fesc)) [
    | inl k ↦ rw (e, k)
    | inr k ↦ rw (e, k) (ap (λ t. t + length log) (kiss_in-store_byte c r))
  ]
]

assemble_kiss_counts :
    (buf : List ℕ) (r : Receiver) (log : List (List ℕ))
    → let out = assemble_kiss note buf (r, log) in
      out.0.kiss_in + length log ≡ r.kiss_in + length out.1
unfolding assemble_kiss
assemble_kiss_counts [] r log = refl
assemble_kiss_counts (c ∷ buf) r log =
    let st = assemble_byte note c (r, log) in
    omega (arith, assemble_byte_counts c r log, assemble_kiss_counts buf st.0 st.1)

-- Whatever the line delivers: each frame handed to `from_kiss` leaves room for the checksum in a
-- buffer of MAX_FRAME bytes, and `stats.kiss_in` rises by the number of these frames.
pub assemble_kiss_frames :
    (buf : List ℕ) (r : Receiver)
    → let (r', log) = assemble_kiss note buf (r, []) in
      All HasRoom log × (r'.kiss_in ≡ r.kiss_in + length log)
assemble_kiss_frames buf r = (
  assemble_kiss-keeps (All HasRoom) note (λ log b h k. HasRoom-note log b h k) buf r [] tt,
  omega (arith, assemble_kiss_counts buf r []),
)

module _ {ℓ} {S : Type ℓ} (from_kiss : S → List ℕ → S) where
  iframe-assemble_byte :
      (c : ℕ) (r : Receiver) (s : S)
      → length r.iframe ≤ max_frame
      → length (assemble_byte from_kiss c (r, s)).0.iframe ≤ max_frame
  unfolding assemble_byte
  iframe-assemble_byte c r s h = elim (Bool-cases (c == fend)) [
    | inl e ↦ rw e (omega arith)
    | inr e ↦ elim (Bool-cases (c == fesc)) [
      | inl k ↦ rw (e, k) h
      | inr k ↦ rw (e, k) (iframe-store_byte c r h)
    ]
  ]

  -- `iframe` never holds more than MAX_FRAME bytes.
  pub iframe_bounded :
      (buf : List ℕ) (r : Receiver) (s : S)
      → length r.iframe ≤ max_frame
      → length (assemble_kiss from_kiss buf (r, s)).0.iframe ≤ max_frame
  unfolding assemble_kiss
  iframe_bounded [] r s h = h
  iframe_bounded (c ∷ buf) r s h =
      iframe_bounded buf (assemble_byte from_kiss c (r, s)).0 (assemble_byte from_kiss c (r, s)).1
        (iframe-assemble_byte c r s h)
