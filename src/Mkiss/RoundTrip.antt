-- ===== src/Mkiss/RoundTrip.antt =====
-- What `kiss_rx` makes of what `kiss_tx` puts on the line.
use linuxax.Prelude.{
  ℕ, ◌+◌, ◌%◌, ◌≤◌, ◌≡◌, refl, ap, sym, ◌∙◌, Bool, true, false, not, ◌&&◌, List, [], ◌∷◌, ◌++◌,
  none, some, ◌==◌, leb, leb→le, if◌then◌else◌, length, length-append, arith, Bool-cases, inl, inr,
}
use linuxax.Ipd.Kiss.{fend}
use linuxax.Mkiss.Checked.{delivered, contents, frames_of, checked-delivered}
use linuxax.Mkiss.Line.{
  crc_after, crc_after-append, put_all-crc_after, holding, rx_skip, rx_loop-bytes, length-put_all,
  put_all-length,
}
use linuxax.Mkiss.{
  size, UseCrc, no_crc, g8bpq_crc, flex_crc, put_all, tx_crc, first_byte, first_crc, crc_bytes,
  kiss_tx, Iface, checked, frame_end, kiss_rx, rx_loop,
}

of_some : {x y : List ℕ} → some x ≡ some y → x ≡ y
of_some {x} {y} e = ap (λ o. elim o [ none ↦ x | some z ↦ z ]) e

-- A FEND, with what it takes off.
frame_end-empty : (u : UseCrc) (i : Iface) → i.obuf ≡ [] → (frame_end u i).0 ≡ []
unfolding frame_end checked
frame_end-empty u i e = rw (e) refl

unbroken : Iface → Iface
unbroken i = record i { errors = i.errors + 0 }

frame_end-whole :
    (u : UseCrc) (i : Iface)
    → i.escaped ≡ false
    → (frame_end u i).0 ≡ (checked u (unbroken i) i.obuf).0
unfolding frame_end unbroken
frame_end-whole u i e = rw (e, never (not (length i.obuf == 0))) refl
  where
    never : (b : Bool) → (b && false) ≡ false
    never true = refl
    never false = refl

rx_loop-begin :
    (u : UseCrc) (i : Iface) (rest : List ℕ)
    → i.obuf ≡ []
    → rx_loop u i (fend ∷ rest) ≡ rx_loop u (frame_end u i).1 rest
unfolding kiss_rx
rx_loop-begin u i rest e =
    rx_skip u i (frame_end u i).1 fend rest
      (ap (λ f. some (f, (frame_end u i).1)) (frame_end-empty u i e))

rx_loop-end :
    (u : UseCrc) (i : Iface)
    → i.escaped ≡ false
    → rx_loop u i (fend ∷ [])
      ≡ some (frames_of (checked u (unbroken i) i.obuf).0, (frame_end u i).1)
unfolding rx_loop kiss_rx frames_of
rx_loop-end u i plain =
    ap (λ f. some (f, (frame_end u i).1))
      (passed_on (frame_end u i).0 ∙ ap frames_of (frame_end-whole u i plain))
  where
    passed_on : (f : List ℕ) → (if length f == 0 then [] else f ∷ []) ≡ frames_of f
    passed_on [] = refl
    passed_on (c ∷ s) = ground arith

-- The line that `kiss_tx` writes.
line_of : UseCrc → (port c : ℕ) → List ℕ → List ℕ
line_of v port c s =
    let body = first_byte v port c ∷ s in
    let crc = crc_after v (first_crc v) body in
    fend
    ∷ ((put_all v (first_crc v) body).0 ++ ((put_all v crc (crc_bytes v crc)).0 ++ (fend ∷ [])))

written :
    (l line : List ℕ)
    → (if leb (length l) size then some l else none) ≡ some line
    → (line ≡ l) × (length line ≤ size)
written l line e = elim (Bool-cases (leb (length l) size)) [
  | inl fits ↦
      let same : line ≡ l = of_some (sym e ∙ ap (λ b. if b then some l else none) fits) in
      (same, rw (same) (leb→le _ _ fits))
  | inr over ↦ absurd (nothing (sym (ap (λ b. if b then some l else none) over) ∙ e))
]
  where
    nothing : none ≡ some line → ⊥
    nothing f = cc

kiss_tx-some :
    (u : UseCrc) (port c : ℕ) (s line : List ℕ)
    → kiss_tx u port (c ∷ s) ≡ some line
    → (line ≡ line_of (tx_crc u (c % 16)) port c s) × (length line ≤ size)
unfolding kiss_tx line_of
kiss_tx-some u port c s line e =
    let v = tx_crc u (c % 16) in
    let body = first_byte v port c ∷ s in
    let bytes = (put_all v (first_crc v) body).0 in
    let (same, fits) = written _ line e in
    (
      same
          ∙ ap (λ crc. fend ∷ (bytes ++ ((put_all v crc (crc_bytes v crc)).0 ++ (fend ∷ []))))
              (put_all-crc_after v (first_crc v) body),
      fits,
    )

-- What is on the line comes out of `kiss_rx` as `delivered` says.
line-delivered :
    (u : UseCrc) (port c : ℕ) (s line : List ℕ) (i : Iface)
    → i.obuf ≡ []
    → kiss_tx u port (c ∷ s) ≡ some line
    → (last : Iface) × (rx_loop u i line ≡ some (delivered u port c s, last)) × (last.obuf ≡ [])
unfolding frame_end holding line_of contents unbroken
line-delivered u port c s line i empty e =
    let v = tx_crc u (c % 16) in
    let body = first_byte v port c ∷ s in
    let crc = crc_after v (first_crc v) body in
    let sum = crc_bytes v crc in
    let (same, fits) = kiss_tx-some u port c s line e in
    let start = (frame_end u i).1 in
    let held = holding u (holding u start body) sum in
    let room : length body + length sum ≤ size = omega (
      arith,
      fits,
      ap length same,
      length-append (put_all v (first_crc v) body).0 ((put_all v crc sum).0 ++ (fend ∷ [])),
      length-append (put_all v crc sum).0 (fend ∷ []),
      length-put_all v (first_crc v) body,
      length-put_all v crc sum,
    ) in
    (
      (frame_end u held).1,
      ap (rx_loop u i) same
          ∙ rx_loop-begin u i _ empty
          ∙ rx_loop-bytes u v start (first_crc v) body _ refl (omega (arith, room))
          ∙ rx_loop-bytes u v (holding u start body) crc sum _ refl room
          ∙ rx_loop-end u held refl
          ∙ ap (λ f. some (f, (frame_end u held).1))
              (checked-delivered u port c s (unbroken held)
                (sym (crc_after-append u (first_crc u) body sum))),
      refl,
    )

length-crc_bytes : (u : UseCrc) (crc : ℕ) → length (crc_bytes u crc) ≤ 2
unfolding crc_bytes
length-crc_bytes no_crc crc = omega arith
length-crc_bytes g8bpq_crc crc = omega arith
length-crc_bytes flex_crc crc = omega arith

kiss_tx_fits :
    (u : UseCrc) (port c : ℕ) (s : List ℕ)
    → length s ≤ 2044
    → (line : List ℕ) × (kiss_tx u port (c ∷ s) ≡ some line)
unfolding kiss_tx
kiss_tx_fits u port c s short =
    let v = tx_crc u (c % 16) in
    let body = first_byte v port c ∷ s in
    let crc = (put_all v (first_crc v) body).1 in
    let bytes = (put_all v (first_crc v) body).0 in
    let sum = (put_all v crc (crc_bytes v crc)).0 in
    let fits : leb (length (fend ∷ (bytes ++ (sum ++ (fend ∷ []))))) size ≡ true = ground (
      arith,
      short,
      length-append bytes (sum ++ (fend ∷ [])),
      length-append sum (fend ∷ []),
      put_all-length v (first_crc v) body,
      put_all-length v crc (crc_bytes v crc),
      length-crc_bytes v crc,
    ) in
    (fend ∷ (bytes ++ (sum ++ (fend ∷ []))), rw (fits) refl)

-- A packet of up to 2045 bytes fits the buffer of `kiss_tx`, and what that puts on the line comes out
-- of `kiss_rx`, in whatever state it is between two frames: with no checksum, and with that of G8BPQ
-- where it is data, the packet with its port; a poll is dropped, ACKREQ keeps its checksum byte and
-- other commands are not changed; with FLEX the packet with first byte 0, if 12 bytes or more follow
-- that. Then `kiss_rx` is between two frames again.
pub kiss_rx-kiss_tx :
    (u : UseCrc) (port c : ℕ) (s : List ℕ) (i : Iface)
    → i.obuf ≡ []
    → length s ≤ 2044
    → (line : List ℕ) × (last : Iface) × (kiss_tx u port (c ∷ s) ≡ some line)
      × (rx_loop u i line ≡ some (delivered u port c s, last))
      × (last.obuf ≡ [])
kiss_rx-kiss_tx u port c s i empty short =
    let (line, put) = kiss_tx_fits u port c s short in
    let (last, out, again) = line-delivered u port c s line i empty put in
    (line, last, put, out, again)
