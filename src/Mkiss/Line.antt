-- ===== src/Mkiss/Line.antt =====
-- The bytes that `put_ubyte` puts on the line, read by `kiss_rx`.
use linuxax.Prelude.{
  ℕ, ◌+◌, ◌*◌, ◌≤◌, ◌<◌, ◌≡◌, refl, ap, sym, ◌∙◌, Bool, true, false, not, ◌&&◌, List, [], ◌∷◌, ◌++◌,
  append_assoc, append-nil, Option, none, some, ◌==◌, ==_iff, ltb, if◌then◌else◌, length,
  length-append, arith, Bool-cases, inl, inr,
}
use linuxax.Ipd.Frame.{◌>>=◌}
use linuxax.Ipd.Kiss.{fend, fesc, tfend, tfesc}
use linuxax.Mkiss.{size, UseCrc, crc_step, put_ubyte, put_all, Iface, kiss_rx, rx_loop}

-- The checksum after several bytes.
unfoldable pub crc_after : UseCrc → ℕ → List ℕ → ℕ
crc_after usecrc crc [] = crc
crc_after usecrc crc (c ∷ s) = crc_after usecrc (crc_step usecrc crc c) s

pub crc_after-append :
    (u : UseCrc) (crc : ℕ) (xs ys : List ℕ)
    → crc_after u crc (xs ++ ys) ≡ crc_after u (crc_after u crc xs) ys
unfolding crc_after
crc_after-append u crc [] ys = refl
crc_after-append u crc (x ∷ xs) ys = crc_after-append u (crc_step u crc x) xs ys

pub put_all-crc_after :
    (u : UseCrc) (crc : ℕ) (s : List ℕ) → (put_all u crc s).1 ≡ crc_after u crc s
unfolding put_all crc_after
put_all-crc_after u crc [] = refl
put_all-crc_after u crc (c ∷ s) = put_all-crc_after u (crc_step u crc c) s

-- Bytes held, outside an escape.
unfoldable pub holding : UseCrc → Iface → List ℕ → Iface
holding u i s = record i { obuf = i.obuf ++ s; escaped = false; crc = crc_after u i.crc s }

-- A byte that ends no frame.
pub rx_skip :
    (u : UseCrc) (i i' : Iface) (c : ℕ) (rest : List ℕ)
    → kiss_rx u i c ≡ some ([], i')
    → rx_loop u i (c ∷ rest) ≡ rx_loop u i' rest
unfolding rx_loop
rx_skip u i i' c rest e = rw (e, ◌>>=◌) (same (rx_loop u i' rest))
  where
    same : (o : Option (List (List ℕ) × Iface)) → (o >>= λ (frames, last). some (frames, last)) ≡ o
    same none = refl
    same (some (frames, last)) = refl

no_error : (i : Iface) (b : Bool) → i.errors + (if b && false then 1 else 0) ≡ i.errors
no_error i true = omega arith
no_error i false = omega arith

kiss_rx-plain :
    (u : UseCrc) (i : Iface) (c : ℕ)
    → (c == fend) ≡ false
    → (c == fesc) ≡ false
    → i.escaped ≡ false
    → length i.obuf < size
    → kiss_rx u i c ≡ some ([], holding u i (c ∷ []))
unfolding kiss_rx holding crc_after
kiss_rx-plain u i c no_end no_esc plain room =
    let fits : ltb (length i.obuf) size ≡ true = ground (arith, room) in
    rw (no_end, no_esc, fits, plain, no_error i (not (c == tfesc) && not (c == tfend))) refl

kiss_rx-escaped :
    (u : UseCrc) (i : Iface)
    → length i.obuf < size
    → (kiss_rx u (record i { escaped = true }) tfend ≡ some ([], holding u i (fend ∷ [])))
      × (kiss_rx u (record i { escaped = true }) tfesc ≡ some ([], holding u i (fesc ∷ [])))
unfolding kiss_rx holding crc_after
kiss_rx-escaped u i room =
    let fits : ltb (length i.obuf) size ≡ true = ground (arith, room) in
    let zero_more : i.errors + 0 ≡ i.errors = omega arith in
    (rw (fits, zero_more) refl, rw (fits, zero_more) refl)

kiss_rx-fesc : (u : UseCrc) (i : Iface) → kiss_rx u i fesc ≡ some ([], record i { escaped = true })
unfolding kiss_rx
kiss_rx-fesc u i = refl

-- A byte, as it is put on the line.
rx_loop-byte :
    (u v : UseCrc) (i : Iface) (crc c : ℕ) (rest : List ℕ)
    → i.escaped ≡ false
    → length i.obuf < size
    → rx_loop u i ((put_ubyte v crc c).0 ++ rest) ≡ rx_loop u (holding u i (c ∷ [])) rest
unfolding put_ubyte
rx_loop-byte u v i crc c rest plain room = elim (Bool-cases (c == fend)) [
  | inl e ↦
      rw (e, (==_iff c fend).0 e)
        (rx_skip u i _ fesc (tfend ∷ rest) (kiss_rx-fesc u i)
          ∙ rx_skip u _ _ tfend rest (kiss_rx-escaped u i room).0)
  | inr e ↦ elim (Bool-cases (c == fesc)) [
    | inl k ↦
        rw (e, k, (==_iff c fesc).0 k)
          (rx_skip u i _ fesc (tfesc ∷ rest) (kiss_rx-fesc u i)
            ∙ rx_skip u _ _ tfesc rest (kiss_rx-escaped u i room).1)
    | inr k ↦ rw (e, k) (rx_skip u i _ c rest (kiss_rx-plain u i c e k plain room))
  ]
]

pub rx_loop-bytes :
    (u v : UseCrc) (i : Iface) (crc : ℕ) (s rest : List ℕ)
    → i.escaped ≡ false
    → length i.obuf + length s ≤ size
    → rx_loop u i ((put_all v crc s).0 ++ rest) ≡ rx_loop u (holding u i s) rest
unfolding put_all holding crc_after
rx_loop-bytes u v i crc [] rest plain room = rw (append-nil i.obuf, sym plain) refl
rx_loop-bytes u v i crc (c ∷ s) rest plain room =
    let next =
      rx_loop-bytes u v (holding u i (c ∷ [])) (crc_step v crc c) s rest refl
        (omega (arith, length-append i.obuf (c ∷ []), room)) in
    ap (rx_loop u i) (append_assoc (put_ubyte v crc c).0 (put_all v (crc_step v crc c) s).0 rest)
    ∙ rx_loop-byte u v i crc c ((put_all v (crc_step v crc c) s).0 ++ rest) plain
        (omega (arith, room))
    ∙ next
    ∙ ap
        (λ t.
          rx_loop u (record i { obuf = t; escaped = false; crc = crc_after u i.crc (c ∷ s) }) rest)
        (append_assoc i.obuf (c ∷ []) s)

pub length-put_all : (v : UseCrc) (crc : ℕ) (s : List ℕ) → length s ≤ length (put_all v crc s).0
unfolding put_all put_ubyte
length-put_all v crc [] = omega arith
length-put_all v crc (c ∷ s) =
    let rest = length-put_all v (crc_step v crc c) s in
    let one : 1 ≤ length (put_ubyte v crc c).0 = ground arith in
    omega (arith, rest, one, length-append (put_ubyte v crc c).0 (put_all v (crc_step v crc c) s).0)

pub put_all-length : (v : UseCrc) (crc : ℕ) (s : List ℕ) → length (put_all v crc s).0 ≤ 2 * length s
unfolding put_all put_ubyte
put_all-length v crc [] = omega arith
put_all-length v crc (c ∷ s) =
    let rest = put_all-length v (crc_step v crc c) s in
    let two : length (put_ubyte v crc c).0 ≤ 2 = ground arith in
    omega (arith, rest, two, length-append (put_ubyte v crc c).0 (put_all v (crc_step v crc c) s).0)
