-- ===== src/Rip/Message.antt =====
-- An entry as it is written into a message and read from it.
use linuxax.Prelude.{
  ℕ, zero, suc, ◌+◌, ◌*◌, ◌/◌, ◌%◌, ◌^◌, ◌<◌, ◌≡◌, ◌∙◌, refl, ap, sym, append_assoc, Bool-cases,
  inl, inr, if◌then◌else◌, List, [], ◌∷◌, ◌++◌, some, length, get_elem?, arith,
}
use linuxax.Ipd.Frame.{◌>>=◌}
use linuxax.Rip.{Route, is_deleted, build_header, put_entry, get_entry}

-- The fields of a route fit the bytes of an entry.
pub record FitsEntry (r : Route) : Type 0 where
  pub addr : r.addr < 2 ^ 32
  pub bits : r.bits < 256
  pub metric : r.metric < 256

pub get_elem?-append {ℓ} :
    {A : Type ℓ} (xs ys : List A) (i k : ℕ)
    → i ≡ length xs + k
    → get_elem? (xs ++ ys) i ≡ get_elem? ys k
get_elem?-append [] ys i k e = ap (get_elem? ys) (omega arith)
get_elem?-append (x ∷ xs) ys zero k e = absurd (omega arith)
get_elem?-append (x ∷ xs) ys (suc i) k e = get_elem?-append xs ys i k (omega arith)

get_entry_reads :
    (message : List ℕ) (p a b c d e f : ℕ)
    → get_elem? message p ≡ some a
    → get_elem? message (p + 1) ≡ some b
    → get_elem? message (p + 2) ≡ some c
    → get_elem? message (p + 3) ≡ some d
    → get_elem? message (p + 4) ≡ some e
    → get_elem? message (p + 5) ≡ some f
    → get_entry message p ≡ some (a * 2 ^ 24 + b * 2 ^ 16 + c * 2 ^ 8 + d, e, f)
unfolding get_entry
get_entry_reads message p a b c d e f ha hb hc hd he hf = rw (ha, hb, hc, hd, he, hf, ◌>>=◌)

bytes_joined :
    (a : ℕ)
    → a < 2 ^ 32
    → a / 2 ^ 24 % 256 * 2 ^ 24 + a / 2 ^ 16 % 256 * 2 ^ 16 + a / 2 ^ 8 % 256 * 2 ^ 8 + a % 256 ≡ a
bytes_joined a h = omega arith

pub get_entry-put_entry :
    (before : List ℕ) (r : Route) (after : List ℕ) (p : ℕ)
    → FitsEntry r
    → p ≡ length before
    → get_entry (before ++ (put_entry r ++ after)) p ≡ some (r.addr, r.bits, r.metric)
unfolding put_entry
get_entry-put_entry before r after p fits at_p =
    let whole = put_entry r ++ after in
    let read = get_elem?-append before whole in
    let bits : r.bits % 256 ≡ r.bits = omega (arith, fits.bits) in
    let metric : r.metric % 256 ≡ r.metric = omega (arith, fits.metric) in
    get_entry_reads (before ++ whole) p _ _ _ _ _ _ (read p 0 (omega arith))
      (read (p + 1) 1 (omega arith)) (read (p + 2) 2 (omega arith)) (read (p + 3) 3 (omega arith))
      (read (p + 4) 4 (omega arith)) (read (p + 5) 5 (omega arith))
    ∙ rw (bytes_joined r.addr fits.addr, bits, metric)

-- The messages as a description of the format, apart from the loops: a header and the entries.
unfoldable pub payload : List Route → List ℕ
payload [] = []
payload (r ∷ rs) = put_entry r ++ payload rs

abbrev pub message_of : List Route → List ℕ
message_of rs = build_header ++ payload rs

-- The routes that are told to others.
unfoldable pub live : List Route → List Route
live [] = []
live (r ∷ rs) = if is_deleted r.action then live rs else r ∷ live rs

pub payload-append : (xs ys : List Route) → payload (xs ++ ys) ≡ payload xs ++ payload ys
unfolding payload
payload-append [] ys = refl
payload-append (x ∷ xs) ys =
    ap (λ t. put_entry x ++ t) (payload-append xs ys)
    ∙ sym (append_assoc (put_entry x) (payload xs) (payload ys))

pub length-payload : (rs : List Route) → length (payload rs) ≡ 6 * length rs
unfolding payload put_entry
length-payload [] = refl
length-payload (r ∷ rs) = omega (arith, length-payload rs)

pub length-message_of : (rs : List Route) → length (message_of rs) ≡ 4 + 6 * length rs
unfolding build_header
length-message_of rs = omega (arith, length-payload rs)

pub live-append : (xs ys : List Route) → live (xs ++ ys) ≡ live xs ++ live ys
unfolding live
live-append [] ys = refl
live-append (x ∷ xs) ys = elim (Bool-cases (is_deleted x.action)) [
  | inl gone ↦ rw gone (live-append xs ys)
  | inr kept ↦ rw kept (ap (λ t. x ∷ t) (live-append xs ys))
]
