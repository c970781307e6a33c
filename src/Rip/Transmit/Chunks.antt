-- ===== src/Rip/Transmit/Chunks.antt =====
-- The messages that `transmit_routes` sends carry the routes of the table, in order.
use mathlib.Core.Path.{subst}
use linuxax.Prelude.{
  ℕ, zero, suc, ◌+◌, ◌*◌, ◌≤◌, ◌≡◌, refl, ap, sym, ◌∙◌, true, false, List, [], ◌∷◌, ◌++◌, Option,
  some, map, length, length-append, All, arith, Bool-cases, inl, inr, append_assoc, ltb→lt, lt→ltb,
  append-nil, ltb, if◌then◌else◌,
}
use linuxax.Ipd.Frame.{◌>>=◌}
use linuxax.Rip.{Route, is_deleted, build_header, put_entry}
use linuxax.Rip.Message.{payload, message_of, live, payload-append, length-message_of, live-append}
use linuxax.Rip.Transmit.{fill_message, transmit_from, transmit_routes}

-- What a filled message holds beside the entries `es` that it had before.
record Filled (es rs : List Route) (message : List ℕ) (left : List Route) : Type 0 where
  used : List Route
  split : rs ≡ used ++ left
  text : message ≡ message_of (es ++ live used)
  few : length (es ++ live used) ≤ 30

message_of-snoc :
    (es : List Route) (r : Route) → message_of es ++ put_entry r ≡ message_of (es ++ (r ∷ []))
unfolding payload
message_of-snoc es r =
    append_assoc build_header (payload es) (put_entry r)
    ∙ ap (λ t. build_header ++ (payload es ++ t)) (sym (append-nil (put_entry r)))
    ∙ ap (λ t. build_header ++ t) (sym (payload-append es (r ∷ [])))

fill-Filled :
    (es rs : List Route)
    → length es ≤ 30
    → let (message, left) = fill_message (message_of es) rs in Filled es rs message left
unfolding fill_message live
fill-Filled es [] few = record {
  used = [];
  split = refl;
  text = ap message_of (sym (append-nil es));
  few = omega (arith, length-append es []);
}
fill-Filled es (r ∷ rs) few = elim (Bool-cases (ltb (length (message_of es)) 184)) [
  | inr full ↦
      rw (full, fill_message)
        (record {
          used = [];
          split = refl;
          text = ap message_of (sym (append-nil es));
          few = omega (arith, length-append es []);
        })
  | inl room ↦ elim (Bool-cases (is_deleted r.action)) [
    | inl gone ↦
        let deep = fill-Filled es rs few in
        rw (room, gone, fill_message)
          (record {
            used = r ∷ deep.used;
            split = ap (λ t. r ∷ t) deep.split;
            text = rw gone deep.text;
            few = rw gone deep.few;
          })
    | inr kept ↦
        let one_more : length (es ++ (r ∷ [])) ≤ 30 =
          omega (arith, length-message_of es, ltb→lt _ _ room, length-append es (r ∷ [])) in
        let deep = fill-Filled (es ++ (r ∷ [])) rs one_more in
        let regroup : (es ++ (r ∷ [])) ++ live deep.used ≡ es ++ (r ∷ live deep.used) =
          append_assoc es (r ∷ []) (live deep.used) in
        rw (room, kept, fill_message, message_of-snoc es r)
          (record {
            used = r ∷ deep.used;
            split = ap (λ t. r ∷ t) deep.split;
            text = deep.text ∙ rw kept (ap message_of regroup);
            few = rw kept (subst (λ t. length t ≤ 30) regroup deep.few);
          })
  ]
]

fill_left-le : (message : List ℕ) (rs : List Route) → length (fill_message message rs).1 ≤ length rs
unfolding fill_message
fill_left-le message [] = omega arith
fill_left-le message (r ∷ rs) = elim (Bool-cases (ltb (length message) 184)) [
  | inl room ↦
      rw (room, fill_message)
        (omega (
          arith,
          fill_left-le (if is_deleted r.action then message else message ++ put_entry r) rs,
        ))
  | inr full ↦ rw (full, fill_message) (omega arith)
]

fill_takes_one :
    (r : Route) (rs : List Route) → length (fill_message build_header (r ∷ rs)).1 ≤ length rs
unfolding fill_message build_header
fill_takes_one r rs =
    fill_left-le (if is_deleted r.action then build_header else build_header ++ put_entry r) rs

abbrev pub flatten : List (List Route) → List Route
flatten [] = []
flatten (c ∷ cs) = c ++ flatten cs

-- A message has between one and thirty entries.
abbrev pub IsChunk : List Route → Type 0
IsChunk es = (1 ≤ length es) × (length es ≤ 30)

pub record Sends (rs : List Route) (sent : Option (List (List ℕ))) : Type 0 where
  pub chunks : List (List Route)
  pub messages : sent ≡ some (map message_of chunks)
  pub whole : flatten chunks ≡ live rs
  pub sizes : All IsChunk chunks

add_chunk :
    (rs : List Route) (message : List ℕ) (left : List Route) (sent : Option (List (List ℕ)))
    → Filled [] rs message left
    → Sends left sent
    → Sends rs (sent >>= λ ms. some (if ltb 4 (length message) then message ∷ ms else ms))
add_chunk rs message left sent f s = go (live f.used) refl
  where
    count : length message ≡ 4 + 6 * length (live f.used)
    count = ap length f.text ∙ length-message_of (live f.used)

    whole : live rs ≡ live f.used ++ flatten s.chunks
    whole = ap live f.split ∙ live-append f.used left ∙ ap (λ t. live f.used ++ t) (sym s.whole)

    go :
        (es : List Route)
        → live f.used ≡ es
        → Sends rs (sent >>= λ ms. some (if ltb 4 (length message) then message ∷ ms else ms))
    go [] e =
        let empty : ltb 4 (length message) ≡ false =
          let zero_long : length message ≡ 4 = rw e at count in ground arith in
        record {
          chunks = s.chunks;
          messages = rw (s.messages, ◌>>=◌, empty);
          whole = sym (whole ∙ ap (λ t. t ++ flatten s.chunks) e);
          sizes = s.sizes;
        }
    go (r ∷ es) e =
        let more : ltb 4 (length message) ≡ true =
          let long : length message ≡ 4 + 6 * suc (length es) = rw e at count in
          lt→ltb _ _ (omega arith) in
        record {
          chunks = (r ∷ es) ∷ s.chunks;
          messages =
              rw (s.messages, ◌>>=◌, more)
                (ap (λ t. some (t ∷ map message_of s.chunks)) (f.text ∙ ap message_of e));
          whole = sym (whole ∙ ap (λ t. t ++ flatten s.chunks) e);
          sizes = ((omega arith, subst (λ t. length t ≤ 30) e f.few), s.sizes);
        }

-- With as much fuel as there are routes the loop ends; its messages have a header and one to thirty
-- entries each, and together they carry, in order, the routes that are not deleted.
pub transmit_from-Sends :
    (fuel : ℕ) (rs : List Route) → length rs ≤ fuel → Sends rs (transmit_from fuel rs)
unfolding transmit_from live payload
transmit_from-Sends zero [] h = record { chunks = []; messages = refl; whole = refl; sizes = tt }
transmit_from-Sends zero (r ∷ rs) h = absurd (omega arith)
transmit_from-Sends (suc fuel) [] h = record {
  chunks = [];
  messages = refl;
  whole = refl;
  sizes = tt;
}
transmit_from-Sends (suc fuel) (r ∷ rs) h =
    let (message, left) = fill_message build_header (r ∷ rs) in
    add_chunk (r ∷ rs) message left (transmit_from fuel left)
      (fill-Filled [] (r ∷ rs) (omega arith))
      (transmit_from-Sends fuel left (omega (arith, fill_takes_one r rs)))

-- Every message to every destination, one destination after another.
abbrev pub to_each : List ℕ → List (List ℕ) → List (ℕ × List ℕ)
to_each [] messages = []
to_each (dest ∷ dests) messages =
    map (λ message. (dest, message)) messages ++ to_each dests messages

transmit_routes-to_each :
    (dests : List ℕ) (rs : List Route) (messages : List (List ℕ))
    → transmit_from (length rs) rs ≡ some messages
    → transmit_routes dests rs ≡ some (to_each dests messages)
unfolding transmit_routes
transmit_routes-to_each [] rs messages e = refl
transmit_routes-to_each (dest ∷ dests) rs messages e =
    rw (e, transmit_routes, ◌>>=◌) (rw (transmit_routes-to_each dests rs messages e, ◌>>=◌))

-- `transmit_routes` ends. Each destination is sent the same messages; a message has a header and one
-- to thirty entries, and together they carry, in order, the routes that are not deleted.
pub transmit_routes-Sends :
    (dests : List ℕ) (rs : List Route)
    → (chunks : List (List Route)) × (transmit_routes dests rs
        ≡ some (to_each dests (map message_of chunks)))
      × (flatten chunks ≡ live rs)
      × All IsChunk chunks
transmit_routes-Sends dests rs =
    let s = transmit_from-Sends (length rs) rs (omega arith) in
    (
      s.chunks,
      transmit_routes-to_each dests rs (map message_of s.chunks) s.messages,
      s.whole,
      s.sizes,
    )
