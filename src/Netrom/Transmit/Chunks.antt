-- ===== src/Netrom/Transmit/Chunks.antt =====
-- The broadcasts of `build_others` carry the entries of the nodes that are told, in order.
use mathlib.Core.Path.{subst}
use linuxax.Prelude.{
  ℕ, zero, suc, ◌+◌, ◌*◌, ◌≤◌, ◌<◌, ◌≡◌, ◌⊎◌, refl, ap, sym, ◌∙◌, true, false, List, [], ◌∷◌, ◌++◌,
  Option, some, map, length, length-append, All, arith, inl, inr, append_assoc, Bool-cases,
  append-nil, ltb, ltb→lt, lt→ltb, if◌then◌else◌,
}
use linuxax.Ipd.Frame.{◌>>=◌}
use linuxax.Netrom.{NeighLine, NodeLine, Entry, put_entry}
use linuxax.Netrom.Entries.{length-pad, payload, payload-append}
use linuxax.Netrom.Transmit.{build_header, fill_message, others_from, build_others}
use linuxax.Netrom.Transmit.Told.{
  told, adds_nothing, adds, put_node-Adds, told-passed_over, told-entered,
}

abbrev pub flatten : List (List Entry) → List Entry
flatten [] = []
flatten (c ∷ cs) = c ++ flatten cs

-- A broadcast has between one and eleven entries.
abbrev pub IsChunk : List Entry → Type 0
IsChunk es = (1 ≤ length es) × (length es ≤ 11)

module _ (alias : List ℕ) where
  -- The format of a broadcast.
  abbrev pub message_of : List Entry → List ℕ
  message_of es = build_header alias ++ payload es

  module _ (min_obs : ℕ) (neighs : List NeighLine) where
    -- A message that is filled up with the lines, or with eleven entries of some of the lines.
    abbrev Ends : ℕ → List Entry → ℕ → ℕ → Type 0
    Ends held still left lines = ((held ≤ 10) × (still ≡ [])) ⊎ ((held ≡ 11) × (left < lines))

    -- What a filled message holds beside the entries `es` that it had before.
    record Filled (es : List Entry) (ns : List NodeLine) (message : List ℕ) (left : List NodeLine)
        : Type 0 where
      added : List Entry
      split : told min_obs neighs ns ≡ added ++ told min_obs neighs left
      text : message ≡ message_of (es ++ added)
      count : length message ≡ 7 + 21 * length (es ++ added)
      ends : Ends (length (es ++ added)) (told min_obs neighs left) (length left) (length ns)

    message_of-snoc :
        (es : List Entry) (e : Entry) → message_of es ++ put_entry e ≡ message_of (es ++ (e ∷ []))
    unfolding payload
    message_of-snoc es e =
        append_assoc (build_header alias) (payload es) (put_entry e)
        ∙ ap (λ t. build_header alias ++ (payload es ++ t)) (sym (append-nil (put_entry e)))
        ∙ ap (λ t. build_header alias ++ t) (sym (payload-append es (e ∷ [])))

    one_line :
        {held left lines : ℕ} {still : List Entry}
        → Ends held still left lines
        → Ends held still left (suc lines)
    one_line (inl rest) = inl rest
    one_line (inr (eleven, shorter)) = inr (eleven, omega arith)

    fill-Filled :
        (es : List Entry) (ns : List NodeLine)
        → length es ≤ 10
        → length (message_of es) ≡ 7 + 21 * length es
        → let (message, left) = fill_message min_obs neighs (message_of es) ns in
          Filled es ns message left
    unfolding fill_message told
    fill-Filled es [] few count = record {
      added = [];
      split = refl;
      text = ap message_of (sym (append-nil es));
      count = omega (arith, count, length-append es []);
      ends = inl (omega (arith, length-append es []), refl);
    }
    fill-Filled es (n ∷ ns) few count = elim (put_node-Adds min_obs neighs n) [
      | adds_nothing none_told none_put ↦
          let deep = fill-Filled es ns few count in
          rw (none_put, fill_message)
            (record {
              added = deep.added;
              split = told-passed_over min_obs neighs n ns none_told ∙ deep.split;
              text = deep.text;
              count = deep.count;
              ends = one_line deep.ends;
            })
      | adds e one_told one_put size ↦
          let message = message_of es ++ put_entry e in
          let longer : length message ≡ 7 + 21 * length (es ++ (e ∷ [])) = omega (
            arith,
            length-append (message_of es) (put_entry e),
            length-append es (e ∷ []),
            size,
            count,
          ) in
          elim (Bool-cases (ltb 256 (length message + 21))) [
            | inl full ↦
                rw (one_put, full, fill_message)
                  (record {
                    added = e ∷ [];
                    split = told-entered min_obs neighs n ns e one_told;
                    text = message_of-snoc es e;
                    count = longer;
                    ends = inr (
                      omega (arith, ltb→lt _ _ full, longer, few, length-append es (e ∷ [])),
                      omega arith,
                    );
                  })
            | inr room ↦
                let one_more = es ++ (e ∷ []) in
                let few' : length one_more ≤ 10 = ground (arith, room, longer) in
                let deep =
                  fill-Filled one_more ns few' (sym (ap length (message_of-snoc es e)) ∙ longer) in
                let regroup : one_more ++ deep.added ≡ es ++ (e ∷ deep.added) =
                  append_assoc es (e ∷ []) deep.added in
                let left = length (fill_message min_obs neighs (message_of one_more) ns).1 in
                let still =
                  told min_obs neighs (fill_message min_obs neighs (message_of one_more) ns).1 in
                rw (one_put, room, fill_message, message_of-snoc es e)
                  (record {
                    added = e ∷ deep.added;
                    split =
                        told-entered min_obs neighs n ns e one_told ∙ ap (λ t. e ∷ t) deep.split;
                    text = deep.text ∙ ap message_of regroup;
                    count = deep.count ∙ ap (λ t. 7 + 21 * length t) regroup;
                    ends =
                        one_line
                          (subst (λ t. Ends (length t) still left (length ns)) regroup deep.ends);
                  })
          ]
    ]

    pub record Sends (ns : List NodeLine) (sent : Option (List (List ℕ))) : Type 0 where
      pub chunks : List (List Entry)
      pub messages : sent ≡ some (map message_of chunks)
      pub whole : flatten chunks ≡ told min_obs neighs ns
      pub sizes : All IsChunk chunks

    pub length-header : length (build_header alias) ≡ 7
    unfolding build_header
    length-header = ap suc (length-pad alias)

    -- What the outer loop sends of one message.
    abbrev sent_of : List ℕ → List (List ℕ)
    sent_of message =
        if ltb (length (build_header alias)) (length message) then message ∷ [] else []

    last_chunk :
        (ns : List NodeLine) (message : List ℕ) (added : List Entry)
        → told min_obs neighs ns ≡ added
        → message ≡ message_of added
        → length message ≡ 7 + 21 * length added
        → length added ≤ 10
        → Sends ns (some (sent_of message))
    last_chunk ns message [] split text count few =
        let empty : ltb (length (build_header alias)) (length message) ≡ false =
          ground (arith, length-header, count) in
        record { chunks = []; messages = rw empty refl; whole = sym split; sizes = tt }
    last_chunk ns message (e ∷ es) split text count few =
        let more : ltb (length (build_header alias)) (length message) ≡ true =
          lt→ltb _ _ (omega (arith, length-header, count)) in
        record {
          chunks = (e ∷ es) ∷ [];
          messages = rw more (ap (λ t. some (t ∷ [])) text);
          whole = append-nil (e ∷ es) ∙ sym split;
          sizes = ((omega arith, omega arith), tt);
        }

    -- The outer loop after one message.
    next_chunk :
        (ns left : List NodeLine) (message : List ℕ) (deep : Option (List (List ℕ)))
        → Filled [] ns message left
        → (length left < length ns → Sends left deep)
        → Sends ns (elim (ltb 256 (length message + 21)) [
          | true ↦ deep >>= λ more. some (sent_of message ++ more)
          | false ↦ some (sent_of message)
        ])
    next_chunk ns left message deep f later = elim f.ends [
      | inl (few, rest) ↦
          let room : ltb 256 (length message + 21) ≡ false = ground (arith, f.count, few) in
          rw room (
            last_chunk ns message f.added
              (f.split ∙ ap (λ t. f.added ++ t) rest ∙ append-nil f.added) f.text f.count few)
      | inr (eleven, shorter) ↦
          let full : ltb 256 (length message + 21) ≡ true =
            lt→ltb _ _ (omega (arith, f.count, eleven)) in
          let more : ltb (length (build_header alias)) (length message) ≡ true =
            lt→ltb _ _ (omega (arith, length-header, f.count, eleven)) in
          let s = later shorter in
          rw (full, more)
            (record {
              chunks = f.added ∷ s.chunks;
              messages =
                  rw (s.messages, ◌>>=◌) (ap (λ t. some (t ∷ map message_of s.chunks)) f.text);
              whole = ap (λ t. f.added ++ t) s.whole ∙ sym f.split;
              sizes = ((omega (arith, eleven), omega (arith, eleven)), s.sizes);
            })
    ]

    others_from-Sends :
        (fuel : ℕ) (ns : List NodeLine)
        → suc (length ns) ≤ fuel
        → Sends ns (others_from fuel alias min_obs neighs ns)
    unfolding others_from payload
    others_from-Sends zero ns h = absurd (omega arith)
    others_from-Sends (suc fuel) ns h =
        let start : message_of [] ≡ build_header alias = append-nil (build_header alias) in
        let filled = fill-Filled [] ns (omega arith) (ap length start ∙ length-header) in
        let (message, left) = fill_message min_obs neighs (build_header alias) ns in
        next_chunk ns left message (others_from fuel alias min_obs neighs left)
          (subst
            (λ t.
              let (message, left) = fill_message min_obs neighs t ns in Filled [] ns message left)
            start filled)
          (λ shorter. others_from-Sends fuel left (omega (arith, shorter)))

    -- `build_others` ends. The broadcasts it sends have the header and one to eleven entries each, and
    -- together they carry, in order, the entries of the nodes that are heard often enough, have a
    -- quality and a neighbour, and callsigns that can be read.
    pub build_others-Sends :
        (ns : List NodeLine)
        → (chunks : List (List Entry)) × (build_others alias min_obs neighs ns
            ≡ some (map message_of chunks))
          × (flatten chunks ≡ told min_obs neighs ns)
          × All IsChunk chunks
    unfolding build_others
    build_others-Sends ns =
        let s = others_from-Sends (suc (length ns)) ns (omega arith) in
        (s.chunks, s.messages, s.whole, s.sizes)
