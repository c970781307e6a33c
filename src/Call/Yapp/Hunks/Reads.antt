-- ===== src/Call/Yapp/Hunks/Reads.antt =====
-- Reading hunk by hunk, against one loop over all the bytes.
use linuxax.Prelude.{
  ℕ, zero, suc, ◌≤◌, ◌<◌, ◌≡◌, refl, ap, sym, ◌∙◌, Bool, true, false, List, [], ◌∷◌, ◌++◌, Option,
  none, some, map, leb, length, length-append, All, arith, append_assoc, append-nil, flatten,
}
use linuxax.Ipd.Frame.{◌>>=◌}
use linuxax.Call.Yapp.{drain, read_hunk, read_hunks, hears, select_loop}
use linuxax.Call.Yapp.Hunks.{IsByte, IsLocal, All-append}
use linuxax.Call.Yapp.Hunks.Drained.{Drained, drained}

-- What a `read` gives: bytes, at most 511.
unfoldable pub IsHunk : List ℕ → Type 0
IsHunk hunk = All IsByte hunk × (length hunk ≤ 511)

-- Whether the side goes on, and the side itself: not what is left in the buffer, since a side that
-- has returned reads no more.
unfoldable pub outcome : {S : Type 0} → Option (Bool × S × List ℕ) → Option (Bool × S)
outcome none = none
outcome (some (go, s, rest)) = some (go, s)

module _ {S : Type 0} (handle : S → (b0 b1 : ℕ) (body : List ℕ) → Bool × S) (yappc : S → Bool) where
  -- No whole packet is at the head of the buffer.
  abbrev pub IsSettled : S → List ℕ → Type 0
  IsSettled s buffer =
      (fuel : ℕ)
      → length buffer < fuel
      → drain true handle yappc fuel s buffer ≡ some (true, s, buffer)

  empty-IsSettled : (s : S) → IsSettled s []
  unfolding drain
  empty-IsSettled s zero lt = absurd (omega arith)
  empty-IsSettled s (suc fuel) lt = refl

  read_hunk_lem :
      (s : S) (buffer hunk : List ℕ) (result : Bool × S × List ℕ)
      → length buffer ≤ 258
      → length hunk ≤ 511
      → Drained handle yappc s (buffer ++ hunk) result
      → read_hunk true handle yappc s buffer hunk ≡ some result
  unfolding read_hunk
  read_hunk_lem s buffer hunk result few small d =
      let fits : leb (length (buffer ++ hunk)) 1024 ≡ true =
        ground (arith, length-append buffer hunk, few, small) in
      rw (fits) (d.run (suc (length (buffer ++ hunk))) (omega arith))

  -- All the reads make of the side what one loop over all the bytes does.
  Reads : S → List ℕ → List (List ℕ) → Type 0
  Reads s buffer hunks =
      (result : Bool × S × List ℕ) × (read_hunks true handle yappc s buffer hunks ≡ some result)
      × ((fuel : ℕ)
          → length (buffer ++ flatten hunks) < fuel
          → outcome (drain true handle yappc fuel s (buffer ++ flatten hunks))
            ≡ outcome (some result))

  after_hunk :
      (s : S) (buffer hunk : List ℕ) (hunks : List (List ℕ)) (result : Bool × S × List ℕ)
      → Drained handle yappc s (buffer ++ hunk) result
      → read_hunk true handle yappc s buffer hunk ≡ some result
      → (result.0 ≡ true → Reads result.1 result.2 hunks)
      → Reads s buffer (hunk ∷ hunks)
  unfolding Reads read_hunks outcome
  after_hunk s buffer hunk hunks (false, s', rest) d e later = (
    (false, s', rest),
    rw (e) refl,
    λ fuel lt.
        let whole = append_assoc buffer hunk (flatten hunks) in
        rw (sym whole) (
          ap outcome (
            d.more (flatten hunks) fuel (suc (length (rest ++ flatten hunks))) (rw (whole) lt)
              (omega arith))),
  )
  after_hunk s buffer hunk hunks (true, s', rest) d e later =
      let (result, run, all) = later refl in
      (
        result,
        rw (e) run,
        λ fuel lt.
            let whole = append_assoc buffer hunk (flatten hunks) in
            let enough = suc (length (rest ++ flatten hunks)) in
            rw (sym whole) (
              ap outcome (d.more (flatten hunks) fuel enough (rw (whole) lt) (omega arith))
              ∙ all enough (omega arith)),
      )

  module _ (local_to : IsLocal handle yappc) where
    read_hunks_lem :
        (s : S) (buffer : List ℕ) (hunks : List (List ℕ))
        → All IsByte buffer
        → length buffer ≤ 258
        → IsSettled s buffer
        → All IsHunk hunks
        → Reads s buffer hunks
    unfolding Reads read_hunks IsHunk
    read_hunks_lem s buffer [] bytes few settled h = (
      (true, s, buffer),
      refl,
      λ fuel lt.
          rw (append-nil buffer) (ap outcome (settled fuel (rw (sym (append-nil buffer)) lt))),
    )
    read_hunks_lem s buffer (hunk ∷ hunks) bytes few settled h =
        let (result, d) =
          drained handle yappc local_to (suc (length (buffer ++ hunk))) s (buffer ++ hunk)
            (omega arith) (All-append IsByte buffer hunk bytes h.0.0) in
        after_hunk s buffer hunk hunks result d (read_hunk_lem s buffer hunk result few h.0.1 d)
          (λ on. read_hunks_lem result.1 result.2 hunks d.bytes (d.few on) (d.settled on) h.1)

    -- From an empty buffer.
    pub read_hunks-eq-drain :
        (s : S) (hunks : List (List ℕ))
        → All IsHunk hunks
        → (result : Bool × S) × (outcome (read_hunks true handle yappc s [] hunks) ≡ some result)
          × (outcome (drain true handle yappc (suc (length (flatten hunks))) s (flatten hunks))
              ≡ some result)
    unfolding Reads outcome
    read_hunks-eq-drain s hunks h =
        let ((go, s', rest), run, all) =
          read_hunks_lem s [] hunks tt (omega arith) (empty-IsSettled s) h in
        ((go, s'), ap outcome run, all (suc (length (flatten hunks))) (omega arith))

    read_hunks-flatten :
        (s : S) (hunks hunks' : List (List ℕ))
        → All IsHunk hunks
        → All IsHunk hunks'
        → flatten hunks ≡ flatten hunks'
        → (result : Bool × S) × (outcome (read_hunks true handle yappc s [] hunks) ≡ some result)
          × (outcome (read_hunks true handle yappc s [] hunks') ≡ some result)
    read_hunks-flatten s hunks hunks' h h' e =
        let (result, run, all) = read_hunks-eq-drain s hunks h in
        let (result', run', all') = read_hunks-eq-drain s hunks' h' in
        let same =
          sym all'
          ∙ ap (λ bs. outcome (drain true handle yappc (suc (length bs)) s bs)) (sym e)
          ∙ all in
        (result, run, run' ∙ same)

  after :
      Option (Bool × S × List ℕ)
      → (S → List ℕ → Option (Bool × S × List ℕ))
      → Option (Bool × S × List ℕ)
  after o f =
      o >>= λ (go, s, buffer). elim go [ false ↦ some (false, s, buffer) | true ↦ f s buffer ]

  next-eq :
      (o : Option (Bool × S × List ℕ)) (f g : S → List ℕ → Option (Bool × S × List ℕ))
      → ((s : S) (buffer : List ℕ) → f s buffer ≡ g s buffer)
      → after o f ≡ after o g
  unfolding after
  next-eq none f g e = refl
  next-eq (some (false, s, buffer)) f g e = refl
  next-eq (some (true, s, buffer)) f g e = e s buffer

  module _ (writable : ℕ → S → S) (says : S → List ℕ → S) where
    pub select_loop-hears :
        (moves : Bool) (s : S) (buffer : List ℕ) (hunks : List (List ℕ))
        → select_loop moves handle yappc writable says s buffer (map hears hunks)
          ≡ read_hunks moves handle yappc s buffer hunks
    unfolding select_loop read_hunks after
    select_loop-hears moves s buffer [] = refl
    select_loop-hears moves s buffer (hunk ∷ hunks) =
        next-eq (read_hunk moves handle yappc s buffer hunk) _ _
          (λ s' buffer'. select_loop-hears moves s' buffer' hunks)

    pub select_loop-flatten :
        IsLocal handle yappc
        → (s : S) (hunks hunks' : List (List ℕ)) → All IsHunk hunks
        → All IsHunk hunks'
        → flatten hunks ≡ flatten hunks'
        → (result : Bool × S) × (outcome
              (select_loop true handle yappc writable says s [] (map hears hunks))
            ≡ some result)
          × (outcome (select_loop true handle yappc writable says s [] (map hears hunks'))
              ≡ some result)
    select_loop-flatten local_to s hunks hunks' h h' e =
        let (result, run, run') = read_hunks-flatten local_to s hunks hunks' h h' e in
        (
          result,
          ap outcome (select_loop-hears true s [] hunks) ∙ run,
          ap outcome (select_loop-hears true s [] hunks') ∙ run',
        )
