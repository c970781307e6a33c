-- ===== src/Call/Yapp/Hunks/Drained.antt =====
-- The loop over the buffer of a handler that looks at its packet only: what it leaves, and what more
-- bytes change.
use linuxax.Prelude.{
  ℕ, zero, suc, ◌≤◌, ◌<◌, ◌≡◌, refl, ap, ◌∙◌, Bool, true, false, List, [], ◌∷◌, ◌++◌, Option, some,
  leb, leb→le, length, length-append, drop, All, arith, Bool-cases, inl, inr,
}
use linuxax.Call.Yapp.{packet_length, drain}
use linuxax.Call.Yapp.Hunks.{
  IsByte, IsLocal, two-le-packet_length, packet_length-le, length-drop, drop-append, All-drop,
  drain_fuel, drain_stops, drain_goes,
}

module _ {S : Type 0} (handle : S → (b0 b1 : ℕ) (body : List ℕ) → Bool × S) (yappc : S → Bool) where
  -- What a side makes of the buffer and of whatever follows it there.
  abbrev pub continue : Bool × S × List ℕ → List ℕ → ℕ → Option (Bool × S × List ℕ)
  continue (true, s, rest) ys fuel = drain true handle yappc fuel s (rest ++ ys)
  continue (false, s, rest) ys fuel = some (false, s, rest ++ ys)

  pub record Drained (s : S) (buffer : List ℕ) (result : Bool × S × List ℕ) : Type 0 where
    pub run :
        (fuel : ℕ) → length buffer < fuel → drain true handle yappc fuel s buffer ≡ some result
    pub more :
        (ys : List ℕ) (fuel fuel' : ℕ)
        → length (buffer ++ ys) < fuel
        → length (result.2 ++ ys) < fuel'
        → drain true handle yappc fuel s (buffer ++ ys) ≡ continue result ys fuel'
    pub bytes : All IsByte result.2
    pub few : result.0 ≡ true → length result.2 ≤ 258
    pub settled :
        result.0 ≡ true
        → (fuel : ℕ) → length result.2 < fuel
        → drain true handle yappc fuel result.1 result.2 ≡ some (true, result.1, result.2)

  -- A buffer with no whole packet at its head.
  waiting :
      (s : S) (buffer : List ℕ)
      → All IsByte buffer
      → length buffer ≤ 258
      → ((fuel : ℕ)
          → length buffer < fuel
          → drain true handle yappc fuel s buffer ≡ some (true, s, buffer))
      → Drained s buffer (true, s, buffer)
  waiting s buffer bytes few run = record {
    run = run;
    more = λ ys fuel fuel' h k. drain_fuel handle yappc fuel fuel' s (buffer ++ ys) h k;
    bytes = bytes;
    few = λ e. few;
    settled = λ e. run;
  }

  module _ (local_to : IsLocal handle yappc) where
    stopped :
        (s : S) (b0 b1 : ℕ) (body : List ℕ)
        → All IsByte (b0 ∷ b1 ∷ body)
        → packet_length (yappc s) b0 b1 ≤ length (b0 ∷ b1 ∷ body)
        → (handle s b0 b1 body).0 ≡ false
        → Drained s (b0 ∷ b1 ∷ body) (false, (handle s b0 b1 body).1, b0 ∷ b1 ∷ body)
    stopped s b0 b1 body bytes h over = record {
      run = run;
      more = more;
      bytes = bytes;
      few = λ e. cc;
      settled = λ e. cc;
    }
      where
        run :
            (fuel : ℕ)
            → length (b0 ∷ b1 ∷ body) < fuel
            → drain true handle yappc fuel s (b0 ∷ b1 ∷ body)
              ≡ some (false, (handle s b0 b1 body).1, b0 ∷ b1 ∷ body)
        run zero lt = absurd (omega arith)
        run (suc fuel) lt = drain_stops handle yappc true fuel s b0 b1 body h over

        more :
            (ys : List ℕ) (fuel fuel' : ℕ)
            → length ((b0 ∷ b1 ∷ body) ++ ys) < fuel
            → length ((b0 ∷ b1 ∷ body) ++ ys) < fuel'
            → drain true handle yappc fuel s ((b0 ∷ b1 ∷ body) ++ ys)
              ≡ some (false, (handle s b0 b1 body).1, (b0 ∷ b1 ∷ body) ++ ys)
        more ys zero fuel' lt k = absurd (omega arith)
        more ys (suc fuel) fuel' lt k =
            let same = local_to s b0 b1 body ys h in
            drain_stops handle yappc true fuel s b0 b1 (body ++ ys)
              (omega (arith, length-append body ys)) (ap (λ r. r.0) same ∙ over)
            ∙ ap (λ r. some (false, r.1, (b0 ∷ b1 ∷ body) ++ ys)) same

    went :
        (s : S) (b0 b1 : ℕ) (body : List ℕ) (result : Bool × S × List ℕ)
        → packet_length (yappc s) b0 b1 ≤ length (b0 ∷ b1 ∷ body)
        → (handle s b0 b1 body).0 ≡ true
        → Drained
            (handle s b0 b1 body).1
            (drop (packet_length (yappc s) b0 b1) (b0 ∷ b1 ∷ body))
            result
        → Drained s (b0 ∷ b1 ∷ body) result
    went s b0 b1 body result h on d = record {
      run = run;
      more = more;
      bytes = d.bytes;
      few = d.few;
      settled = d.settled;
    }
      where
        n : ℕ
        n = packet_length (yappc s) b0 b1

        whole : List ℕ
        whole = b0 ∷ b1 ∷ body

        run : (fuel : ℕ) → length whole < fuel → drain true handle yappc fuel s whole ≡ some result
        run zero lt = absurd (omega arith)
        run (suc fuel) lt =
            drain_goes handle yappc fuel s b0 b1 body h on
            ∙ d.run fuel
                (omega (arith, length-drop n whole, two-le-packet_length (yappc s) b0 b1, lt))

        more :
            (ys : List ℕ) (fuel fuel' : ℕ)
            → length (whole ++ ys) < fuel
            → length (result.2 ++ ys) < fuel'
            → drain true handle yappc fuel s (whole ++ ys) ≡ continue result ys fuel'
        more ys zero fuel' lt k = absurd (omega arith)
        more ys (suc fuel) fuel' lt k =
            let same = local_to s b0 b1 body ys h in
            let cut = drop-append n whole ys h in
            let shorter : length (drop n whole ++ ys) < fuel = omega (
              arith,
              length-append (drop n whole) ys,
              length-append whole ys,
              length-drop n whole,
              two-le-packet_length (yappc s) b0 b1,
              lt,
            ) in
            drain_goes handle yappc fuel s b0 b1 (body ++ ys) (omega (arith, length-append body ys))
              (ap (λ r. r.0) same ∙ on)
            ∙ ap (λ r. drain true handle yappc fuel r.1 (drop n (whole ++ ys))) same
            ∙ ap (λ t. drain true handle yappc fuel (handle s b0 b1 body).1 t) cut
            ∙ d.more ys fuel fuel' shorter k

    pub drained :
        (k : ℕ) (s : S) (buffer : List ℕ)
        → length buffer < k
        → All IsByte buffer
        → (result : Bool × S × List ℕ) × Drained s buffer result
    unfolding drain
    drained zero s buffer h bytes = absurd (omega arith)
    drained (suc k) s [] h bytes =
        ((true, s, []), waiting s [] bytes (omega arith) (λ fuel lt. empty fuel lt))
      where
        empty : (fuel : ℕ) → 0 < fuel → drain true handle yappc fuel s [] ≡ some (true, s, [])
        empty zero lt = absurd (omega arith)
        empty (suc fuel) lt = refl
    drained (suc k) s (b0 ∷ []) h bytes =
        ((true, s, b0 ∷ []), waiting s (b0 ∷ []) bytes (omega arith) (λ fuel lt. one fuel lt))
      where
        one :
            (fuel : ℕ)
            → 1 < fuel
            → drain true handle yappc fuel s (b0 ∷ []) ≡ some (true, s, b0 ∷ [])
        one zero lt = absurd (omega arith)
        one (suc fuel) lt = refl
    drained (suc k) s (b0 ∷ b1 ∷ body) h bytes =
        let n = packet_length (yappc s) b0 b1 in
        let two = two-le-packet_length (yappc s) b0 b1 in
        elim (Bool-cases (leb n (length (b0 ∷ b1 ∷ body)))) [
          | inr short ↦ (
            (true, s, b0 ∷ b1 ∷ body),
            waiting s (b0 ∷ b1 ∷ body) bytes
                (ground (arith, short, packet_length-le (yappc s) b0 b1 bytes.1.0))
                (λ fuel lt. incomplete fuel short lt),
          )
          | inl whole ↦ elim (Bool-cases (handle s b0 b1 body).0) [
            | inr over ↦ (_, stopped s b0 b1 body bytes (leb→le _ _ whole) over)
            | inl on ↦
                let shorter : length (drop n (b0 ∷ b1 ∷ body)) < k =
                  omega (arith, length-drop n (b0 ∷ b1 ∷ body), two, h) in
                let (result, d) =
                  drained k (handle s b0 b1 body).1 (drop n (b0 ∷ b1 ∷ body)) shorter
                    (All-drop IsByte n (b0 ∷ b1 ∷ body) bytes) in
                (result, went s b0 b1 body result (leb→le _ _ whole) on d)
          ]
        ]
      where
        incomplete :
            (fuel : ℕ)
            → leb (packet_length (yappc s) b0 b1) (length (b0 ∷ b1 ∷ body)) ≡ false
            → length (b0 ∷ b1 ∷ body) < fuel
            → drain true handle yappc fuel s (b0 ∷ b1 ∷ body) ≡ some (true, s, b0 ∷ b1 ∷ body)
        incomplete zero short lt = absurd (omega arith)
        incomplete (suc fuel) short lt = rw (short, drain) refl
