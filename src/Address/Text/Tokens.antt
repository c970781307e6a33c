-- ===== src/Address/Text/Tokens.antt =====
-- `ax25_aton` on a line and `ax25_aton_arglist` on its words.
use mathlib.Core.Path.{subst}
use linuxax.Prelude.{
  ℕ, zero, suc, ◌≤◌, ◌<◌, ◌≡◌, refl, ap, ◌∙◌, true, false, ◌&&◌, List, [], ◌∷◌, ◌++◌, Option, some,
  ◌==◌, leb, length, length-append, All, arith, Bool-cases, inl, inr, append-nil,
}
use linuxax.Ipd.Frame.{◌>>=◌}
use linuxax.Address.Text.{
  is_space, is_via, ax25_aton_entry, ax25_max_digis, skip_spaces, next_token, aton_again, aton_from,
  ax25_aton, arglist_again, arglist_from, ax25_aton_arglist,
}

-- A word: not empty, and no blank in it.
pub record IsWord (word : List ℕ) : Type 0 where
  pub long : 1 ≤ length word
  pub solid : All (λ c. is_space c ≡ false) word

-- The words with a blank between each two.
unfoldable pub line : List (List ℕ) → List ℕ
line [] = []
line (w ∷ []) = w
line (w ∷ w' ∷ ws) = w ++ (0x20 ∷ line (w' ∷ ws))

next_token-end : (w : List ℕ) → All (λ c. is_space c ≡ false) w → next_token w ≡ (w, [])
unfolding next_token
next_token-end [] h = refl
next_token-end (c ∷ w) h = rw (next_token-end w h.1, h.0)

next_token-space :
    (w rest : List ℕ)
    → All (λ c. is_space c ≡ false) w
    → next_token (w ++ (0x20 ∷ rest)) ≡ (w, rest)
unfolding next_token
next_token-space [] rest h = refl
next_token-space (c ∷ w) rest h = rw (next_token-space w rest h.1, h.0)

next_token-line :
    (w : List ℕ) (ws : List (List ℕ)) → IsWord w → next_token (line (w ∷ ws)) ≡ (w, line ws)
unfolding line
next_token-line w [] h = next_token-end w h.solid
next_token-line w (w' ∷ ws) h = next_token-space w (line (w' ∷ ws)) h.solid

skip_spaces-word : (w rest : List ℕ) → IsWord w → skip_spaces (w ++ rest) ≡ w ++ rest
unfolding skip_spaces
skip_spaces-word [] rest h = absurd (omega (arith, h.long))
skip_spaces-word (c ∷ w) rest h = rw (h.solid.0)

skip_spaces-line :
    (w : List ℕ) (ws : List (List ℕ)) → IsWord w → skip_spaces (line (w ∷ ws)) ≡ line (w ∷ ws)
unfolding line
skip_spaces-line w [] h = subst (λ t. skip_spaces t ≡ t) (append-nil w) (skip_spaces-word w [] h)
skip_spaces-line w (w' ∷ ws) h = skip_spaces-word w (0x20 ∷ line (w' ∷ ws)) h

aton_again-long :
    (round : List ℕ → List (List ℕ) → Option (List (List ℕ))) (s : List ℕ) (addrs : List (List ℕ))
    → 1 ≤ length s
    → aton_again round s addrs
      ≡ elim (leb (length addrs) ax25_max_digis) [ true ↦ round s addrs | false ↦ some addrs ]
unfolding aton_again
aton_again-long round [] addrs h = absurd (omega arith)
aton_again-long round (c ∷ s) addrs h = refl

line-long : (w : List ℕ) (ws : List (List ℕ)) → IsWord w → 1 ≤ length (line (w ∷ ws))
unfolding line
line-long w [] h = h.long
line-long w (w' ∷ ws) h = omega (arith, h.long, length-append w (0x20 ∷ line (w' ∷ ws)))

line-shorter :
    (w w' : List ℕ) (ws : List (List ℕ))
    → suc (length (line (w' ∷ ws))) ≤ length (line (w ∷ w' ∷ ws))
unfolding line
line-shorter w w' ws = omega (arith, length-append w (0x20 ∷ line (w' ∷ ws)))

again-agree :
    (fuel : ℕ) (ws addrs : List (List ℕ))
    → All IsWord ws
    → ((addrs : List (List ℕ))
        → 1 ≤ length ws
        → aton_from fuel (line ws) addrs ≡ arglist_from ws addrs)
    → aton_again (aton_from fuel) (line ws) addrs ≡ arglist_again (arglist_from ws) addrs
unfolding arglist_again arglist_from aton_again line
again-agree fuel [] addrs h same = elim (Bool-cases (leb (length addrs) ax25_max_digis)) [
  | inl more ↦ rw (more, arglist_again)
  | inr full ↦ rw (full, arglist_again)
]
again-agree fuel (w ∷ ws) addrs h same =
    aton_again-long (aton_from fuel) (line (w ∷ ws)) addrs (line-long w ws h.0)
    ∙ ap (λ t. elim (leb (length addrs) ax25_max_digis) [ true ↦ t | false ↦ some addrs ])
        (same addrs (omega arith))

-- A round of either loop, with the token found and what is done after it.
abbrev after_token :
    List ℕ → List (List ℕ) → (List (List ℕ) → Option (List (List ℕ))) → Option (List (List ℕ))
after_token token addrs again = elim ((length addrs == 1) && is_via token) [
  | true ↦ again addrs
  | false ↦ ax25_aton_entry token >>= λ addr. again (addrs ++ (addr ∷ []))
]

aton_from-after_token :
    (fuel : ℕ) (s token rest : List ℕ) (addrs : List (List ℕ))
    → next_token (skip_spaces s) ≡ (token, rest)
    → aton_from (suc fuel) s addrs ≡ after_token token addrs (aton_again (aton_from fuel) rest)
unfolding aton_from
aton_from-after_token fuel s token rest addrs e =
    ap (λ tr. after_token tr.0 addrs (aton_again (aton_from fuel) tr.1)) e

round-agree :
    (fuel : ℕ) (w : List ℕ) (ws addrs : List (List ℕ))
    → All IsWord (w ∷ ws)
    → ((addrs : List (List ℕ))
        → 1 ≤ length ws
        → aton_from fuel (line ws) addrs ≡ arglist_from ws addrs)
    → aton_from (suc fuel) (line (w ∷ ws)) addrs ≡ arglist_from (w ∷ ws) addrs
unfolding arglist_from
round-agree fuel w ws addrs h same =
    aton_from-after_token fuel (line (w ∷ ws)) w (line ws) addrs
      (ap next_token (skip_spaces-line w ws h.0) ∙ next_token-line w ws h.0)
    ∙ ap (after_token w addrs) (λ i addrs'. again-agree fuel ws addrs' h.1 same i)

aton_from-arglist_from :
    (fuel : ℕ) (w : List ℕ) (ws addrs : List (List ℕ))
    → All IsWord (w ∷ ws)
    → length (line (w ∷ ws)) < fuel
    → aton_from fuel (line (w ∷ ws)) addrs ≡ arglist_from (w ∷ ws) addrs
aton_from-arglist_from zero w ws addrs h enough = absurd (omega arith)
aton_from-arglist_from (suc fuel) w [] addrs h enough =
    round-agree fuel w [] addrs h (λ addrs' long. absurd (omega arith))
aton_from-arglist_from (suc fuel) w (w' ∷ ws) addrs h enough =
    round-agree fuel w (w' ∷ ws) addrs h (λ addrs' long.
      aton_from-arglist_from fuel w' ws addrs' h.1 (omega (arith, line-shorter w w' ws)))

-- `ax25_aton` of a line of words, one or more with one blank between each two, answers as
-- `ax25_aton_arglist` of the words: the same addresses, or the same error.
pub ax25_aton-ax25_aton_arglist :
    (w : List ℕ) (ws : List (List ℕ))
    → All IsWord (w ∷ ws)
    → ax25_aton (line (w ∷ ws)) ≡ ax25_aton_arglist (w ∷ ws)
unfolding ax25_aton ax25_aton_arglist
ax25_aton-ax25_aton_arglist w ws h =
    aton_from-arglist_from (suc (length (line (w ∷ ws)))) w ws [] h (omega arith)
