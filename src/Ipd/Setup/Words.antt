-- ===== src/Ipd/Setup/Words.antt =====
-- ax25apps/ax25ipd/config.c: the words that `strtok` makes of a line, and those behind the host of a
-- route.
use linuxax.Prelude.{
  ℕ, bit_or, Bool, true, false, not, ◌&&◌, ◌||◌, List, [], ◌∷◌, ◌++◌, Option, none, some, ◌==◌, leb,
  if◌then◌else◌, get_or, same,
}
use linuxax.Ipd.Routing.{axrt_bcast, axrt_default, axrt_permanent, axrt_learn}
use linuxax.Address.Text.{is_digit, scan_digits}

-- `DEFAULT_UDP_PORT`
abbrev pub default_udp_port : ℕ
default_udp_port = 10093

abbrev pub is_delimiter : ℕ → Bool
is_delimiter c = (c == 0x20) || (c == 9) || (c == 10) || (c == 13)

-- The words from a character on, of the first of which `word` is read already.
unfoldable pub words_from : List ℕ → List ℕ → List (List ℕ)
words_from [] [] = []
words_from (w ∷ ws) [] = (w ∷ ws) ∷ []
words_from ws (c ∷ s) =
    let more = words_from (ws ++ (c ∷ [])) s in
    let next = words_from [] s in
    if is_delimiter c then elim ws [ [] ↦ next | w ∷ ws' ↦ (w ∷ ws') ∷ next ] else more

-- What stands behind the first word and its delimiter, which `strtok` has overwritten; `none` if the
-- line ends with the word.
unfoldable pub behind_word : Bool → List ℕ → Option (List ℕ)
behind_word started [] = none
behind_word started (c ∷ s) =
    let inside = behind_word true s in
    let before = behind_word false s in
    if is_delimiter c then if started then some s else before else inside

abbrev pub is_comment : List ℕ → Bool
is_comment q = get_or q 0 0 == 0x23

unfoldable pub only : (ℕ → Bool) → List ℕ → Bool
only test [] = true
only test (c ∷ q) = test c && only test q

unfoldable pub has_char : ℕ → List ℕ → Bool
has_char c [] = false
has_char c (d ∷ q) = (c == d) || has_char c q

-- The flags that a word of the letters b, d, p and l adds; other words are passed over.
unfoldable pub add_flags : List ℕ → ℕ → ℕ
unfolding only has_char
add_flags q flags =
    let b = if has_char 0x62 q then axrt_bcast else 0 in
    let d = if has_char 0x64 q then axrt_default else 0 in
    let p = if has_char 0x70 q then axrt_permanent else 0 in
    let l = if has_char 0x6c q then axrt_learn else 0 in
    if only (λ c. has_char c (0x62 ∷ 0x64 ∷ 0x70 ∷ 0x6c ∷ [])) q
    then bit_or (bit_or (bit_or (bit_or flags b) d) p) l
    else flags

-- `udp`
abbrev udp_word : List ℕ
udp_word = 0x75 ∷ 0x64 ∷ 0x70 ∷ []

-- The port of a number, if it is one.
unfoldable pub set_port : ℕ → List ℕ → ℕ
set_port uport q = let i = scan_digits 0 q in if not (i == 0) && leb i 65535 then i else uport

-- The loop over the words behind the host of a route: the port and the flags.
unfoldable pub route_words : ℕ → ℕ → List (List ℕ) → ℕ × ℕ
unfolding add_flags set_port only
route_words uport flags [] = (uport, flags)
route_words uport flags (q ∷ []) =
    if is_comment q
    then (uport, flags)
    else if same q udp_word
    then (if uport == 0 then default_udp_port else uport, flags)
    else (uport, add_flags q flags)
route_words uport flags (q ∷ q' ∷ qs) =
    let port = if uport == 0 then default_udp_port else uport in
    let numbered = route_words (set_port port q') flags qs in
    let flagged = route_words port (add_flags q' flags) qs in
    let other = route_words uport (add_flags q flags) (q' ∷ qs) in
    if is_comment q
    then (uport, flags)
    else if same q udp_word
    then if is_comment q' then (port, flags) else if only is_digit q' then numbered else flagged
    else other
