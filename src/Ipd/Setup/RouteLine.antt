-- ===== src/Ipd/Setup/RouteLine.antt =====
-- A line `route` of the configuration file, and the look-up of its callsign.
use linuxax.Prelude.{
  ℕ, ◌%◌, ◌^◌, ◌≤◌, ◌<◌, ◌≡◌, ◌≢◌, refl, ap, sym, ◌∙◌, bit_and, true, false, List, [], ◌∷◌, ◌++◌,
  Option, none, some, ◌==◌, if◌then◌else◌, All, arith, append_assoc, append-nil, get_or, same,
  Bool-cases, inl, inr,
}
use linuxax.Address.Text.{is_space, is_digit, scan_digits}
use linuxax.Address.Text.Tokens.{IsWord, line}
use linuxax.Ipd.Call.{addrmatch, normal_call}
use linuxax.Ipd.Call.Match.{addrmatch_iff}
use linuxax.Ipd.Routing.{Route, find_route, route_add, call_to_ip}
use linuxax.Ipd.Setup.{a_to_call}
use linuxax.Ipd.Setup.Words.{
  is_delimiter, words_from, route_words, is_comment, only, set_port, add_flags,
}
use linuxax.Ipd.Setup.Lines.{Setup, command, route_line_words, parse_line}

words_from-solid :
    (ws w rest : List ℕ)
    → All (λ c. is_space c ≡ false) w
    → words_from ws (w ++ rest) ≡ words_from (ws ++ w) rest
unfolding words_from
words_from-solid ws [] rest h = ap (λ t. words_from t rest) (sym (append-nil ws))
words_from-solid ws (c ∷ w) rest h =
    let inside : is_delimiter c ≡ false = ground (arith, h.0) in
    rw inside (
      words_from-solid (ws ++ (c ∷ [])) w rest h.1
      ∙ ap (λ t. words_from t rest) (append_assoc ws (c ∷ []) w))

-- A word and what follows it.
words_from-word :
    (w rest : List ℕ) (d : ℕ)
    → IsWord w
    → is_delimiter d ≡ true
    → words_from [] (w ++ (d ∷ rest)) ≡ w ∷ words_from [] rest
unfolding words_from
words_from-word [] rest d h e = absurd (omega (arith, h.long))
words_from-word (c ∷ w) rest d h e = words_from-solid [] (c ∷ w) (d ∷ rest) h.solid ∙ rw e refl

words_from-line :
    (w : List ℕ) (ws : List (List ℕ))
    → All IsWord (w ∷ ws)
    → words_from [] (line (w ∷ ws) ++ (10 ∷ [])) ≡ w ∷ ws
unfolding line words_from
words_from-line w [] h = words_from-word w [] 10 h.0 refl
words_from-line w (w' ∷ ws) h =
    ap (words_from []) (append_assoc w (0x20 ∷ line (w' ∷ ws)) (10 ∷ []))
    ∙ words_from-word w (line (w' ∷ ws) ++ (10 ∷ [])) 0x20 h.0 refl
    ∙ ap (λ t. w ∷ t) (words_from-line w' ws h.1)

find_route-new :
    (mycall : List ℕ) (rs : List Route) (r : Route)
    → find_route mycall rs ≡ none
    → addrmatch mycall r.callsign ≡ true
    → find_route mycall (rs ++ (r ∷ [])) ≡ some r
unfolding find_route
find_route-new mycall [] r e m = rw m refl
find_route-new mycall (b ∷ rs) r e m = elim (Bool-cases (addrmatch mycall b.callsign)) [
  | inl hit ↦ absurd (let bad = rw hit at e in cc)
  | inr miss ↦ rw miss (find_route-new mycall rs r (rw miss at e) m)
]

addrmatch_self : (a : List ℕ) → get_or a 0 0 ≢ 0 → addrmatch a a ≡ true
addrmatch_self a h =
    (addrmatch_iff a a).1 (record { present = (h, h); chars = λ i lt. refl; ssids = inr refl })

-- `route`
abbrev pub route_word : List ℕ
route_word = 0x72 ∷ 0x6f ∷ 0x75 ∷ 0x74 ∷ 0x65 ∷ []

-- The line is accepted, with the port that its words give.
accepted :
    (inet_addr gethostbyname : List ℕ → Option ℕ) (q thost : List ℕ) (ws : List (List ℕ))
    (call : List ℕ) (ip : ℕ) (c : Setup)
    → All IsWord (q ∷ thost ∷ ws)
    → a_to_call q [] ≡ (true, call)
    → bit_and (get_or call 0 0) 0xfe ≢ 0
    → inet_addr thost ≡ some ip
    → find_route (normal_call call) c.routes.route_tbl ≡ none
    → (c' : Setup) × (parse_line inet_addr gethostbyname
          (line (route_word ∷ q ∷ thost ∷ ws) ++ (10 ∷ []))
          c
        ≡ some (0, c'))
      × (call_to_ip call c'.routes
          ≡ some (ip, (route_words c.my_udp (if ip == 0 then 12 else 4) ws).0 % 2 ^ 16))
unfolding parse_line command route_line_words same normal_call call_to_ip route_add
accepted inet_addr gethostbyname q thost ws call ip c words read present numeric fresh =
    let named : IsWord route_word = record {
      long = omega arith;
      solid = (refl, (refl, (refl, (refl, (refl, tt)))));
    } in
    let split = words_from-line route_word (q ∷ thost ∷ ws) (named, words) in
    let (uport, flags) = route_words c.my_udp (if ip == 0 then 12 else 4) ws in
    let c' : Setup = record c {
      routes = route_add thost (some ip) (some call) uport flags c.routes;
    } in
    let new : Route = record {
      callsign = normal_call call;
      ip_addr = ip;
      udp_port = uport % 2 ^ 16;
      flags = flags;
      hostnm = thost;
    } in
    let known : find_route (normal_call call) (c.routes.route_tbl ++ (new ∷ [])) ≡ some new =
      find_route-new (normal_call call) c.routes.route_tbl new fresh
        (addrmatch_self (normal_call call) present) in
    (c', rw (split, parse_line) (rw (read, numeric) refl), rw (known, call_to_ip) refl)

-- `udp`
abbrev pub udp : List ℕ
udp = 0x75 ∷ 0x64 ∷ 0x70 ∷ []

-- What a route says of its encapsulation: nothing, `udp`, or `udp` and a number.
pub data Encapsulation : Type 0 where
  unsaid udp_only : Encapsulation
  udp_number : (q : List ℕ) (n : ℕ) → Encapsulation

unfoldable pub words_of : Encapsulation → List (List ℕ)
words_of unsaid = []
words_of udp_only = udp ∷ []
words_of (udp_number q n) = udp ∷ q ∷ []

-- The port to which it sends, 0 for IP encapsulation.
unfoldable pub port_of : ℕ → Encapsulation → ℕ
port_of my_udp unsaid = my_udp
port_of my_udp udp_only = if my_udp == 0 then 10093 else my_udp
port_of my_udp (udp_number q n) = n

-- The number is one of digits that can be a port.
unfoldable pub IsPort : Encapsulation → Type 0
IsPort unsaid = Unit
IsPort udp_only = Unit
IsPort (udp_number q n) =
    (is_comment q ≡ false)
    × (only is_digit q ≡ true)
    × (scan_digits 0 q ≡ n)
    × (1 ≤ n)
    × (n ≤ 65535)

-- A word of flags, or another that says nothing of the port.
pub record IsOption (q : List ℕ) : Type 0 where
  pub no_comment : is_comment q ≡ false
  pub no_udp : same q udp ≡ false
  pub no_number : only is_digit q ≡ false

route_words-options :
    (uport flags : ℕ) (qs : List (List ℕ))
    → All IsOption qs
    → (route_words uport flags qs).0 ≡ uport
unfolding route_words
route_words-options uport flags [] h = refl
route_words-options uport flags (q ∷ []) h =
    let o = h.0 in rw (o.no_comment, o.no_udp, route_words) refl
route_words-options uport flags (q ∷ q' ∷ qs) h =
    let o = h.0 in
    rw (o.no_comment, o.no_udp, route_words)
      (route_words-options uport (add_flags q flags) (q' ∷ qs) h.1)

route_words-port :
    (my_udp flags : ℕ) (way : Encapsulation) (qs : List (List ℕ))
    → IsPort way
    → All IsOption qs
    → (route_words my_udp flags (words_of way ++ qs)).0 ≡ port_of my_udp way
unfolding route_words words_of port_of IsPort set_port same
route_words-port my_udp flags unsaid qs p h = route_words-options my_udp flags qs h
route_words-port my_udp flags udp_only [] p h = refl
route_words-port my_udp flags udp_only (q ∷ qs) p h =
    let o = h.0 in
    rw (o.no_comment, o.no_number, route_words)
      (route_words-options (if my_udp == 0 then 10093 else my_udp) (add_flags q flags) qs h.1)
route_words-port my_udp flags (udp_number q n) qs (no_comment, number, reads, low, high) h =
    let port : set_port (if my_udp == 0 then 10093 else my_udp) q ≡ n =
      rw (reads) (ground (arith, low, high)) in
    rw (no_comment, number, route_words)
      (ap (λ t. (route_words t flags qs).0) port ∙ route_words-options n flags qs h)

-- A line `route` with a callsign that can be read and does not begin with a 0, an address in numbers,
-- an encapsulation and further words that say nothing of the port, where no route before matches the
-- callsign: the line is accepted, and from then on `call_to_ip` answers for the callsign with the
-- address and with the port: that of the number, that of `socket udp`, or 10093 if only `udp` is said
-- and no socket. Where nothing is said, the port is that of `socket udp`, also if `socket ip` is set.
pub parse_line-route :
    (inet_addr gethostbyname : List ℕ → Option ℕ) (q thost : List ℕ) (way : Encapsulation)
    (options : List (List ℕ)) (call : List ℕ) (ip : ℕ) (c : Setup)
    → All IsWord (q ∷ thost ∷ (words_of way ++ options))
    → IsPort way
    → All IsOption options
    → c.my_udp < 2 ^ 16
    → a_to_call q [] ≡ (true, call)
    → bit_and (get_or call 0 0) 0xfe ≢ 0
    → inet_addr thost ≡ some ip
    → find_route (normal_call call) c.routes.route_tbl ≡ none
    → (c' : Setup) × (parse_line inet_addr gethostbyname
          (line (route_word ∷ q ∷ thost ∷ (words_of way ++ options)) ++ (10 ∷ []))
          c
        ≡ some (0, c'))
      × (call_to_ip call c'.routes ≡ some (ip, port_of c.my_udp way))
unfolding port_of IsPort
parse_line-route inet_addr gethostbyname q thost way options call ip c words port others small read
      present numeric fresh =
    let (c', parsed, answer) =
      accepted inet_addr gethostbyname q thost (words_of way ++ options) call ip c words read
        present numeric fresh in
    (
      c',
      parsed,
      answer
          ∙ ap (λ t. some (ip, t % 2 ^ 16))
              (route_words-port c.my_udp (if ip == 0 then 12 else 4) way options port others)
          ∙ ap (λ t. some (ip, t)) (fits way port),
    )
  where
    fits : (way : Encapsulation) → IsPort way → port_of c.my_udp way % 2 ^ 16 ≡ port_of c.my_udp way
    fits unsaid p = omega (arith, small)
    fits udp_only p = ground (arith, small)
    fits (udp_number q n) (no_comment, number, reads, low, high) = omega (arith, high)
