-- ===== src/Ipd/Setup/Lines.antt =====
-- ax25apps/ax25ipd/config.c: `parse_line`. The words of a line are those that `strtok` makes of it.
use linuxax.Prelude.{
  ℕ, ◌-◌, ◌%◌, ◌^◌, bit_or, Bool, true, false, not, ◌||◌, List, [], ◌∷◌, Option, none, some, ◌==◌,
  ltb, if◌then◌else◌, length, take, get_or, same,
}
use linuxax.Ipd.Frame.{◌>>=◌}
use linuxax.Ipd.Kiss.{param_add}
use linuxax.Ipd.Routing.{Routes, axrt_permanent, axrt_learn, route_add, bcast_add}
use linuxax.Ipd.Process.{Config}
use linuxax.Ipd.Setup.Words.{default_udp_port, words_from, behind_word, is_comment, route_words}
use linuxax.Ipd.Setup.{SignedNumber, atoi, word, a_to_call}

-- The settings, the routes and the parameters of the TNC; `my_udp` is in the host's order.
pub record Setup : Type 0 where
  pub config : Config
  pub ttydevice : List ℕ
  pub ttyspeed : SignedNumber
  pub loglevel : SignedNumber
  pub bc_interval : SignedNumber
  pub bc_every : Bool
  pub my_udp : ℕ
  pub routes : Routes
  pub params : List (ℕ × ℕ)

abbrev no_call : List ℕ
no_call = 0 ∷ 0 ∷ 0 ∷ 0 ∷ 0 ∷ 0 ∷ 0 ∷ []

-- `config_init` without the counters.
unfoldable pub config_init : Setup → Setup
config_init c = record c {
  config = record (c.config) {
    mycallsign = no_call;
    myalias = no_call;
    mycallsign2 = no_call;
    myalias2 = no_call;
    digi = true;
    dual_port = false;
    udp_mode = false;
    ip_mode = false;
    bc_text = [];
  };
  ttydevice = [];
  ttyspeed = (false, 9600);
  loglevel = (false, 0);
  bc_interval = (false, 0);
  bc_every = false;
  my_udp = 0;
}

-- The loop over the callsigns of `broadcast`; false is -2.
pub add_bcasts : List (List ℕ) → Routes → Bool × Routes
unfolding a_to_call
add_bcasts [] t = (true, t)
add_bcasts (q ∷ qs) t =
    let (read, tcall) = a_to_call q [] in
    let more = add_bcasts qs (bcast_add (some tcall) t) in if read then more else (false, t)

-- The commands, by their first word; a comment or an empty line is none.
pub data Command : Type 0 where
  mycall_line mycall2_line myalias_line myalias2_line device_line mode_line speed_line socket_line
        beacon_line btext_line loglevel_line route_line broadcast_line param_line unknown :
      Command

unfoldable pub command : List ℕ → Command
command p =
    if same p (0x6d ∷ 0x79 ∷ 0x63 ∷ 0x61 ∷ 0x6c ∷ 0x6c ∷ [])
    then mycall_line
    else if same p (0x6d ∷ 0x79 ∷ 0x63 ∷ 0x61 ∷ 0x6c ∷ 0x6c ∷ 0x32 ∷ [])
    then mycall2_line
    else if same p (0x6d ∷ 0x79 ∷ 0x61 ∷ 0x6c ∷ 0x69 ∷ 0x61 ∷ 0x73 ∷ [])
    then myalias_line
    else if same p (0x6d ∷ 0x79 ∷ 0x61 ∷ 0x6c ∷ 0x69 ∷ 0x61 ∷ 0x73 ∷ 0x32 ∷ [])
    then myalias2_line
    else if same p (0x64 ∷ 0x65 ∷ 0x76 ∷ 0x69 ∷ 0x63 ∷ 0x65 ∷ [])
    then device_line
    else if same p (0x6d ∷ 0x6f ∷ 0x64 ∷ 0x65 ∷ [])
    then mode_line
    else if same p (0x73 ∷ 0x70 ∷ 0x65 ∷ 0x65 ∷ 0x64 ∷ [])
    then speed_line
    else if same p (0x73 ∷ 0x6f ∷ 0x63 ∷ 0x6b ∷ 0x65 ∷ 0x74 ∷ [])
    then socket_line
    else if same p (0x62 ∷ 0x65 ∷ 0x61 ∷ 0x63 ∷ 0x6f ∷ 0x6e ∷ [])
    then beacon_line
    else if same p (0x62 ∷ 0x74 ∷ 0x65 ∷ 0x78 ∷ 0x74 ∷ [])
    then btext_line
    else if same p (0x6c ∷ 0x6f ∷ 0x67 ∷ 0x6c ∷ 0x65 ∷ 0x76 ∷ 0x65 ∷ 0x6c ∷ [])
    then loglevel_line
    else if same p (0x72 ∷ 0x6f ∷ 0x75 ∷ 0x74 ∷ 0x65 ∷ [])
    then route_line
    else if same p (0x62 ∷ 0x72 ∷ 0x6f ∷ 0x61 ∷ 0x64 ∷ 0x63 ∷ 0x61 ∷ 0x73 ∷ 0x74 ∷ [])
    then broadcast_line
    else if same p (0x70 ∷ 0x61 ∷ 0x72 ∷ 0x61 ∷ 0x6d ∷ [])
    then param_line
    else unknown

-- A line whose first argument is a callsign, for the variable `old`.
abbrev with_call : List ℕ → List (List ℕ) → (List ℕ → Setup) → Setup → ℕ × Setup
with_call old [] store c = (1, c)
with_call old (q ∷ qs) store c =
    let (read, tcall) = a_to_call q old in (if read then 0 else 2, store tcall)

abbrev set_config : Setup → Config → Setup
set_config c cfg = record c { config = cfg }

-- `mode`, `socket` and `beacon`
pub mode_words : List (List ℕ) → Setup → ℕ × Setup
mode_words [] c = (1, c)
mode_words (q ∷ qs) c =
    if same q (0x64 ∷ 0x69 ∷ 0x67 ∷ 0x69 ∷ [])
    then (0, set_config c (record (c.config) { digi = true }))
    else if same q (0x74 ∷ 0x6e ∷ 0x63 ∷ [])
    then (0, set_config c (record (c.config) { digi = false }))
    else (4, c)

pub socket_words : List (List ℕ) → Setup → ℕ × Setup
socket_words [] c = (1, c)
socket_words (q ∷ qs) c =
    let (negative, i) = atoi (elim qs [ [] ↦ [] | q' ∷ _ ↦ q' ]) in
    let port = if negative || (i == 0) then default_udp_port else i % 2 ^ 16 in
    if same q (0x69 ∷ 0x70 ∷ [])
    then (0, set_config c (record (c.config) { ip_mode = true }))
    else if same q (0x75 ∷ 0x64 ∷ 0x70 ∷ [])
    then (0, record c { config = record (c.config) { udp_mode = true }; my_udp = port })
    else (9, c)

pub beacon_words : List (List ℕ) → Setup → ℕ × Setup
beacon_words [] c = (1, c)
beacon_words (q ∷ qs) c =
    let kind =
      if same q (0x65 ∷ 0x76 ∷ 0x65 ∷ 0x72 ∷ 0x79 ∷ [])
      then some true
      else if same q (0x61 ∷ 0x66 ∷ 0x74 ∷ 0x65 ∷ 0x72 ∷ [])
      then some false
      else none in
    elim kind [
      | none ↦ (8, c)
      | some every ↦ elim qs [
        | [] ↦ (1, record c { bc_every = every })
        | q' ∷ _ ↦ (0, record c { bc_every = every; bc_interval = atoi q' })
      ]
    ]

-- `btext`: what stands behind the word but for the last character.
pub btext_words : List ℕ → Setup → ℕ × Setup
btext_words q c =
    if ltb (length q) 2
    then (1, c)
    else if ltb 128 (length q)
    then (7, c)
    else (0, set_config c (record (c.config) { bc_text = take 127 (take (length q - 1) q) }))

-- `route`, with the two look-ups of an address.
unfoldable pub route_line_words :
    (inet_addr gethostbyname : List ℕ → Option ℕ) → List (List ℕ) → Setup → ℕ × Setup
unfolding route_words
route_line_words inet_addr gethostbyname [] c = (1, c)
route_line_words inet_addr gethostbyname (q ∷ qs) c =
    let (read, tcall) = a_to_call q [] in
    let routed : ℕ × Setup = elim qs [
      | [] ↦ (1, c)
      | thost ∷ ws ↦
          let tip : ℕ = elim (inet_addr thost) [
            | some j ↦ j
            | none ↦ elim (gethostbyname thost) [ some a ↦ a | none ↦ 0 ]
          ] in
          let flags : ℕ = elim (inet_addr thost) [
            | some j ↦ if j == 0 then bit_or axrt_permanent axrt_learn else axrt_permanent
            | none ↦ 0
          ] in
          let (uport, flags') = route_words c.my_udp flags ws in
          (0, record c { routes = route_add thost (some tip) (some tcall) uport flags' c.routes })
    ] in
    if read then routed else (2, c)

pub param_words : List (List ℕ) → Setup → ℕ × Setup
param_words (q ∷ q' ∷ qs) c =
    (0, record c { params = param_add c.params (word (atoi q)) (word (atoi q')) })
param_words _ c = (1, c)

-- `parse_line`; `none` is a read behind the end of a line `btext` without anything behind the word.
unfoldable pub parse_line :
    (inet_addr gethostbyname : List ℕ → Option ℕ) → List ℕ → Setup → Option (ℕ × Setup)
unfolding words_from behind_word command mode_words socket_words beacon_words btext_words
    route_line_words add_bcasts param_words
parse_line inet_addr gethostbyname buf c = elim (words_from [] buf) [
  | [] ↦ some (0, c)
  | p ∷ qs ↦ if is_comment p then some (0, c) else elim (command p) [
    | mycall_line ↦ some (
        with_call c.config.mycallsign qs
          (λ call. set_config c (record (c.config) { mycallsign = call })) c)
    | mycall2_line ↦ some (
        with_call c.config.mycallsign2 qs
          (λ call. set_config c (record (c.config) { mycallsign2 = call })) c)
    | myalias_line ↦ some (
        with_call c.config.myalias qs
          (λ call. set_config c (record (c.config) {
            myalias = call;
            dual_port =
                if (a_to_call (elim qs [ [] ↦ [] | q ∷ _ ↦ q ]) []).0
                then not (get_or c.config.mycallsign2 0 0 == 0)
                else c.config.dual_port;
          }))
          c)
    | myalias2_line ↦ some (
        with_call c.config.myalias2 qs
          (λ call. set_config c (record (c.config) { myalias2 = call })) c)
    | device_line ↦
        if not (length c.ttydevice == 0)
        then some (0, c)
        else some (elim qs [ [] ↦ (1, c) | q ∷ _ ↦ (0, record c { ttydevice = take 4095 q }) ])
    | mode_line ↦ some (mode_words qs c)
    | speed_line ↦ some (elim qs [ [] ↦ (1, c) | q ∷ _ ↦ (0, record c { ttyspeed = atoi q }) ])
    | socket_line ↦ some (socket_words qs c)
    | beacon_line ↦ some (beacon_words qs c)
    | btext_line ↦ behind_word false buf >>= λ q. some (btext_words q c)
    | loglevel_line ↦ some (elim qs [ [] ↦ (1, c) | q ∷ _ ↦ (0, record c { loglevel = atoi q }) ])
    | route_line ↦ some (route_line_words inet_addr gethostbyname qs c)
    | broadcast_line ↦
        let (read, t) = add_bcasts qs c.routes in
        some (if read then 0 else 2, record c { routes = t })
    | param_line ↦ some (param_words qs c)
    | unknown ↦ some (999, c)
  ]
]
