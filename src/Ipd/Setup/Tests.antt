-- ===== src/Ipd/Setup/Tests.antt =====
-- Callsigns and lines of a configuration file.
use linuxax.Prelude.{
  ℕ, ◌≡◌, refl, true, false, List, [], ◌∷◌, ◌++◌, Option, none, some, ◌==◌, if◌then◌else◌, All,
  arith, get_or, same,
}
use linuxax.Address.Text.{
  scan_int, scan_signed, scan_unsigned, scan_digits, blanks, ax25_ntoa, ax25_aton_entry,
}
use linuxax.Address.Text.Entry.{address}
use linuxax.Address.Text.Tokens.{IsWord, line}
use linuxax.Ipd.Routing.{leaf, find_route, call_to_ip}
use linuxax.Ipd.Call.{normal_call}
use linuxax.Ipd.Setup.{atoi, a_from, a_to_call, call_to_a}
use linuxax.Ipd.Setup.Callsigns.{call_to_a-ax25_ntoa}
use linuxax.Ipd.Setup.Words.{route_words, add_flags, set_port, only, has_char}
use linuxax.Ipd.Setup.Lines.{Setup, config_init, parse_line}
use linuxax.Ipd.Setup.RouteLine.{
  route_word, Encapsulation, udp_number, words_of, port_of, IsPort, IsOption, parse_line-route,
}

-- N0AX-7
abbrev name : List ℕ
name = 0x30 ∷ 0x41 ∷ 0x58 ∷ []

abbrev text : List ℕ
text = 0x4e ∷ 0x30 ∷ 0x41 ∷ 0x58 ∷ 0x2d ∷ 0x37 ∷ []

abbrev call : List ℕ
call = 0x9c ∷ 0x60 ∷ 0x82 ∷ 0xb0 ∷ 0x40 ∷ 0x40 ∷ 0x0e ∷ []

call_to_a-ax25_ntoa_example :
    ((call_to_a (address (0x4e ∷ name) 7)) ≡ ax25_ntoa (address (0x4e ∷ name) 7))
    × (ax25_aton_entry (call_to_a (address (0x4e ∷ name) 7)) ≡ some (address (0x4e ∷ name) 7))
    × (a_to_call (call_to_a (address (0x4e ∷ name) 7)) [] ≡ (true, address (0x4e ∷ name) 7))
call_to_a-ax25_ntoa_example =
    call_to_a-ax25_ntoa 0x4e name 7 [] (refl, (refl, (refl, (refl, tt)))) (omega arith)
      (omega arith)

abbrev start : Setup
start = config_init (record {
  config = record {
    mycallsign = [];
    myalias = [];
    mycallsign2 = [];
    myalias2 = [];
    digi = false;
    dual_port = false;
    ttyfd_bpq = false;
    udp_mode = false;
    ip_mode = false;
    bc_text = [];
  };
  ttydevice = [];
  ttyspeed = (false, 0);
  loglevel = (false, 0);
  bc_interval = (false, 0);
  bc_every = false;
  my_udp = 0;
  routes = record {
    route_tbl = [];
    default_route = none;
    bcast_tbl = [];
    callsign_lookup = leaf;
    last_dns_time = 0;
    threadrunning = false;
  };
  params = [];
})

-- Addresses that begin with a 1 are numbers.
abbrev numbers : List ℕ → Option ℕ
numbers s = if get_or s 0 0 == 0x31 then some 0x0a000001 else none

-- 10.0.0.1, udp, 99 and d
abbrev host : List ℕ
host = 0x31 ∷ 0x30 ∷ 0x2e ∷ 0x30 ∷ 0x2e ∷ 0x30 ∷ 0x2e ∷ 0x31 ∷ []

abbrev further : List (List ℕ)
further = (0x75 ∷ 0x64 ∷ 0x70 ∷ []) ∷ (0x39 ∷ 0x39 ∷ []) ∷ (0x64 ∷ []) ∷ []

text_read : a_to_call text [] ≡ (true, call)
unfolding a_to_call a_from atoi scan_int scan_signed scan_unsigned scan_digits blanks
text_read = refl

line_words : All IsWord (text ∷ host ∷ further)
line_words = (
  record { long = omega arith; solid = (refl, (refl, (refl, (refl, (refl, (refl, tt)))))) },
  (
    record {
      long = omega arith;
      solid = (refl, (refl, (refl, (refl, (refl, (refl, (refl, (refl, tt))))))));
    },
    (
      record { long = omega arith; solid = (refl, (refl, (refl, tt))) },
      (
        record { long = omega arith; solid = (refl, (refl, tt)) },
        (record { long = omega arith; solid = (refl, tt) }, tt),
      ),
    ),
  ),
)

no_route : find_route (normal_call call) start.routes.route_tbl ≡ none
unfolding find_route config_init
no_route = refl

abbrev way : Encapsulation
way = udp_number (0x39 ∷ 0x39 ∷ []) 99

way-IsPort : IsPort way
unfolding IsPort only scan_digits
way-IsPort = (refl, refl, refl, omega arith, omega arith)

flag-IsOption : IsOption (0x64 ∷ [])
unfolding only same
flag-IsOption = record { no_comment = refl; no_udp = refl; no_number = refl }

parse_line-route_example :
    (c' : Setup) × (parse_line numbers
        (λ s. none)
        (line (route_word ∷ text ∷ host ∷ further) ++ (10 ∷ []))
        start
      ≡ some (0, c'))
    × (call_to_ip call c'.routes ≡ some (0x0a000001, 99))
unfolding words_of port_of config_init
parse_line-route_example =
    parse_line-route numbers (λ s. none) text host way ((0x64 ∷ []) ∷ []) call 0x0a000001 start
      line_words way-IsPort (flag-IsOption, tt) (omega arith) text_read (λ e. cc) refl no_route

further_read : route_words 0 4 further ≡ (99, 6)
unfolding route_words add_flags set_port only has_char same scan_digits
further_read = refl
