-- ===== src/Ipd/Call/Tests.antt =====
-- The theorems on callsigns at two calls that differ in the SSID.
use linuxax.Prelude.{ℕ, ◌≡◌, ◌↔◌, true, List, [], ◌∷◌, refl}
use linuxax.Ipd.Call.{differs, addrmatch}
use linuxax.Ipd.Call.Match.{Matches, addrmatch_iff}

abbrev with_ssid : ℕ → List ℕ
with_ssid last = 0x82 ∷ 0x84 ∷ 0x86 ∷ 0x62 ∷ 0x88 ∷ 0x8a ∷ last ∷ []

-- An entry without SSID matches the station with any SSID, but not the other way round.
match_any : addrmatch (with_ssid 0x66) (with_ssid 0x60) ≡ true
unfolding addrmatch differs
match_any = refl

addrmatch_iff_example :
    (addrmatch (with_ssid 0x66) (with_ssid 0x60) ≡ true) ↔ Matches (with_ssid 0x66) (with_ssid 0x60)
addrmatch_iff_example = addrmatch_iff (with_ssid 0x66) (with_ssid 0x60)
