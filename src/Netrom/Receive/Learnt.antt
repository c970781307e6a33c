-- ===== src/Netrom/Receive/Learnt.antt =====
-- A broadcast in the format of `build_others` is learnt entry by entry.
use linuxax.Prelude.{
  ℕ, zero, suc, ◌+◌, ◌*◌, ◌-◌, ◌/◌, ◌≤◌, ◌≡◌, ◌∙◌, refl, ap, sym, Bool, true, false, not, ◌&&◌,
  List, [], ◌∷◌, ◌++◌, Option, some, ◌==◌, ltb, leb, length, All, arith, append_assoc, append-nil,
  if◌then◌else◌, Bool-cases, inl, inr,
}
use linuxax.Ipd.Frame.{◌>>=◌}
use linuxax.Address.{ax25_cmp}
use linuxax.Address.Text.{ax25_ntoa}
use linuxax.Netrom.{NeighLine, Entry, pad, get_bytes, put_entry, get_entry}
use linuxax.Netrom.Entries.{
  FitsMnemonic, FitsEntry, get_bytes-append, length-pad, unpad-pad, get_entry-put_entry, payload,
}
use linuxax.Netrom.Receive.{
  NodeRoute, Port, validcallsign, validmnemonic, Added, failed, skipped, set, port_quality,
  add_node, after_node, receive_from, receive_nodes,
}

module _ (compliant : Bool) (my_call : List ℕ) (port : Port) where
  -- An entry that says what an entry may say.
  pub is_sound : Entry → Bool
  is_sound e =
      validcallsign e.callsign
      && validmnemonic compliant e.mnemonic
      && validcallsign e.best_neighbour

  pub route_by : (neighbour : List ℕ) (quality obs_count : ℕ) → Entry → NodeRoute
  route_by neighbour quality obs_count e = record {
    callsign = e.callsign;
    mnemonic = e.mnemonic;
    neighbour = neighbour;
    device = port.device;
    quality = (quality * e.best_quality + 128) / 256;
    obs_count = obs_count;
  }

  -- A route that does not lead back here and is good enough.
  pub is_wanted : ℕ → Entry → Bool
  is_wanted quality e =
      not (ax25_cmp my_call e.best_neighbour == 0)
      && not (ltb ((quality * e.best_quality + 128) / 256) port.worst_qual)

  -- The routes of the wanted entries, up to the first entry that is not sound.
  unfoldable pub learnt : (neighbour : List ℕ) (quality obs_count : ℕ) → List Entry → List NodeRoute
  unfolding is_sound route_by is_wanted
  learnt neighbour quality obs_count [] = []
  learnt neighbour quality obs_count (e ∷ es) =
      let rest = learnt neighbour quality obs_count es in
      if is_sound e
      then (if is_wanted quality e then route_by neighbour quality obs_count e ∷ rest else rest)
      else []

  -- The route to the station itself, if it tells a mnemonic that is valid.
  pub own_route : ℕ → List NeighLine → (alias neighbour : List ℕ) → List NodeRoute
  own_route obs_count neighs alias neighbour =
      let own : NodeRoute = record {
        callsign = neighbour;
        mnemonic = alias;
        neighbour = neighbour;
        device = port.device;
        quality = port_quality port (ax25_ntoa neighbour) neighs;
        obs_count = obs_count;
      } in
      if validmnemonic compliant alias then own ∷ [] else []

  -- The three ends of `add_node`.
  data Ends (neighbour : List ℕ) (quality obs_count : ℕ) (e : Entry) (asked : List NodeRoute)
      (result : Added × List NodeRoute) : Type 0 where
    unsound :
        is_sound e ≡ false
        → result ≡ (failed, asked)
        → Ends neighbour quality obs_count e asked result
    unwanted :
        is_sound e ≡ true
        → is_wanted quality e ≡ false
        → result ≡ (skipped, asked)
        → Ends neighbour quality obs_count e asked result
    learns :
        is_sound e ≡ true
        → is_wanted quality e ≡ true
        → result ≡ (set, asked ++ (route_by neighbour quality obs_count e ∷ []))
        → Ends neighbour quality obs_count e asked result

  after_Ends :
      (neighbour : List ℕ) (quality obs_count : ℕ) (e : Entry) (es : List Entry)
      (asked : List NodeRoute) (result : Added × List NodeRoute)
      (more : List NodeRoute → Option (List NodeRoute))
      → Ends neighbour quality obs_count e asked result
      → ((asked' : List NodeRoute)
          → more asked' ≡ some (asked' ++ learnt neighbour quality obs_count es))
      → after_node result more ≡ some (asked ++ learnt neighbour quality obs_count (e ∷ es))
  unfolding after_node learnt
  after_Ends neighbour quality obs_count e es asked result more (unsound wrong ends) deep =
      rw (ends, wrong) (ap some (sym (append-nil asked)))
  after_Ends neighbour quality obs_count e es asked result more (unwanted ok wrong ends) deep =
      rw (ends, ok, wrong) (deep asked)
  after_Ends neighbour quality obs_count e es asked result more (learns ok right ends) deep =
      let r = route_by neighbour quality obs_count e in
      rw (ends, ok, right)
        (deep (asked ++ (r ∷ []))
          ∙ ap some (append_assoc asked (r ∷ []) (learnt neighbour quality obs_count es)))

  -- The kernel sets every route.
  module _ (add_route : List NodeRoute → NodeRoute → Bool)
      (sets : (asked : List NodeRoute) (r : NodeRoute) → add_route asked r ≡ true) where
    add_node-Ends :
        (neighbour : List ℕ) (quality obs_count : ℕ) (e : Entry) (asked : List NodeRoute)
        → Ends neighbour quality obs_count e asked
            (add_node compliant my_call add_route port neighbour quality obs_count e asked)
    unfolding add_node is_sound is_wanted route_by
    add_node-Ends neighbour quality obs_count e asked =
        elim (Bool-cases (validcallsign e.callsign)) [
          | inr wrong ↦ unsound (rw wrong) (rw wrong)
          | inl a ↦ elim (Bool-cases (validmnemonic compliant e.mnemonic)) [
            | inr wrong ↦ unsound (rw (a, wrong)) (rw (a, wrong))
            | inl b ↦ elim (Bool-cases (validcallsign e.best_neighbour)) [
              | inr wrong ↦ unsound (rw (a, b, wrong)) (rw (a, b, wrong))
              | inl c ↦ elim (Bool-cases (ax25_cmp my_call e.best_neighbour == 0)) [
                | inl back ↦ unwanted (rw (a, b, c)) (rw back) (rw (a, b, c, back))
                | inr on ↦
                    let bad = ltb ((quality * e.best_quality + 128) / 256) port.worst_qual in
                    elim (Bool-cases bad) [
                      | inl poor ↦ unwanted (rw (a, b, c)) (rw (on, poor)) (rw (a, b, c, on, poor))
                      | inr good ↦
                          let took = sets asked (route_by neighbour quality obs_count e) in
                          learns (rw (a, b, c)) (rw (on, good)) (rw (a, b, c, on, good, took))
                    ]
              ]
            ]
          ]
        ]

    receive_from-payload :
        (fuel : ℕ) (neighbour : List ℕ) (quality obs_count : ℕ) (es : List Entry) (after : List ℕ)
        (left : ℕ) (asked : List NodeRoute)
        → All FitsEntry es
        → suc (length es) ≤ fuel
        → left ≡ 21 * length es
        → receive_from compliant my_call add_route port fuel neighbour quality obs_count
            (payload es ++ after)
            left
            asked
          ≡ some (asked ++ learnt neighbour quality obs_count es)
    unfolding receive_from payload learnt
    receive_from-payload zero neighbour quality obs_count es after left asked fits enough l =
        absurd (omega arith)
    receive_from-payload (suc fuel) neighbour quality obs_count [] after left asked fits enough l =
        let done : leb 21 left ≡ false = ground arith in
        rw (done, receive_from) (ap some (sym (append-nil asked)))
    receive_from-payload (suc fuel) neighbour quality obs_count (e ∷ es) after left asked fits
          enough l =
        let more : leb 21 left ≡ true = ground arith in
        let read : get_entry ((put_entry e ++ payload es) ++ after)
            ≡ some (e, payload es ++ after) =
          ap get_entry (append_assoc (put_entry e) (payload es) after)
          ∙ get_entry-put_entry e (payload es ++ after) fits.0 in
        rw (more, receive_from)
          (rw (read, ◌>>=◌)
            (after_Ends neighbour quality obs_count e es asked
              (add_node compliant my_call add_route port neighbour quality obs_count e asked)
              (receive_from compliant my_call add_route port fuel neighbour quality obs_count
                (payload es ++ after) (left - 21))
              (add_node-Ends neighbour quality obs_count e asked)
              (λ asked'.
                receive_from-payload fuel neighbour quality obs_count es after (left - 21) asked'
                  fits.1 (omega arith) (omega arith))))

    -- A broadcast in the format of `build_others` behind its first byte, with whatever behind it in
    -- the buffer, from a station with a valid callsign, where the kernel sets every route: no read
    -- leaves the broadcast, the loop ends, and the kernel is asked for a route to the station, if its
    -- alias is valid, and for the routes of the entries up to the first that is not valid, without
    -- those that lead back or are too bad.
    pub receive_nodes-payload :
        (obs_count : ℕ) (neighs : List NeighLine) (alias : List ℕ) (es : List Entry)
        (after neighbour : List ℕ)
        → FitsMnemonic alias
        → All FitsEntry es
        → validcallsign neighbour ≡ true
        → receive_nodes compliant my_call add_route port obs_count neighs
            ((pad alias ++ payload es) ++ after)
            (6 + 21 * length es)
            neighbour
          ≡ some (
              own_route obs_count neighs alias neighbour
              ++ learnt neighbour (port_quality port (ax25_ntoa neighbour) neighs) obs_count es)
    unfolding receive_nodes own_route
    receive_nodes-payload obs_count neighs alias es after neighbour named fits valid =
        let read : get_bytes 6 ((pad alias ++ payload es) ++ after)
            ≡ some (pad alias, payload es ++ after) =
          ap (get_bytes 6) (append_assoc (pad alias) (payload es) after)
          ∙ get_bytes-append 6 (pad alias) (payload es ++ after) (length-pad alias) in
        let loop = λ (asked : List NodeRoute).
          receive_from-payload (suc (6 + 21 * length es)) neighbour
            (port_quality port (ax25_ntoa neighbour) neighs) obs_count es after (21 * length es)
            asked fits (omega arith) refl in
        let behind : 6 + 21 * length es - 6 ≡ 21 * length es = omega arith in
        elim (Bool-cases (validmnemonic compliant alias)) [
          | inl told ↦
              rw (valid, read, ◌>>=◌)
                (rw (unpad-pad alias named) (rw (told, sets, behind) (loop _)))
          | inr other ↦
              rw (valid, read, ◌>>=◌) (rw (unpad-pad alias named) (rw (other, behind) (loop [])))
        ]
