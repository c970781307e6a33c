-- ===== src/Netrom/Exchange.antt =====
-- What one node tells in its broadcasts, another learns.
use mathlib.Core.Path.{subst}
use linuxax.Prelude.{
  ℕ, ◌+◌, ◌*◌, ◌<◌, ◌≡◌, sym, Bool, true, false, List, [], ◌∷◌, ◌++◌, some, map, length, All, arith,
  Bool-cases, Option-cases, some_inj, inl, inr, ◌==◌, ltb, ◌||◌, if◌then◌else◌, same,
}
use linuxax.Ipd.Frame.{◌>>=◌}
use linuxax.Address.Text.{ax25_aton_entry, ax25_ntoa}
use linuxax.Address.Text.Entry.{ax25_aton_entry-length}
use linuxax.Netrom.{NeighLine, NodeLine, Entry, pad}
use linuxax.Netrom.Entries.{FitsMnemonic, FitsEntry, payload}
use linuxax.Netrom.Transmit.{find_neighbour, build_others}
use linuxax.Netrom.Transmit.Told.{entry_of, told, told-passed_over, told-entered}
use linuxax.Netrom.Transmit.Chunks.{message_of, flatten, build_others-Sends}
use linuxax.Netrom.Receive.{NodeRoute, Port, validcallsign, port_quality, receive_nodes}
use linuxax.Netrom.Receive.Learnt.{own_route, learnt, receive_nodes-payload}

-- A line of the nodes whose mnemonic and quality have room in an entry.
pub record FitsLine (n : NodeLine) : Type 0 where
  pub mnemonic : FitsMnemonic n.mnemonic
  pub quality : n.quality < 256

entry_of-FitsEntry :
    (min_obs : ℕ) (neighs : List NeighLine) (n : NodeLine) (e : Entry)
    → FitsLine n
    → entry_of min_obs neighs n ≡ some e
    → FitsEntry e
unfolding entry_of
entry_of-FitsEntry min_obs neighs n e fits is =
    elim (Bool-cases (ltb n.obs_count min_obs || (n.quality == 0))) [
      | inl silent ↦ absurd (let gone = rw silent at is in cc)
      | inr heard ↦ elim (Option-cases (find_neighbour n.neigh_no neighs)) [
        | inl lost ↦ absurd (let gone = rw (heard, lost, ◌>>=◌) at is in cc)
        | inr (neighbour, found) ↦ elim (Option-cases (ax25_aton_entry n.callsign)) [
          | inl bad ↦ absurd (let gone = rw (heard, found, bad, ◌>>=◌) at is in cc)
          | inr (call, read) ↦ elim (Option-cases (ax25_aton_entry neighbour)) [
            | inl bad ↦ absurd (let gone = rw (heard, found, read, bad, ◌>>=◌) at is in cc)
            | inr (best, read') ↦
                subst FitsEntry (some_inj (rw (heard, found, read, read', ◌>>=◌) at is)) (record {
                  callsign = ax25_aton_entry-length n.callsign call read;
                  mnemonic = cut (same n.mnemonic (0x2a ∷ []));
                  best_neighbour = ax25_aton_entry-length neighbour best read';
                  best_quality = fits.quality;
                })
          ]
        ]
      ]
    ]
  where
    cut : (star : Bool) → FitsMnemonic (if star then [] else n.mnemonic)
    cut true = record { plain = tt; few = omega arith }
    cut false = fits.mnemonic

told-FitsEntry :
    (min_obs : ℕ) (neighs : List NeighLine) (ns : List NodeLine)
    → All FitsLine ns
    → All FitsEntry (told min_obs neighs ns)
unfolding told
told-FitsEntry min_obs neighs [] fits = tt
told-FitsEntry min_obs neighs (n ∷ ns) fits =
    let rest = told-FitsEntry min_obs neighs ns fits.1 in
    elim (Option-cases (entry_of min_obs neighs n)) [
      | inl over ↦ rw (told-passed_over min_obs neighs n ns over) rest
      | inr (e, is) ↦
          rw (told-entered min_obs neighs n ns e is)
            (entry_of-FitsEntry min_obs neighs n e fits.0 is, rest)
    ]

All-split {ℓ κ} :
    {A : Type ℓ} (P : A → Type κ) (xs ys : List A) → All P (xs ++ ys) → All P xs × All P ys
All-split P [] ys h = (tt, h)
All-split P (x ∷ xs) ys h = let (l, r) = All-split P xs ys h.1 in ((h.0, l), r)

each_chunk {κ} :
    (P : List Entry → Type κ) (chunks : List (List Entry))
    → ((es : List Entry) → All FitsEntry es → P es)
    → All FitsEntry (flatten chunks)
    → All P chunks
each_chunk P [] f h = tt
each_chunk P (c ∷ cs) f h =
    let (l, r) = All-split FitsEntry c (flatten cs) h in (f c l, each_chunk P cs f r)

-- The nodes that `build_others` tells, in lines whose mnemonics and qualities have room in an entry,
-- are learnt by a station that receives its broadcasts from a valid callsign, with whatever behind
-- them in its buffer, and whose kernel sets every route: `receive_nodes` ends on each of them and
-- asks for a route to the sender, if its alias is valid, and for the routes of the entries up to the
-- first that is not valid, without those that lead back or are too bad. Together the broadcasts have
-- the entries of all lines that are told, in order.
pub receive_nodes-build_others :
    (alias : List ℕ) (min_obs : ℕ) (neighs : List NeighLine) (ns : List NodeLine) (compliant : Bool)
    (my_call : List ℕ) (port : Port) (add_route : List NodeRoute → NodeRoute → Bool) (obs_count : ℕ)
    (neighs' : List NeighLine) (neighbour after : List ℕ)
    → FitsMnemonic alias
    → All FitsLine ns
    → ((asked : List NodeRoute) (r : NodeRoute) → add_route asked r ≡ true)
    → validcallsign neighbour ≡ true
    → (chunks : List (List Entry)) × (build_others alias min_obs neighs ns
        ≡ some (map (message_of alias) chunks))
      × (flatten chunks ≡ told min_obs neighs ns)
      × All
          (λ (es : List Entry).
            receive_nodes compliant my_call add_route port obs_count neighs'
              ((pad alias ++ payload es) ++ after)
              (6 + 21 * length es)
              neighbour
            ≡ some (
                own_route compliant my_call port obs_count neighs' alias neighbour
                ++ learnt compliant my_call port neighbour
                    (port_quality port (ax25_ntoa neighbour) neighs')
                    obs_count
                    es))
          chunks
receive_nodes-build_others alias min_obs neighs ns compliant my_call port add_route obs_count
      neighs' neighbour after named fits sets valid =
    let (chunks, sent, whole, sizes) = build_others-Sends alias min_obs neighs ns in
    (
      chunks,
      sent,
      whole,
      each_chunk _ chunks
          (λ es fit.
            receive_nodes-payload compliant my_call port add_route sets obs_count neighs' alias es
              after neighbour named fit valid)
          (subst (All FitsEntry) (sym whole) (told-FitsEntry min_obs neighs ns fits)),
    )
