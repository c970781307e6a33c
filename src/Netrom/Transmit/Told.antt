-- ===== src/Netrom/Transmit/Told.antt =====
-- The entries that a broadcast tells, as a description apart from the loops.
use linuxax.Prelude.{
  ℕ, ◌≡◌, refl, ◌||◌, List, [], ◌∷◌, Option, none, some, ◌==◌, ltb, length, if◌then◌else◌,
  Bool-cases, Option-cases, inl, inr, same,
}
use linuxax.Ipd.Frame.{◌>>=◌}
use linuxax.Address.Text.{ax25_aton_entry}
use linuxax.Address.Text.Entry.{ax25_aton_entry-length}
use linuxax.Netrom.{NeighLine, NodeLine, Entry, put_entry}
use linuxax.Netrom.Entries.{length-put_entry}
use linuxax.Netrom.Transmit.{find_neighbour, put_node}

-- The entry for a line of the nodes: none for a node that is not heard often enough, has no quality
-- or no neighbour, or has a callsign that cannot be read.
unfoldable pub entry_of : ℕ → List NeighLine → NodeLine → Option Entry
entry_of min_obs neighs n = if ltb n.obs_count min_obs || (n.quality == 0) then none else do
  neighbour ← find_neighbour n.neigh_no neighs
  callsign ← ax25_aton_entry n.callsign
  best ← ax25_aton_entry neighbour
  let entry : Entry = record {
    callsign = callsign;
    mnemonic = if same n.mnemonic (0x2a ∷ []) then [] else n.mnemonic;
    best_neighbour = best;
    best_quality = n.quality;
  }
  some entry

unfoldable pub told : ℕ → List NeighLine → List NodeLine → List Entry
unfolding entry_of
told min_obs neighs [] = []
told min_obs neighs (n ∷ ns) = elim (entry_of min_obs neighs n) [
  | none ↦ told min_obs neighs ns
  | some e ↦ e ∷ told min_obs neighs ns
]

pub told-passed_over :
    (min_obs : ℕ) (neighs : List NeighLine) (n : NodeLine) (ns : List NodeLine)
    → entry_of min_obs neighs n ≡ none
    → told min_obs neighs (n ∷ ns) ≡ told min_obs neighs ns
unfolding told
told-passed_over min_obs neighs n ns e = rw (e, told) refl

pub told-entered :
    (min_obs : ℕ) (neighs : List NeighLine) (n : NodeLine) (ns : List NodeLine) (entry : Entry)
    → entry_of min_obs neighs n ≡ some entry
    → told min_obs neighs (n ∷ ns) ≡ entry ∷ told min_obs neighs ns
unfolding told
told-entered min_obs neighs n ns entry e = rw (e, told) refl

-- What a line adds to a message: nothing, or its entry, which has the length of an entry.
pub data Adds (o : Option Entry) (bytes : Option (List ℕ)) : Type 0 where
  adds_nothing : o ≡ none → bytes ≡ none → Adds o bytes
  adds :
      (e : Entry)
      → o ≡ some e
      → bytes ≡ some (put_entry e)
      → length (put_entry e) ≡ 21
      → Adds o bytes

pub put_node-Adds :
    (min_obs : ℕ) (neighs : List NeighLine) (n : NodeLine)
    → Adds (entry_of min_obs neighs n) (put_node min_obs neighs n)
unfolding entry_of put_node
put_node-Adds min_obs neighs n = elim (Bool-cases (ltb n.obs_count min_obs || (n.quality == 0))) [
  | inl silent ↦ adds_nothing (rw silent) (rw silent)
  | inr heard ↦ elim (Option-cases (find_neighbour n.neigh_no neighs)) [
    | inl lost ↦ adds_nothing (rw (heard, lost, ◌>>=◌)) (rw (heard, lost, ◌>>=◌))
    | inr (neighbour, found) ↦ elim (Option-cases (ax25_aton_entry n.callsign)) [
      | inl bad ↦ adds_nothing (rw (heard, found, bad, ◌>>=◌)) (rw (heard, found, bad, ◌>>=◌))
      | inr (call, read) ↦ elim (Option-cases (ax25_aton_entry neighbour)) [
        | inl bad ↦
            adds_nothing (rw (heard, found, read, bad, ◌>>=◌)) (rw (heard, found, read, bad, ◌>>=◌))
        | inr (best, read') ↦
            let entry : Entry = record {
              callsign = call;
              mnemonic = if same n.mnemonic (0x2a ∷ []) then [] else n.mnemonic;
              best_neighbour = best;
              best_quality = n.quality;
            } in
            adds entry (rw (heard, found, read, read', ◌>>=◌))
              (rw (heard, found, read, read', ◌>>=◌))
              (length-put_entry entry (ax25_aton_entry-length n.callsign call read)
                (ax25_aton_entry-length neighbour best read'))
      ]
    ]
  ]
]
