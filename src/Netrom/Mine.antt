-- ===== src/Netrom/Mine.antt =====
-- ax25tools/netrom/netromt.c: `build_mine`, the broadcast of the further ports of this node. A line of
-- the file of ports is what `nr_config_get_addr` and `nr_config_get_alias` say of its port.
use linuxax.Prelude.{
  ℕ, suc, ◌+◌, ◌*◌, ◌≤◌, ◌≡◌, ◌↔◌, refl, true, false, ◌||◌, if◌then◌else◌, List, [], ◌∷◌, ◌++◌,
  Option, none, some, length, length-append, All, arith, ltb, same, Bool-cases, inl, inr,
}
use linuxax.Address.Text.{ax25_aton_entry}
use linuxax.Address.Text.Entry.{ax25_aton_entry-length}
use linuxax.Netrom.{callsign_len, mnemonic_len, Entry, put_entry}
use linuxax.Netrom.Entries.{length-put_entry}
use linuxax.Netrom.Transmit.{build_header}
use linuxax.Netrom.Transmit.Chunks.{length-header}

pub record PortLine : Type 0 where
  pub addr : Option (List ℕ)
  pub alias : List ℕ

-- How far `strcpy` and `strncat` write behind the start of a mnemonic, the 0 byte included: of an alias
-- of more than six characters, `MNEMONIC_LEN - strlen` is a huge `size_t`, and all seven blanks follow.
-- What is written behind the six bytes is overwritten or not sent.
unfoldable pub alias_end : List ℕ → ℕ
alias_end alias = if ltb mnemonic_len (length alias) then length alias + 8 else 7

-- The loop over the ports: the message, `some none` if it is given up. `none` is a write past the
-- 100 bytes of the buffer, or bytes that `ax25_aton_entry` has not written.
unfoldable pub mine_from :
    (main_addr : List ℕ) (localval : ℕ) (message : List ℕ)
    → List PortLine
    → Option (Option (List ℕ))
unfolding alias_end
mine_from main_addr localval message [] = some (some message)
mine_from main_addr localval message (p ∷ ps) = elim p.addr [
  | none ↦ mine_from main_addr localval message ps
  | some addr ↦ elim (same addr main_addr) [
    | true ↦ mine_from main_addr localval message ps
    | false ↦ elim (ax25_aton_entry addr) [
      | none ↦ some none
      | some callsign ↦ elim (ax25_aton_entry main_addr) [
        | none ↦ none
        | some own ↦
            let entry : Entry = record {
              callsign = callsign;
              mnemonic = p.alias;
              best_neighbour = own;
              best_quality = localval;
            } in
            let alias_over = ltb 100 (length message + callsign_len + alias_end p.alias) in
            elim (alias_over || ltb 100 (length (message ++ put_entry entry))) [
              | true ↦ none
              | false ↦ mine_from main_addr localval (message ++ put_entry entry) ps
            ]
      ]
    ]
  ]
]

pub build_mine :
    (main_alias main_addr : List ℕ) (localval : ℕ) → List PortLine → Option (Option (List ℕ))
unfolding mine_from alias_end
build_mine main_alias main_addr localval ps =
    if ltb 100 (1 + alias_end main_alias)
    then none
    else mine_from main_addr localval (build_header main_alias) ps

module _ (main_addr : List ℕ) where
  -- A port that has an entry of its own in the broadcast.
  pub record IsFurther (p : PortLine) : Type 0 where
    pub name : List ℕ
    pub call : List ℕ
    pub named : p.addr ≡ some name
    pub other : same name main_addr ≡ false
    pub read : ax25_aton_entry name ≡ some call
    pub short : length p.alias ≤ 15

  abbrev pub Sends : Option (Option (List ℕ)) → Type 0
  Sends o = (message : List ℕ) × (o ≡ some (some message))

  module _ (own : List ℕ) (known : ax25_aton_entry main_addr ≡ some own) (localval : ℕ) where
    mine_from-Sends_iff :
        (ps : List PortLine) (message : List ℕ) (k : ℕ)
        → All IsFurther ps
        → length message ≡ 7 + 21 * k
        → k ≤ 4
        → Sends (mine_from main_addr localval message ps) ↔ (k + length ps ≤ 4)
    unfolding mine_from alias_end
    mine_from-Sends_iff [] message k h size few = ((λ s. omega arith), (λ le. (message, refl)))
    mine_from-Sends_iff (p ∷ ps) message k h size few =
        let one = h.0 in
        let entry : Entry = record {
          callsign = one.call;
          mnemonic = p.alias;
          best_neighbour = own;
          best_quality = localval;
        } in
        let longer : length (message ++ put_entry entry) ≡ 7 + 21 * suc k = omega (
          arith,
          size,
          length-append message (put_entry entry),
          length-put_entry entry (ax25_aton_entry-length one.name one.call one.read)
              (ax25_aton_entry-length main_addr own known),
        ) in
        let over_end = ltb 100 (length message + callsign_len + alias_end p.alias) in
        elim (Bool-cases (over_end || ltb 100 (length (message ++ put_entry entry)))) [
          | inl over ↦
              let full : 4 ≤ k = ground (arith, over, longer, size, one.short, few) in
              rw (one.named, one.other, one.read, known, over, mine_from)
                ((λ s. absurd (let bad = s.1 in cc)), (λ le. absurd (omega (arith, full, le))))
          | inr fits ↦
              let next : suc k ≤ 4 = ground (arith, fits, longer) in
              let deep =
                mine_from-Sends_iff ps (message ++ put_entry entry) (suc k) h.1 longer next in
              rw (one.named, one.other, one.read, known, fits, mine_from)
                ((λ s. omega (arith, deep.0 s)), (λ le. deep.1 (omega (arith, le))))
        ]

    -- Where every line is a port of its own, with an address that can be read and is not that of the
    -- first port, whose address can be read too, with an alias of up to 15 characters, and the alias of
    -- the first port has up to 91: `build_mine` sends a message, with no write outside its buffer,
    -- exactly if there are at most four such ports.
    pub build_mine-Sends_iff :
        (main_alias : List ℕ) (ps : List PortLine)
        → length main_alias ≤ 91
        → All IsFurther ps
        → Sends (build_mine main_alias main_addr localval ps) ↔ (length ps ≤ 4)
    unfolding build_mine alias_end
    build_mine-Sends_iff main_alias ps short h =
        let header_fits : ltb 100 (1 + alias_end main_alias) ≡ false = ground (arith, short) in
        let iff =
          mine_from-Sends_iff ps (build_header main_alias) 0 h (length-header main_alias 0 [])
            (omega arith) in
        rw (header_fits) ((λ s. omega (arith, iff.0 s)), (λ le. iff.1 (omega (arith, le))))
