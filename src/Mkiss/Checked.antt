-- ===== src/Mkiss/Checked.antt =====
-- What the checksum leaves of a frame that `kiss_tx` has put together.
use linuxax.Prelude.{
  ℕ, suc, ◌+◌, ◌-◌, ◌*◌, ◌/◌, ◌%◌, ◌≡◌, refl, ap, ◌∙◌, bit_and, bit_xor, true, false, not, ◌&&◌,
  List, [], ◌∷◌, ◌++◌, append-nil, ◌==◌, ==_iff, ltb, if◌then◌else◌, length, length-append,
  take-length_append, arith, Bool-cases, inl, inr,
}
use linuxax.Prelude.Bits.{and_ff, xor-mod_256, xor_self}
use linuxax.Mkiss.Line.{crc_after, crc_after-append}
use linuxax.Mkiss.Residue.{residue}
use linuxax.Mkiss.{
  UseCrc, no_crc, g8bpq_crc, flex_crc, crc_step, tx_crc, first_byte, first_crc, crc_bytes, Iface,
  checked, crctyp, poll, ackreq,
}

-- What comes out of `kiss_rx`, when the packet `c ∷ s` went into `kiss_tx`.
unfoldable pub data_of : (port c : ℕ) → List ℕ → List ℕ
data_of port c s = (c % 16 + port * 16) ∷ s

unfoldable pub delivered : UseCrc → (port c : ℕ) → List ℕ → List (List ℕ)
delivered no_crc port c s = data_of port c s ∷ []
delivered g8bpq_crc port c s =
    if c % 16 == 0
    then data_of port c s ∷ []
    else if c % 16 == poll
    then []
    else if c % 16 == ackreq
    then (data_of port c s ++ (bit_and (crc_after g8bpq_crc 0 (data_of port c s)) 0xff ∷ [])) ∷ []
    else data_of port c s ∷ []
delivered flex_crc port c s = if ltb 11 (length s) then (0 ∷ s) ∷ [] else []

-- All that is between the two FENDs.
unfoldable pub contents : UseCrc → (port c : ℕ) → List ℕ → List ℕ
contents u port c s =
    let body = first_byte u port c ∷ s in body ++ crc_bytes u (crc_after u (first_crc u) body)

unfoldable pub frames_of : List ℕ → List (List ℕ)
frames_of [] = []
frames_of (c ∷ s) = (c ∷ s) ∷ []

checked-no_crc :
    (port c : ℕ) (s : List ℕ) (i : Iface)
    → frames_of (checked no_crc i (contents (tx_crc no_crc (c % 16)) port c s)).0
      ≡ delivered no_crc port c s
unfolding checked contents tx_crc first_byte crc_bytes delivered frames_of data_of
checked-no_crc port c s i = rw (append-nil s) refl

checked-flex :
    (port c : ℕ) (s : List ℕ) (i : Iface)
    → i.crc ≡ crc_after flex_crc 0xffff (contents flex_crc port c s)
    → frames_of (checked flex_crc i (contents flex_crc port c s)).0 ≡ delivered flex_crc port c s
unfolding checked contents tx_crc first_byte first_crc crc_bytes delivered frames_of crc_after
checked-flex port c s i e =
    let crc = crc_after flex_crc 0xffff (crctyp ∷ s) in
    let sum = crc / 256 ∷ bit_and crc 0xff ∷ [] in
    let good : (i.crc == 0x7070) ≡ true =
      (==_iff i.crc 0x7070).1
        (e ∙ crc_after-append flex_crc 0xffff (crctyp ∷ s) sum ∙ two_more crc) in
    let cut =
      take-length_append (suc (length (s ++ sum)) - 2) (crctyp ∷ s) sum
        (omega (arith, length-append s sum)) in
    elim (Bool-cases (ltb 11 (length s))) [
      | inl long ↦
          let long' : ltb 14 (suc (length (s ++ sum))) ≡ true =
            ground (arith, length-append s sum, long) in
          rw (long, long', good, cut) refl
      | inr short ↦
          let short' : ltb 14 (suc (length (s ++ sum))) ≡ false =
            ground (arith, length-append s sum, short) in
          rw (short, short') refl
    ]
  where
    two_more : (u : ℕ) → crc_after flex_crc u (u / 256 ∷ bit_and u 0xff ∷ []) ≡ 0x7070
    two_more u = residue u

sum_zero : (crc : ℕ) → bit_and (bit_xor crc (bit_and crc 0xff)) 0xff ≡ 0
sum_zero crc =
    let same : crc % 256 % 256 ≡ crc % 256 = omega arith in
    rw (and_ff crc, and_ff (bit_xor crc (crc % 256)), xor-mod_256 crc (crc % 256), same)
      (xor_self (crc % 256))

-- A frame with a checksum byte: of a data frame it is taken off.
checked-data :
    (port c : ℕ) (s : List ℕ) (i : Iface)
    → (c % 16 == 0) ≡ true
    → i.crc ≡ crc_after g8bpq_crc 0 (contents g8bpq_crc port c s)
    → frames_of (checked g8bpq_crc i (contents g8bpq_crc port c s)).0 ≡ data_of port c s ∷ []
unfolding checked contents first_byte first_crc crc_bytes crc_after crc_step frames_of data_of
checked-data port c s i is_data e =
    let crc = crc_after g8bpq_crc 0 (data_of port c s) in
    let sum = bit_and crc 0xff ∷ [] in
    let zero_cmd : ((c % 16 + port * 16) % 16 == 0) ≡ true = ground (arith, is_data) in
    let good : (bit_and i.crc 0xff == 0) ≡ true = (==_iff (bit_and i.crc 0xff) 0).1 (
      ap (λ t. bit_and t 0xff) (e ∙ crc_after-append g8bpq_crc 0 (data_of port c s) sum)
      ∙ sum_zero crc) in
    let cut =
      take-length_append (suc (length (s ++ sum)) - 1) (data_of port c s) sum
        (omega (arith, length-append s sum)) in
    rw (zero_cmd, good, cut) refl

-- A frame that is not data is not changed, or it is a poll and dropped.
checked-other :
    (c : ℕ) (s : List ℕ) (i : Iface)
    → (c % 16 == 0) ≡ false
    → frames_of (checked g8bpq_crc i (c ∷ s)).0 ≡ (if c % 16 == poll then [] else (c ∷ s) ∷ [])
unfolding checked frames_of
checked-other c s i other = elim (Bool-cases (c % 16 == poll)) [
  | inl e ↦ rw (other, e) refl
  | inr e ↦ rw (other, e) refl
]

checked-g8bpq :
    (port c : ℕ) (s : List ℕ) (i : Iface)
    → i.crc ≡ crc_after g8bpq_crc 0 (contents (tx_crc g8bpq_crc (c % 16)) port c s)
    → frames_of (checked g8bpq_crc i (contents (tx_crc g8bpq_crc (c % 16)) port c s)).0
      ≡ delivered g8bpq_crc port c s
unfolding contents tx_crc first_byte first_crc crc_bytes delivered data_of
checked-g8bpq port c s i e =
    let head = c % 16 + port * 16 in
    let cmd : head % 16 ≡ c % 16 = omega arith in
    elim (Bool-cases (c % 16 == 0)) [
      | inl is_data ↦ rw (is_data) (
          checked-data port c s i is_data (
            e
            ∙ ap
                (λ b. crc_after g8bpq_crc 0 (
                  contents (if not b && not (c % 16 == ackreq) then no_crc else g8bpq_crc) port c
                    s))
                is_data))
      | inr other ↦
          let other' : (head % 16 == 0) ≡ false = ground (arith, other) in
          elim (Bool-cases (c % 16 == ackreq)) [
            | inl is_ackreq ↦
                let no_poll : (c % 16 == poll) ≡ false = ground (arith, is_ackreq) in
                let no_poll' : (head % 16 == poll) ≡ false = ground (arith, no_poll) in
                rw (other, is_ackreq, no_poll)
                  (checked-other head (s ++ (bit_and (crc_after g8bpq_crc 0 (head ∷ s)) 0xff ∷ []))
                      i other'
                    ∙ rw (no_poll') refl)
            | inr plain ↦
                rw (other, plain, append-nil s) (checked-other head s i other' ∙ rw (cmd) refl)
          ]
    ]

pub checked-delivered :
    (u : UseCrc) (port c : ℕ) (s : List ℕ) (i : Iface)
    → i.crc ≡ crc_after u (first_crc u) (contents (tx_crc u (c % 16)) port c s)
    → frames_of (checked u i (contents (tx_crc u (c % 16)) port c s)).0 ≡ delivered u port c s
unfolding tx_crc first_crc
checked-delivered no_crc port c s i e = checked-no_crc port c s i
checked-delivered g8bpq_crc port c s i e = checked-g8bpq port c s i e
checked-delivered flex_crc port c s i e = checked-flex port c s i e
