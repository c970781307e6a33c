-- ===== src/Call/Yapp/Damage.antt =====
-- A block of YAPP C with a byte that was changed on its way.
use linuxax.Prelude.{
  Bool, take-length_append, ℕ, ◌+◌, ◌%◌, ◌<◌, ◌≡◌, ◌≢◌, refl, sym, true, false, List, [], ◌∷◌, ◌++◌,
  Option, some, ◌==◌, ==_iff, length, length-append, arith, Bool-cases, inl, inr,
}
use linuxax.Call.Yapp.{stx, dt, packet_length, checksum, sum_from}
use linuxax.Call.Yapp.Hunks.Runs.{run_stops}
use linuxax.Call.Yapp.Blocks.{IsBlock, runs, receiving, dt-eq, length_of_self, get_or-length}
use linuxax.Call.Yapp.Receive.{Download, bad_checksum, receive_data, yapp_download_data}

sum_from-injective :
    (xs : List ℕ) (s s' : ℕ) → s < 256 → s' < 256 → sum_from s xs ≡ sum_from s' xs → s ≡ s'
unfolding sum_from
sum_from-injective [] s s' h k e = e
sum_from-injective (b ∷ xs) s s' h k e =
    let same =
      sum_from-injective xs ((s + b) % 256) ((s' + b) % 256) (omega arith) (omega arith) e in
    omega (arith, same)

sum_from-changed :
    (xs ys : List ℕ) (s c c' : ℕ)
    → c < 256
    → c' < 256
    → sum_from s (xs ++ (c ∷ ys)) ≡ sum_from s (xs ++ (c' ∷ ys))
    → c ≡ c'
unfolding sum_from
sum_from-changed [] ys s c c' h k e =
    let same =
      sum_from-injective ys ((s + c) % 256) ((s + c') % 256) (omega arith) (omega arith) e in
    omega (arith, same)
sum_from-changed (x ∷ xs) ys s c c' h k e = sum_from-changed xs ys ((s + x) % 256) c c' h k e

-- A block in which one byte was changed, with the checksum of the block that was sent, ends the
-- download: it says that the checksum is bad, and the file keeps what it had.
pub receive_changed :
    (moves : Bool) (opened : List ℕ → Option (List ℕ)) (total : ℕ) (file : List ℕ)
    (closed : List (List ℕ)) (sent xs ys rest : List ℕ) (c c' : ℕ)
    → IsBlock (xs ++ (c' ∷ ys))
    → c < 256
    → c' < 256
    → c ≢ c'
    → runs opened moves
        (receiving total true file closed sent)
        (dt (length (xs ++ (c' ∷ ys))) ++ ((xs ++ (c' ∷ ys)) ++ (checksum (xs ++ (c ∷ ys)) ∷ rest)))
      ≡ some (
        false,
        receiving (total + length (xs ++ (c' ∷ ys))) true file closed (sent ++ bad_checksum),
      )
unfolding yapp_download_data receive_data packet_length checksum
receive_changed moves opened total file closed sent xs ys rest c c' size h k differ =
    let b = xs ++ (c' ∷ ys) in
    let wrong : (checksum b == checksum (xs ++ (c ∷ ys))) ≡ false =
      elim (Bool-cases (checksum b == checksum (xs ++ (c ∷ ys)))) [
        | inl same ↦ absurd (differ (sym (sum_from-changed xs ys 0 c' c k h ((==_iff _ _).0 same))))
        | inr other ↦ other
      ] in
    rw (dt-eq (length b) size.1) (
      run_stops moves (yapp_download_data opened) (λ (d : Download). d.yappc) _ _ stx (length b)
        (b ++ (checksum (xs ++ (c ∷ ys)) ∷ rest))
        (omega (
          arith,
          length_of_self (length b) size.0,
          length-append b (checksum (xs ++ (c ∷ ys)) ∷ rest),
        ))
        (rw
          (
            length_of_self (length b) size.0,
            take-length_append (length b) b (checksum (xs ++ (c ∷ ys)) ∷ rest) refl,
            get_or-length (length b) b rest (checksum (xs ++ (c ∷ ys))) 0 refl,
            wrong,
          )
          refl))
