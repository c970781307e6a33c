-- ===== src/Ipd/Kiss/Params.antt =====
-- The table of TNC parameters: what is added is what `send_params` sends.
use linuxax.Prelude.{
  ℕ, ◌≤◌, ◌≡◌, refl, ap, ◌∙◌, sym, List, [], ◌∷◌, ◌++◌, map, append_assoc, append-nil, arith,
  length, take, take-all, take-snoc_lt, take-append_full, leb, bit_and, Bool-cases, inl, inr,
  leb→le, length-append,
}
use mathlib.Core.List.{foldl}
use linuxax.Ipd.Kiss.{ptable_size, max_frame, param_add, send_params, send_kiss}
use linuxax.Ipd.Kiss.Encoding.{kiss_frame, escape, escape_byte, send_kiss-eq-take}

abbrev entry : ℕ × ℕ → ℕ × ℕ
entry (p, v) = (bit_and p 0xff, bit_and v 0xff)

-- The table after a sequence of calls of `param_add`.
pub param_add_all : List (ℕ × ℕ) → List (ℕ × ℕ)
param_add_all = foldl (λ table pv. param_add table pv.0 pv.1) []

param_add-take :
    (xs : List (ℕ × ℕ)) (p v : ℕ)
    → param_add (take ptable_size xs) p v ≡ take ptable_size (xs ++ (entry (p, v) ∷ []))
unfolding param_add
param_add-take xs p v = elim (Bool-cases (leb ptable_size (length (take ptable_size xs)))) [
  | inl full ↦ rw full (sym (take-append_full ptable_size xs _ (leb→le _ _ full)))
  | inr room ↦ rw room (take-snoc_lt ptable_size xs _ (ground arith))
]

foldl-param_add :
    (xs : List (ℕ × ℕ)) (ps : List (ℕ × ℕ))
    → foldl (λ table pv. param_add table pv.0 pv.1) (take ptable_size xs) ps
      ≡ take ptable_size (xs ++ map entry ps)
foldl-param_add xs [] = ap (take ptable_size) (sym (append-nil xs))
foldl-param_add xs ((p, v) ∷ ps) =
    ap (λ t. foldl (λ table pv. param_add table pv.0 pv.1) t ps) (param_add-take xs p v)
    ∙ foldl-param_add (xs ++ (entry (p, v) ∷ [])) ps
    ∙ ap (take ptable_size) (append_assoc xs (entry (p, v) ∷ []) (map entry ps))

length-escape_byte : (c : ℕ) → length (escape_byte c) ≤ 2
unfolding escape_byte
length-escape_byte c = ground arith

send_kiss_param : (p v : ℕ) → send_kiss p (v ∷ []) ≡ kiss_frame p (v ∷ [])
send_kiss_param p v =
    send_kiss-eq-take p (v ∷ []) ∙ take-all max_frame (kiss_frame p (v ∷ [])) short
  where
    short : length (kiss_frame p (v ∷ [])) ≤ 2048
    short =
        unfold kiss_frame escape in
        omega (
          arith,
          length-append {0} (escape_byte p ++ (escape_byte v ++ [])) (0xc0 ∷ []),
          length-append {0} (escape_byte p) (escape_byte v ++ []),
          length-append {0} (escape_byte v) [],
          length-escape_byte p,
          length-escape_byte v,
        )

send_params-eq-map :
    (table : List (ℕ × ℕ))
    → send_params table ≡ map (λ (pv : ℕ × ℕ). kiss_frame pv.0 (pv.1 ∷ [])) table
unfolding send_params
send_params-eq-map [] = refl
send_params-eq-map ((p, v) ∷ table) = rw (send_kiss_param p v, send_params-eq-map table)

-- After any sequence of `param_add`, `send_params` sends a frame of one byte for each of the first
-- PTABLE_SIZE calls, in their order: the parameter is the type and the value the byte, each cut to
-- 8 bits. Later calls have no effect.
pub send_params-param_add :
    (ps : List (ℕ × ℕ))
    → send_params (param_add_all ps)
      ≡ map (λ (pv : ℕ × ℕ). kiss_frame pv.0 (pv.1 ∷ [])) (take ptable_size (map entry ps))
unfolding param_add_all
send_params-param_add ps =
    send_params-eq-map _
    ∙ ap (map (λ (pv : ℕ × ℕ). kiss_frame pv.0 (pv.1 ∷ []))) (foldl-param_add [] ps)
