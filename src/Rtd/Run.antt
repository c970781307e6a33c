-- ===== src/Rtd/Run.antt =====
-- The invariant of the two caches over any sequence of calls.
use mathlib.Core.Path.{subst}
use linuxax.Prelude.{
  Bool, ℕ, ◌≡◌, inl, inr, refl, sym, ◌∙◌, List, [], ◌∷◌, ◌++◌, Option, some, arith, Bool-cases,
  Option-cases, some_inj, append_assoc,
}
use linuxax.Ipd.Frame.{◌>>=◌}
use linuxax.Rtd.{
  IpEntry, Ax25Entry, Config, Cache, update_ip_route, update_ax25_route, remove_ip_route,
  remove_ax25_route, del_ip_route, invalidate_ip_route, del_ax25_route, is_expired,
  expire_ax25_from, expire_ax25_route, expire_ip_from, expire_ip_route,
}
use linuxax.Rtd.Valid.{
  IsValid, update_ip_route-IsValid, update_ax25_route-IsValid, remove_ip_route-IsValid,
  remove_ax25_route-IsValid, del_ip_route-IsValid, invalidate_ip_route-IsValid,
  del_ax25_route-IsValid, here,
}

expire_ip_from-IsValid :
    (when now : ℕ) (before left : List IpEntry) (c : Cache)
    → IsValid c
    → c.ip_routes ≡ before ++ left
    → IsValid (expire_ip_from when now before left c)
unfolding expire_ip_from remove_ip_route
expire_ip_from-IsValid when now before [] c v e = v
expire_ip_from-IsValid when now before (bp ∷ left) c v e =
    elim (Bool-cases (is_expired bp.timestamp when now)) [
      | inl over ↦
          rw (over, expire_ip_from)
            (expire_ip_from-IsValid when now before left _
              (remove_ip_route-IsValid bp _ c v (here _ before left bp e)) kept)
      | inr fresh ↦
          rw (fresh, expire_ip_from)
            (expire_ip_from-IsValid when now (before ++ (bp ∷ [])) left c v
              (e ∙ sym (append_assoc before (bp ∷ []) left)))
    ]
  where
    kept : (remove_ip_route bp (before ++ left) c).ip_routes ≡ before ++ left
    kept = refl

expire_ax25_from-IsValid :
    (freed_readable : Bool) (when now : ℕ) (before left : List Ax25Entry) (c c' : Cache)
    → IsValid c
    → c.ax25_routes ≡ before ++ left
    → expire_ax25_from freed_readable when now before left c ≡ some c'
    → IsValid c'
unfolding expire_ax25_from
expire_ax25_from-IsValid fr when now before [] c c' v e go = subst IsValid (some_inj go) v
expire_ax25_from-IsValid fr when now before (bp ∷ left) c c' v e go =
    elim (Bool-cases (is_expired bp.timestamp when now)) [
      | inl over ↦ elim (Option-cases (remove_ax25_route fr bp (before ++ left) c)) [
        | inl freed ↦ absurd (
            let bad = rw (over, expire_ax25_from) at go in
            let worse = rw (freed, ◌>>=◌) at bad in cc)
        | inr (d, removed) ↦
            let (valid, kept) =
              remove_ax25_route-IsValid fr bp _ c d v (here _ before left bp e) removed in
            expire_ax25_from-IsValid fr when now before left d c' valid kept
              (rw (removed, ◌>>=◌) at (rw (over, expire_ax25_from) at go))
      ]
      | inr fresh ↦
          expire_ax25_from-IsValid fr when now (before ++ (bp ∷ [])) left c c' v
            (e ∙ sym (append_assoc before (bp ∷ []) left)) (rw (fresh, expire_ax25_from) at go)
    ]

-- The calls that change the caches.
pub data Op : Type 0 where
  update_ip : Config → (ip ipmode : ℕ) (call : List ℕ) (timestamp : ℕ) → Op
  update_ax25 : Config → (call : List ℕ) (digi : List (List ℕ)) (timestamp : ℕ) → Op
  del_ip invalidate_ip : (ip : ℕ) → Op
  del_ax25 : Config → (call : List ℕ) → Op
  expire_ip expire_ax25 : (when now : ℕ) → Op

unfoldable pub apply : (freed_readable : Bool) → Op → Cache → Option Cache
apply fr (update_ip cfg ip ipmode call timestamp) c =
    some (update_ip_route cfg ip ipmode call timestamp c).1
apply fr (update_ax25 cfg call digi timestamp) c =
    some (update_ax25_route cfg call digi timestamp c).1
apply fr (del_ip ip) c = some (del_ip_route ip c).1
apply fr (invalidate_ip ip) c = some (invalidate_ip_route ip c).1
apply fr (del_ax25 cfg call) c = del_ax25_route fr cfg call c >>= λ (r, c'). some c'
apply fr (expire_ip when now) c = some (expire_ip_route when now c)
apply fr (expire_ax25 when now) c = expire_ax25_route fr when now c

unfoldable pub apply_all : (freed_readable : Bool) → List Op → Cache → Option Cache
apply_all fr [] c = some c
apply_all fr (op ∷ ops) c = apply fr op c >>= apply_all fr ops

apply-IsValid :
    (freed_readable : Bool) (op : Op) (c c' : Cache)
    → IsValid c
    → apply freed_readable op c ≡ some c'
    → IsValid c'
unfolding apply expire_ip_route expire_ax25_route
apply-IsValid fr (update_ip cfg ip ipmode call timestamp) c c' v e =
    subst IsValid (some_inj e) (update_ip_route-IsValid cfg ip ipmode call timestamp c v)
apply-IsValid fr (update_ax25 cfg call digi timestamp) c c' v e =
    subst IsValid (some_inj e) (update_ax25_route-IsValid cfg call digi timestamp c v)
apply-IsValid fr (del_ip ip) c c' v e = subst IsValid (some_inj e) (del_ip_route-IsValid ip c v)
apply-IsValid fr (invalidate_ip ip) c c' v e =
    subst IsValid (some_inj e) (invalidate_ip_route-IsValid ip c v)
apply-IsValid fr (del_ax25 cfg call) c c' v e = elim (Option-cases (del_ax25_route fr cfg call c)) [
  | inl freed ↦ absurd (let bad = rw (freed, ◌>>=◌) at e in cc)
  | inr ((r, d), go) ↦
      subst IsValid (some_inj (rw (go, ◌>>=◌) at e)) (del_ax25_route-IsValid fr cfg call c r d v go)
]
apply-IsValid fr (expire_ip when now) c c' v e =
    subst IsValid (some_inj e) (expire_ip_from-IsValid when now [] c.ip_routes c v refl)
apply-IsValid fr (expire_ax25 when now) c c' v e =
    expire_ax25_from-IsValid fr when now [] c.ax25_routes c c' v refl e

-- The variables as the program starts, with limits that stay as they are.
abbrev pub start : (ip_maxroutes ax25_maxroutes : ℕ) → Cache
start ip_maxroutes ax25_maxroutes = record {
  ip_routes = [];
  ip_routes_cnt = 0;
  ip_maxroutes = ip_maxroutes;
  ax25_routes = [];
  ax25_routes_cnt = 0;
  ax25_maxroutes = ax25_maxroutes;
  kernel = [];
}

pub start-IsValid : (m n : ℕ) → IsValid (start m n)
start-IsValid m n = record {
  ip_held = record { counted = refl; bounded = omega arith; distinct = tt };
  ax25_held = record { counted = refl; bounded = omega arith; distinct = tt };
}

keeps_IsValid :
    (freed_readable : Bool) (ops : List Op) (c c' : Cache)
    → IsValid c
    → apply_all freed_readable ops c ≡ some c'
    → IsValid c'
unfolding apply_all
keeps_IsValid fr [] c c' v e = subst IsValid (some_inj e) v
keeps_IsValid fr (op ∷ ops) c c' v e = elim (Option-cases (apply fr op c)) [
  | inl freed ↦ absurd (let bad = rw (freed, ◌>>=◌) at e in cc)
  | inr (d, go) ↦ keeps_IsValid fr ops d c' (apply-IsValid fr op c d v go) (rw (go, ◌>>=◌) at e)
]

-- After any sequence of calls, from the start on, that reads no freed memory, or reads what stood
-- there before: the two counts are the numbers of entries, neither is over its limit, and no IP
-- address and no callsign has two entries.
pub apply_all-IsValid :
    (freed_readable : Bool) (ip_maxroutes ax25_maxroutes : ℕ) (ops : List Op) (c : Cache)
    → apply_all freed_readable ops (start ip_maxroutes ax25_maxroutes) ≡ some c
    → IsValid c
apply_all-IsValid fr m n ops c e = keeps_IsValid fr ops (start m n) c (start-IsValid m n) e
