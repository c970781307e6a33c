-- ===== src/Rtd/Valid.antt =====
-- The invariant of the two caches, over any sequence of calls.
use mathlib.Core.Path.{subst}
use linuxax.Prelude.{
  ℕ, ◌≡◌, ◌≢◌, inl, inr, refl, sym, ap, ◌∙◌, Bool, not, ◌&&◌, List, [], ◌∷◌, ◌++◌, ◌-◌,
  append_assoc, true, if◌then◌else◌, none, some, length, All, arith, ◌==◌, ==_iff, Bool-cases,
  Option-cases, some_inj, same, same_iff, bit_and, bit_xor, true-ne-false,
}
use linuxax.Ipd.Frame.{◌>>=◌}
use linuxax.Rtd.{
  IpEntry, Ax25Entry, Config, Cache, unlink, make_room, update_ip_route, update_ax25_route,
  remove_ip_route, remove_ax25_route, del_ip_route, invalidate, invalidate_ip_route, del_ax25_route,
  remove_ip_routes, del_kernel_ax25_route,
}
use linuxax.Rtd.Entries.{Unlinked, unlink-Unlinked, unlink-none, All-map, Distinct}
use linuxax.Rtd.Held.{Held, Held-front, Held-unlink, Held-new}

abbrev pub ip_key : IpEntry → ℕ
ip_key e = e.ip

abbrev pub call_key : Ax25Entry → List ℕ
call_key e = e.call

-- The counts are right, the limits are kept, and no address and no callsign is there twice.
pub record IsValid (c : Cache) : Type 0 where
  pub ip_held : Held ip_key c.ip_maxroutes c.ip_routes_cnt c.ip_routes
  pub ax25_held : Held call_key c.ax25_maxroutes c.ax25_routes_cnt c.ax25_routes

pub ip_absent :
    (ip : ℕ) (es : List IpEntry)
    → unlink (λ (e : IpEntry). e.ip == ip) es ≡ none
    → All (λ (e : IpEntry). ip ≢ e.ip) es
ip_absent ip es stop =
    All-map _ _ es (λ e miss hit. true-ne-false ((==_iff e.ip ip).1 (sym hit)) miss)
      (unlink-none _ es stop)

pub call_absent :
    (call : List ℕ) (es : List Ax25Entry)
    → unlink (λ (e : Ax25Entry). same call e.call) es ≡ none
    → All (λ (e : Ax25Entry). call ≢ e.call) es
call_absent call es stop =
    All-map _ _ es (λ e miss hit. true-ne-false ((same_iff call e.call).1 hit) miss)
      (unlink-none _ es stop)

pub update_ip_route-IsValid :
    (cfg : Config) (ip ipmode : ℕ) (call : List ℕ) (timestamp : ℕ) (c : Cache)
    → IsValid c
    → IsValid (update_ip_route cfg ip ipmode call timestamp c).1
unfolding update_ip_route
update_ip_route-IsValid cfg ip ipmode call timestamp c v =
    elim (Bool-cases (bit_and (bit_xor ip cfg.ip) cfg.netmask == 0)) [
      | inr off ↦ rw off v
      | inl on ↦ elim (Option-cases (unlink (λ (e : IpEntry). e.ip == ip) c.ip_routes)) [
        | inr ((bp, rest), go) ↦ elim (Bool-cases ((bp.timestamp == 0) && not (timestamp == 0))) [
          | inl fixed ↦ rw (on, go, fixed) v
          | inr free ↦
              rw (on, go, free)
                (record {
                  ip_held = Held-front ip_key _ _ _ v.ip_held _ (unlink-Unlinked _ _ _ _ go) refl;
                  ax25_held = v.ax25_held;
                })
        ]
        | inl stop ↦ elim (Option-cases (make_room c.ip_maxroutes c.ip_routes_cnt c.ip_routes)) [
          | inl no_room ↦ rw (on, stop, no_room) v
          | inr ((cnt, rest), made) ↦
              rw (on, stop, made)
                (record {
                  ip_held =
                      Held-new ip_key _ _ cnt _ rest _ v.ip_held (ip_absent ip c.ip_routes stop)
                        made;
                  ax25_held = v.ax25_held;
                })
        ]
      ]
    ]

pub update_ax25_route-IsValid :
    (cfg : Config) (call : List ℕ) (digi : List (List ℕ)) (timestamp : ℕ) (c : Cache)
    → IsValid c
    → IsValid (update_ax25_route cfg call digi timestamp c).1
unfolding update_ax25_route
update_ax25_route-IsValid cfg call digi timestamp c v =
    elim (Option-cases (unlink (λ (e : Ax25Entry). same call e.call) c.ax25_routes)) [
      | inr ((bp, rest), go) ↦ elim (Bool-cases ((bp.timestamp == 0) && not (timestamp == 0))) [
        | inl fixed ↦ rw (go, fixed, update_ax25_route) v
        | inr free ↦
            rw (go, free, update_ax25_route)
              (record {
                ip_held = v.ip_held;
                ax25_held =
                    Held-front call_key _ _ _ v.ax25_held _ (unlink-Unlinked _ _ _ _ go) refl;
              })
      ]
      | inl stop ↦
          elim (Option-cases (make_room c.ax25_maxroutes c.ax25_routes_cnt c.ax25_routes)) [
            | inl no_room ↦ rw (stop, no_room, update_ax25_route) v
            | inr ((cnt, rest), made) ↦
                rw (stop, made, update_ax25_route)
                  (record {
                    ip_held = v.ip_held;
                    ax25_held =
                        Held-new call_key _ _ cnt _ rest _ v.ax25_held
                          (call_absent call c.ax25_routes stop) made;
                  })
          ]
    ]

pub remove_ip_route-IsValid :
    {test : IpEntry → Bool} (bp : IpEntry) (rest : List IpEntry) (c : Cache)
    → IsValid c
    → Unlinked test c.ip_routes bp rest
    → IsValid (remove_ip_route bp rest c)
unfolding remove_ip_route
remove_ip_route-IsValid bp rest c v u = record {
  ip_held = Held-unlink ip_key _ _ _ v.ip_held u;
  ax25_held = v.ax25_held;
}

-- An entry within a list is the one that is unlinked there.
pub here {ℓ} :
    {A : Type ℓ} (es before left : List A) (bp : A)
    → es ≡ before ++ (bp ∷ left)
    → Unlinked (λ e. true) es bp (before ++ left)
here es before left bp e = record {
  before = before;
  after = left;
  whole = e;
  left = refl;
  hit = refl;
}

-- The IP routes to a callsign are removed from a valid cache of them; the AX.25 routes stay.
remove_ip_routes-keeps :
    (freed_readable : Bool) (call : List ℕ) (before left : List IpEntry) (c c' : Cache)
    → Held ip_key c.ip_maxroutes c.ip_routes_cnt c.ip_routes
    → c.ip_routes ≡ before ++ left
    → remove_ip_routes freed_readable call before left c ≡ some c'
    → Held ip_key c'.ip_maxroutes c'.ip_routes_cnt c'.ip_routes
      × (c'.ax25_routes ≡ c.ax25_routes)
      × (c'.ax25_routes_cnt ≡ c.ax25_routes_cnt)
      × (c'.ax25_maxroutes ≡ c.ax25_maxroutes)
unfolding remove_ip_routes remove_ip_route
remove_ip_routes-keeps fr call before [] c c' h e go =
    subst
      (λ (t : Cache).
        Held ip_key t.ip_maxroutes t.ip_routes_cnt t.ip_routes
        × (t.ax25_routes ≡ c.ax25_routes)
        × (t.ax25_routes_cnt ≡ c.ax25_routes_cnt)
        × (t.ax25_maxroutes ≡ c.ax25_maxroutes))
      (some_inj go) (h, refl, refl, refl)
remove_ip_routes-keeps fr call before (iprt ∷ left) c c' h e go =
    elim (Bool-cases (same iprt.call call)) [
      | inr other ↦
          remove_ip_routes-keeps fr call (before ++ (iprt ∷ [])) left c c' h
            (e ∙ sym (append_assoc before (iprt ∷ []) left)) (rw (other) at go)
      | inl hit ↦ elim (Bool-cases fr) [
        | inr undefined ↦ absurd (let bad = rw (hit, undefined) at go in cc)
        | inl readable ↦
            remove_ip_routes-keeps fr call before left (remove_ip_route iprt (before ++ left) c) c'
              (Held-unlink ip_key _ _ _ h (here _ before left iprt e)) refl
              (sym (
                  ap
                    (λ b.
                      if b
                      then remove_ip_routes fr call before left
                          (remove_ip_route iprt (before ++ left) c)
                      else none)
                    readable)
                ∙ (rw (hit) at go))
      ]
    ]

pub remove_ax25_route-some :
    (freed_readable : Bool) (bp : Ax25Entry) (rest : List Ax25Entry) (c c' : Cache)
    → remove_ax25_route freed_readable bp rest c ≡ some c'
    → (d : Cache) × (remove_ip_routes freed_readable bp.call [] c.ip_routes
          (record c { ax25_routes = rest })
        ≡ some d)
      × (c' ≡ record d {
        ax25_routes_cnt = d.ax25_routes_cnt - 1;
        kernel = d.kernel ++ (del_kernel_ax25_route bp.iface bp.call ∷ []);
      })
unfolding remove_ax25_route
remove_ax25_route-some fr bp rest c c' e =
    elim (Option-cases
      (remove_ip_routes fr bp.call [] c.ip_routes (record c { ax25_routes = rest }))) [
        | inl freed ↦ absurd (let bad = rw (freed, ◌>>=◌) at e in cc)
        | inr (d, go) ↦ (d, go, sym (some_inj (rw (go, ◌>>=◌) at e)))
      ]

pub remove_ax25_route-IsValid :
    {test : Ax25Entry → Bool} (freed_readable : Bool) (bp : Ax25Entry) (rest : List Ax25Entry)
    (c c' : Cache)
    → IsValid c
    → Unlinked test c.ax25_routes bp rest
    → remove_ax25_route freed_readable bp rest c ≡ some c'
    → IsValid c' × (c'.ax25_routes ≡ rest)
remove_ax25_route-IsValid fr bp rest c c' v u e =
    let (d, go, made) = remove_ax25_route-some fr bp rest c c' e in
    let (held, routes, count, limit) =
      remove_ip_routes-keeps fr bp.call [] c.ip_routes (record c { ax25_routes = rest }) d v.ip_held
        refl go in
    let left : Held call_key c.ax25_maxroutes (c.ax25_routes_cnt - 1) rest =
      Held-unlink call_key _ _ _ v.ax25_held u in
    let valid : IsValid (record d {
      ax25_routes_cnt = d.ax25_routes_cnt - 1;
      kernel = d.kernel ++ (del_kernel_ax25_route bp.iface bp.call ∷ []);
    }) =
      record { ip_held = held; ax25_held = rw (routes, count, limit) left } in
    (subst IsValid (sym made) valid, ap (λ (t : Cache). t.ax25_routes) made ∙ routes)

pub del_ip_route-IsValid : (ip : ℕ) (c : Cache) → IsValid c → IsValid (del_ip_route ip c).1
unfolding del_ip_route
del_ip_route-IsValid ip c v = elim (Bool-cases (ip == 0)) [
  | inl none_given ↦ rw none_given v
  | inr given ↦ elim (Option-cases (unlink (λ (e : IpEntry). e.ip == ip) c.ip_routes)) [
    | inl stop ↦ rw (given, stop) v
    | inr ((bp, rest), go) ↦
        rw (given, go) (remove_ip_route-IsValid bp rest c v (unlink-Unlinked _ _ _ _ go))
  ]
]

invalidate-keeps :
    (ip maxroutes cnt : ℕ) (es : List IpEntry)
    → Held ip_key maxroutes cnt es
    → Held ip_key maxroutes cnt (invalidate ip es).0
unfolding invalidate
invalidate-keeps ip maxroutes cnt es h = record {
  counted = h.counted ∙ sym (len es);
  bounded = omega (arith, len es, h.bounded);
  distinct = keys es h.distinct;
}
  where
    len : (es : List IpEntry) → length (invalidate ip es).0 ≡ length es
    len [] = refl
    len (e ∷ es) = ground (arith, len es)

    other_keys :
        (k : ℕ) (es : List IpEntry)
        → All (λ e'. k ≢ ip_key e') es
        → All (λ e'. k ≢ ip_key e') (invalidate ip es).0
    other_keys k [] a = tt
    other_keys k (e ∷ es) a = elim (Bool-cases (e.ip == ip)) [
      | inl here ↦ rw here a
      | inr past ↦ rw past (a.0, other_keys k es a.1)
    ]

    keys : (es : List IpEntry) → Distinct ip_key es → Distinct ip_key (invalidate ip es).0
    keys [] d = tt
    keys (e ∷ es) d = elim (Bool-cases (e.ip == ip)) [
      | inl here ↦ rw here d
      | inr past ↦ rw past (other_keys e.ip es d.0, keys es d.1)
    ]

pub invalidate_ip_route-IsValid :
    (ip : ℕ) (c : Cache) → IsValid c → IsValid (invalidate_ip_route ip c).1
unfolding invalidate_ip_route
invalidate_ip_route-IsValid ip c v = record {
  ip_held = invalidate-keeps ip _ _ _ v.ip_held;
  ax25_held = v.ax25_held;
}

pub del_ax25_route-IsValid :
    (freed_readable : Bool) (cfg : Config) (call : List ℕ) (c : Cache) (r : ℕ) (c' : Cache)
    → IsValid c
    → del_ax25_route freed_readable cfg call c ≡ some (r, c')
    → IsValid c'
unfolding del_ax25_route
del_ax25_route-IsValid fr cfg call c r c' v e =
    elim (Option-cases
      (unlink (λ (e : Ax25Entry). same call e.call && same cfg.dev e.iface) c.ax25_routes)) [
        | inl stop ↦
            let unchanged : (1, c) ≡ (r, c') = some_inj (rw (stop, del_ax25_route) at e) in
            subst IsValid (ap (λ t. t.1) unchanged) v
        | inr ((bp, rest), go) ↦ elim (Option-cases (remove_ax25_route fr bp rest c)) [
          | inl freed ↦
              absurd (
                let bad = rw (go, del_ax25_route) at e in
                let worse = rw (freed, ◌>>=◌) at bad in cc)
          | inr (d, removed) ↦
              let half = rw (go, del_ax25_route) at e in
              let ends : (0, d) ≡ (r, c') = some_inj (rw (removed, ◌>>=◌) at half) in
              subst IsValid (ap (λ t. t.1) ends)
                (remove_ax25_route-IsValid fr bp rest c d v (unlink-Unlinked _ _ _ _ go) removed).0
        ]
      ]
