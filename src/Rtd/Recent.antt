-- ===== src/Rtd/Recent.antt =====
-- The caches keep the entries that were updated last: an update is the move to the front of a list
-- of all entries, of which the first ones up to the limit are kept.
use mathlib.Core.Path.{subst}
use linuxax.Prelude.{
  ℕ, suc, ◌≤◌, ◌≡◌, ◌≢◌, inl, inr, refl, sym, ap, ◌∙◌, Bool, true, false, not, ◌⊎◌, ◌&&◌, List, [],
  ◌∷◌, some, length, take, All, arith, ◌==◌, ==_iff, Bool-cases, Option-cases, some_inj, same,
  same_iff, bit_and, bit_xor, if◌then◌else◌, take-all,
}
use linuxax.Rtd.{
  IpEntry, Ax25Entry, Config, Cache, unlink, make_room, update_ip_route, update_ax25_route,
  same_path,
}
use linuxax.Rtd.Entries.{
  Unlinked, unlink-Unlinked, unlink-none, All-map, All-middle, without, without-none,
  without-middle, make_room-take,
}
use linuxax.Rtd.Held.{Held, Unlinked-Distinct, Unlinked-length}
use linuxax.Rtd.Valid.{IsValid, ip_key, call_key}

module _ {ℓ κ} {A : Type ℓ} {K : Type κ} (key : A → K) (max cnt : ℕ) (es : List A)
    (h : Held key (suc max) cnt es) (test : A → Bool) where
  -- A test that only entries with one key meet leaves nothing else out.
  moved_front :
      (e e' : A) (rest : List A)
      → ((x y : A) → test x ≡ true → test y ≡ true → key x ≡ key y)
      → Unlinked test es e rest
      → e' ∷ rest ≡ take (suc max) (e' ∷ without test es)
  moved_front e e' rest one_key u =
      let miss : All (λ x. test x ≡ false) rest =
        All-map _ _ rest (λ x ne. other x ne (Bool-cases (test x)))
          (Unlinked-Distinct key (suc max) cnt es h u).0 in
      let out : without test es ≡ rest =
        ap (without test) u.whole
        ∙ without-middle test u.before e u.after u.hit
        ∙ ap (without test) (sym u.left)
        ∙ without-none test rest miss in
      let fits : length rest ≤ max =
        omega (arith, h.bounded, Unlinked-length key (suc max) cnt es h u) in
      rw (out, take-all max rest fits)
    where
      other : (x : A) → key e ≢ key x → (test x ≡ true) ⊎ (test x ≡ false) → test x ≡ false
      other x ne (inl hit) = absurd (ne (one_key e x u.hit hit))
      other x ne (inr miss) = miss

  added_front :
      (e : A) (cnt' : ℕ) (rest : List A)
      → All (λ x. test x ≡ false) es
      → make_room (suc max) cnt es ≡ some (cnt', rest)
      → e ∷ rest ≡ take (suc max) (e ∷ without test es)
  added_front e cnt' rest miss made =
      let kept : (length (take max es), take max es) ≡ (cnt', rest) =
        some_inj (sym (make_room-take max es h.bounded) ∙ (rw (h.counted) at made)) in
      rw (without-none test es miss) (ap (λ t. e ∷ t) (sym (ap (λ t. t.1) kept)))

  has_room : (cnt' : ℕ) × (rest : List A) × (make_room (suc max) cnt es ≡ some (cnt', rest))
  has_room = (length (take max es), take max es, rw (h.counted) (make_room-take max es h.bounded))

-- The entry holds what the update gave.
pub record IsUpdated (cfg : Config) (ip ipmode : ℕ) (call : List ℕ) (timestamp : ℕ) (e : IpEntry)
    : Type 0 where
  pub to_ip : e.ip ≡ ip
  pub by_iface : e.iface ≡ cfg.dev
  pub by_call : e.call ≡ call
  pub in_mode : e.ipmode ≡ ipmode
  pub at_time : e.timestamp ≡ timestamp

-- A permanent entry, of time 0, is given up for another permanent one only.
abbrev pub is_kept : (old new : ℕ) → Bool
is_kept old new = (old == 0) && not (new == 0)

abbrev pub for_ip : ℕ → IpEntry → Bool
for_ip ip e = e.ip == ip

abbrev pub for_call : List ℕ → Ax25Entry → Bool
for_call call e = same call e.call

All-hit {ℓ} :
    {A : Type ℓ} (P : A → Type 0) (test : A → Bool) (es : List A) (e : A) (rest : List A)
    → Unlinked test es e rest
    → All P es
    → P e
All-hit P test es e rest u all = (All-middle P u.before e u.after (subst (All P) u.whole all)).0

-- In a valid cache with room for an entry: an update for an address of the channel's network, whose
-- entry, if there is one, is not kept against it, leaves the entries as a cache that forgets the
-- least recently updated: the updated entry first, then the others in their order, as many as the
-- limit allows.
pub update_ip_route-recent :
    (cfg : Config) (ip ipmode : ℕ) (call : List ℕ) (timestamp : ℕ) (c : Cache) (max : ℕ)
    → IsValid c
    → c.ip_maxroutes ≡ suc max
    → bit_and (bit_xor ip cfg.ip) cfg.netmask ≡ 0
    → All (λ (e : IpEntry). for_ip ip e ≡ true → is_kept e.timestamp timestamp ≡ false) c.ip_routes
    → (e : IpEntry) × IsUpdated cfg ip ipmode call timestamp e
      × ((update_ip_route cfg ip ipmode call timestamp c).1.ip_routes
          ≡ take (suc max) (e ∷ without (for_ip ip) c.ip_routes))
unfolding update_ip_route
update_ip_route-recent cfg ip ipmode call timestamp c max v limit net free =
    let held : Held ip_key (suc max) c.ip_routes_cnt c.ip_routes =
      subst (λ m. Held ip_key m c.ip_routes_cnt c.ip_routes) limit v.ip_held in
    let on : (bit_and (bit_xor ip cfg.ip) cfg.netmask == 0) ≡ true = (==_iff _ _).1 net in
    elim (Option-cases (unlink (for_ip ip) c.ip_routes)) [
      | inr ((bp, rest), go) ↦
          let u = unlink-Unlinked (for_ip ip) c.ip_routes bp rest go in
          let given_up = All-hit _ (for_ip ip) c.ip_routes bp rest u free u.hit in
          (
            record bp { iface = cfg.dev; call = call; ipmode = ipmode; timestamp = timestamp },
            record {
              to_ip = (==_iff _ _).0 u.hit;
              by_iface = refl;
              by_call = refl;
              in_mode = refl;
              at_time = refl;
            },
            rw (on, go, given_up)
                (moved_front ip_key max _ c.ip_routes held (for_ip ip) bp _ rest
                  (λ x y p q. (==_iff _ _).0 p ∙ sym ((==_iff _ _).0 q)) u),
          )
      | inl stop ↦
          let (cnt, rest, made) = has_room ip_key max _ c.ip_routes held (for_ip ip) in
          let made' : make_room c.ip_maxroutes c.ip_routes_cnt c.ip_routes ≡ some (cnt, rest) =
            rw limit made in
          (
            record {
              ip = ip;
              iface = cfg.dev;
              call = call;
              ipmode = ipmode;
              timestamp = timestamp;
              invalid = false;
            },
            record {
              to_ip = refl;
              by_iface = refl;
              by_call = refl;
              in_mode = refl;
              at_time = refl;
            },
            rw (on, stop, made')
                (added_front ip_key max _ c.ip_routes held (for_ip ip) _ cnt rest
                  (unlink-none (for_ip ip) c.ip_routes stop) made),
          )
    ]

pub same_path_sound : (xs ys : List (List ℕ)) → (same_path xs ys ≡ true) → xs ≡ ys
unfolding same_path
same_path_sound [] [] e = refl
same_path_sound [] (y ∷ ys) e = absurd (cc)
same_path_sound (x ∷ xs) [] e = absurd (cc)
same_path_sound (x ∷ xs) (y ∷ ys) e =
    let both : (same x y ≡ true) × (same_path xs ys ≡ true) = ground arith in
    let first = (same_iff x y).0 both.0 in
    ap (λ t. t ∷ xs) first ∙ ap (λ t. y ∷ t) (same_path_sound xs ys both.1)

path_after : (old digi : List (List ℕ)) → (if not (same_path old digi) then digi else old) ≡ digi
path_after old digi = elim (Bool-cases (same_path old digi)) [
  | inl e ↦ rw e (same_path_sound old digi e)
  | inr e ↦ rw e
]

pub record IsRerouted (cfg : Config) (call : List ℕ) (digi : List (List ℕ)) (timestamp : ℕ)
    (e : Ax25Entry) : Type 0 where
  pub to_call : e.call ≡ call
  pub by_iface : e.iface ≡ cfg.dev
  pub by_path : e.digipeater ≡ digi
  pub at_time : e.timestamp ≡ timestamp

-- In a valid cache with room for an entry: an update of a callsign whose entry, if there is one, is
-- not kept against it, leaves the AX.25 entries as a cache that forgets the least recently updated:
-- the updated entry first, then the others in their order, as many as the limit allows.
pub update_ax25_route-recent :
    (cfg : Config) (call : List ℕ) (digi : List (List ℕ)) (timestamp : ℕ) (c : Cache) (max : ℕ)
    → IsValid c
    → c.ax25_maxroutes ≡ suc max
    → All
        (λ (e : Ax25Entry). for_call call e ≡ true → is_kept e.timestamp timestamp ≡ false)
        c.ax25_routes
    → (e : Ax25Entry) × IsRerouted cfg call digi timestamp e
      × ((update_ax25_route cfg call digi timestamp c).1.ax25_routes
          ≡ take (suc max) (e ∷ without (for_call call) c.ax25_routes))
unfolding update_ax25_route
update_ax25_route-recent cfg call digi timestamp c max v limit free =
    let held : Held call_key (suc max) c.ax25_routes_cnt c.ax25_routes =
      subst (λ m. Held call_key m c.ax25_routes_cnt c.ax25_routes) limit v.ax25_held in
    elim (Option-cases (unlink (for_call call) c.ax25_routes)) [
      | inr ((bp, rest), go) ↦
          let u = unlink-Unlinked (for_call call) c.ax25_routes bp rest go in
          let given_up = All-hit _ (for_call call) c.ax25_routes bp rest u free u.hit in
          (
            _,
            record {
              to_call = sym ((same_iff _ _).0 u.hit);
              by_iface = refl;
              by_path = path_after bp.digipeater digi;
              at_time = refl;
            },
            rw (go, given_up, update_ax25_route)
                (moved_front call_key max _ c.ax25_routes held (for_call call) bp _ rest
                  (λ x y p q. sym ((same_iff _ _).0 p) ∙ (same_iff _ _).0 q) u),
          )
      | inl stop ↦
          let (cnt, rest, made) = has_room call_key max _ c.ax25_routes held (for_call call) in
          let made' : make_room c.ax25_maxroutes c.ax25_routes_cnt c.ax25_routes
              ≡ some (cnt, rest) =
            rw limit made in
          (
            _,
            record { to_call = refl; by_iface = refl; by_path = refl; at_time = refl },
            rw (stop, made', update_ax25_route)
                (added_front call_key max _ c.ax25_routes held (for_call call) _ cnt rest
                  (unlink-none (for_call call) c.ax25_routes stop) made),
          )
    ]
