-- ===== src/Rtd/Faults.antt =====
-- What `del_ax25_route` does with the IP routes that go to the callsign, and where it reads an entry that
-- it has freed.
use linuxax.Prelude.{
  ℕ, suc, ◌-◌, ◌≡◌, ◌↔◌, refl, sym, ◌∙◌, inl, inr, Bool, true, false, ◌&&◌, List, [], ◌∷◌, ◌++◌,
  some, length, All, arith, if◌then◌else◌, append_assoc, append-nil, Bool-cases, Option-cases, same,
}
use linuxax.Ipd.Frame.{◌>>=◌}
use linuxax.Rtd.{
  IpEntry, Ax25Entry, Config, Cache, Request, del_kernel_ip_route, del_kernel_ax25_route, unlink,
  remove_ip_route, remove_ip_routes, remove_ax25_route, del_ax25_route,
}
use linuxax.Rtd.Entries.{without}

-- No IP route goes to the callsign.
abbrev pub HasNoIpRoute : List ℕ → Cache → Type 0
HasNoIpRoute call c = All (λ (e : IpEntry). same e.call call ≡ false) c.ip_routes

abbrev pub goes_to : List ℕ → IpEntry → Bool
goes_to call e = same e.call call

-- What the kernel is asked for the IP routes that go to the callsign.
unfoldable pub requests : List ℕ → List IpEntry → List Request
requests call [] = []
requests call (e ∷ es) =
    let more = requests call es in
    if same e.call call then del_kernel_ip_route e.iface e.ip ∷ more else more

-- The cache without the IP routes among `left` that go to the callsign.
unfoldable pub rid_of : List ℕ → (before left : List IpEntry) → Cache → Cache
rid_of call before left c = record c {
  ip_routes = before ++ without (goes_to call) left;
  ip_routes_cnt = c.ip_routes_cnt - length (requests call left);
  kernel = c.kernel ++ requests call left;
}

remove_ip_routes-true :
    (call : List ℕ) (before left : List IpEntry) (c : Cache)
    → c.ip_routes ≡ before ++ left
    → remove_ip_routes true call before left c ≡ some (rid_of call before left c)
unfolding remove_ip_routes remove_ip_route rid_of requests without
remove_ip_routes-true call before [] c e =
    let none_less : c.ip_routes_cnt - 0 ≡ c.ip_routes_cnt = omega arith in
    rw (append-nil c.kernel, none_less, sym e) refl
remove_ip_routes-true call before (iprt ∷ left) c e = elim (Bool-cases (same iprt.call call)) [
  | inl hit ↦
      let one_less : c.ip_routes_cnt - 1 - length (requests call left)
          ≡ c.ip_routes_cnt - suc (length (requests call left)) =
        omega arith in
      rw (hit) (
        remove_ip_routes-true call before left (remove_ip_route iprt (before ++ left) c) refl
        ∙ rw
            (
              append_assoc c.kernel (del_kernel_ip_route iprt.iface iprt.ip ∷ [])
                  (requests call left),
              one_less,
            )
            refl)
  | inr miss ↦ rw (miss) (
      remove_ip_routes-true call (before ++ (iprt ∷ [])) left c
        (e ∙ sym (append_assoc before (iprt ∷ []) left))
      ∙ rw (append_assoc before (iprt ∷ []) (without (goes_to call) left)) refl)
]

remove_ip_routes-false :
    (call : List ℕ) (before left : List IpEntry) (c : Cache)
    → ((c' : Cache) × (remove_ip_routes false call before left c ≡ some c'))
      ↔ All (λ (e : IpEntry). same e.call call ≡ false) left
unfolding remove_ip_routes
remove_ip_routes-false call before [] c = ((λ s. tt), (λ h. (c, refl)))
remove_ip_routes-false call before (iprt ∷ left) c = elim (Bool-cases (same iprt.call call)) [
  | inl hit ↦
      ((λ (c', go). absurd (let bad = rw (hit) at go in cc)), (λ h. absurd (let bad = h.0 in cc)))
  | inr miss ↦
      let deep = remove_ip_routes-false call (before ++ (iprt ∷ [])) left c in
      (
        (λ (c', go). (miss, deep.0 (c', rw (miss) at go))),
        (λ h. let (c', go) = deep.1 h.1 in (c', rw (miss) go)),
      )
]

-- A route of the cache, which `del_ax25_route` finds. Where `next` of a freed entry can still be read, it
-- is removed with all IP routes to its callsign, the others keep their order, the counts are lowered by
-- what is removed, and the kernel is asked to remove each, the AX.25 route last. Where that read is
-- undefined, `del_ax25_route` comes to an end exactly if no IP route goes to the callsign.
pub del_ax25_route-removes :
    (cfg : Config) (call : List ℕ) (c : Cache) (bp : Ax25Entry) (rest : List Ax25Entry)
    → unlink (λ (e : Ax25Entry). same call e.call && same cfg.dev e.iface) c.ax25_routes
      ≡ some (bp, rest)
    → (del_ax25_route true cfg call c
        ≡ some (
          0,
          record c {
            ip_routes = without (goes_to bp.call) c.ip_routes;
            ip_routes_cnt = c.ip_routes_cnt - length (requests bp.call c.ip_routes);
            ax25_routes = rest;
            ax25_routes_cnt = c.ax25_routes_cnt - 1;
            kernel =
                (c.kernel ++ requests bp.call c.ip_routes)
                ++ (del_kernel_ax25_route bp.iface bp.call ∷ []);
          },
        ))
      × (((r : ℕ) × (c' : Cache) × (del_ax25_route false cfg call c ≡ some (r, c')))
          ↔ HasNoIpRoute bp.call c)
unfolding del_ax25_route remove_ax25_route rid_of
del_ax25_route-removes cfg call c bp rest go =
    let lax = remove_ip_routes-true bp.call [] c.ip_routes (record c { ax25_routes = rest }) refl in
    let strict = remove_ip_routes-false bp.call [] c.ip_routes (record c { ax25_routes = rest }) in
    (
      rw (go, del_ax25_route) (rw (lax, ◌>>=◌) refl),
      (
        (λ (r, c', e).
            strict.0
              (elim (Option-cases
                (remove_ip_routes false bp.call [] c.ip_routes (record c { ax25_routes = rest }))) [
                  | inl freed ↦ absurd (
                      let found = rw (go, del_ax25_route) at e in
                      let bad = rw (freed, ◌>>=◌) at found in cc)
                  | inr found ↦ found
                ])),
        (λ h.
            let (d, end) = strict.1 h in
            (
              0,
              record d {
                ax25_routes_cnt = d.ax25_routes_cnt - 1;
                kernel = d.kernel ++ (del_kernel_ax25_route bp.iface bp.call ∷ []);
              },
              rw (go, del_ax25_route) (rw (end, ◌>>=◌) refl),
            )),
      ),
    )
