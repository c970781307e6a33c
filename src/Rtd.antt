-- ===== src/Rtd.antt =====
-- ax25apps/ax25rtd/cache_ctl.c: the caches of IP routes and of AX.25 routes. A cache is the list of
-- its entries from the head on, linked both ways in the code. What is asked of the kernel is kept,
-- in order. That `malloc` fails is left out. Whether freed memory can be read is a parameter.
pub mod Entries
pub mod Held
pub mod Valid
pub mod Run
pub mod Recent
pub mod Faults
mod Tests
use mathlib.Core.List.{map}
use linuxax.Prelude.{
  ℕ, zero, suc, ◌+◌, ◌-◌, bit_and, bit_or, bit_xor, Bool, true, false, not, ◌&&◌, ◌||◌, List, [],
  ◌∷◌, ◌++◌, Option, none, some, ◌==◌, leb, if◌then◌else◌, length, same,
}
use linuxax.Ipd.Frame.{◌>>=◌}

-- `NEW_ARP`, `NEW_ROUTE` and `NEW_IPMODE` of ax25rtd.h
abbrev pub new_arp : ℕ
new_arp = 1

abbrev pub new_route : ℕ
new_route = 2

abbrev pub new_ipmode : ℕ
new_ipmode = 4

-- `ip_rt_entry`
pub record IpEntry : Type 0 where
  pub ip : ℕ
  pub iface : List ℕ
  pub call : List ℕ
  pub ipmode : ℕ
  pub timestamp : ℕ
  pub invalid : Bool

-- `ax25_rt_entry`; the list of digipeaters is as long as `ndigi` says, `cnt` is never used.
pub record Ax25Entry : Type 0 where
  pub iface : List ℕ
  pub call : List ℕ
  pub digipeater : List (List ℕ)
  pub timestamp : ℕ

-- The fields of `config` that the caches read.
pub record Config : Type 0 where
  pub dev : List ℕ
  pub netmask : ℕ
  pub ip : ℕ

-- `del_kernel_ip_route` and `del_kernel_ax25_route`
pub data Request : Type 0 where
  del_kernel_ip_route : (dev : List ℕ) (ip : ℕ) → Request
  del_kernel_ax25_route : (dev call : List ℕ) → Request

-- The global variables.
pub record Cache : Type 0 where
  pub ip_routes : List IpEntry
  pub ip_routes_cnt : ℕ
  pub ip_maxroutes : ℕ
  pub ax25_routes : List Ax25Entry
  pub ax25_routes_cnt : ℕ
  pub ax25_maxroutes : ℕ
  pub kernel : List Request

module _ {ℓ} {A : Type ℓ} where
  -- The search of a list and the unlinking of the entry found: the entry, and the list without it.
  pub unlink : (A → Bool) → List A → Option (A × List A)
  unlink test [] = none
  unlink test (e ∷ es) =
      let later = unlink test es >>= λ (found, rest). some (found, e ∷ rest) in
      if test e then some (e, es) else later

  -- The tail is unlinked.
  pub drop_last : List A → List A
  drop_last [] = []
  drop_last (e ∷ []) = []
  drop_last (e ∷ e' ∷ es) = e ∷ drop_last (e' ∷ es)

  -- The count and the list with room for one more; `none` is the error where there is no tail.
  pub make_room : ℕ → ℕ → List A → Option (ℕ × List A)
  unfolding drop_last
  make_room maxroutes cnt [] = if leb maxroutes cnt then none else some (cnt, [])
  make_room maxroutes cnt (e ∷ es) =
      if leb maxroutes cnt then some (cnt - 1, drop_last (e ∷ es)) else some (cnt, e ∷ es)

-- The bits of `action` for an entry that is there.
pub ip_action : Config → ℕ → List ℕ → IpEntry → ℕ
ip_action cfg ipmode call bp =
    bit_or
      (bit_or (if same bp.iface cfg.dev then 0 else new_route)
        (if same bp.call call then 0 else new_arp))
      (if ipmode == bp.ipmode then 0 else new_ipmode)

pub update_ip_route : Config → ℕ → ℕ → List ℕ → ℕ → Cache → ℕ × Cache
unfolding unlink make_room ip_action
update_ip_route cfg ip ipmode call timestamp c =
    if not (bit_and (bit_xor ip cfg.ip) cfg.netmask == 0)
    then (0, c)
    else elim (unlink (λ (e : IpEntry). e.ip == ip) c.ip_routes) [
      | some (bp, rest) ↦
          let bp' = record bp {
            iface = cfg.dev;
            call = call;
            ipmode = ipmode;
            timestamp = timestamp;
          } in
          if (bp.timestamp == 0) && not (timestamp == 0)
          then (0, c)
          else (ip_action cfg ipmode call bp, record c { ip_routes = bp' ∷ rest })
      | none ↦ elim (make_room c.ip_maxroutes c.ip_routes_cnt c.ip_routes) [
        | none ↦ (0, c)
        | some (cnt, rest) ↦
            let bp : IpEntry = record {
              ip = ip;
              iface = cfg.dev;
              call = call;
              ipmode = ipmode;
              timestamp = timestamp;
              invalid = false;
            } in
            (
              bit_or (bit_or new_route new_arp) new_ipmode,
              record c { ip_routes = bp ∷ rest; ip_routes_cnt = cnt + 1 },
            )
      ]
    ]

-- `ndigi` and `memcmp` over the digipeaters.
pub same_path : List (List ℕ) → List (List ℕ) → Bool
same_path [] [] = true
same_path (a ∷ xs) (b ∷ ys) = same a b && same_path xs ys
same_path _ _ = false

-- The entry is returned where the kernel is to be told of it. `digi` has `ndigi` addresses.
pub update_ax25_route : Config → List ℕ → List (List ℕ) → ℕ → Cache → Option Ax25Entry × Cache
unfolding unlink make_room same_path
update_ax25_route cfg call digi timestamp c =
    elim (unlink (λ (e : Ax25Entry). same call e.call) c.ax25_routes) [
      | some (bp, rest) ↦
          let moved = not (same bp.iface cfg.dev) in
          let rerouted = not (same_path bp.digipeater digi) in
          let bp' = record bp {
            iface = cfg.dev;
            digipeater = if rerouted then digi else bp.digipeater;
            timestamp = timestamp;
          } in
          let kernel =
            if moved then c.kernel ++ (del_kernel_ax25_route bp.iface bp.call ∷ []) else c.kernel in
          if (bp.timestamp == 0) && not (timestamp == 0) then (none, c) else (
            if moved || rerouted then some bp' else none,
            record c { ax25_routes = bp' ∷ rest; kernel = kernel },
          )
      | none ↦ elim (make_room c.ax25_maxroutes c.ax25_routes_cnt c.ax25_routes) [
        | none ↦ (none, c)
        | some (cnt, rest) ↦
            let bp : Ax25Entry = record {
              iface = cfg.dev;
              call = call;
              digipeater = digi;
              timestamp = timestamp;
            } in
            (some bp, record c { ax25_routes = bp ∷ rest; ax25_routes_cnt = cnt + 1 })
      ]
    ]

-- `remove_ip_route`, at the entry `bp` with the others `rest`.
pub remove_ip_route : IpEntry → List IpEntry → Cache → Cache
remove_ip_route bp rest c = record c {
  ip_routes = rest;
  ip_routes_cnt = c.ip_routes_cnt - 1;
  kernel = c.kernel ++ (del_kernel_ip_route bp.iface bp.ip ∷ []);
}

-- The loop of `remove_ax25_route` over the IP routes from an entry on, `before` being those that it has
-- passed and kept. It reads `next` of an entry that `remove_ip_route` has freed: `freed_readable` is
-- whether what stood there can still be read, as memory that `free` leaves alone, and where it is
-- false, such a read is `none`, as C leaves it undefined.
pub remove_ip_routes :
    (freed_readable : Bool) (call : List ℕ) (before left : List IpEntry) → Cache → Option Cache
unfolding remove_ip_route
remove_ip_routes freed_readable call before [] c = some c
remove_ip_routes freed_readable call before (iprt ∷ left) c =
    let removed =
      remove_ip_routes freed_readable call before left (remove_ip_route iprt (before ++ left) c) in
    let kept = remove_ip_routes freed_readable call (before ++ (iprt ∷ [])) left c in
    if same iprt.call call then if freed_readable then removed else none else kept

pub remove_ax25_route : (freed_readable : Bool) → Ax25Entry → List Ax25Entry → Cache → Option Cache
unfolding remove_ip_routes
remove_ax25_route freed_readable bp rest c = do
  c' ← remove_ip_routes freed_readable bp.call [] c.ip_routes (record c { ax25_routes = rest })
  some (record (c') {
    ax25_routes_cnt = c'.ax25_routes_cnt - 1;
    kernel = c'.kernel ++ (del_kernel_ax25_route bp.iface bp.call ∷ []);
  })

pub del_ip_route : ℕ → Cache → ℕ × Cache
unfolding unlink remove_ip_route
del_ip_route ip c =
    if ip == 0 then (1, c) else elim (unlink (λ (e : IpEntry). e.ip == ip) c.ip_routes) [
      | some (bp, rest) ↦ (0, remove_ip_route bp rest c)
      | none ↦ (1, c)
    ]

-- The entries with the first that has the address marked, and whether there is one.
pub invalidate : ℕ → List IpEntry → List IpEntry × Bool
invalidate ip [] = ([], false)
invalidate ip (bp ∷ es) =
    let (es', found) = invalidate ip es in
    if bp.ip == ip then (record bp { invalid = true } ∷ es, true) else (bp ∷ es', found)

pub invalidate_ip_route : ℕ → Cache → ℕ × Cache
unfolding invalidate
invalidate_ip_route ip c =
    let (es, found) = invalidate ip c.ip_routes in
    (if found then 1 else 0, record c { ip_routes = es })

pub del_ax25_route : (freed_readable : Bool) → Config → List ℕ → Cache → Option (ℕ × Cache)
unfolding unlink remove_ax25_route
del_ax25_route freed_readable cfg call c =
    elim (unlink (λ (e : Ax25Entry). same call e.call && same cfg.dev e.iface) c.ax25_routes) [
      | some (bp, rest) ↦ remove_ax25_route freed_readable bp rest c >>= λ c'. some (0, c')
      | none ↦ some (1, c)
    ]

-- An entry with a time that is over; 0 stands for ever.
pub is_expired : (timestamp when now : ℕ) → Bool
is_expired timestamp when now = not (timestamp == 0) && leb (timestamp + when) now

-- The loop of `expire_ax25_route` from an entry on: `before` is what it has passed and kept.
pub expire_ax25_from :
    (freed_readable : Bool) (when now : ℕ) (before left : List Ax25Entry) → Cache → Option Cache
unfolding remove_ax25_route is_expired
expire_ax25_from freed_readable when now before [] c = some c
expire_ax25_from freed_readable when now before (bp ∷ left) c =
    elim (is_expired bp.timestamp when now) [
      | true ↦
          remove_ax25_route freed_readable bp (before ++ left) c
          >>= expire_ax25_from freed_readable when now before left
      | false ↦ expire_ax25_from freed_readable when now (before ++ (bp ∷ [])) left c
    ]

pub expire_ax25_route : (freed_readable : Bool) (when now : ℕ) → Cache → Option Cache
unfolding expire_ax25_from
expire_ax25_route freed_readable when now c =
    expire_ax25_from freed_readable when now [] c.ax25_routes c

pub expire_ip_from : (when now : ℕ) (before left : List IpEntry) → Cache → Cache
unfolding remove_ip_route is_expired
expire_ip_from when now before [] c = c
expire_ip_from when now before (bp ∷ left) c = elim (is_expired bp.timestamp when now) [
  | true ↦ expire_ip_from when now before left (remove_ip_route bp (before ++ left) c)
  | false ↦ expire_ip_from when now (before ++ (bp ∷ [])) left c
]

pub expire_ip_route : (when now : ℕ) → Cache → Cache
unfolding expire_ip_from
expire_ip_route when now c = expire_ip_from when now [] c.ip_routes c
