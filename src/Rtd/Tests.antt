-- ===== src/Rtd/Tests.antt =====
-- The theorems on the caches at caches of one and of two entries.
use linuxax.Prelude.{
  ℕ, ◌≡◌, ◌↔◌, false, true, ◌-◌, ◌++◌, length, List, [], ◌∷◌, some, take, refl, same, ◌&&◌,
}
use linuxax.Rtd.{
  IpEntry, Ax25Entry, Config, Cache, unlink, make_room, update_ip_route, update_ax25_route,
  del_ax25_route, del_kernel_ax25_route,
}
use linuxax.Rtd.Entries.{without}
use linuxax.Rtd.Valid.{IsValid}
use linuxax.Rtd.Run.{Op, update_ip, update_ax25, apply, apply_all, start, apply_all-IsValid}
use linuxax.Rtd.Recent.{IsUpdated, for_ip, update_ip_route-recent}
use linuxax.Rtd.Faults.{HasNoIpRoute, goes_to, requests, del_ax25_route-removes}

-- Interface `a`, on the network 44.0.0.0/8.
abbrev channel : Config
channel = record { dev = 0x61 ∷ []; netmask = 0xff000000; ip = 0x2c000001 }

abbrev station : List ℕ
station = 0x82 ∷ 0x84 ∷ 0x86 ∷ 0x62 ∷ 0x40 ∷ 0x40 ∷ 0x60 ∷ []

abbrev other : List ℕ
other = 0x90 ∷ 0x84 ∷ 0x86 ∷ 0x62 ∷ 0x40 ∷ 0x40 ∷ 0x60 ∷ []

abbrev ip_entry : IpEntry
ip_entry = record {
  ip = 0x2c000005;
  iface = 0x61 ∷ [];
  call = other;
  ipmode = 0;
  timestamp = 7;
  invalid = false;
}

abbrev ax25_entry : Ax25Entry
ax25_entry = record { iface = 0x61 ∷ []; call = station; digipeater = []; timestamp = 7 }

abbrev one_each : Cache
one_each = record {
  ip_routes = ip_entry ∷ [];
  ip_routes_cnt = 1;
  ip_maxroutes = 1;
  ax25_routes = ax25_entry ∷ [];
  ax25_routes_cnt = 1;
  ax25_maxroutes = 1;
  kernel = [];
}

abbrev two_ops : List Op
two_ops = update_ip channel 0x2c000005 0 other 7 ∷ update_ax25 channel station [] 7 ∷ []

one_each_built : apply_all false two_ops (start 1 1) ≡ some one_each
unfolding apply_all apply update_ip_route update_ax25_route unlink make_room
one_each_built = refl

one_each-IsValid : IsValid one_each
one_each-IsValid = apply_all-IsValid false 1 1 two_ops one_each one_each_built

apply_all-IsValid_example : IsValid one_each
apply_all-IsValid_example = apply_all-IsValid false 1 1 two_ops one_each one_each_built

-- The only entry makes room for the new one.
update_ip_route-recent_example :
    (e : IpEntry) × IsUpdated channel 0x2c000009 1 station 9 e
    × ((update_ip_route channel 0x2c000009 1 station 9 one_each).1.ip_routes
        ≡ take 1 (e ∷ without (for_ip 0x2c000009) (ip_entry ∷ [])))
update_ip_route-recent_example =
    update_ip_route-recent channel 0x2c000009 1 station 9 one_each 0 one_each-IsValid refl refl
      (λ e. refl, tt)

ax25_entry_found :
    unlink (λ (e : Ax25Entry). same station e.call && same channel.dev e.iface) (ax25_entry ∷ [])
    ≡ some (ax25_entry, [])
unfolding unlink same
ax25_entry_found = refl

-- The cache with an IP route to the station too.
abbrev both : Cache
both = record one_each {
  ip_routes = record ip_entry { ip = 0x2c000006; call = station } ∷ ip_entry ∷ [];
  ip_routes_cnt = 2;
  ip_maxroutes = 2;
}

del_ax25_route-removes_example :
    (del_ax25_route true channel station both
      ≡ some (
        0,
        record both {
          ip_routes = without (goes_to station) both.ip_routes;
          ip_routes_cnt = both.ip_routes_cnt - length (requests station both.ip_routes);
          ax25_routes = [];
          ax25_routes_cnt = both.ax25_routes_cnt - 1;
          kernel =
              (both.kernel ++ requests station both.ip_routes)
              ++ (del_kernel_ax25_route channel.dev station ∷ []);
        },
      ))
    × (((r : ℕ) × (c' : Cache) × (del_ax25_route false channel station both ≡ some (r, c')))
        ↔ HasNoIpRoute station both)
del_ax25_route-removes_example =
    del_ax25_route-removes channel station both ax25_entry [] ax25_entry_found
