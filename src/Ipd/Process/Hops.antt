-- ===== src/Ipd/Process/Hops.antt =====
-- The station that is to take a frame with a checked address field, and the one after it.
use linuxax.Prelude.{
  ℕ, ◌*◌, ◌≤◌, ◌<◌, ◌≡◌, ◌≢◌, true, false, List, some, length, arith, ltb, inl, inr,
}
use linuxax.Ipd.Frame.{addr_field_ok, next_addr, repeated, set_repeated}
use linuxax.Ipd.Frame.Layout.{HasAddresses, AllRepeated, flags}
use linuxax.Ipd.Frame.Field.{addr_field_ok_iff}
use linuxax.Ipd.Frame.Next.{IsNext, next_addr-IsNext}
use linuxax.Ipd.Frame.Mark.{marked, marked-HasAddresses, set_repeated-marked}

-- A checked frame is long enough.
pub checked_length : (f : List ℕ) → addr_field_ok f ≡ true → ltb (length f) 15 ≡ false
checked_length f e = let (n, h) = (addr_field_ok_iff f).0 e in long (omega (arith, h.inside, h.two))
  where
    long : 15 ≤ length f → ltb (length f) 15 ≡ false
    long le = ground arith

-- The next hop of a frame, with the proofs that it can be found.
pub record Hop (f : List ℕ) : Type 0 where
  pub count : ℕ
  pub layout : HasAddresses count f
  pub place : ℕ
  pub found : next_addr f ≡ some place
  pub is_next : IsNext count f place

pub Hop-of : (n : ℕ) (f : List ℕ) → HasAddresses n f → Hop f
Hop-of n f h =
    let (a, e, s) = next_addr-IsNext n f h in
    record { count = n; layout = h; place = a; found = e; is_next = s }

pub checked-Hop : (f : List ℕ) → addr_field_ok f ≡ true → Hop f
checked-Hop f e = let (n, h) = (addr_field_ok_iff f).0 e in Hop-of n f h

-- The hop is digipeater `k` of the frame.
pub record AtDigi (f : List ℕ) (n k : ℕ) : Type 0 where
  pub addresses : HasAddresses n f
  pub beyond_source : 2 ≤ k
  pub within : k < n
  pub waiting : repeated (flags f k) ≡ false
  pub others_done : AllRepeated f 2 k

-- A hop that is not the destination is a digipeater, can be marked, and leaves a hop after it.
pub digi-Hop :
    (f : List ℕ) (h : Hop f) → h.place ≢ 0 → (k : ℕ) × (h.place ≡ k * 7) × AtDigi f h.count k
digi-Hop f h ne = go h.is_next
  where
    go : IsNext h.count f h.place → (k : ℕ) × (h.place ≡ k * 7) × AtDigi f h.count k
    go (inl (zero_place, _)) = absurd (ne zero_place)
    go (inr (k, two, lt, e, fresh, all)) = (
      k,
      e,
      record {
        addresses = h.layout;
        beyond_source = two;
        within = lt;
        waiting = fresh;
        others_done = all;
      },
    )

pub mark_at : (f : List ℕ) (n k : ℕ) → AtDigi f n k → set_repeated f (k * 7) ≡ some (marked f k)
mark_at f n k h = set_repeated-marked n k f h.addresses h.within

pub after_mark : (f : List ℕ) (n k : ℕ) → AtDigi f n k → Hop (marked f k)
after_mark f n k h = Hop-of n (marked f k) (marked-HasAddresses n k f h.addresses h.within)
