-- ===== src/Ipd/Process/Kiss.antt =====
-- `from_kiss`: every outcome of a frame from the serial line.
use linuxax.Prelude.{
  ℕ, ◌+◌, ◌*◌, ◌≡◌, true, false, List, Option, some, true-ne-false, if-true, if-false, arith,
  Bool-cases, inl, inr, ap, ◌∙◌, ◌==◌, if◌then◌else◌, ==_iff,
}
use mathlib.Core.Path.{subst}
use linuxax.Ipd.Frame.{addr_field_ok, next_addr, set_repeated, ◌>>=◌}
use linuxax.Ipd.Frame.Mark.{marked}
use linuxax.Ipd.Process.{Config, Daemon, addr_at, is_me, forward_to, kiss_digi, from_kiss}
use linuxax.Ipd.Process.Hops.{
  Hop, AtDigi, checked_length, checked-Hop, digi-Hop, mark_at, after_mark,
}

-- The outcomes, in the words of the frame's layout.
pub data Outcome (cfg : Config) (d : Daemon) (buf : List ℕ) : Daemon → Type 0 where
  -- No well-formed address field.
  tooshort :
      addr_field_ok buf ≡ false
      → Outcome cfg d buf
          (record d { stats = record (d.stats) { kiss_tooshort = d.stats.kiss_tooshort + 1 } })
  -- TNC mode: the frame goes on to the next hop as it is.
  passed : cfg.digi ≡ false → (h : Hop buf) → Outcome cfg d buf (forward_to cfg d buf h.place)
  -- Digipeater mode: the next hop is another station.
  not_for_me :
      cfg.digi ≡ true
      → (h : Hop buf) → is_me cfg (addr_at buf h.place) ≡ false
      → Outcome cfg d buf
          (record d { stats = record (d.stats) { kiss_not_for_me = d.stats.kiss_not_for_me + 1 } })
  -- Digipeater mode: the next hop is this station, as the destination.
  i_am_dest :
      cfg.digi ≡ true
      → (h : Hop buf) → is_me cfg (addr_at buf h.place) ≡ true
      → h.place ≡ 0
      → Outcome cfg d buf
          (record d { stats = record (d.stats) { kiss_i_am_dest = d.stats.kiss_i_am_dest + 1 } })
  -- Digipeater mode: this station is digipeater `k`, marks the frame and sends it to the hop after.
  digipeated :
      cfg.digi ≡ true
      → (n k : ℕ) → AtDigi buf n k
      → is_me cfg (addr_at buf (k * 7)) ≡ true
      → (h : Hop (marked buf k)) → Outcome cfg d buf (forward_to cfg d (marked buf k) h.place)

-- A frame given to a station in digipeater mode that is its next hop and no destination.
kiss_digi-marks :
    (cfg : Config) (d : Daemon) (buf f : List ℕ) (a a' : ℕ)
    → is_me cfg (addr_at buf a) ≡ true
    → (a == 0) ≡ false
    → set_repeated buf a ≡ some f
    → next_addr f ≡ some a'
    → kiss_digi cfg d buf a ≡ some (forward_to cfg d f a')
unfolding kiss_digi
kiss_digi-marks cfg d buf f a a' me digi marks next = rw (me, digi, marks, ◌>>=◌) (rw (next, ◌>>=◌))

pub from_kiss-checked :
    (cfg : Config) (d : Daemon) (buf : List ℕ) (a : ℕ)
    → addr_field_ok buf ≡ true
    → next_addr buf ≡ some a
    → from_kiss cfg d buf
      ≡ (if cfg.digi then kiss_digi cfg d buf a else some (forward_to cfg d buf a))
unfolding from_kiss
from_kiss-checked cfg d buf a good next = rw (checked_length buf good, good, next, ◌>>=◌)

from_kiss-unchecked :
    (cfg : Config) (d : Daemon) (buf : List ℕ)
    → addr_field_ok buf ≡ false
    → from_kiss cfg d buf
      ≡ some (record d { stats = record (d.stats) { kiss_tooshort = d.stats.kiss_tooshort + 1 } })
unfolding from_kiss
from_kiss-unchecked cfg d buf bad = ground arith

module _ (cfg : Config) (d : Daemon) (buf : List ℕ) where
  abbrev Done : Option Daemon → Type 0
  Done r = (d' : Daemon) × (r ≡ some d') × Outcome cfg d buf d'

  Done-digi : (h : Hop buf) → cfg.digi ≡ true → Done (kiss_digi cfg d buf h.place)
  unfolding kiss_digi
  Done-digi h mode = elim (Bool-cases (is_me cfg (addr_at buf h.place))) [
    | inr other ↦ (_, rw other, not_for_me mode h other)
    | inl me ↦ elim (Bool-cases (h.place == 0)) [
      | inl dest ↦ (_, rw (me, dest), i_am_dest mode h me ((==_iff h.place 0).0 dest))
      | inr digi ↦
          let (k, e, at) = digi-Hop buf h (λ z. true-ne-false ((==_iff h.place 0).1 z) digi) in
          let next = after_mark buf h.count k at in
          (
            forward_to cfg d (marked buf k) next.place,
            kiss_digi-marks cfg d buf (marked buf k) h.place next.place me digi
                (ap (set_repeated buf) e ∙ mark_at buf h.count k at) next.found,
            digipeated mode h.count k at (subst (λ t. is_me cfg (addr_at buf t) ≡ true) e me) next,
          )
    ]
  ]

  -- `from_kiss` reads nothing outside the frame and always ends, in the outcome that the address
  -- field, the mode and the station's own callsigns call for.
  pub from_kiss-Outcome : (d' : Daemon) × (from_kiss cfg d buf ≡ some d') × Outcome cfg d buf d'
  from_kiss-Outcome = elim (Bool-cases (addr_field_ok buf)) [
    | inr bad ↦ (_, from_kiss-unchecked cfg d buf bad, tooshort bad)
    | inl good ↦
        let h = checked-Hop buf good in
        let start = from_kiss-checked cfg d buf h.place good h.found in
        elim (Bool-cases cfg.digi) [
          | inr tnc ↦ (forward_to cfg d buf h.place, start ∙ if-false _ _ tnc, passed tnc h)
          | inl mode ↦ let (d', e, o) = Done-digi h mode in (d', start ∙ if-true _ _ mode ∙ e, o)
        ]
  ]
