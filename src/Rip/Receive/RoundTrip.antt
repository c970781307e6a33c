-- ===== src/Rip/Receive/RoundTrip.antt =====
-- A message in the format that `transmit_routes` sends is learnt entry by entry.
use linuxax.Prelude.{
  ℕ, zero, suc, ◌+◌, ◌*◌, ◌≤◌, ◌≡◌, ◌-◌, ◌^◌, refl, ap, sym, ◌∙◌, Bool, true, false, not, ◌||◌,
  List, [], ◌∷◌, ◌++◌, Option, none, some, length, length-append, All, arith, Bool-cases, inl, inr,
  append_assoc, ltb, leb, lt→ltb, if◌then◌else◌, ◌==◌,
}
use linuxax.Ipd.Frame.{◌>>=◌}
use linuxax.Rip.{
  Action, orig_route, fixed_route, new_route, del_route, Route, bits2mask, build_header, put_entry,
  get_entry,
}
use linuxax.Rip.Message.{FitsEntry, get_entry-put_entry, payload, message_of, length-message_of}
use linuxax.Rip.Receive.{
  Comparison, unmatch_route, no_route, replace_route, additional_route, cmp_route, scan_routes,
  learn_route, is_rejected, take_entry, receive_from, Request, add_rt, del_requests, add_requests,
  is_dest, receive_routes,
}

-- The entries of a message, one after another.
unfoldable pub learn_all : Bool → List Route → List Route → Option (List Route)
learn_all route_restrict [] rs = some rs
learn_all route_restrict (e ∷ es) rs =
    take_entry route_restrict (e.addr, e.bits, e.metric) rs >>= learn_all route_restrict es

receive_from-payload :
    (fuel : ℕ) (route_restrict : Bool) (before : List ℕ) (es : List Route) (after message : List ℕ)
    (mess_len p : ℕ) (rs : List Route)
    → All FitsEntry es
    → suc (length es) ≤ fuel
    → message ≡ before ++ (payload es ++ after)
    → p ≡ length before
    → mess_len ≡ p + 6 * length es
    → receive_from fuel route_restrict message mess_len p rs ≡ learn_all route_restrict es rs
unfolding receive_from learn_all payload put_entry
receive_from-payload zero route_restrict before es after message mess_len p rs fit enough m s l =
    absurd (omega arith)
receive_from-payload (suc fuel) route_restrict before [] after message mess_len p rs fit enough m s
      l =
    let done : ltb p mess_len ≡ false = ground arith in rw (done, receive_from)
receive_from-payload (suc fuel) route_restrict before (e ∷ es) after message mess_len p rs fit
      enough m s l =
    let more : ltb p mess_len ≡ true = lt→ltb _ _ (omega arith) in
    let here : message ≡ before ++ (put_entry e ++ (payload es ++ after)) =
      m ∙ ap (λ t. before ++ t) (append_assoc (put_entry e) (payload es) after) in
    let read : get_entry message p ≡ some (e.addr, e.bits, e.metric) =
      ap (λ t. get_entry t p) here ∙ get_entry-put_entry before e (payload es ++ after) p fit.0 s in
    let next : message ≡ (before ++ put_entry e) ++ (payload es ++ after) =
      here ∙ sym (append_assoc before (put_entry e) (payload es ++ after)) in
    rw (more, receive_from)
      (rw (read, ◌>>=◌)
        (ap (λ f. take_entry route_restrict (e.addr, e.bits, e.metric) rs >>= f)
          (λ i rs'.
            receive_from-payload fuel route_restrict (before ++ put_entry e) es after message
              mess_len (p + 6) rs' fit.1 (omega arith) next (six_on) (omega arith) i)))
  where
    six_on : p + 6 ≡ length (before ++ put_entry e)
    six_on = omega (arith, length-append before (put_entry e))

-- The prefix lengths of the table are those of real masks.
abbrev pub HasMasks : List Route → Type 0
HasMasks rs = All (λ (r : Route). r.bits ≤ 32) rs

abbrev pub IsSome {ℓ} : {A : Type ℓ} → Option A → Type ℓ
IsSome {A} o = (a : A) × (o ≡ some a)

bind-IsSome {ℓ κ} :
    {A : Type ℓ} {B : Type κ} (o : Option A) (f : A → Option B)
    → IsSome o
    → ((a : A) → o ≡ some a → IsSome (f a))
    → IsSome (o >>= f)
bind-IsSome o f (a, e) k = rw (e, ◌>>=◌) (k a e)

bits2mask-IsSome : (bits : ℕ) → bits ≤ 32 → IsSome (bits2mask bits)
unfolding bits2mask
bits2mask-IsSome bits h = elim (Bool-cases (bits == 0)) [
  | inl e ↦ (0, rw e)
  | inr e ↦ let fits : leb bits 32 ≡ true = ground arith in (2 ^ 32 - 2 ^ (32 - bits), rw (e, fits))
]

cmp_route-IsSome :
    (route : Route) (addr bits metric : ℕ)
    → route.bits ≤ 32
    → bits ≤ 32
    → IsSome (cmp_route route addr bits metric)
unfolding cmp_route
cmp_route-IsSome route addr bits metric h k =
    bind-IsSome (bits2mask route.bits) _ (bits2mask-IsSome route.bits h)
      (λ old e. bind-IsSome (bits2mask bits) _ (bits2mask-IsSome bits k) (λ new e'. (_, refl)))

-- A loop over routes with masks ends with routes with masks.
Scans : Option (List Route × Bool × Bool) → Type 0
Scans o =
    (rs : List Route) × (found : Bool) × (matched : Bool) × (o ≡ some (rs, found, matched))
    × HasMasks rs

scan_routes-Scans :
    (addr bits metric : ℕ) (rs : List Route)
    → bits ≤ 32
    → HasMasks rs
    → Scans (scan_routes addr bits metric rs)
unfolding scan_routes Scans
scan_routes-Scans addr bits metric [] k h = ([], false, false, refl, tt)
scan_routes-Scans addr bits metric (route ∷ rs) k h =
    let (c, e) = cmp_route-IsSome route addr bits metric h.0 k in
    let (rs', found, matched, e', masks) = scan_routes-Scans addr bits metric rs k h.1 in
    rw (e, e', scan_routes, ◌>>=◌) (by_case c rs' found matched masks)
  where
    by_case :
        (c : Comparison) (rs' : List Route) (found matched : Bool)
        → HasMasks rs'
        → Scans (
            some (elim c [
              | unmatch_route ↦ (route ∷ rs', found, matched)
              | no_route ↦ (route ∷ rs', found, true)
              | replace_route ↦ (record route { action = del_route } ∷ rs', true, true)
              | additional_route ↦ (route ∷ rs', true, true)
            ]))
    by_case unmatch_route rs' found matched masks = (_, _, _, refl, (h.0, masks))
    by_case no_route rs' found matched masks = (_, _, _, refl, (h.0, masks))
    by_case replace_route rs' found matched masks = (_, _, _, refl, (h.0, masks))
    by_case additional_route rs' found matched masks = (_, _, _, refl, (h.0, masks))

Learns : Option (List Route) → Type 0
Learns o = (rs : List Route) × (o ≡ some rs) × HasMasks rs

take_entry-Learns :
    (route_restrict : Bool) (addr bits metric : ℕ) (rs : List Route)
    → bits ≤ 32
    → HasMasks rs
    → Learns (take_entry route_restrict (addr, bits, metric) rs)
unfolding take_entry learn_route Scans Learns
take_entry-Learns route_restrict addr bits metric rs k h =
    elim (Bool-cases (is_rejected route_restrict addr)) [
      | inl rejected ↦ (rs, rw rejected, h)
      | inr taken ↦
          let m = if ltb 16 (metric + 1) then 16 else metric + 1 in
          let new : Route = record { addr = addr; bits = bits; metric = m; action = new_route } in
          let (rs', found, matched, e, masks) = scan_routes-Scans addr bits m rs k h in
          elim (Bool-cases (found || not matched)) [
            | inl added ↦ (new ∷ rs', rw (taken, e, ◌>>=◌, added), (k, masks))
            | inr held ↦ (rs', rw (taken, e, ◌>>=◌, held), masks)
          ]
    ]

learn_all-Learns :
    (route_restrict : Bool) (es rs : List Route)
    → HasMasks es
    → HasMasks rs
    → Learns (learn_all route_restrict es rs)
unfolding learn_all Learns
learn_all-Learns route_restrict [] rs k h = (rs, refl, h)
learn_all-Learns route_restrict (e ∷ es) rs k h =
    let (rs', took, masks) = take_entry-Learns route_restrict e.addr e.bits e.metric rs k.0 h in
    rw (took, ◌>>=◌) (learn_all-Learns route_restrict es rs' k.1 masks)

add_requests-IsSome :
    (gateway : ℕ) (rs : List Route) → HasMasks rs → IsSome (add_requests gateway rs)
unfolding add_requests
add_requests-IsSome gateway [] h = ([], refl)
add_requests-IsSome gateway (r ∷ rs) h =
    bind-IsSome (add_requests gateway rs) _ (add_requests-IsSome gateway rs h.1)
      (λ others e. by_action others r.action)
  where
    by_action :
        (others : List Request) (a : Action)
        → IsSome (elim a [
          | new_route ↦
              if r.bits == 32
              then some (add_rt r.addr none (r.metric + 1) gateway ∷ others)
              else bits2mask r.bits >>= λ mask.
                  some (add_rt r.addr (some mask) (r.metric + 1) gateway ∷ others)
          | _ ↦ some others
        ])
    by_action others orig_route = (_, refl)
    by_action others fixed_route = (_, refl)
    by_action others del_route = (_, refl)
    by_action others new_route = elim (Bool-cases (r.bits == 32)) [
      | inl host ↦ (add_rt r.addr none (r.metric + 1) gateway ∷ others, rw host)
      | inr net ↦
          let (mask, e) = bits2mask-IsSome r.bits h.0 in
          (add_rt r.addr (some mask) (r.metric + 1) gateway ∷ others, rw (net, e, ◌>>=◌))
    ]

-- A message in the format of `transmit_routes`, with whatever behind it in the buffer, received from
-- a router of the list: no read leaves the message, no shift is too wide, the entries are learnt one
-- after another, and the kernel is asked to remove the routes that are then deleted and to add those
-- that are new. The prefix lengths of the message and of the table are up to 32.
pub receive_routes-message_of :
    (route_restrict : Bool) (dests : List ℕ) (es : List Route) (after : List ℕ) (rem_addr : ℕ)
    (rs : List Route)
    → All FitsEntry es
    → HasMasks es
    → HasMasks rs
    → is_dest rem_addr dests ≡ true
    → (rs' : List Route) × (added : List Request) × (learn_all route_restrict es rs ≡ some rs')
      × (add_requests rem_addr rs' ≡ some added)
      × (receive_routes route_restrict dests
            (message_of es ++ after)
            (length (message_of es))
            rem_addr
            rs
          ≡ some (rs', del_requests rs' ++ added))
unfolding receive_routes build_header Learns
receive_routes-message_of route_restrict dests es after rem_addr rs fit masks h known =
    let (rs', learnt, masks') = learn_all-Learns route_restrict es rs masks h in
    let (added, asked) = add_requests-IsSome rem_addr rs' masks' in
    let length_is = length-message_of es in
    let whole = append_assoc build_header (payload es) after in
    let loop =
      receive_from-payload (suc (length (message_of es))) route_restrict build_header es after
        (message_of es ++ after) (length (message_of es)) 4 rs fit (omega (arith, length_is)) whole
        refl length_is in
    (rs', added, learnt, asked, rw (known, loop, learnt, asked, ◌>>=◌))
