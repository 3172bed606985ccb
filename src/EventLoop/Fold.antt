-- ===== src/EventLoop/Fold.antt =====
-- The event loop on an event ring to which the device adds nothing while it runs.
use mhi_for_quectel_modem.Base.{
  ℕ, zero, suc, ◌+◌, ◌-◌, ◌<◌, ◌≤◌, Bool, true, false, ◌&&◌, Option, none, some, List, [], ◌∷◌,
  get_or, get_elem?, set, length, get_elem?-set_self, Option-cases, ◌≡◌, ◌⊎◌, inl, inr, refl, sym,
  ap, ◌∙◌, arith, ◌==◌, ℕ_discrete, if◌then◌else◌,
}
use mathlib.Core.Path.{subst}
use mhi_for_quectel_modem.Tre.{Tre}
use mhi_for_quectel_modem.Ring.{to_virtual, recycle_ev_ring_element}
use mhi_for_quectel_modem.Ring.Slots.{
  IsAt, IsMapped, IsSynced, PointsTo, next, recycle_ev_ring_element-IsAt,
}
use mhi_for_quectel_modem.Ring.Space.{used, same_slot}
use mhi_for_quectel_modem.Ctrl.{Ctrl, Event}
use mhi_for_quectel_modem.Queue.{no_tre}
use mhi_for_quectel_modem.Queue.Place.{slot-PointsTo}
use mhi_for_quectel_modem.Complete.Order.{used-step, used_self}
use mhi_for_quectel_modem.EventLoop.{Handler, event_loop, local_rp, recycled, recycle_at}

-- The events of `k` slots from slot `i` on.
unfoldable pub events_from : List Tre → ℕ → ℕ → ℕ → List Tre
events_from tres n i zero = []
events_from tres n i (suc k) = get_or tres i no_tre ∷ events_from tres n (next n i) k

-- A handler on one event after the other, where the ring moves on after each.
unfoldable pub handle_each : Handler → ℕ → Ctrl → List Tre → Option Ctrl
unfolding recycle_at
handle_each handle at c [] = some c
handle_each handle at c (ev ∷ evs) = elim (handle c ev) [
  | none ↦ none
  | some (c', _) ↦ elim (recycle_at at c') [
    | none ↦ none
    | some c'' ↦ handle_each handle at c'' evs
  ]
]

-- The event ring `e` with its read pointer at slot `i` and its write pointer at slot `j`; the
-- device sees the write pointer.
pub record IsEventQueue (e : Event) (n i j : ℕ) : Type 0 where
  pub ring : IsAt e.ring n i j
  pub mapped : IsMapped e.ring
  pub synced : IsSynced e.ring

-- The slot `k` steps further on.
unfoldable pub next_by : ℕ → ℕ → ℕ → ℕ
next_by n zero j = j
next_by n (suc k) j = next_by n k (next n j)

recycled-shape :
    (e : Event)
    → ((recycled e).ring.base ≡ e.ring.base)
      × ((recycled e).ring.el_size ≡ e.ring.el_size)
      × ((recycled e).ring.iommu_base ≡ e.ring.iommu_base)
      × ((recycled e).ring.len ≡ e.ring.len)
unfolding recycle_ev_ring_element
recycled-shape e = (refl, refl, refl, refl)

recycled-IsEventQueue :
    {e : Event} {n i j : ℕ}
    → IsEventQueue e n i j
    → IsEventQueue (recycled e) n (next n i) (next n j)
recycled-IsEventQueue {e} v =
    let (at, synced) = recycle_ev_ring_element-IsAt v.ring v.mapped v.synced in
    let (_, _, io, len) = recycled-shape e in
    record { ring = at; mapped = rw (io, len) v.mapped; synced = synced }

-- The bus address `a` is that of slot `m`.
abbrev pub IsSlot : Event → ℕ → ℕ → Type 0
IsSlot e a m = PointsTo e.ring (to_virtual e.ring a) m

recycled-IsSlot : (e : Event) (a m : ℕ) → IsSlot e a m → IsSlot (recycled e) a m
unfolding to_virtual
recycled-IsSlot e a m h = let (b, s, io, _) = recycled-shape e in rw (b, s, io) h

-- The event ring with the number `at` has the events `tres`, its read pointer at slot `i` and its
-- write pointer at slot `j`, `a` is the bus address of slot `m`, and `hw` says whether the ring is one
-- of the hardware.
pub record IsServed (c : Ctrl) (at : ℕ) (hw : Bool) (tres : List Tre) (a n m i j : ℕ) : Type 0 where
  pub e : Event
  pub there : get_elem? c.events at ≡ some e
  pub queue : IsEventQueue e n i j
  pub writes : IsSlot e a m
  pub holds : e.tres ≡ tres
  pub kind : e.hw_ring ≡ hw

-- A handler that leaves the event ring with the number `at`, but for its doorbell mode, as it is, if
-- that ring is, or is not, one of the hardware.
abbrev pub KeepsRing : Handler → ℕ → Bool → Type 0
KeepsRing handle at hw =
    (c c' : Ctrl) (ev : Tre) (counts : Bool) (e : Event)
    → handle c ev ≡ some (c', counts)
    → get_elem? c.events at ≡ some e
    → e.hw_ring ≡ hw
    → (e' : Event) × ((get_elem? c'.events at ≡ some e')
        × (e'.ring ≡ e.ring)
        × (e'.tres ≡ e.tres)
        × (e'.hw_ring ≡ e.hw_ring))

pub there-lt :
    {A : Type 0} (xs : List A) (at : ℕ) (x : A) → get_elem? xs at ≡ some x → at < length xs
there-lt [] at x h = absurd (ground (arith, h))
there-lt (y ∷ ys) zero x h = omega arith
there-lt (y ∷ ys) (suc at) x h = omega (arith, there-lt ys at x h)

-- What the recycling of an element makes of a ring that a handler has left.
recycle_at-IsServed :
    (c' : Ctrl) (at : ℕ) (hw : Bool) (tres : List Tre) (a n m i j : ℕ)
    → IsServed c' at hw tres a n m i j
    → (c'' : Ctrl) × ((recycle_at at c' ≡ some c'')
        × IsServed c'' at hw tres a n m (next n i) (next n j))
unfolding recycle_at
recycle_at-IsServed c' at hw tres a n m i j v = (
  record c' { events = set c'.events at (recycled v.e) },
  (
    rw (v.there, recycle_at) refl,
    record {
      e = recycled v.e;
      there = get_elem?-set_self c'.events at (recycled v.e) (there-lt c'.events at v.e v.there);
      queue = recycled-IsEventQueue v.queue;
      writes = recycled-IsSlot v.e a m v.writes;
      holds = v.holds;
      kind = v.kind;
    },
  ),
)

kept-IsServed :
    (handle : Handler) (at : ℕ) (hw : Bool) (tres : List Tre) (a n m i j : ℕ) (c c' : Ctrl)
    (ev : Tre) (counts : Bool)
    → KeepsRing handle at hw
    → handle c ev ≡ some (c', counts)
    → IsServed c at hw tres a n m i j
    → IsServed c' at hw tres a n m i j
unfolding to_virtual
kept-IsServed handle at hw tres a n m i j c c' ev counts keeps h v =
    let (e', (there, ring, same, kind)) = keeps c c' ev counts v.e h v.there v.kind in
    record {
      e = e';
      there = there;
      queue = record {
        ring = rw ring v.queue.ring;
        mapped = rw ring v.queue.mapped;
        synced = rw ring v.queue.synced;
      };
      writes = rw ring v.writes;
      holds = same ∙ v.holds;
      kind = kind ∙ v.kind;
    }

-- How a loop ends, against the handling of the events one after the other.
abbrev pub EndsAs :
    ℕ → Bool → List Tre → ℕ → ℕ → ℕ → ℕ → Option Ctrl → ℕ → Option (Ctrl × ℕ) → Type 0
EndsAs at hw tres a n m j all count r =
    ((all ≡ none) × (r ≡ none))
    ⊎ ((c' : Ctrl) × ((all ≡ some c') × (r ≡ some (c', count)) × IsServed c' at hw tres a n m m j))

module _ (limited : Bool) (handle : Handler) (a at : ℕ) where
  loop-stop :
      (fuel k : ℕ) (c : Ctrl) (e : Event) (quota count : ℕ)
      → get_elem? c.events at ≡ some e
      → (to_virtual e.ring a == e.ring.rp) ≡ true
      → event_loop (suc fuel) limited handle (λ _. a) k c at quota count ≡ some (c, count)
  unfolding event_loop
  loop-stop fuel k c e quota count there stop = rw (there, event_loop) (rw stop refl)

  loop-stuck :
      (fuel k : ℕ) (c : Ctrl) (e : Event) (quota count : ℕ)
      → get_elem? c.events at ≡ some e
      → (to_virtual e.ring a == e.ring.rp) ≡ false
      → (limited && (quota == 0)) ≡ false
      → handle c (local_rp e) ≡ none
      → event_loop (suc fuel) limited handle (λ _. a) k c at quota count ≡ none
  unfolding event_loop
  loop-stuck fuel k c e quota count there go more stuck =
      rw (there, event_loop) (rw (go, more, stuck) refl)

  loop-step :
      (fuel k : ℕ) (c c' c'' : Ctrl) (e : Event) (counts : Bool) (quota count : ℕ)
      → get_elem? c.events at ≡ some e
      → (to_virtual e.ring a == e.ring.rp) ≡ false
      → (limited && (quota == 0)) ≡ false
      → handle c (local_rp e) ≡ some (c', counts)
      → recycle_at at c' ≡ some c''
      → event_loop (suc fuel) limited handle (λ _. a) k c at quota count
        ≡ event_loop fuel limited handle
            (λ _. a)
            (k + 1)
            c''
            at
            (if counts then quota - 1 else quota)
            (count + 1)
  unfolding event_loop
  loop-step fuel k c c' c'' e counts quota count there go more runs moved =
      rw (there, event_loop) (rw (go, more, runs, moved) refl)

each-stuck :
    (handle : Handler) (at : ℕ) (c : Ctrl) (ev : Tre) (evs : List Tre)
    → handle c ev ≡ none
    → handle_each handle at c (ev ∷ evs) ≡ none
unfolding handle_each
each-stuck handle at c ev evs h = rw (h, handle_each) refl

each-step :
    (handle : Handler) (at : ℕ) (c c' c'' : Ctrl) (ev : Tre) (evs : List Tre) (counts : Bool)
    → handle c ev ≡ some (c', counts)
    → recycle_at at c' ≡ some c''
    → handle_each handle at c (ev ∷ evs) ≡ handle_each handle at c'' evs
unfolding handle_each
each-step handle at c c' c'' ev evs counts h moved = rw (h, handle_each) (rw moved refl)

ends_same :
    (at : ℕ) (hw : Bool) (tres : List Tre) (a n m j j' : ℕ) (all all' : Option Ctrl)
    (count count' : ℕ) (r r' : Option (Ctrl × ℕ))
    → j ≡ j'
    → all ≡ all'
    → count ≡ count'
    → r ≡ r'
    → EndsAs at hw tres a n m j' all' count' r'
    → EndsAs at hw tres a n m j all count r
ends_same at hw tres a n m j j' all all' count count' r r' ej ea ec er h = rw (ej, ea, ec, er) h

module _ (limited : Bool) (handle : Handler) (at : ℕ) (hw : Bool) (keeps : KeepsRing handle at hw)
    (tres : List Tre) (a n m : ℕ) (inside : m < n) where
  -- Let the device have written the events from the read pointer's slot `i` up to slot `m`, and add none
  -- while the loop runs.
  pub event_loop-fold :
      (fuel i j k : ℕ) (c : Ctrl) (quota count : ℕ)
      → IsServed c at hw tres a n m i j
      → used n i m < fuel
      → (limited ≡ false) ⊎ (used n i m ≤ quota)
      → EndsAs at hw tres a n m
          (next_by n (used n i m) j)
          (handle_each handle at c (events_from tres n i (used n i m)))
          (count + used n i m)
          (event_loop fuel limited handle (λ _. a) k c at quota count)
  unfolding event_loop handle_each events_from next_by
  event_loop-fold zero i j k c quota count v enough more = absurd (omega (arith, enough))
  event_loop-fold (suc fuel) i j k c quota count v enough more =
      let q = v.queue in
      let test =
        same_slot v.e.ring m i (to_virtual v.e.ring a) v.e.ring.rp q.ring.sized v.writes
          q.ring.reads in
      elim (ℕ_discrete i m) [
        | yes here ↦
            let stop : (to_virtual v.e.ring a == v.e.ring.rp) ≡ true =
              test ∙ ground (arith, here) in
            let none_left = used_self n i m q.ring.rp_in inside here in
            inr (
              c,
              (
                rw none_left refl,
                loop-stop limited handle a at fuel k c v.e quota count v.there stop
                    ∙ ap (λ t. some (c, t)) (omega (arith, none_left)),
                rw none_left (subst (λ t. IsServed c at hw tres a n m t j) here v),
              ),
            )
        | no on ↦
            let go : (to_virtual v.e.ring a == v.e.ring.rp) ≡ false = test ∙ ground (arith, on) in
            let near = used-step n i m q.ring.rp_in inside on in
            let open_ : (limited && (quota == 0)) ≡ false = ground (arith, more, near) in
            let slot_at = slot-PointsTo v.e.ring v.e.ring.rp i q.ring.sized q.ring.reads in
            let first : local_rp v.e ≡ get_or tres i no_tre =
              ap (λ t. get_or v.e.tres t no_tre) slot_at ∙ ap (λ l. get_or l i no_tre) v.holds in
            elim (Option-cases (handle c (local_rp v.e))) [
              | inl h ↦ inl (
                rw near (each-stuck handle at c _ _ (ap (handle c) (sym first) ∙ h)),
                loop-stuck limited handle a at fuel k c v.e quota count v.there go open_ h,
              )
              | inr ((c', counts), h) ↦
                  let left =
                    kept-IsServed handle at hw tres a n m i j c c' (local_rp v.e) counts keeps h
                      v in
                  let (c'', (moved, v')) = recycle_at-IsServed c' at hw tres a n m i j left in
                  let quota' = if counts then quota - 1 else quota in
                  let rest =
                    event_loop-fold fuel (next n i) (next n j) (k + 1) c'' quota' (count + 1) v'
                      (omega (arith, near, enough)) (ground (arith, more, near)) in
                  let left_over = used n (next n i) m in
                  let evs = events_from tres n (next n i) left_over in
                  ends_same at hw tres a n m _ (next_by n left_over (next n j)) _
                    (handle_each handle at c'' evs) _ (count + 1 + left_over) _
                    (event_loop fuel limited handle (λ _. a) (k + 1) c'' at quota' (count + 1))
                    (rw near refl)
                    (rw near (
                      each-step handle at c c' c'' (get_or tres i no_tre) evs counts
                        (ap (handle c) (sym first) ∙ h) moved))
                    (omega (arith, near))
                    (loop-step limited handle a at fuel k c c' c'' v.e counts quota count v.there go
                      open_ h moved)
                    rest
            ]
      ]
