-- ===== src/Channel/Stale.antt =====
-- What `mhi_mark_stale_events` does to the event ring of a channel.
use mhi_for_quectel_modem.Base.{
  ℕ, zero, suc, ◌+◌, ◌-◌, ◌*◌, ◌^◌, ◌<◌, true, false, ◌&&◌, some, List, length, get_or, set,
  length-set, get_or-set_self, get_or-set_ne, ltb, ◌==◌, ==_iff, if◌then◌else◌, ◌≡◌, ◌≢◌, ◌⊎◌, inl,
  inr, refl, sym, ap, ◌∙◌, arith, ℕ_discrete, Bool-cases,
}
use mhi_for_quectel_modem.Tre.{Tre, get_ev_type, get_ev_chid, ev_dword1, tx_event, stale_event}
use mhi_for_quectel_modem.Tre.Coding.{event_fields}
use mhi_for_quectel_modem.Ring.{Ring, to_virtual, to_device}
use mhi_for_quectel_modem.Ring.Slots.{PointsTo, IsMapped, next, next-lt, to_virtual-to_device}
use mhi_for_quectel_modem.Ring.Space.{used, same_slot}
use mhi_for_quectel_modem.Ctrl.{Event}
use mhi_for_quectel_modem.Queue.{no_tre}
use mhi_for_quectel_modem.Queue.Place.{slot-PointsTo}
use mhi_for_quectel_modem.Complete.{rounds_in}
use mhi_for_quectel_modem.Complete.Order.{used-step, used_self}
use mhi_for_quectel_modem.Channel.{mark_stale, mark_from, mark_stale_events, step_event}

-- A ring of `n` elements of 16 bytes.
pub record IsEventRing (ring : Ring) (n : ℕ) : Type 0 where
  pub size : ring.el_size ≡ 16
  pub measured : ring.len ≡ n * 16

step_event-PointsTo :
    (ring : Ring) (n k p : ℕ)
    → IsEventRing ring n
    → k < n
    → PointsTo ring p k
    → PointsTo ring (step_event ring p) (next n k)
step_event-PointsTo ring n k p v h q = ground (arith, v.size, v.measured)

-- What becomes of the element in slot `k`, where the slots up to `m` further on from slot `i` are looked at.
abbrev pub Marked : ℕ → ℕ → ℕ → ℕ → List Tre → List Tre → Type 0
Marked chan n i m tres tres' =
    (k : ℕ)
    → k < n
    → get_or tres' k no_tre ≡ (
        if ltb (used n i k) m then mark_stale chan (get_or tres k no_tre) else get_or tres k no_tre)

used_zero : (n i k : ℕ) → i < n → k < n → used n i k ≡ 0 → i ≡ k
used_zero n i k hi hk e = ground arith

used_behind : (n i : ℕ) → i < n → used n (next n i) i ≡ n - 1
used_behind n i h = ground arith

Marked-step :
    (chan n i m : ℕ) (tres tres' : List Tre)
    → i < n
    → suc m < n
    → length tres ≡ n
    → Marked chan n (next n i) m (set tres i (mark_stale chan (get_or tres i no_tre))) tres'
    → Marked chan n i (suc m) tres tres'
Marked-step chan n i m tres tres' hi hm room h k hk = elim (ℕ_discrete i k) [
  | yes here ↦ ground (
    arith,
    here,
    h k hk,
    get_or-set_self tres i (mark_stale chan (get_or tres i no_tre)) no_tre,
    used_behind n i hi,
    used_self n i k hi hk here,
  )
  | no other ↦ ground (
    arith,
    h k hk,
    get_or-set_ne tres {i = i} {j = k} (mark_stale chan (get_or tres i no_tre)) no_tre other,
    used-step n i k hi hk other,
  )
]

mark_from_lem :
    (fuel m : ℕ) (ring : Ring) (chan n i d p q : ℕ) (tres : List Tre)
    → IsEventRing ring n
    → i < n
    → d < n
    → PointsTo ring p i
    → PointsTo ring q d
    → length tres ≡ n
    → used n i d ≡ m
    → m < fuel
    → (tres' : List Tre) × (mark_from fuel ring chan q p tres ≡ some tres')
      × (length tres' ≡ n)
      × Marked chan n i m tres tres'
unfolding mark_from
mark_from_lem zero m ring chan n i d p q tres v hi hd hp hq room e less = absurd (omega arith)
mark_from_lem (suc fuel) zero ring chan n i d p q tres v hi hd hp hq room e less = (
  tres,
  rw
      (same_slot ring d i q p (rw v.size (omega arith)) hq hp
        ∙ (==_iff d i).1 (sym (used_zero n i d hi hd e)))
      refl,
  room,
  λ k hk. ground arith,
)
mark_from_lem (suc fuel) (suc m) ring chan n i d p q tres v hi hd hp hq room e less =
    let at = slot-PointsTo ring p i (rw v.size (omega arith)) hp in
    let (tres', runs, room', marked) =
      mark_from_lem fuel m ring chan n (next n i) d (step_event ring p) q
        (set tres i (mark_stale chan (get_or tres i no_tre))) v (next-lt n i hi) hd
        (step_event-PointsTo ring n i p v hi hp) hq (length-set tres _ _ ∙ room)
        (ground (arith, e, used-step n i d)) (omega arith) in
    (
      tres',
      rw (same_slot ring d i q p (rw v.size (omega arith)) hq hp ∙ further, at) runs,
      room',
      Marked-step chan n i m tres tres' hi (ground (arith, e)) room marked,
    )
  where
    further : (d == i) ≡ false
    further = ground (arith, e)

-- An event that is no transfer event for the channel.
abbrev pub IsDead : ℕ → Tre → Type 0
IsDead chan tre = (get_ev_type tre ≢ tx_event) ⊎ (get_ev_chid tre ≢ chan)

stale_type :
    (tre : Tre) (chan : ℕ)
    → chan < 256
    → get_ev_type (record tre { dword1 = ev_dword1 chan stale_event }) ≡ stale_event
unfolding get_ev_type
stale_type tre chan h =
    (event_fields tre.ptr 0 0 chan stale_event (omega arith) (omega arith) h (omega arith)).3

mark_stale-IsDead : (tre : Tre) (chan : ℕ) → chan < 256 → IsDead chan (mark_stale chan tre)
unfolding mark_stale
mark_stale-IsDead tre chan h =
    elim (Bool-cases ((get_ev_type tre == tx_event) && (chan == get_ev_chid tre))) [
      | inl e ↦ rw e (inl (λ t. absurd (omega (arith, stale_type tre chan h))))
      | inr e ↦ rw e (elim (ℕ_discrete (get_ev_type tre) tx_event) [
        | yes t ↦ inr (λ s. ground (arith, e, t, s))
        | no t ↦ inl t
      ])
    ]

-- For a channel number of one byte and an event ring that lies within the 64-bit address spaces, whose
-- read pointer stands at slot `i` and whose device has written up to slot `d`,
-- `mhi_mark_stale_events` ends, leaves the ring's pointers and every element from `d` on to `i` as they
-- were, and leaves no event of the type TX for the channel among those from `i` up to `d`; each of
-- these is as it was unless it was such an event. (So events of the type RSC_TX stay.)
pub mark_stale_events_lem :
    (e : Event) (chan n i d : ℕ)
    → chan < 256
    → IsEventRing e.ring n
    → i < n
    → d < n
    → PointsTo e.ring e.ring.rp i
    → length e.tres ≡ n
    → IsMapped e.ring
    → e.ring.base + e.ring.len < 2 ^ 64
    → e.ring.ctxt_rp ≡ to_device e.ring (e.ring.base + d * e.ring.el_size)
    → (e' : Event) × (mark_stale_events e chan ≡ some e')
      × (e'.ring ≡ e.ring)
      × ((k : ℕ) → k < n → used n i k < used n i d → IsDead chan (get_or e'.tres k no_tre))
      × Marked chan n i (used n i d) e.tres e'.tres
unfolding mark_stale_events
mark_stale_events_lem e chan n i d byte v hi hd hp room mapped low hq =
    let p = e.ring.base + d * e.ring.el_size in
    let found : to_virtual e.ring e.ring.ctxt_rp ≡ p =
      ap (to_virtual e.ring) hq
      ∙ to_virtual-to_device e.ring n d p (v.measured ∙ ap (λ t. n * t) (sym v.size)) hd refl mapped
          low in
    let (tres', runs, _, marked) =
      mark_from_lem (rounds_in e.ring) (used n i d) e.ring chan n i d e.ring.rp p e.tres v hi hd hp
        refl room refl fuel in
    (
      record e { tres = tres' },
      rw (found, runs, mark_stale_events) refl,
      refl,
      λ k hk near.
          rw (marked k hk, looked k near) (mark_stale-IsDead (get_or e.tres k no_tre) chan byte),
      marked,
    )
  where
    fuel : used n i d < rounds_in e.ring
    fuel = rw (v.measured, v.size) (ground (arith))

    looked : (k : ℕ) → used n i k < used n i d → ltb (used n i k) (used n i d) ≡ true
    looked k h = ground arith
