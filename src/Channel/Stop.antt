-- ===== src/Channel/Stop.antt =====
-- What `__mhi_unprepare_channel` leaves behind.
use mhi_for_quectel_modem.Base.{
  ℕ, zero, suc, ◌+◌, ◌*◌, ◌^◌, ◌<◌, Bool, true, false, some, length, get_elem?, set, ◌≡◌, ◌⊎◌, inl,
  inr, refl, ◌∙◌, arith,
}
use mhi_for_quectel_modem.Tre.{reset_chan}
use mhi_for_quectel_modem.Ring.{to_device}
use mhi_for_quectel_modem.Ring.Slots.{PointsTo, IsMapped}
use mhi_for_quectel_modem.Ring.Space.{used}
use mhi_for_quectel_modem.Ctrl.{Ctrl, Chan, Event, enabled, disabled, ring_cmd_db}
use mhi_for_quectel_modem.Wake.{wake_toggle, assert_dev_wake, deassert_dev_wake}
use mhi_for_quectel_modem.Queue.{send_cmd}
use mhi_for_quectel_modem.Queue.Place.{IsQueue}
use mhi_for_quectel_modem.Complete.{drop_one, reset_data_chan}
use mhi_for_quectel_modem.Complete.Order.{rounds}
use mhi_for_quectel_modem.Complete.Event.{reset_data_chan-empties}
use mhi_for_quectel_modem.Channel.{
  Await, mark_stale_events, reset_channel, release_channel, unprepare_channel, deinit_chan_ctxt,
  wake_up,
}
use mhi_for_quectel_modem.Channel.Stale.{IsEventRing, mark_stale_events_lem}

-- The event ring of a channel is there, within the 64-bit address spaces; the device has written up to slot `d`.
pub record HasEvents (c : Ctrl) (ch : Chan) (e : Event) (n i d : ℕ) : Type 0 where
  pub there : get_elem? c.events ch.er_index ≡ some e
  pub byte : ch.chan < 256
  pub ring : IsEventRing e.ring n
  pub at : i < n
  pub up_to : d < n
  pub reads : PointsTo e.ring e.ring.rp i
  pub room : length e.tres ≡ n
  pub mapped : IsMapped e.ring
  pub low : e.ring.base + e.ring.len < 2 ^ 64
  pub seen : e.ring.ctxt_rp ≡ to_device e.ring (e.ring.base + d * e.ring.el_size)

-- Such a channel, which is a queue whose rings are the driver's, in a given state.
pub record IsStoppable (c : Ctrl) (ch : Chan) : Type 0 where
  pub e : Event
  pub n : ℕ
  pub i : ℕ
  pub d : ℕ
  pub served : HasEvents c ch e n i d
  pub size : ℕ
  pub first : ℕ
  pub free : ℕ
  pub size' : ℕ
  pub first' : ℕ
  pub free' : ℕ
  pub queue : IsQueue ch size first free size' first' free'
  pub own : ch.offload_ch ≡ false

drop_one-state : (k : ℕ) (s : Ctrl × Chan) → (rounds k drop_one s).1.ch_state ≡ s.1.ch_state
unfolding rounds drop_one
drop_one-state zero s = refl
drop_one-state (suc k) s = drop_one-state k (drop_one s)

-- The channel is off, its transfer ring empty and its buffer ring given back.
abbrev pub IsReleased : Chan → Type 0
IsReleased ch =
    (ch.ch_state ≡ disabled) × (ch.tre_ring.rp ≡ ch.tre_ring.wp) × (ch.buf_ring.base ≡ 0)

reset_channel_parts :
    (c : Ctrl) (ch : Chan) (e e' : Event)
    → ch.offload_ch ≡ false
    → get_elem? c.events ch.er_index ≡ some e
    → mark_stale_events e ch.chan ≡ some e'
    → reset_channel c ch ≡ reset_data_chan (record c { events = set c.events ch.er_index e' }) ch
unfolding reset_channel
reset_channel_parts c ch e e' own there marked = ground (arith, own, there, marked)

release_channel_parts :
    (c : Ctrl) (ch : Chan) (s : Ctrl × Chan)
    → ch.offload_ch ≡ false
    → reset_channel c ch ≡ some s
    → release_channel c ch ≡ some (deinit_chan_ctxt s)
unfolding release_channel
release_channel_parts c ch s own reset = ground (arith, own, reset)

release_channel_ok :
    (c : Ctrl) (ch : Chan)
    → IsStoppable c ch
    → ch.ch_state ≡ disabled
    → (c' : Ctrl) × ((ch' : Chan) × ((release_channel c ch ≡ some (c', ch')) × IsReleased ch'))
unfolding deinit_chan_ctxt
release_channel_ok c ch v off =
    let h = v.served in
    let (e', marked, _, _, _) =
      mark_stale_events_lem v.e ch.chan v.n v.i v.d h.byte h.ring h.at h.up_to h.reads h.room
        h.mapped h.low h.seen in
    let c₁ = record c { events = set c.events ch.er_index e' } in
    let (dropped, empty) =
      reset_data_chan-empties c₁ ch v.size v.first v.free v.size' v.first' v.free' v.queue in
    let s = rounds (used v.size v.first v.free) drop_one (c₁, ch) in
    let r = deinit_chan_ctxt s in
    (
      r.0,
      (
        r.1,
        (
          release_channel_parts c ch s v.own
              (reset_channel_parts c ch v.e e' v.own h.there marked ∙ dropped),
          (drop_one-state (used v.size v.first v.free) (c₁, ch) ∙ off, empty, refl),
        ),
      ),
    )

-- What stopping a channel needs of the wait: the event ring and the queue stay such.
abbrev pub KeepsStoppable : Await → Type 0
KeepsStoppable await =
    (c : Ctrl) (ch : Chan)
    → IsStoppable c ch
    → ch.ch_state ≡ disabled
    → let r = await c ch in IsStoppable r.0 r.1 × (r.1.ch_state ≡ disabled)

pub assert-events : (c : Ctrl) (force : Bool) → (assert_dev_wake c force).events ≡ c.events
unfolding assert_dev_wake
assert-events c force = ground arith

pub deassert-events :
    (c : Ctrl) (override : Bool) → (deassert_dev_wake c override).events ≡ c.events
unfolding deassert_dev_wake
deassert-events c override = ground arith

wake_up-events : (c : Ctrl) → (wake_up c).events ≡ c.events
unfolding wake_toggle
wake_up-events c =
    ground (arith, assert-events c false, deassert-events (assert_dev_wake c false) true)

send_cmd-events : (c : Ctrl) (chan : ℕ) → (send_cmd c chan reset_chan).0.events ≡ c.events
unfolding send_cmd ring_cmd_db
send_cmd-events c chan = ground arith

stopping-IsStoppable :
    {c c' : Ctrl} {ch : Chan}
    → c'.events ≡ c.events
    → IsStoppable c ch
    → IsStoppable c' (record ch { ch_state = disabled; completed = false })
stopping-IsStoppable {ch = ch} same v =
    let h = v.served in
    let q = v.queue in
    record {
      e = v.e;
      n = v.n;
      i = v.i;
      d = v.d;
      size = v.size;
      first = v.first;
      free = v.free;
      size' = v.size';
      first' = v.first';
      free' = v.free';
      served = record {
        there = rw same h.there;
        byte = h.byte;
        ring = h.ring;
        at = h.at;
        up_to = h.up_to;
        reads = h.reads;
        room = h.room;
        mapped = h.mapped;
        low = h.low;
        seen = h.seen;
      };
      queue = record {
        tre = q.tre;
        buf = q.buf;
        tre_room = q.tre_room;
        buf_room = q.buf_room;
        larger = q.larger;
        level = q.level;
      };
      own = v.own;
    }

-- The three ways of `__mhi_unprepare_channel` on a channel that is on.
unprepare_channel_parts :
    (await : Await) (c : Ctrl) (ch : Chan)
    → ch.ch_state ≡ enabled
    → let ch₁ = record ch { ch_state = disabled; completed = false } in
      let c₁ = (send_cmd (wake_up c) ch.chan reset_chan).0 in
      (unprepare_channel await c ch ≡ release_channel c ch₁)
      ⊎ ((unprepare_channel await c ch ≡ release_channel c₁ ch₁)
          ⊎ (let w = await c₁ ch₁ in unprepare_channel await c ch ≡ release_channel w.0 w.1))
unfolding unprepare_channel
unprepare_channel_parts await c ch on = ground (arith, on)

-- On a channel that is on, whose rings are the driver's and a queue, and whose event ring is there and
-- within the 64-bit address spaces, where the wait for the device leaves these so and the channel off,
-- `__mhi_unprepare_channel` ends, whatever the state of the controller and the outcome of the command to the device,
-- with the channel off, its transfer ring empty, and its buffer ring given back.
pub unprepare_channel_ok :
    (await : Await) (c : Ctrl) (ch : Chan)
    → KeepsStoppable await
    → IsStoppable c ch
    → ch.ch_state ≡ enabled
    → (c' : Ctrl) × ((ch' : Chan) × ((unprepare_channel await c ch ≡ some (c', ch'))
          × IsReleased ch'))
unprepare_channel_ok await c ch keeps v on =
    let ch₁ = record ch { ch_state = disabled; completed = false } in
    let c₁ = (send_cmd (wake_up c) ch.chan reset_chan).0 in
    let v₁ : IsStoppable c₁ ch₁ =
      stopping-IsStoppable (send_cmd-events (wake_up c) ch.chan ∙ wake_up-events c) v in
    let w = await c₁ ch₁ in
    let (v₂, off) = keeps c₁ ch₁ v₁ refl in
    elim (unprepare_channel_parts await c ch on) [
      | inl e ↦ rw e (release_channel_ok c ch₁ (stopping-IsStoppable refl v) refl)
      | inr (inl e) ↦ rw e (release_channel_ok c₁ ch₁ v₁ refl)
      | inr (inr e) ↦ rw e (release_channel_ok w.0 w.1 v₂ off)
    ]
