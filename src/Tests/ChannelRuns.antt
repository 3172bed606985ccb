-- ===== src/Tests/ChannelRuns.antt =====
-- Starting, stopping and using channels of the test data.
use mhi_for_quectel_modem.Base.{
  ℕ, zero, suc, ◌+◌, ◌*◌, ◌<◌, ◌≤◌, true, none, some, List, [], ◌∷◌, ◌++◌, get_or, ◌≡◌, refl, arith,
}
use mhi_for_quectel_modem.Tre.{Tre}
use mhi_for_quectel_modem.Ring.{to_device}
use mhi_for_quectel_modem.Ring.Slots.{next}
use mhi_for_quectel_modem.Ring.Space.{used}
use mhi_for_quectel_modem.Ctrl.{Ctrl, Chan, BufInfo, Event, Code, ok, enabled, disabled}
use mhi_for_quectel_modem.Queue.{no_buf, no_tre, eot, queue_client}
use mhi_for_quectel_modem.Queue.Place.{IsQueue}
use mhi_for_quectel_modem.Queue.Visible.{queue_client_ok}
use mhi_for_quectel_modem.Complete.{drop_one, parse_xfer_event, reset_data_chan}
use mhi_for_quectel_modem.Complete.Order.{rounds}
use mhi_for_quectel_modem.Complete.Event.{callbacks, reset_data_chan-empties}
use mhi_for_quectel_modem.Complete.Fifo.Run.{
  IsFifo, queued, dropped, Run, start, then, served_in_order,
}
use mhi_for_quectel_modem.Complete.Bounds.{reports, Fits, IsSound}
use mhi_for_quectel_modem.Events.{parse_rsc_event}
use mhi_for_quectel_modem.Events.Bounds.{reports_bounded}
use mhi_for_quectel_modem.Channel.{
  Memory, Await, mark_stale_events, prepare_channel, unprepare_channel,
}
use mhi_for_quectel_modem.Channel.Stale.{Marked, IsDead, mark_stale_events_lem}
use mhi_for_quectel_modem.Channel.Start.{IsReadyQueue, prepare_channel_ok}
use mhi_for_quectel_modem.Channel.Stop.{IsStoppable, IsReleased, unprepare_channel_ok}
use mhi_for_quectel_modem.Transfer.{Pair, prepare_for_transfer}
use mhi_for_quectel_modem.Transfer.Both.{IsAllOrNone, prepare_for_transfer_lem}
use mhi_for_quectel_modem.Tests.Data.{chan, ctrl, served, event, event_ring, direct}

queue : IsQueue chan 4 1 3 4 1 3
queue = record {
  tre = omega arith;
  buf = omega arith;
  tre_room = refl;
  buf_room = refl;
  larger = omega arith;
  level = refl;
}

written : event_ring.ctxt_rp ≡ to_device event_ring (3000 + 3 * 16)
unfolding to_device
written = refl

mark_stale_events_lem_example :
    (e' : Event) × (mark_stale_events event 5 ≡ some e')
    × (e'.ring ≡ event_ring)
    × ((k : ℕ) → k < 4 → used 4 1 k < used 4 1 3 → IsDead 5 (get_or e'.tres k no_tre))
    × Marked 5 4 1 (used 4 1 3) event.tres e'.tres
mark_stale_events_lem_example =
    mark_stale_events_lem event 5 4 1 3 (omega arith) (record { size = refl; measured = refl })
      (omega arith) (omega arith) refl refl (omega arith) (omega arith) written

-- Memory at address 4000, and a device that answers with success.
abbrev plenty : Memory
plenty log size = some 4000

abbrev answers : Await
answers c ch = (c, record ch { ccs = 1 }, 1)

-- A channel that is off and whose buffers are the driver's.
abbrev closed : Chan
closed = record chan { ch_state = disabled; pre_alloc = true }

abbrev prepared : Ctrl × Chan × Code
prepared = elim (prepare_channel plenty direct answers served closed) [
  | none ↦ (served, closed, ok)
  | some r ↦ r
]

prepare_runs :
    prepare_channel plenty direct answers served closed ≡ some (prepared.0, prepared.1, ok)
unfolding prepare_channel mhi_for_quectel_modem.Channel.init_chan_ctxt
    mhi_for_quectel_modem.Channel.start_channel mhi_for_quectel_modem.Queue.send_cmd
    mhi_for_quectel_modem.Ring.get_nr_avail_ring_elements mhi_for_quectel_modem.Wake.wake_toggle
    mhi_for_quectel_modem.Channel.started mhi_for_quectel_modem.Channel.fill_channel
    mhi_for_quectel_modem.Queue.gen_tre mhi_for_quectel_modem.Queue.map_single
prepare_runs = refl

prepare_channel_ok_example : (disabled ≡ disabled) × IsReadyQueue prepared.1 4 4 true
prepare_channel_ok_example =
    prepare_channel_ok plenty direct answers served closed 4 prepared.0 prepared.1
      (λ c ch. record {
        tre = refl;
        buf = refl;
        tre_elements = refl;
        buf_elements = refl;
        alloc = refl;
      })
      refl (omega arith) (omega arith) (omega arith) refl refl (omega arith) prepare_runs

stoppable : IsStoppable served chan
stoppable = record {
  e = event;
  n = 4;
  i = 1;
  d = 3;
  served = record {
    there = refl;
    byte = omega arith;
    ring = record { size = refl; measured = refl };
    at = omega arith;
    up_to = omega arith;
    reads = refl;
    room = refl;
    mapped = omega arith;
    low = omega arith;
    seen = written;
  };
  size = 4;
  first = 1;
  free = 3;
  size' = 4;
  first' = 1;
  free' = 3;
  queue = queue;
  own = refl;
}

unprepare_channel_ok_example :
    (c' : Ctrl) × ((ch' : Chan) × ((unprepare_channel (λ c ch. (c, ch, 1)) served chan
          ≡ some (c', ch'))
        × IsReleased ch'))
unprepare_channel_ok_example =
    unprepare_channel_ok (λ c ch. (c, ch, 1)) served chan (λ c ch v off. (v, off)) stoppable refl

-- Two channels, of which the second may not be used in the device's environment.
abbrev devices : Pair
devices = record {
  ul_chan = some (record chan { ch_state = disabled });
  dl_chan = some (record chan { ch_state = disabled; ee_mask = 0 });
}

abbrev transferred : Ctrl × Pair × Code
transferred = elim (prepare_for_transfer plenty direct answers served devices) [
  | none ↦ (served, devices, ok)
  | some r ↦ r
]

transfer_runs : prepare_for_transfer plenty direct answers served devices ≡ some transferred
unfolding prepare_for_transfer prepare_channel mhi_for_quectel_modem.Channel.init_chan_ctxt
    mhi_for_quectel_modem.Channel.start_channel mhi_for_quectel_modem.Queue.send_cmd
    mhi_for_quectel_modem.Ring.get_nr_avail_ring_elements mhi_for_quectel_modem.Channel.started
    unprepare_channel mhi_for_quectel_modem.Channel.release_channel
    mhi_for_quectel_modem.Channel.reset_channel mark_stale_events
    mhi_for_quectel_modem.Channel.mark_from mhi_for_quectel_modem.Ring.to_virtual reset_data_chan
    mhi_for_quectel_modem.Complete.drop_all drop_one mhi_for_quectel_modem.Ring.del_ring_element
    mhi_for_quectel_modem.Wake.wake_toggle mhi_for_quectel_modem.Wake.assert_dev_wake
    mhi_for_quectel_modem.Wake.deassert_dev_wake mhi_for_quectel_modem.Ctrl.ring_cmd_db
    mhi_for_quectel_modem.Ring.add_ring_element
transfer_runs = refl

prepare_for_transfer_lem_example : IsAllOrNone devices transferred
prepare_for_transfer_lem_example =
    prepare_for_transfer_lem plenty direct answers (λ c ch. refl) served devices transferred refl
      refl transfer_runs

abbrev packet : BufInfo
packet = record no_buf { v_addr = 6000; cb_buf = 33; len = 64 }

fifo : IsFifo (ctrl, chan) (22 ∷ 11 ∷ [])
unfolding callbacks
fifo = (4, 1, 3, 4, 1, 3, record { queue = queue; own = refl; all = refl })

queue_runs : (queue_client direct ctrl chan packet eot).2 ≡ ok
unfolding queue_client mhi_for_quectel_modem.Ring.is_ring_full mhi_for_quectel_modem.Queue.gen_tre
    mhi_for_quectel_modem.Queue.map_single
queue_runs = refl

-- The controller and the channel with one buffer more, and after a reset then.
abbrev longer : Ctrl × Chan
longer =
    ((queue_client direct ctrl chan packet eot).0, (queue_client direct ctrl chan packet eot).1)

abbrev emptied : Ctrl × Chan
emptied = rounds (used 4 1 (next 4 3)) drop_one longer

reset_runs : reset_data_chan longer.0 longer.1 ≡ some emptied
reset_runs =
    (reset_data_chan-empties longer.0 longer.1 4 1 (next 4 3) 4 1 (next 4 3)
      (queue_client_ok direct ctrl chan packet eot 4 1 3 4 1 3 queue queue_runs).0).0

both : Run (ctrl, chan) (33 ∷ []) emptied
both =
    then (then start (queued direct ctrl chan packet eot queue_runs))
      (dropped longer.0 longer.1 emptied reset_runs)

served_in_order_example :
    IsFifo emptied (33 ∷ 22 ∷ 11 ∷ [])
    × ((waiting : List ℕ) × (33 ∷ 22 ∷ 11 ∷ [] ≡ waiting ++ callbacks emptied.0.log))
served_in_order_example = served_in_order (ctrl, chan) emptied (33 ∷ []) (22 ∷ 11 ∷ []) fifo both

fits : Fits (λ _. 100) chan.bufs
fits zero = omega arith
fits (suc zero) = omega arith
fits (suc (suc zero)) = omega arith
fits (suc (suc (suc zero))) = omega arith
fits (suc (suc (suc (suc k)))) = omega arith

sound : IsSound (λ _. 100) (ctrl, chan)
unfolding reports
sound = record { fits = fits; within = tt }

reports_bounded_example :
    ((info : BufInfo) (flags : ℕ)
      → info.len ≤ 100
      → IsSound
          (λ _. 100)
          (
            (queue_client direct ctrl chan info flags).0,
            (queue_client direct ctrl chan info flags).1,
          ))
    × ((event : Tre) (s : Ctrl × Chan)
        → parse_xfer_event direct ctrl event chan ≡ some s
        → IsSound (λ _. 100) s)
    × ((event : Tre) (s : Ctrl × Chan)
        → parse_rsc_event ctrl event chan ≡ some s
        → IsSound (λ _. 100) s)
    × ((s : Ctrl × Chan) → reset_data_chan ctrl chan ≡ some s → IsSound (λ _. 100) s)
reports_bounded_example = reports_bounded (λ _. 100) direct ctrl chan sound
