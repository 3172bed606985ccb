-- ===== src/Tests/QueueRuns.antt =====
-- Queueing, completing and resetting on the controller and channel of the test data.
use mhi_for_quectel_modem.Base.{
  ℕ, ◌+◌, ◌<◌, ◌≡◌, ◌≢◌, ◌⊎◌, inl, refl, false, some, [], ◌∷◌, get_or, arith,
}
use mhi_for_quectel_modem.Tre.{
  reset_chan, cmd_code, get_cmd_chid, get_cmd_type, get_ev_code, get_ev_len, get_ev_ptr,
}
use mhi_for_quectel_modem.Ring.{is_ring_full, to_device, get_nr_avail_ring_elements}
use mhi_for_quectel_modem.Ring.Slots.{IsAt, next}
use mhi_for_quectel_modem.Ring.Space.{used}
use mhi_for_quectel_modem.Pm.State.{sys_err_process}
use mhi_for_quectel_modem.Ctrl.{Ctrl, Chan, BufInfo, ok, err, eio, enomem, db_access_valid}
use mhi_for_quectel_modem.Wake.{wake_toggle}
use mhi_for_quectel_modem.Queue.{
  no_buf, no_tre, is_to_device, data_tre, gen_tre, queue_client, send_cmd, eot,
}
use mhi_for_quectel_modem.Queue.Place.{IsQueue, gen_tre-IsQueue}
use mhi_for_quectel_modem.Queue.Visible.{refusal, queue_client_ok, send_cmd_lem}
use mhi_for_quectel_modem.Complete.{status_of, complete_one, parse_xfer_event, reset_data_chan}
use mhi_for_quectel_modem.Complete.Order.{ReadsAt, rounds}
use mhi_for_quectel_modem.Complete.Event.{
  callbacks, deliver, parse_xfer_event-completes, parse_xfer_event-gives, reset_data_chan-gives,
}
use mhi_for_quectel_modem.Tests.Data.{tre_ring, chan, ctrl, direct, completion}

queued : IsQueue chan 4 1 3 4 1 3
queued = record {
  tre = omega arith;
  buf = omega arith;
  tre_room = refl;
  buf_room = refl;
  larger = omega arith;
  level = refl;
}

-- A packet of 64 bytes at address 6000.
abbrev packet : BufInfo
packet = record no_buf { v_addr = 6000; cb_buf = 33; len = 64 }

gen_tre_runs : (gen_tre direct [] chan packet eot).1 ≡ ok
unfolding gen_tre mhi_for_quectel_modem.Queue.map_single
gen_tre_runs = refl

gen_tre-IsQueue_example :
    let ch' = (gen_tre direct [] chan packet eot).0 in
    IsQueue ch' 4 1 (next 4 3) 4 1 (next 4 3)
    × (get_or ch'.tres 3 no_tre ≡ data_tre chan 6000 64 eot)
    × ((get_or ch'.bufs 3 no_buf).cb_buf ≡ 33)
    × ((get_or ch'.bufs 3 no_buf).len ≡ 64)
    × ((k : ℕ) → k ≢ 3 → get_or ch'.tres k no_tre ≡ get_or chan.tres k no_tre)
    × ((k : ℕ) → k ≢ 3 → get_or ch'.bufs k no_buf ≡ get_or chan.bufs k no_buf)
gen_tre-IsQueue_example =
    gen_tre-IsQueue chan 4 1 3 4 1 3 direct [] packet eot queued (omega arith) gen_tre_runs

abbrev failed : Ctrl
failed = record ctrl { pm_state = sys_err_process }

failed_runs : refusal failed chan ≡ some eio
unfolding is_ring_full
failed_runs = refl

queue_client_runs : (queue_client direct ctrl chan packet eot).2 ≡ ok
unfolding queue_client gen_tre mhi_for_quectel_modem.Queue.map_single is_ring_full wake_toggle
    mhi_for_quectel_modem.Ring.get_nr_avail_ring_elements
queue_client_runs = refl

queue_client_ok_example :
    let (c', ch', _) = queue_client direct ctrl chan packet eot in
    IsQueue ch' 4 1 (next 4 3) 4 1 (next 4 3)
    × (get_or ch'.tres 3 no_tre ≡ data_tre chan 6000 64 eot)
    × ((get_or ch'.bufs 3 no_buf).cb_buf ≡ 33)
    × (c'.pending_pkts ≡ 0)
    × ((db_access_valid ctrl ≡ false)
        ⊎ (ch'.tre_ring.ctxt_wp ≡ to_device ch'.tre_ring ch'.tre_ring.wp))
queue_client_ok_example =
    queue_client_ok direct ctrl chan packet eot 4 1 3 4 1 3 queued queue_client_runs

send_cmd_lem_example :
    let (c', ret) = send_cmd ctrl 5 reset_chan in
    ((used 4 1 3 ≡ 3) × (ret ≡ err enomem) × (c' ≡ ctrl))
    ⊎ ((used 4 1 3 + 1 < 4)
        × (ret ≡ ok)
        × IsAt c'.cmd_ring 4 1 (next 4 3)
        × (get_cmd_chid (get_or c'.cmd_tres 3 no_tre) ≡ 5)
        × (get_cmd_type (get_or c'.cmd_tres 3 no_tre) ≡ cmd_code reset_chan)
        × ((db_access_valid ctrl ≡ false)
            ⊎ (c'.cmd_ring.ctxt_wp ≡ to_device c'.cmd_ring c'.cmd_ring.wp)))
send_cmd_lem_example =
    send_cmd_lem ctrl 5 reset_chan 4 1 3 (omega arith) (omega arith) refl (omega arith)

ev_code_runs : get_ev_code completion ≡ 2
unfolding get_ev_code
ev_code_runs = refl

ev_ptr_runs : get_ev_ptr completion ≡ to_device tre_ring 1032
unfolding get_ev_ptr to_device
ev_ptr_runs = refl

parse_xfer_event-completes_example :
    let d = used 4 1 (next 4 2) in
    let s =
      rounds d
        (complete_one direct (status_of (get_ev_code completion)) 1032 (get_ev_len completion))
        (ctrl, chan) in
    (parse_xfer_event direct ctrl completion chan ≡ some s) × ReadsAt s.1.tre_ring 4 (next 4 2)
parse_xfer_event-completes_example =
    parse_xfer_event-completes direct ctrl completion chan 4 1 3 4 1 3 2 1032 queued refl
      (inl ev_code_runs) refl (omega arith) (omega arith) (omega arith) (omega arith) ev_ptr_runs

parse_xfer_event-gives_example :
    (s : Ctrl × Chan) × (parse_xfer_event direct ctrl completion chan ≡ some s)
    × (callbacks s.0.log ≡ deliver chan.bufs 4 1 (used 4 1 (next 4 2)) (callbacks ctrl.log))
parse_xfer_event-gives_example =
    parse_xfer_event-gives direct ctrl completion chan 4 1 3 4 1 3 2 1032 queued refl
      (inl ev_code_runs) refl (omega arith) (omega arith) (omega arith) (omega arith) ev_ptr_runs
      refl

-- The two queued buffers, 11 and then 22.
deliver_runs : deliver chan.bufs 4 1 2 [] ≡ 22 ∷ 11 ∷ []
deliver_runs = refl

reset_data_chan-gives_example :
    (s : Ctrl × Chan) × (reset_data_chan ctrl chan ≡ some s)
    × (callbacks s.0.log ≡ deliver chan.bufs 4 1 (used 4 1 3) (callbacks ctrl.log))
reset_data_chan-gives_example = reset_data_chan-gives ctrl chan 4 1 3 4 1 3 queued refl
