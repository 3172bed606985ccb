-- ===== src/Tests/EventRuns.antt =====
-- Control events, the synchronous wake-up and the forced RDDM mode on the test data.
use mhi_for_quectel_modem.Base.{ℕ, ◌≡◌, ◌≢◌, refl, true, some, [], ◌∷◌, get_elem?, arith}
use mhi_for_quectel_modem.Regs.{status_cb, ee_rddm, wake_up_all}
use mhi_for_quectel_modem.Tre.{
  Tre, start_chan, cmd_tre, get_ev_type, get_ev_execenv, get_ev_code, get_ev_cookie, get_ev_ptr,
}
use mhi_for_quectel_modem.Ring.{to_device}
use mhi_for_quectel_modem.Ring.Slots.{IsAt, next}
use mhi_for_quectel_modem.Ee
use mhi_for_quectel_modem.Ctrl.{Ctrl, ok, act}
use mhi_for_quectel_modem.Wait.{Wait}
use mhi_for_quectel_modem.Tre.Coding.{cmd_tre_fields}
use mhi_for_quectel_modem.Queue.{no_tre}
use mhi_for_quectel_modem.Power.Sync.{force_rddm_mode}
use mhi_for_quectel_modem.Power.Suspend.Cycle.{answered}
use mhi_for_quectel_modem.Events.{ctrl_event, ee_change, process_cmd_completion}
use mhi_for_quectel_modem.Events.Results.{Moves, ctrl_event-Moves, process_cmd_completion_lem}
use mhi_for_quectel_modem.Tests.Data.{tre_ring, chan, ctrl, memory, direct}

-- The device reports the execution environment RDDM.
abbrev rddm_event : Tre
rddm_event = record { ptr = 0; dword0 = 0x0300_0000; dword1 = 0x0040_0000 }

abbrev rddm_ctrl : Ctrl
rddm_ctrl = record ctrl { ee = Ee.rddm }

abbrev after_rddm : Ctrl
after_rddm = act wake_up_all (record (act (status_cb ee_rddm) ctrl) { ee = 3 })

type_runs : get_ev_type rddm_event ≡ 0x40
unfolding get_ev_type
type_runs = refl

ctrl_event_runs : ctrl_event true memory direct ctrl rddm_event ≡ some after_rddm
unfolding ctrl_event get_ev_type get_ev_execenv ee_change
ctrl_event_runs = refl

ctrl_event-Moves_example : Moves ctrl.pm_state after_rddm.pm_state
ctrl_event-Moves_example =
    ctrl_event-Moves true memory direct ctrl after_rddm rddm_event (omega arith)
      (omega (arith, type_runs)) ctrl_event_runs

-- A start command for channel 0 in slot 1, and its completion.
abbrev commanded : Ctrl
commanded = record ctrl { cmd_tres = no_tre ∷ cmd_tre start_chan 0 ∷ no_tre ∷ no_tre ∷ [] }

abbrev completed_event : Tre
completed_event = record { ptr = 5016; dword0 = 0x0100_0000; dword1 = 0x0021_0000 }

cmd_ptr_runs : get_ev_ptr completed_event ≡ to_device tre_ring 1016
unfolding get_ev_ptr to_device
cmd_ptr_runs = refl

process_cmd_completion_lem_example :
    (c' : Ctrl) × (process_cmd_completion commanded completed_event ≡ some c')
    × (get_elem? c'.chans 0
        ≡ some (record chan { ccs = get_ev_code completed_event; completed = true }))
    × ((m : ℕ) → 0 ≢ m → get_elem? c'.chans m ≡ get_elem? commanded.chans m)
    × IsAt c'.cmd_ring 4 (next 4 1) 3
process_cmd_completion_lem_example =
    process_cmd_completion_lem commanded completed_event 4 1 3 1 1016 0 chan (omega arith)
      (omega arith) (omega arith) (omega arith) (omega arith) cmd_ptr_runs
      (cmd_tre_fields start_chan 0 (omega arith)).0 (omega arith) refl

-- The buffer at byte 144, that of slot 2, with 60 bytes.
abbrev rsc_event : Tre
rsc_event = record { ptr = 144; dword0 = 0x0200_003c; dword1 = 0x0528_0000 }

cookie_runs : get_ev_cookie rsc_event ≡ 144
unfolding get_ev_cookie
cookie_runs = refl

-- A wait that times out at once.
abbrev at_once : Wait
at_once cond s = (s, 0)

force_runs : (force_rddm_mode memory answered rddm_ctrl).1 ≡ ok
unfolding force_rddm_mode
force_runs = refl
