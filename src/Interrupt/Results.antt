-- ===== src/Interrupt/Results.antt =====
-- What an interrupt of the controller leads to.
use mhi_for_quectel_modem.Base.{
  ℕ, Bool, List, sym, true, false, ap, ◌∙◌, not, ◌&&◌, [], ◌∷◌, ◌++◌, ◌≡◌, refl, arith, ◌==◌,
  if◌then◌else◌,
}
use mhi_for_quectel_modem.Regs.{Device}
use mhi_for_quectel_modem.Pm.State.{PmState, bit, sys_err_detect, reg_access_valid, tryset_pm_state}
use mhi_for_quectel_modem.DevState
use mhi_for_quectel_modem.Ee
use mhi_for_quectel_modem.Ctrl.{Ctrl, DevTransition, tryset}
use mhi_for_quectel_modem.Power.{get_mhi_state, get_exec_env}
use mhi_for_quectel_modem.Events.{queue_state_transition, sys_err_handler}
use mhi_for_quectel_modem.Interrupt.{
  report_sys_err, take_state, report_state, intvec_threaded_handler,
}

-- Reading the registers changes nothing but the log.
reads_same :
    (dev : Device) (c : Ctrl)
    → let r = get_mhi_state dev c in
      let s = get_exec_env dev r.0 in
      (r.0.ee ≡ c.ee)
      × (s.0.pm_state ≡ c.pm_state)
      × (s.0.transition_list ≡ c.transition_list)
      × (s.0.has_rddm_image ≡ c.has_rddm_image)
unfolding get_mhi_state get_exec_env
reads_same dev c = (refl, refl, refl, refl)

report_sys_err-queues :
    (c : Ctrl)
    → c.has_rddm_image ≡ false
    → let r = report_sys_err true c in
      (r.ee ≡ c.ee)
      × (r.pm_state ≡ c.pm_state)
      × (r.transition_list ≡ (
          if Ee.in_pbl c.ee
          then c.transition_list
          else c.transition_list ++ (DevTransition.sys_err ∷ [])))
unfolding report_sys_err sys_err_handler queue_state_transition
report_sys_err-queues c h = ground (arith, h)

take_state-moves :
    (state ee : ℕ) (c : Ctrl)
    → let r = take_state true state ee c in
      (r.ee ≡ c.ee)
      × (r.has_rddm_image ≡ c.has_rddm_image)
      × (r.pm_state ≡ (
          if state == DevState.sys_err
          then tryset_pm_state c.pm_state sys_err_detect
          else c.pm_state))
      × (r.transition_list ≡ (
          if not (state == DevState.sys_err)
            && (state == DevState.ready)
            && (ee == Ee.edl)
            && (c.ee == Ee.fp)
          then c.transition_list ++ (DevTransition.ready ∷ [])
          else c.transition_list))
unfolding take_state queue_state_transition tryset
take_state-moves state ee c = ground arith

-- The queue of transitions after a system error was reported, if it was.
abbrev with_sys_err : Bool → PmState → Bool → ℕ → List DevTransition → List DevTransition
with_sys_err is_sys_err pm rddm ee list =
    if is_sys_err && (bit pm == bit sys_err_detect) && not rddm && not (Ee.in_pbl ee)
    then list ++ (DevTransition.sys_err ∷ [])
    else list

with_sys_err-eq :
    (is_sys_err : Bool) {pm pm' : PmState} {rddm rddm' : Bool} {ee ee' : ℕ}
    {list list' : List DevTransition}
    → pm ≡ pm'
    → rddm ≡ rddm'
    → ee ≡ ee'
    → list ≡ list'
    → with_sys_err is_sys_err pm rddm ee list ≡ with_sys_err is_sys_err pm' rddm' ee' list'
with_sys_err-eq is_sys_err p q r s = rw (p, q, r, s) refl

report_state-queues :
    (state ee : ℕ) (c : Ctrl)
    → let r = report_state true state ee c in
      (r.ee ≡ c.ee)
      × (r.pm_state ≡ c.pm_state)
      × (r.transition_list ≡ (
          if (state == DevState.sys_err)
            && (bit c.pm_state == bit sys_err_detect)
            && not c.has_rddm_image
            && not (Ee.in_pbl c.ee)
          then c.transition_list ++ (DevTransition.sys_err ∷ [])
          else c.transition_list))
unfolding report_state
report_state-queues state ee c = ground (arith, report_sys_err-queues c)

-- For a power state in which the registers may be read, and memory for the work item, let `state` and `exec` be what
-- the device's state and execution environment read as. `mhi_intvec_threaded_handler` takes over
-- `exec` as the execution environment; it requests the power state SYS_ERR_DETECT exactly if `state` is SYS_ERR; and it queues
-- one transition at most: SYS_ERR, if the request was granted and the device neither has an RDDM image nor is in
-- PBL, or READY, if the device is ready and has come from EDL to FP.
pub intvec_threaded_handler_lem :
    (dev : Device) (c : Ctrl)
    → reg_access_valid c.pm_state ≡ true
    → let r = intvec_threaded_handler true dev c in
      let (c₁, state) = get_mhi_state dev c in
      let exec = (get_exec_env dev c₁).1 in
      let is_sys_err = state == DevState.sys_err in
      let granted = bit r.pm_state == bit sys_err_detect in
      let ready =
        not is_sys_err && (state == DevState.ready) && (c.ee == Ee.edl) && (exec == Ee.fp) in
      let list =
        if ready then c.transition_list ++ (DevTransition.ready ∷ []) else c.transition_list in
      (r.ee ≡ exec)
      × (r.pm_state
          ≡ (if is_sys_err then tryset_pm_state c.pm_state sys_err_detect else c.pm_state))
      × (r.transition_list ≡ (
          if is_sys_err && granted && not c.has_rddm_image && not (Ee.in_pbl exec)
          then list ++ (DevTransition.sys_err ∷ [])
          else list))
unfolding intvec_threaded_handler
intvec_threaded_handler_lem dev c ready =
    let (c₁, state) = get_mhi_state dev c in
    let (c₂, exec) = get_exec_env dev c₁ in
    let c₃ = record c₂ { ee = exec } in
    let (_, pm₂, list₂, rddm₂) = reads_same dev c in
    let (ee, rddm, pm, list) = take_state-moves state c.ee c₃ in
    let c₄ = take_state true state c.ee c₃ in
    let (ee', pm', list') = report_state-queues state c.ee c₄ in
    rw ready (
      ee' ∙ ee,
      pm'
          ∙ pm
          ∙ ap (λ s. if state == DevState.sys_err then tryset_pm_state s sys_err_detect else s) pm₂,
      list'
          ∙ with_sys_err-eq (state == DevState.sys_err) (sym pm') (rddm ∙ rddm₂) ee (
              list
              ∙ ap
                  (λ l.
                    if not (state == DevState.sys_err)
                      && (state == DevState.ready)
                      && (c.ee == Ee.edl)
                      && (exec == Ee.fp)
                    then l ++ (DevTransition.ready ∷ [])
                    else l)
                  list₂),
    )
