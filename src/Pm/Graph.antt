-- ===== src/Pm/Graph.antt =====
-- The transition diagram that the comment above the table draws, level by level, against the table.
use mhi_for_quectel_modem.Base.{
  ℕ, ◌≤◌, ◌<◌, ◌≡◌, ◌≢◌, ◌↔◌, ◌⊎◌, inl, inr, refl, sym, ◌∙◌, List, [], ◌∷◌, All, length, arith,
}
use mhi_for_quectel_modem.Pm.State.{
  PmState, disable, por, m0, m2, m3_enter, m3, m3_exit, fw_dl_err, sys_err_detect, sys_err_process,
  shutdown_process, ld_err_fatal_detect, tryset_pm_state, PmState-discrete,
}

-- L0 to L3: the priority of a state.
abbrev pub level : PmState → ℕ
level sys_err_detect = 1
level sys_err_process = 1
level shutdown_process = 2
level ld_err_fatal_detect = 3
level _ = 0

-- The states that an asynchronous event may ask for.
pub data IsAsync : PmState → Type 0 where
  sys_err : IsAsync sys_err_detect
  shutdown : IsAsync shutdown_process
  link_down : IsAsync ld_err_fatal_detect

infix 40 ◌⟶◌
pub data ◌⟶◌ : PmState → PmState → Type 0 where
  init : disable ⟶ por
  uninit : por ⟶ disable
  again : por ⟶ por
  start : por ⟶ m0
  rest : m0 ⟶ m2
  wake : m2 ⟶ m0
  download_failed : por ⟶ fw_dl_err
  still_failed : fw_dl_err ⟶ fw_dl_err
  run : m0 ⟶ m0
  reload_failed : m0 ⟶ fw_dl_err
  suspend : m0 ⟶ m3_enter
  suspended : m3_enter ⟶ m3
  resume : m3 ⟶ m3_exit
  resumed : m3_exit ⟶ m0
  process : sys_err_detect ⟶ sys_err_process
  recover : sys_err_process ⟶ por
  down : shutdown_process ⟶ disable
  still_fatal : ld_err_fatal_detect ⟶ ld_err_fatal_detect
  give_up : ld_err_fatal_detect ⟶ shutdown_process
  escalate : {s t : PmState} → s ≢ disable → IsAsync t → level s < level t → s ⟶ t

ruleset edges = (
  init, uninit, again, start, rest, wake, download_failed, still_failed, run, reload_failed,
  suspend, suspended, resume, resumed, process, recover, down, still_fatal, give_up, escalate,
  sys_err, shutdown, link_down,
)

-- An asynchronous event is granted from every state of a lower level but `disable`.
escalates :
    (s : PmState) {t : PmState}
    → s ≢ disable
    → IsAsync t
    → level s < level t
    → tryset_pm_state s t ≡ t
unfolding tryset_pm_state
escalates disable h a l = absurd (h refl)
escalates s h sys_err l = ground arith
escalates s h shutdown l = ground arith
escalates s h link_down l = ground arith

-- Every edge of the diagram is granted by `mhi_tryset_pm_state`.
pub tryset-of_step : {s t : PmState} → s ⟶ t → tryset_pm_state s t ≡ t
unfolding tryset_pm_state
tryset-of_step init = refl
tryset-of_step uninit = refl
tryset-of_step again = refl
tryset-of_step start = refl
tryset-of_step rest = refl
tryset-of_step wake = refl
tryset-of_step download_failed = refl
tryset-of_step still_failed = refl
tryset-of_step run = refl
tryset-of_step reload_failed = refl
tryset-of_step suspend = refl
tryset-of_step suspended = refl
tryset-of_step resume = refl
tryset-of_step resumed = refl
tryset-of_step process = refl
tryset-of_step recover = refl
tryset-of_step down = refl
tryset-of_step still_fatal = refl
tryset-of_step give_up = refl
tryset-of_step (escalate {s = s} h a l) = escalates s h a l

-- Where `mhi_tryset_pm_state` leaves the state, it goes to the state asked for along an edge.
pub step-of_tryset : (s t : PmState) → tryset_pm_state s t ≢ s → (s ⟶ t) × (tryset_pm_state s t ≡ t)
unfolding tryset_pm_state
step-of_tryset disable por h = (init, refl)
step-of_tryset s t h = grind (arith, edges)

-- `mhi_tryset_pm_state` leaves the controller in the state asked for exactly when the diagram has
-- that edge or the controller is there already, and otherwise leaves it where it is.
pub tryset_exact :
    (s t : PmState)
    → ((tryset_pm_state s t ≡ t) ↔ ((s ⟶ t) ⊎ (s ≡ t)))
      × ((tryset_pm_state s t ≡ t) ⊎ (tryset_pm_state s t ≡ s))
tryset_exact s t = elim (PmState-discrete (tryset_pm_state s t) s) [
  | yes stays ↦ ((λ e. inr (sym stays ∙ e), back), inr stays)
  | no moves ↦ ((λ e. inl (step-of_tryset s t moves).0, back), inl (step-of_tryset s t moves).1)
]
  where
    back : (s ⟶ t) ⊎ (s ≡ t) → tryset_pm_state s t ≡ t
    back (inl e) = tryset-of_step e
    back (inr e) = elim (PmState-discrete (tryset_pm_state s t) s) [
      | yes stays ↦ stays ∙ e
      | no moves ↦ (step-of_tryset s t moves).1
    ]

-- The controller after a sequence of requests.
unfoldable pub request_all : PmState → List PmState → PmState
request_all s [] = s
request_all s (r ∷ rs) = request_all (tryset_pm_state s r) rs

-- One request other than DISABLE keeps a controller that is in L2 or L3 there.
stays_down : (s r : PmState) → r ≢ disable → 2 ≤ level s → 2 ≤ level (tryset_pm_state s r)
unfolding tryset_pm_state
stays_down shutdown_process r h l = ground arith
stays_down ld_err_fatal_detect r h l = ground arith
stays_down s r h l = absurd (omega arith)

-- A controller that is shutting down or has lost its link stays in L2 or L3 through any sequence of
-- requests that does not ask for DISABLE: no request takes it back to an L1 or L0 state.
pub request_all-stays_down :
    (s : PmState) (rs : List PmState)
    → 2 ≤ level s
    → All (λ r. r ≢ disable) rs
    → 2 ≤ level (request_all s rs)
unfolding request_all
request_all-stays_down s [] l h = l
request_all-stays_down s (r ∷ rs) l h =
    request_all-stays_down (tryset_pm_state s r) rs (stays_down s r h.0 l) h.1

-- The requests that bring a controller from a state back to M0.
abbrev pub recovery : PmState → List PmState
recovery m3_enter = m3 ∷ m3_exit ∷ m0 ∷ []
recovery m3 = m3_exit ∷ m0 ∷ []
recovery fw_dl_err = sys_err_detect ∷ sys_err_process ∷ por ∷ m0 ∷ []
recovery sys_err_detect = sys_err_process ∷ por ∷ m0 ∷ []
recovery sys_err_process = por ∷ m0 ∷ []
recovery shutdown_process = disable ∷ por ∷ m0 ∷ []
recovery ld_err_fatal_detect = shutdown_process ∷ disable ∷ por ∷ m0 ∷ []
recovery disable = por ∷ m0 ∷ []
recovery _ = m0 ∷ []

-- No state is a dead end: from each of the twelve at most four granted requests lead to M0.
pub recovers : (s : PmState) → (request_all s (recovery s) ≡ m0) × (length (recovery s) ≤ 4)
unfolding request_all tryset_pm_state
recovers disable = (refl, omega arith)
recovers s = (refl, omega arith)
