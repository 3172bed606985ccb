-- ===== src/Wait.antt =====
-- The kernel's `wait_event_timeout`, and what other threads and the device do while a thread waits.
use mhi_for_quectel_modem.Base.{ℕ, Bool, not, ◌==◌, ◌≡◌}
use mhi_for_quectel_modem.Ctrl.{Ctrl}

-- What a waiting thread sees: the controller, and the two locals of the caller that the condition
-- may write.
pub record Waiting : Type 0 where
  pub ctrl : Ctrl
  pub out0 : ℕ
  pub out1 : ℕ

-- A condition is an expression of C: it may read registers and write locals.
abbrev pub Condition : Type 0
Condition = Waiting → Waiting × Bool

-- `wait_event_timeout(wq, condition, timeout)`: from the state at the call to the state at its
-- return, with the value returned. All that happens in between is behind it.
abbrev pub Wait : Type 0
Wait = Condition → Waiting → Waiting × ℕ

-- Its documented contract: the state at the return is the one that the last evaluation of the
-- condition left, and the value is 0 exactly when that evaluation gave false.
abbrev pub IsWait : Wait → Type 0
IsWait wait =
    (cond : Condition) (s : Waiting)
    → (t : Waiting) × (cond t ≡ ((wait cond s).0, not ((wait cond s).1 == 0)))
