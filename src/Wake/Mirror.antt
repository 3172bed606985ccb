-- ===== src/Wake/Mirror.antt =====
-- The flag `wake_set` mirrors the wake doorbell.
use mhi_for_quectel_modem.Base.{
  ℕ, Bool, true, false, Option, none, some, [], ◌∷◌, ◌≡◌, arith, ◌==◌, Bool-cases, inl, inr, test,
  if◌then◌else◌,
}
use mhi_for_quectel_modem.Regs.{Log, write}
use mhi_for_quectel_modem.Pm.State.{bit, m2}
use mhi_for_quectel_modem.Ctrl.{Ctrl}
use mhi_for_quectel_modem.Wake.{
  assert_dev_wake, deassert_dev_wake, wake_toggle, device_get, device_put, resume_if_suspended,
}

-- The value last written to an address.
unfoldable pub last_written : Log → ℕ → Option ℕ
last_written [] addr = none
last_written (write a v ∷ log) addr = if a == addr then some v else last_written log addr
last_written (_ ∷ log) addr = last_written log addr

-- The doorbell holds 1 exactly while `wake_set` is true, and has been written.
abbrev pub Mirrors : Ctrl → Type 0
Mirrors c = last_written c.log c.wake_db ≡ some (if c.wake_set then 1 else 0)

-- Taking the wake lock keeps the flag equal to the doorbell.
pub assert_dev_wake-Mirrors :
    (c : Ctrl) (force : Bool) → Mirrors c → Mirrors (assert_dev_wake c force)
unfolding assert_dev_wake last_written
assert_dev_wake-Mirrors c force h = ground arith

pub deassert_dev_wake-Mirrors :
    (c : Ctrl) (override : Bool) → Mirrors c → Mirrors (deassert_dev_wake c override)
unfolding deassert_dev_wake last_written
deassert_dev_wake-Mirrors c override h = ground arith

pub wake_toggle-Mirrors : (c : Ctrl) → Mirrors c → Mirrors (wake_toggle c)
unfolding wake_toggle
wake_toggle-Mirrors c h = elim (Bool-cases (test c.db_access (bit m2))) [
  | inl nop ↦ rw nop h
  | inr rung ↦ rw rung (deassert_dev_wake-Mirrors _ true (assert_dev_wake-Mirrors c false h))
]

resume_if_suspended-Mirrors : (c : Ctrl) → Mirrors c → Mirrors (resume_if_suspended c)
unfolding last_written
resume_if_suspended-Mirrors c h = ground arith

pub device_get-Mirrors : (c : Ctrl) (n : ℕ) → Mirrors c → Mirrors (device_get c n).0
unfolding device_get
device_get-Mirrors c n h = assert_dev_wake-Mirrors _ true (resume_if_suspended-Mirrors c h)

pub device_put-Mirrors : (c : Ctrl) (n : ℕ) → Mirrors c → Mirrors (device_put c n).0
unfolding device_put
device_put-Mirrors c n h = deassert_dev_wake-Mirrors _ false (resume_if_suspended-Mirrors c h)
