-- ===== src/Wake/Count.antt =====
-- Sequences of calls of the wake routines: the reference count, and what the calls leave alone.
use mhi_for_quectel_modem.Base.{
  ℕ, ◌+◌, ◌-◌, ◌^◌, ◌<◌, Bool, true, false, not, All, List, [], ◌∷◌, ◌≡◌, ◌∙◌, ap, refl, arith,
  ◌==◌,
}
use mhi_for_quectel_modem.Base.Word.{u32}
use mhi_for_quectel_modem.Pm.State.{wake_db_clear_valid}
use mhi_for_quectel_modem.Ctrl.{Ctrl}
use mhi_for_quectel_modem.Wake.{
  assert_dev_wake, deassert_dev_wake, wake_toggle, device_get, device_put, resume_if_suspended,
}
use mhi_for_quectel_modem.Wake.Mirror.{
  Mirrors, assert_dev_wake-Mirrors, deassert_dev_wake-Mirrors, wake_toggle-Mirrors,
  device_get-Mirrors, device_put-Mirrors,
}

-- What clients and the driver call.
pub data WakeCall : Type 0 where
  get : Bool → WakeCall
  put : Bool → WakeCall
  toggle : WakeCall
  client_get : WakeCall
  client_put : WakeCall

unfoldable pub call : Ctrl → WakeCall → Ctrl
call c (get force) = assert_dev_wake c force
call c (put override) = deassert_dev_wake c override
call c toggle = wake_toggle c
call c client_get = (device_get c 0).0
call c client_put = (device_put c 1).0

unfoldable pub calls : Ctrl → List WakeCall → Ctrl
calls c [] = c
calls c (w ∷ ws) = calls (call c w) ws

call-Mirrors : (c : Ctrl) (w : WakeCall) → Mirrors c → Mirrors (call c w)
unfolding call
call-Mirrors c (get force) h = assert_dev_wake-Mirrors c force h
call-Mirrors c (put override) h = deassert_dev_wake-Mirrors c override h
call-Mirrors c toggle h = wake_toggle-Mirrors c h
call-Mirrors c client_get h = device_get-Mirrors c 0 h
call-Mirrors c client_put h = device_put-Mirrors c 1 h

-- Through any sequence of calls of the wake routines, `wake_set` is true exactly while the value last
-- written to the wake doorbell is 1, if it is so at the start.
pub calls-Mirrors : (c : Ctrl) (ws : List WakeCall) → Mirrors c → Mirrors (calls c ws)
unfolding calls
calls-Mirrors c [] h = h
calls-Mirrors c (w ∷ ws) h = calls-Mirrors (call c w) ws (call-Mirrors c w h)

-- What a call makes of the count.
abbrev pub after : ℕ → WakeCall → ℕ
after n (get _) = n + 1
after n (put _) = n - 1
after n toggle = n
after n client_get = n + 1
after n client_put = n - 1

-- No put comes without a get before it, and the count stays within 32 bits.
abbrev pub Allowed : ℕ → WakeCall → Type 0
Allowed n (put _) = 0 < n
Allowed n client_put = 0 < n
Allowed n _ = n + 1 < 2 ^ 32

abbrev pub balance : ℕ → List WakeCall → ℕ
balance n [] = n
balance n (w ∷ ws) = balance (after n w) ws

abbrev pub Balanced : ℕ → List WakeCall → Type 0
Balanced n [] = Unit
Balanced n (w ∷ ws) = Allowed n w × Balanced (after n w) ws

pub count-assert :
    (c : Ctrl) (force : Bool) → (assert_dev_wake c force).dev_wake ≡ u32 (c.dev_wake + 1)
unfolding assert_dev_wake
count-assert c force = ground arith

pub count-deassert :
    (c : Ctrl) (override : Bool)
    → (deassert_dev_wake c override).dev_wake ≡ u32 (c.dev_wake + 2 ^ 32 - 1)
unfolding deassert_dev_wake
count-deassert c override = ground arith

count-toggle : (c : Ctrl) → c.dev_wake < 2 ^ 32 → (wake_toggle c).dev_wake ≡ c.dev_wake
unfolding wake_toggle
count-toggle c h =
    ground (arith, count-assert c false, count-deassert (assert_dev_wake c false) true)

count-device_get : (c : Ctrl) (n : ℕ) → (device_get c n).0.dev_wake ≡ u32 (c.dev_wake + 1)
unfolding device_get
count-device_get c n = ground (arith, count-assert (resume_if_suspended c) true)

count-device_put : (c : Ctrl) (n : ℕ) → (device_put c n).0.dev_wake ≡ u32 (c.dev_wake + 2 ^ 32 - 1)
unfolding device_put
count-device_put c n = ground (arith, count-deassert (resume_if_suspended c) false)

count-call :
    (c : Ctrl) (w : WakeCall)
    → c.dev_wake < 2 ^ 32
    → Allowed c.dev_wake w
    → ((call c w).dev_wake ≡ after c.dev_wake w) × ((call c w).dev_wake < 2 ^ 32)
unfolding call
count-call c (get force) h a = ground (arith, count-assert c force)
count-call c (put override) h a = ground (arith, count-deassert c override)
count-call c toggle h a = ground (arith, count-toggle c h)
count-call c client_get h a = ground (arith, count-device_get c 0)
count-call c client_put h a = ground (arith, count-device_put c 1)

-- Through any sequence of calls of the wake routines with no put before its get and a count that
-- stays within 32 bits, the wake count is what the gets and puts add up to; a toggle counts for
-- nothing.
pub calls-balance :
    (c : Ctrl) (ws : List WakeCall)
    → c.dev_wake < 2 ^ 32
    → Balanced c.dev_wake ws
    → (calls c ws).dev_wake ≡ balance c.dev_wake ws
unfolding calls
calls-balance c [] h b = refl
calls-balance c (w ∷ ws) h b =
    let (e, h') = count-call c w h b.0 in
    calls-balance (call c w) ws h' (rw e b.1) ∙ ap (λ n. balance n ws) e

-- Calls of `mhi_device_get` and `mhi_device_put`.
abbrev pub IsClient : WakeCall → Type 0
IsClient client_get = Unit
IsClient client_put = Unit
IsClient _ = ⊥

-- The device is held awake exactly while the count is not 0.
abbrev pub HeldAwake : Ctrl → Type 0
HeldAwake c = c.wake_set ≡ not (c.dev_wake == 0)

HeldAwake-call :
    (c : Ctrl) (w : WakeCall)
    → c.dev_wake < 2 ^ 32
    → Allowed c.dev_wake w
    → IsClient w
    → wake_db_clear_valid c.pm_state ≡ true
    → HeldAwake c
    → HeldAwake (call c w) × ((call c w).pm_state ≡ c.pm_state)
unfolding call device_get device_put assert_dev_wake deassert_dev_wake
HeldAwake-call c client_get h a k v e = ground arith
HeldAwake-call c client_put h a k v e = ground arith
HeldAwake-call c w h a k v e = absurd k

-- In M0, M2 or M3_EXIT, through any sequence of `mhi_device_get` and `mhi_device_put` with no put
-- before its get and a count that stays within 32 bits, the wake flag is set exactly while the
-- count is not 0, if it is so at the start.
pub calls-HeldAwake :
    (c : Ctrl) (ws : List WakeCall)
    → c.dev_wake < 2 ^ 32
    → Balanced c.dev_wake ws
    → All IsClient ws
    → wake_db_clear_valid c.pm_state ≡ true
    → HeldAwake c
    → HeldAwake (calls c ws)
unfolding calls
calls-HeldAwake c [] h b k v e = e
calls-HeldAwake c (w ∷ ws) h b k v e =
    let (n, h') = count-call c w h b.0 in
    let (e', p) = HeldAwake-call c w h b.0 k.0 v e in
    calls-HeldAwake (call c w) ws h' (rw n b.1) k.1 (rw p v) e'
