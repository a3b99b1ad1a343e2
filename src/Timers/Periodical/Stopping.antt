-- ===== src/Timers/Periodical/Stopping.antt =====
-- A canceled timer.
use dep_srpc.Base.{
  ℕ, zero, suc, ◌+◌, ◌≤◌, ◌≡◌, refl, ap, sym, arith, Bool, true, false, not, ◌&&◌, Bool-cases, inl,
  inr, Option, none, some, Option-cases,
}
use dep_srpc.Base.{List, [], ◌∷◌, ◌++◌, length, length-append}
use mathlib.Core.Path.{subst}
use dep_srpc.Timers.Periodical.{
  Periodical, Event, expires_from_now, async_wait, timer_cancel, user_call, Op, set_periods,
  cancels_it, calls, completes, rearms, set_period, cancel, wait_for, call_impl, take_wait, userhdl,
  handler, complete, rearm, step, run,
}

-- How often users' handlers are called, and how often a wait is started.
unfoldable pub user_calls : List Event → ℕ
user_calls [] = 0
user_calls (user_call hdl err ∷ es) = suc (user_calls es)
user_calls (expires_from_now dur ∷ es) = user_calls es
user_calls (async_wait hdl ∷ es) = user_calls es
user_calls (timer_cancel ∷ es) = user_calls es

unfoldable pub waits_started : List Event → ℕ
waits_started [] = 0
waits_started (user_call hdl err ∷ es) = waits_started es
waits_started (expires_from_now dur ∷ es) = waits_started es
waits_started (async_wait hdl ∷ es) = suc (waits_started es)
waits_started (timer_cancel ∷ es) = waits_started es

-- `call` is not called.
abbrev pub NoCalls : List Op → Type 0
NoCalls [] = Unit
NoCalls (calls hdl dur err ∷ ops) = ⊥
NoCalls (_ ∷ ops) = NoCalls ops

-- From a number of waits and of handlers past their test on: the timer is off, no more waits are
-- started than there were such handlers, and each call of a user's handler used up a wait or one of
-- them.
abbrev pub Stopped : ℕ → ℕ → Periodical × List Event → Type 0
Stopped waiting past r =
    (r.0.enabled ≡ false)
    × (waits_started r.1 + length r.0.checked ≤ past)
    × (user_calls r.1 + (length r.0.waits + length r.0.checked) ≡ waiting + past)

pub user_calls-append : (xs ys : List Event) → user_calls (xs ++ ys) ≡ user_calls xs + user_calls ys
unfolding user_calls
user_calls-append [] ys = omega arith
user_calls-append (user_call hdl err ∷ es) ys = omega (arith, user_calls-append es ys)
user_calls-append (expires_from_now dur ∷ es) ys = user_calls-append es ys
user_calls-append (async_wait hdl ∷ es) ys = user_calls-append es ys
user_calls-append (timer_cancel ∷ es) ys = user_calls-append es ys

pub waits_started-append :
    (xs ys : List Event) → waits_started (xs ++ ys) ≡ waits_started xs + waits_started ys
unfolding waits_started
waits_started-append [] ys = omega arith
waits_started-append (user_call hdl err ∷ es) ys = waits_started-append es ys
waits_started-append (expires_from_now dur ∷ es) ys = waits_started-append es ys
waits_started-append (async_wait hdl ∷ es) ys = omega (arith, waits_started-append es ys)
waits_started-append (timer_cancel ∷ es) ys = waits_started-append es ys

-- How many waits a taken one was among.
unfoldable among : Option (ℕ × List ℕ) → ℕ
among none = 0
among (some (hdl, left)) = suc (length left)

take_wait-missing :
    (k h : ℕ) (hs : List ℕ) → take_wait k hs ≡ none → among (take_wait (suc k) (h ∷ hs)) ≡ 0
unfolding among take_wait
take_wait-missing k h hs missing = rw missing refl

take_wait-found :
    (k h : ℕ) (hs : List ℕ) (g : ℕ) (left : List ℕ)
    → take_wait k hs ≡ some (g, left)
    → among (take_wait (suc k) (h ∷ hs)) ≡ suc (suc (length left))
unfolding among take_wait
take_wait-found k h hs g left found = rw found refl

among-take_wait : (k : ℕ) (hs : List ℕ) (n : ℕ) → among (take_wait k hs) ≡ suc n → length hs ≡ suc n
unfolding among take_wait
among-take_wait k [] n e = e
among-take_wait zero (h ∷ hs) n e = e
among-take_wait (suc k) (h ∷ hs) n e = elim (Option-cases (take_wait k hs)) [
  | inl missing ↦ absurd (omega (arith, take_wait-missing k h hs missing, e))
  | inr ((g, left), found) ↦
      let rest : length hs ≡ suc (length left) =
        among-take_wait k hs (length left) (ap (λ o. among o) found) in
      omega (arith, rest, take_wait-found k h hs g left found, e)
]

length-take_wait :
    (k : ℕ) (hs : List ℕ) (hdl : ℕ) (left : List ℕ)
    → take_wait k hs ≡ some (hdl, left)
    → length hs ≡ suc (length left)
unfolding among
length-take_wait k hs hdl left e = among-take_wait k hs (length left) (ap (λ o. among o) e)

and_false : (b c : Bool) → c ≡ false → (b && c) ≡ false
and_false true c h = h
and_false false c h = refl

module _ (cancels : ℕ → Bool → Bool) where
  cancel_off : (t : Periodical) → t.enabled ≡ false → cancel t ≡ (t, [])
  unfolding cancel
  cancel_off t off = rw off refl

  userhdl_off :
      (hdl : ℕ) (err : Bool) (t : Periodical)
      → t.enabled ≡ false
      → userhdl cancels hdl err t ≡ (t, user_call hdl err ∷ [])
  unfolding userhdl
  userhdl_off hdl err t off = elim (Bool-cases (cancels hdl err)) [
    | inl yes_cancel ↦ rw (yes_cancel, cancel_off t off) refl
    | inr no_cancel ↦ rw no_cancel refl
  ]

  handler_off :
      (hdl : ℕ) (err : Bool) (t : Periodical)
      → t.enabled ≡ false
      → handler cancels hdl err t ≡ (t, user_call hdl err ∷ [])
  unfolding handler
  handler_off hdl err t off = rw (userhdl_off hdl err t off, and_false (not err) t.enabled off) refl

  complete-Stopped :
      (k : ℕ) (err : Bool) (t : Periodical)
      → t.enabled ≡ false
      → Stopped (length t.waits) (length t.checked) (complete cancels k err t)
  unfolding complete user_calls waits_started
  complete-Stopped k err t off = elim (Option-cases (take_wait k t.waits)) [
    | inl e ↦ rw (complete, e) (off, omega arith, omega arith)
    | inr ((hdl, left), e) ↦
        rw (complete, e, handler_off hdl err (record t { waits = left }) off)
          (off, omega arith, omega (arith, length-take_wait k t.waits hdl left e))
  ]

  call_impl-Stopped :
      (hdl : ℕ) (again : Bool) (t : Periodical)
      → t.enabled ≡ false
      → Stopped (length t.waits) (suc (length t.checked)) (call_impl hdl again t)
  unfolding call_impl wait_for user_calls waits_started
  call_impl-Stopped hdl false t off =
      (off, omega arith, omega (arith, length-append t.waits (hdl ∷ [])))
  call_impl-Stopped hdl true t off = (off, omega arith, omega arith)

  rearm-Stopped :
      (k : ℕ) (again : Bool) (t : Periodical)
      → t.enabled ≡ false
      → Stopped (length t.waits) (length t.checked) (rearm cancels k again t)
  unfolding rearm user_calls waits_started
  rearm-Stopped k again t off = elim (Option-cases (take_wait k t.checked)) [
    | inl e ↦ rw (rearm, e) (off, omega arith, omega arith)
    | inr ((hdl, left), e) ↦
        rw (rearm, e)
          (subst
            (λ n. Stopped (length t.waits) n (call_impl hdl again (record t { checked = left })))
            (sym (length-take_wait k t.checked hdl left e))
            (call_impl-Stopped hdl again (record t { checked = left }) off))
  ]

  step-Stopped :
      (op : Op) (ops : List Op) (t : Periodical)
      → NoCalls (op ∷ ops)
      → t.enabled ≡ false
      → Stopped (length t.waits) (length t.checked) (step cancels op t)
  unfolding step set_period user_calls waits_started
  step-Stopped (set_periods dur) ops t n off = (off, omega arith, omega arith)
  step-Stopped cancels_it ops t n off = rw (cancel_off t off) (off, omega arith, omega arith)
  step-Stopped (calls hdl dur err) ops t n off = absurd n
  step-Stopped (completes k err) ops t n off = complete-Stopped k err t off
  step-Stopped (rearms k again) ops t n off = rearm-Stopped k again t off

  NoCalls-rest : (op : Op) (ops : List Op) → NoCalls (op ∷ ops) → NoCalls ops
  NoCalls-rest (set_periods dur) ops h = h
  NoCalls-rest cancels_it ops h = h
  NoCalls-rest (calls hdl dur err) ops h = absurd h
  NoCalls-rest (completes k err) ops h = h
  NoCalls-rest (rearms k again) ops h = h

  -- A history of a timer that is off.
  run_off-Stopped :
      (ops : List Op) (t : Periodical)
      → NoCalls ops
      → t.enabled ≡ false
      → Stopped (length t.waits) (length t.checked) (run cancels ops t)
  unfolding run user_calls waits_started
  run_off-Stopped [] t n off = (off, omega arith, omega arith)
  run_off-Stopped (op ∷ ops) t n off =
      let r : Periodical × List Event = step cancels op t in
      let rest : Periodical × List Event = run cancels ops r.0 in
      let (off1, few1, used1) = step-Stopped op ops t n off in
      let (off2, few2, used2) = run_off-Stopped ops r.0 (NoCalls-rest op ops n) off1 in
      (
        off2,
        omega (arith, waits_started-append r.1 rest.1, few1, few2),
        omega (arith, user_calls-append r.1 rest.1, used1, used2),
      )

  -- `cancel` turns the timer off and leaves the waits.
  CancelsNow : Bool → ℕ → List ℕ → List ℕ → Type 0
  CancelsNow on dur hs gs =
      let t : Periodical = record { duration = dur; enabled = on; waits = hs; checked = gs } in
      ((cancel t).0.enabled ≡ false)
      × ((cancel t).0.waits ≡ hs)
      × ((cancel t).0.checked ≡ gs)
      × (user_calls (cancel t).1 ≡ 0)
      × (waits_started (cancel t).1 ≡ 0)

  cancel-CancelsNow : (on : Bool) (dur : ℕ) (hs gs : List ℕ) → CancelsNow on dur hs gs
  unfolding cancel CancelsNow user_calls waits_started
  cancel-CancelsNow true dur hs gs = (refl, refl, refl, refl, refl)
  cancel-CancelsNow false dur hs gs = (refl, refl, refl, refl, refl)

  -- From `cancel` on, whatever the timer did before, in every history without another `call`,
  -- whatever waits complete and with whatever errors: the timer stays off. At most the handlers
  -- that had found it enabled, and had not yet set it again when it was canceled, start a wait, one
  -- each. And users' handlers are called once for each outstanding wait and each such handler that
  -- is so no more, the waits that these started counted in.
  pub run-Stopped :
      (ops : List Op) (t : Periodical)
      → NoCalls ops
      → Stopped (length t.waits) (length t.checked) (run cancels (cancels_it ∷ ops) t)
  unfolding run step CancelsNow
  run-Stopped ops t n =
      let r : Periodical × List Event = cancel t in
      let rest : Periodical × List Event = run cancels ops r.0 in
      let (off, waits, checked, quiet, none_started) =
        cancel-CancelsNow t.enabled t.duration t.waits t.checked in
      let (still, few, used) = run_off-Stopped ops r.0 n off in
      (
        still,
        omega (arith, waits_started-append r.1 rest.1, none_started, few, ap length checked),
        omega
            (arith, user_calls-append r.1 rest.1, quiet, used, ap length waits, ap length checked),
      )
