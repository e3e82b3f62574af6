-- ===== src/Kernel/Signals/Kill.antt =====
-- sys_kill: which tasks get the signal.
use linux.Common.{
  ℕ, zero, suc, ◌≤◌, ◌<◌, ◌^◌, ◌≡◌, refl, ◌≢◌, Bool, true, false, Option, none, some, arith, ◌&&◌,
  ◌||◌, leb, ◌==◌, ==_iff, if◌then◌else◌, Bool-cases, inl, inr, length, set, get_or-set_self,
  get_or-set_ne, length-set, ◌∙◌, ap, sym,
}
use linux.Common.Word.{slt}
use linux.Common.Errno.{Ret, ret}
use linux.Kernel.Task.{Task, Tasks, task_at, nr_tasks}
use linux.Kernel.Ids.{suser}
use linux.Kernel.Signals.{raise, send_sig, kill_slot, kill_each, sys_kill}

-- A slot after the signal has gone to the tasks that `gets` holds of.
abbrev pub signalled : ℕ → (Task → Bool) → Option Task → Option Task
signalled sig gets none = none
signalled sig gets (some p) = if gets p then some (raise sig p) else some p

-- Whether the caller may signal a task, and whether `kill(pid, ...)` means it.
abbrev pub may_signal : Task → Task → Bool
may_signal current p = current.euid == p.euid || suser current

abbrev pub is_target : Task → ℕ → Task → Bool
is_target current pid p =
    if pid == 0 then p.pgrp == current.pid else slt 0 pid && (p.pid == pid && may_signal current p)

module _ (current : Task) (sig : ℕ) (priv : Bool) (selects : Task → Bool) (low : 1 ≤ sig)
    (high : sig ≤ 32) where
  abbrev gets : Task → Bool
  gets p = selects p && (priv || may_signal current p)

  kill_slot-signalled :
      (retval : Ret) (slot : Option Task)
      → (kill_slot current sig priv selects retval slot).1 ≡ signalled sig gets slot
  unfolding kill_slot send_sig
  kill_slot-signalled retval none = refl
  kill_slot-signalled retval (some p) = ground arith

  kill_each-signalled :
      (n : ℕ) (retval : Ret) (tasks : Tasks)
      → n < length tasks
      → (i : ℕ)
      → task_at (kill_each current sig priv selects n retval tasks).1 i
        ≡ (if leb 1 i && leb i n then signalled sig gets (task_at tasks i) else task_at tasks i)
  unfolding kill_each
  kill_each-signalled zero retval tasks h i = ground arith
  kill_each-signalled (suc n) retval tasks h i =
      let slot = (kill_slot current sig priv selects retval (task_at tasks (suc n))).1 in
      let inside : n < length (set tasks (suc n) slot) =
        omega (arith, h, length-set tasks (suc n) slot) in
      let rest =
        kill_each-signalled n (kill_slot current sig priv selects retval (task_at tasks (suc n))).0
          (set tasks (suc n) slot) inside i in
      elim (Bool-cases (i == suc n)) [
        | inl here ↦
            let e : i ≡ suc n = (==_iff i (suc n)).0 here in
            let out : (leb 1 i && leb i n) ≡ false = ground (arith, e) in
            let within : (leb 1 i && leb i (suc n)) ≡ true = ground (arith, e) in
            rest
            ∙ rw (out, within, e)
                (get_or-set_self tasks (suc n) slot none h
                  ∙ kill_slot-signalled retval (task_at tasks (suc n)))
        | inr apart ↦
            let other : suc n ≢ i = ground arith in
            let same : (leb 1 i && leb i (suc n)) ≡ (leb 1 i && leb i n) = ground arith in
            rest ∙ rw (same, get_or-set_ne tasks {i = suc n} {j = i} slot none other)
      ]

signalled-same :
    (sig : ℕ) {f g : Task → Bool}
    → ((p : Task) → f p ≡ g p)
    → (slot : Option Task) → signalled sig f slot ≡ signalled sig g slot
signalled-same sig same none = refl
signalled-same sig same (some p) = rw (same p)

-- For a signal number from 1 to 32 and any process number but -1, sys_kill raises the signal in exactly
-- the tasks that the number means: those of the process group of the caller's own number for 0, and for
-- a positive number those with it, if the caller has their effective user or is privileged. Task 0 never
-- gets a signal, and for a number below -1 no task does.
pub sys_kill-targets :
    (current : Task) (pid sig : ℕ) (tasks : Tasks)
    → length tasks ≡ nr_tasks
    → pid < 2 ^ 32
    → pid ≢ 0xffffffff
    → 1 ≤ sig
    → sig ≤ 32
    → (i : ℕ)
    → task_at (sys_kill current pid sig tasks).1 i ≡ (
        if leb 1 i && leb i 63
        then signalled sig (is_target current pid) (task_at tasks i)
        else task_at tasks i)
unfolding sys_kill
sys_kill-targets current pid sig tasks size word one low high i = elim (Bool-cases (pid == 0)) [
  | inl zero_pid ↦
      rw zero_pid (selected true (λ p. p.pgrp == current.pid) (λ p. rw zero_pid (ground arith)))
  | inr nonzero ↦ elim (Bool-cases (slt 0 pid)) [
    | inl positive ↦
        rw (nonzero, positive) (selected false (λ p. p.pid == pid) (λ p. rw (nonzero, positive)))
    | inr negative ↦
        let not_all : (pid == 0xffffffff) ≡ false = ground arith in
        rw (nonzero, negative, not_all)
          (sym (
            if_same (leb 1 i && leb i 63) (
              signalled-same sig {f = is_target current pid} {g = λ p. false}
                (λ p. rw (nonzero, negative)) (task_at tasks i)
              ∙ signalled-none (task_at tasks i))))
  ]
]
  where
    selected :
        (priv : Bool) (selects : Task → Bool)
        → ((p : Task) → (selects p && (priv || may_signal current p)) ≡ is_target current pid p)
        → task_at (kill_each current sig priv selects 63 (ret 0) tasks).1 i ≡ (
            if leb 1 i && leb i 63
            then signalled sig (is_target current pid) (task_at tasks i)
            else task_at tasks i)
    selected priv selects same =
        kill_each-signalled current sig priv selects low high 63 (ret 0) tasks (omega (arith, size))
          i
        ∙ ap (λ slot. if leb 1 i && leb i 63 then slot else task_at tasks i)
            (signalled-same sig same (task_at tasks i))

    if_same : {A : Type 0} {x y : A} (b : Bool) → x ≡ y → (if b then x else y) ≡ y
    if_same true e = e
    if_same false e = refl

    signalled-none : (slot : Option Task) → signalled sig (λ p. false) slot ≡ slot
    signalled-none none = refl
    signalled-none (some p) = refl
