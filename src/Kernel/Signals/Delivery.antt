-- ===== src/Kernel/Signals/Delivery.antt =====
-- What a process that has set an action for a signal gets.
use linux.Common.{
  ℕ, ◌+◌, ◌-◌, ◌*◌, ◌≤◌, ◌<◌, ◌≡◌, refl, ◌≢◌, false, not, [], ◌∷◌, ◌++◌, length-set, arith, ◌&&◌,
  ◌||◌, bit_or, ◌==◌, if◌then◌else◌, length, get_or-set_self, ◌∙◌, ap,
}
use linux.Common.Bits.{bit, shl1, bit-bit_or, bit_or-shl1, bit_and-not-shl1}
use linux.Common.Errno.{ret}
use linux.Common.Word.{sub32}
use linux.Kernel.Task.{sigchld}
use linux.Kernel.Signals.{
  Sigaction, Signals, Registers, ignored, exits, handled, action, set_action, is_nomask, is_oneshot,
  bad_signum, sys_ssetmask, sys_signal, sys_sigaction, do_signal, saved_mask, no_action, sa_oneshot,
  sa_nomask,
}

-- Whatever mask is asked for, SIGKILL is not blocked, the other signals are as asked, and the old mask is
-- returned.
pub sys_ssetmask-sigkill :
    (newmask : ℕ) (s : Signals) (k : ℕ)
    → k < 32
    → let (r, s') = sys_ssetmask newmask s in
      (bit s'.blocked k ≡ (bit newmask k && not (8 == k)))
      × (r ≡ ret s.blocked)
      × (s'.sigaction ≡ s.sigaction)
unfolding sys_ssetmask
sys_ssetmask-sigkill newmask s k h = (bit_and-not-shl1 newmask 8 k (omega arith) h, refl, refl)

action-set_action :
    (s : Signals) (signum : ℕ) (sa : Sigaction)
    → length s.sigaction ≡ 32
    → 1 ≤ signum
    → signum ≤ 32
    → action (set_action signum sa s) signum ≡ sa
unfolding set_action
action-set_action s signum sa size low high =
    get_or-set_self s.sigaction (signum - 1) sa no_action (omega (arith, size))

do_signal-custom :
    (signr : ℕ) (r : Registers) (s : Signals) (sa : Sigaction)
    → action s signr ≡ sa
    → 2 ≤ sa.sa_handler
    → let s₁ = if is_oneshot sa then set_action signr (record sa { sa_handler = 0 }) s else s in
      do_signal signr r s
      ≡ handled
          (record s₁ { blocked = bit_or s.blocked sa.sa_mask })
          sa.sa_handler
          (sub32 r.esp ((if is_nomask sa then 7 else 8) * 4))
          (sa.sa_restorer
            ∷ signr
            ∷ (saved_mask sa s.blocked ++ (r.eax ∷ r.ecx ∷ r.edx ∷ r.eflags ∷ r.eip ∷ [])))
unfolding do_signal
do_signal-custom signr r s sa e custom =
    let not_ignored : (sa.sa_handler == 1) ≡ false = ground arith in
    let not_default : (sa.sa_handler == 0) ≡ false = ground arith in
    rw e (rw (not_ignored, not_default))

do_signal-default :
    (signr : ℕ) (r : Registers) (s : Signals)
    → (action s signr).sa_handler ≡ 0
    → do_signal signr r s ≡ (if signr == sigchld then ignored else exits (shl1 (signr - 1)))
unfolding do_signal
do_signal-default signr r s e = rw e

good_signum : (signum : ℕ) → 1 ≤ signum → signum ≤ 32 → signum ≢ 9 → bad_signum signum ≡ false
good_signum signum low high no_kill = ground arith

-- A handler set by sys_signal runs once: the first delivery goes to it, with no mask saved and nothing
-- more blocked, and after that the action is the default one, so that the second delivery ends the
-- process, or is ignored if the signal is SIGCHLD.
pub do_signal-sys_signal :
    (s : Signals) (signum handler restorer : ℕ) (r r' : Registers)
    → length s.sigaction ≡ 32
    → 1 ≤ signum
    → signum ≤ 32
    → signum ≢ 9
    → 2 ≤ handler
    → (s' : Signals) × (do_signal signum r (sys_signal signum handler restorer s).1
        ≡ handled s' handler
            (sub32 r.esp 28)
            (restorer ∷ signum ∷ r.eax ∷ r.ecx ∷ r.edx ∷ r.eflags ∷ r.eip ∷ []))
      × (s'.blocked ≡ bit_or s.blocked 0)
      × (do_signal signum r' s'
          ≡ (if signum == sigchld then ignored else exits (shl1 (signum - 1))))
unfolding set_action saved_mask
do_signal-sys_signal s signum handler restorer r r' size low high no_kill custom =
    let tmp : Sigaction = record {
      sa_handler = handler;
      sa_mask = 0;
      sa_flags = sa_oneshot + sa_nomask;
      sa_restorer = restorer;
    } in
    let s₁ = set_action signum tmp s in
    let set_tmp : (sys_signal signum handler restorer s).1 ≡ s₁ =
      unfold sys_signal in rw (good_signum signum low high no_kill) in
    let s₂ = set_action signum (record tmp { sa_handler = 0 }) s₁ in
    let size₁ : length s₁.sigaction ≡ 32 =
      unfold set_action in length-set s.sigaction (signum - 1) tmp ∙ size in
    let at_default = action-set_action s₁ signum (record tmp { sa_handler = 0 }) size₁ low high in
    (
      record s₂ { blocked = bit_or s.blocked 0 },
      ap (do_signal signum r) set_tmp
          ∙ do_signal-custom signum r s₁ tmp (action-set_action s signum tmp size low high) custom,
      refl,
      do_signal-default signum r' (record s₂ { blocked = bit_or s.blocked 0 })
          (ap Sigaction.sa_handler at_default),
    )

-- While a handler set by sys_sigaction without SA_NOMASK runs, its signal, those of its mask and those
-- that were blocked before are blocked, and no others; the old mask is saved on the stack.
pub do_signal-sys_sigaction :
    (s : Signals) (signum : ℕ) (new : Sigaction) (r : Registers)
    → length s.sigaction ≡ 32
    → 1 ≤ signum
    → signum ≤ 32
    → signum ≢ 9
    → 2 ≤ new.sa_handler
    → is_nomask new ≡ false
    → (s' : Signals) × (do_signal signum r (sys_sigaction signum new s).2
        ≡ handled s' new.sa_handler
            (sub32 r.esp 32)
            (new.sa_restorer ∷ signum ∷ s.blocked ∷ r.eax ∷ r.ecx ∷ r.edx ∷ r.eflags ∷ r.eip ∷ []))
      × ((k : ℕ) → bit s'.blocked k ≡ (bit s.blocked k || (bit new.sa_mask k || (signum - 1 == k))))
unfolding set_action saved_mask
do_signal-sys_sigaction s signum new r size low high no_kill custom masks =
    let mask = bit_or new.sa_mask (shl1 (signum - 1)) in
    let sa : Sigaction = record new { sa_mask = mask } in
    let s₁ = set_action signum sa s in
    let set_sa : (sys_sigaction signum new s).2 ≡ s₁ =
      unfold sys_sigaction in rw (good_signum signum low high no_kill, masks) in
    let s₂ = if is_oneshot sa then set_action signum (record sa { sa_handler = 0 }) s₁ else s₁ in
    (
      record s₂ { blocked = bit_or s.blocked mask },
      ap (do_signal signum r) set_sa
          ∙ do_signal-custom signum r s₁ sa (action-set_action s signum sa size low high) custom
          ∙ rw masks,
      λ k.
          bit-bit_or s.blocked mask k
          ∙ ap (λ b. bit s.blocked k || b) (bit_or-shl1 new.sa_mask (signum - 1) k (omega arith)),
    )
