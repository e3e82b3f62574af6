-- ===== src/Kernel/Sched/Wake.antt =====
-- Which signals wake a task that sleeps interruptibly.
use linux.Common.{
  ℕ, ◌^◌, ◌<◌, ◌≡◌, refl, inl, inr, Bool, true, false, not, ◌&&◌, ◌||◌, ap, sym, ◌∙◌, arith, ◌==◌,
  ==_iff, Bool-cases, ltb, bit_and, bit_or,
}
use linux.Common.Bits.{
  bit, not32, bit-bit_and, bit-not32, bit_or-shl1, bit_and-le, eq_of_bits, bit-high, zero-bit,
  bit-shl1,
}
use linux.Kernel.Task.{Task, running, sigkill, sig_bit}
use linux.Kernel.Sched.{is_interruptible, blockable, has_signal, wake_signalled}

-- Signal `k + 1` is pending in the mask of `p`, and `p` does not block it or cannot.
abbrev pub wakes : Task → ℕ → Bool
wakes p k = bit p.signal k && (not (bit p.blocked k) || (8 == k || 18 == k))

bit-blockable : (k : ℕ) → k < 32 → bit blockable k ≡ not (8 == k || 18 == k)
bit-blockable k h =
    bit-not32 (bit_or (sig_bit sigkill) (sig_bit 19)) k (omega arith) h
    ∙ ap not (
        bit_or-shl1 (sig_bit sigkill) 18 k (omega arith)
        ∙ ap (λ b. b || (18 == k)) (bit-shl1 8 k (omega arith)))

bit-pending :
    (p : Task) (k : ℕ)
    → k < 32
    → bit (bit_and p.signal (not32 (bit_and blockable p.blocked))) k ≡ wakes p k
bit-pending p k h =
    bit-bit_and p.signal (not32 (bit_and blockable p.blocked)) k
    ∙ ap (λ b. bit p.signal k && b)
        (bit-not32 (bit_and blockable p.blocked) k (small p.blocked) h
          ∙ ap not (
              bit-bit_and blockable p.blocked k
              ∙ ap (λ b. b && bit p.blocked k) (bit-blockable k h))
          ∙ de_morgan (8 == k || 18 == k) (bit p.blocked k))
  where
    de_morgan : (b c : Bool) → not (not b && c) ≡ (not c || b)
    de_morgan true true = refl
    de_morgan true false = refl
    de_morgan false true = refl
    de_morgan false false = refl

    small : (w : ℕ) → bit_and blockable w < 2 ^ 32
    small w = omega (arith, bit_and-le blockable blockable w (omega arith))

has_signal-some : (p : Task) (k : ℕ) → k < 32 → wakes p k ≡ true → has_signal p ≡ true
unfolding has_signal
has_signal-some p k h w =
    elim (Bool-cases (bit_and p.signal (not32 (bit_and blockable p.blocked)) == 0)) [
      | inr some_bit ↦ rw some_bit
      | inl no_bit ↦
          let zero_word = (==_iff _ 0).0 no_bit in
          let b : bit 0 k ≡ true = rw zero_word at (bit-pending p k h ∙ w) in
          absurd (clash (zero-bit k) b)
    ]
  where
    clash : {b : Bool} → b ≡ false → b ≡ true → ⊥
    clash e f = cc

has_signal-none :
    (p : Task) → p.signal < 2 ^ 32 → ((k : ℕ) → k < 32 → wakes p k ≡ false) → has_signal p ≡ false
unfolding has_signal
has_signal-none p h none_wakes =
    let m = bit_and p.signal (not32 (bit_and blockable p.blocked)) in
    let small : m < 2 ^ 32 =
      omega
        (arith, bit_and-le p.signal p.signal (not32 (bit_and blockable p.blocked)) (omega arith)) in
    let e : m ≡ 0 = eq_of_bits 32 m 0 small (omega arith) (λ k. same m small k) in rw e
  where
    same :
        (m : ℕ)
        → bit_and p.signal (not32 (bit_and blockable p.blocked)) < 2 ^ 32
        → (k : ℕ) → bit (bit_and p.signal (not32 (bit_and blockable p.blocked))) k ≡ bit 0 k
    same m small k = elim (Bool-cases (ltb k 32)) [
      | inl low ↦ bit-pending p k (ground arith) ∙ none_wakes k (ground arith) ∙ sym (zero-bit k)
      | inr high ↦ bit-high 32 _ k small (ground arith) ∙ sym (zero-bit k)
    ]

-- A task that sleeps interruptibly is made running exactly by a pending signal that it does not block,
-- or that is SIGKILL or SIGSTOP, whatever it blocks; nothing but its state changes.
pub wake_signalled_lem :
    (p : Task)
    → p.signal < 2 ^ 32
    → is_interruptible p.state ≡ true
    → ((k : ℕ) → k < 32 → wakes p k ≡ true → wake_signalled p ≡ record p { state = running })
      × (((k : ℕ) → k < 32 → wakes p k ≡ false) → wake_signalled p ≡ p)
unfolding wake_signalled
wake_signalled_lem p h asleep = (
  λ k l w. simp (has_signal-some p k l w, asleep),
  λ all_blocked. simp (has_signal-none p h all_blocked),
)
