-- ===== src/Fs/Files/Dup.antt =====
-- dupfd: the slot that it takes, and what the two descriptors share.
use linux.Common.{
  ℕ, zero, suc, ◌+◌, ◌-◌, ◌≤◌, ◌<◌, ◌≡◌, refl, ◌≢◌, ◌⊎◌, true, false, not, Option, none, some, List,
  arith, ◌==◌, ==_iff, if◌then◌else◌, Bool-cases, Option-cases, inl, inr, sym, length, get_or, leb,
  get_or-set_self, get_or-set_ne, ◌&&◌,
}
use linux.Common.Bits.{bit, bit_and-not-shl1}
use linux.Common.Errno.{ret, err, ebadf, einval, emfile}
use linux.Fs.Files.{
  Files, file_at, is_some, keep_on_exec, nr_open, nr_file, next_slot, share_file, dupfd,
}
use linux.Fs.Files.Counts.{IsCounted, add-IsCounted, exec-IsCounted}

-- The loop stops at the first free slot, or past the last.
record Slot (n arg : ℕ) (filp : List (Option ℕ)) (r : ℕ) : Type 0 where
  from : arg ≤ r
  upto : r ≤ arg + n
  taken : (k : ℕ) → arg ≤ k → k < r → is_some (get_or filp k none) ≡ true
  free : r < arg + n → is_some (get_or filp r none) ≡ false

next_slot-Slot : (n : ℕ) (filp : List (Option ℕ)) (arg : ℕ) → Slot n arg filp (next_slot n filp arg)
unfolding next_slot
next_slot-Slot zero filp arg = record {
  from = omega arith;
  upto = omega arith;
  taken = λ k h l. absurd (omega arith);
  free = λ h. absurd (omega arith);
}
next_slot-Slot (suc n) filp arg = elim (Bool-cases (is_some (get_or filp arg none))) [
  | inr free ↦
      rw (free, next_slot)
        (record {
          from = omega arith;
          upto = omega arith;
          taken = λ k h l. absurd (omega arith);
          free = λ h. free;
        })
  | inl taken ↦
      let rest = next_slot-Slot n filp (arg + 1) in
      rw (taken, next_slot)
        (record {
          from = omega (arith, rest.from);
          upto = omega (arith, rest.upto);
          taken = λ k h l. elim (Bool-cases (k == arg)) [
            | inl here ↦ rw ((==_iff k arg).0 here) taken
            | inr later ↦ rest.taken k (ground arith) l
          ];
          free = λ h. rest.free (omega arith);
        })
]

-- Descriptor `slot` has become another name of file `i`.
pub record Shared (others : ℕ → ℕ) (arg i slot : ℕ) (s s' : Files) : Type 0 where
  pub counted : IsCounted others s'
  pub range : (arg ≤ slot) × (slot < nr_open)
  pub was_free : file_at s slot ≡ none
  pub lowest : (k : ℕ) → arg ≤ k → k < slot → is_some (file_at s k) ≡ true
  pub names : file_at s' slot ≡ some i
  pub rest : (k : ℕ) → k ≢ slot → file_at s' k ≡ file_at s k
  pub exec : (k : ℕ) → k < 32 → bit s'.close_on_exec k ≡ (bit s.close_on_exec k && not (slot == k))
  pub kept : s'.iputs ≡ s.iputs

share_file-Shared :
    {others : ℕ → ℕ} {s : Files}
    → IsCounted others s
    → (i : ℕ) → i < nr_file
    → (arg slot : ℕ) → arg ≤ slot
    → slot < nr_open
    → file_at s slot ≡ none
    → ((k : ℕ) → arg ≤ k → k < slot → is_some (file_at s k) ≡ true)
    → Shared others arg i slot s (share_file i slot s)
unfolding share_file
share_file-Shared {others} {s} v i hi arg slot from hs free lowest =
    let exec = exec-IsCounted v (keep_on_exec slot s).close_on_exec in
    let fits : slot < length s.filp = omega (arith, v.slots) in
    record {
      counted = add-IsCounted exec i slot hi hs free;
      range = (from, hs);
      was_free = free;
      lowest = lowest;
      names = get_or-set_self s.filp slot (some i) none fits;
      rest = λ k ne. get_or-set_ne s.filp {i = slot} {j = k} (some i) none (λ e. ne (sym e));
      exec = λ k l. bit_and-not-shl1 s.close_on_exec slot k (omega arith) l;
      kept = refl;
    }

-- With correct reference counts dupfd keeps them correct. For an open descriptor and a start in range it
-- takes the lowest free slot from the start on, which then names the same file and is not closed on
-- exec, while the other slots stay; -EMFILE says that every slot from the start on is taken, -EINVAL
-- that the start is out of range, -EBADF that the descriptor is not open, and an error changes nothing.
pub dupfd_lem :
    {others : ℕ → ℕ} {s : Files} (fd arg : ℕ)
    → IsCounted others s
    → ((i slot : ℕ) × (s' : Files) × (file_at s fd ≡ some i)
        × (dupfd fd arg s ≡ (ret slot, s'))
        × Shared others arg i slot s s')
      ⊎ ((dupfd fd arg s ≡ (err emfile, s))
          × ((k : ℕ) → arg ≤ k → k < nr_open → is_some (file_at s k) ≡ true))
      ⊎ ((dupfd fd arg s ≡ (err einval, s)) × (nr_open ≤ arg))
      ⊎ ((dupfd fd arg s ≡ (err ebadf, s)) × ((nr_open ≤ fd) ⊎ (file_at s fd ≡ none)))
unfolding dupfd
dupfd_lem {others} {s} fd arg v =
    elim (Option-cases (if leb nr_open fd then none else file_at s fd)) [
      | inl closed ↦ inr (inr (inr (rw (dupfd, closed) refl, why closed)))
      | inr (i, open_file) ↦ elim (Bool-cases (leb nr_open arg)) [
        | inl far ↦ inr (inr (inl (rw (dupfd, open_file, far) refl, ground arith)))
        | inr near ↦
            let slot = next_slot (nr_open - arg) s.filp arg in
            let facts = next_slot-Slot (nr_open - arg) s.filp arg in
            elim (Bool-cases (leb nr_open slot)) [
              | inl full ↦ inr (
                  inl (
                    rw (dupfd, open_file, near, full) refl,
                    λ k h l. facts.taken k h (ground arith),
                  ))
              | inr found ↦
                  let named : file_at s fd ≡ some i = ground arith in
                  let free : file_at s slot ≡ none =
                    none_of (file_at s slot) (facts.free (ground arith)) in
                  inl (
                    i,
                    slot,
                    _,
                    named,
                    rw (dupfd, open_file, near, found) refl,
                    share_file-Shared v i (v.named fd i named) arg slot facts.from (ground arith)
                        free facts.taken,
                  )
            ]
      ]
    ]
  where
    none_of : (o : Option ℕ) → is_some o ≡ false → o ≡ none
    none_of none h = refl
    none_of (some x) h = cc

    why :
        (if leb nr_open fd then none else file_at s fd) ≡ none
        → (nr_open ≤ fd) ⊎ (file_at s fd ≡ none)
    why e = elim (Bool-cases (leb nr_open fd)) [
      | inl far ↦ inl (ground arith)
      | inr near ↦ inr (rw near at e)
    ]
