-- ===== src/Kernel/Fork/Pigeons.antt =====
-- Of 65 different numbers one is not that of any of 64 tasks.
use linux.Common.{
  ℕ, zero, suc, ◌≤◌, ◌<◌, ◌≡◌, refl, ◌≢◌, inl, inr, Bool, true, false, Option, none, some, List, [],
  ◌∷◌, ◌||◌, ◌==◌, ==_iff, arith, if◌then◌else◌, Bool-cases, length, ap,
}
use linux.Kernel.Task.{Task, Tasks, task_at}

abbrev pub has : ℕ → List ℕ → Bool
has x [] = false
has x (y ∷ l) = (y == x) || has x l

abbrev without : ℕ → List ℕ → List ℕ
without x [] = []
without x (y ∷ l) = let rest = without x l in if y == x then rest else y ∷ rest

without-shorter : (x : ℕ) (l : List ℕ) → length (without x l) ≤ length l
without-shorter x [] = omega arith
without-shorter x (y ∷ l) = ground (arith, without-shorter x l)

without-has : (x : ℕ) (l : List ℕ) → has x l ≡ true → length (without x l) < length l
without-has x [] h = absurd (no h)
  where
    no : false ≡ true → ⊥
    no q = cc
without-has x (y ∷ l) h = elim (Bool-cases (y == x)) [
  | inl e ↦ let shorter = without-shorter x l in rw e (omega arith)
  | inr e ↦ let rest = without-has x l (rw e at h) in rw e (omega (arith, rest))
]

has-without : (x y : ℕ) (l : List ℕ) → y ≢ x → has y l ≡ true → has y (without x l) ≡ true
has-without x y [] ne h = h
has-without x y (z ∷ l) ne h = elim (Bool-cases (z == x)) [
  | inl e ↦
      let other : (z == y) ≡ false = ground (arith, e) in
      rw e (has-without x y l ne (rw other at h))
  | inr e ↦ rw e (either (z == y) (has-without x y l ne) h)
]
  where
    either :
        (b : Bool)
        → (has y l ≡ true → has y (without x l) ≡ true)
        → (b || has y l) ≡ true
        → (b || has y (without x l)) ≡ true
    either true rest p = refl
    either false rest p = rest p

-- `f 0`, ..., `f (k - 1)` are different and all in the list.
pub pigeons :
    (f : ℕ → ℕ) (k : ℕ) (l : List ℕ)
    → ((i j : ℕ) → i < j → j < k → f i ≢ f j)
    → ((i : ℕ) → i < k → has (f i) l ≡ true)
    → k ≤ length l
pigeons f zero l apart h = omega arith
pigeons f (suc k) l apart h =
    let rest =
      pigeons f k (without (f k) l) (λ i j a b. apart i j a (omega arith))
        (λ i b. has-without (f k) (f i) l (apart i k b (omega arith)) (h i (omega arith))) in
    let less = without-has (f k) l (h k (omega arith)) in omega arith

-- The numbers of the tasks.
abbrev pub pids : Tasks → List ℕ
pids [] = []
pids (none ∷ tasks) = pids tasks
pids (some p ∷ tasks) = p.pid ∷ pids tasks

pub length-pids : (tasks : Tasks) → length (pids tasks) ≤ length tasks
length-pids [] = omega arith
length-pids (none ∷ tasks) = omega (arith, length-pids tasks)
length-pids (some p ∷ tasks) = omega (arith, length-pids tasks)

pub has-pids :
    (tasks : Tasks) (i : ℕ) (p : Task) → task_at tasks i ≡ some p → has p.pid (pids tasks) ≡ true
has-pids [] i p e = absurd (no e)
  where
    no : none ≡ some p → ⊥
    no q = cc
has-pids (none ∷ tasks) zero p e = absurd (no e)
  where
    no : none ≡ some p → ⊥
    no q = cc
has-pids (some q ∷ tasks) zero p e = rw ((==_iff q.pid p.pid).1 (same e)) refl
  where
    pid_of : Option Task → ℕ
    pid_of none = 0
    pid_of (some r) = r.pid

    same : some q ≡ some p → q.pid ≡ p.pid
    same e = ap pid_of e
has-pids (none ∷ tasks) (suc i) p e = has-pids tasks i p e
has-pids (some q ∷ tasks) (suc i) p e = rw (has-pids tasks i p e) (or_true (q.pid == p.pid))
  where
    or_true : (b : Bool) → (b || true) ≡ true
    or_true true = refl
    or_true false = refl
