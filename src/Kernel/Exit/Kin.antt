-- ===== src/Kernel/Exit/Kin.antt =====
-- What do_exit leaves of the other tasks: their numbers, and the fathers of all but its own children.
use linux.Common.{
  ℕ, zero, suc, ◌+◌, ◌≤◌, ◌<◌, ◌≡◌, refl, ◌≢◌, ◌⊎◌, inl, inr, Bool, true, false, Option, none, some,
  [], ◌∷◌, arith, ◌==◌, ==_iff, if◌then◌else◌, Bool-cases, Option-cases, length, length-set, set,
  get_or-set_self, get_or-set_ne, sym, ap, ◌∙◌, map, length-map,
}
use linux.Kernel.Task.{Task, Tasks, task_at, sigchld, sighup}
use linux.Kernel.Sched.{each_task}
use linux.Kernel.Signals.{raise, send_sig}
use linux.Kernel.Exit.{kill_session, adopt_slot, adopt, is_zombie, on_task}

-- A slot before and after, when the task `pid` exits.
abbrev pub Kin : ℕ → Option Task → Option Task → Type 0
Kin pid none none = Unit {0}
Kin pid none (some q) = ⊥
Kin pid (some p) none = ⊥
Kin pid (some p) (some q) = (q.pid ≡ p.pid) × (p.father ≢ pid → q.father ≡ p.father)

pub Kin-refl : (pid : ℕ) (o : Option Task) → Kin pid o o
Kin-refl pid none = tt
Kin-refl pid (some p) = (refl, λ h. refl)

pub Kin-trans : (pid : ℕ) (o o' o'' : Option Task) → Kin pid o o' → Kin pid o' o'' → Kin pid o o''
Kin-trans pid none none none h k = tt
Kin-trans pid (some p) (some q) (some r) h k =
    (k.0 ∙ h.0, λ d. k.1 (λ e. d (sym (h.1 d) ∙ e)) ∙ h.1 d)
Kin-trans pid none (some q) o'' h k = absurd h
Kin-trans pid (some p) none o'' h k = absurd h
Kin-trans pid none none (some r) h k = absurd k
Kin-trans pid (some p) (some q) none h k = absurd k

abbrev pub AllKin : ℕ → Tasks → Tasks → Type 0
AllKin pid tasks tasks' =
    (length tasks' ≡ length tasks) × ((i : ℕ) → Kin pid (task_at tasks i) (task_at tasks' i))

pub AllKin-trans : (pid : ℕ) (a b c : Tasks) → AllKin pid a b → AllKin pid b c → AllKin pid a c
AllKin-trans pid a b c h k =
    (k.0 ∙ h.0, λ i. Kin-trans pid (task_at a i) (task_at b i) (task_at c i) (h.1 i) (k.1 i))

pub set-AllKin :
    (pid : ℕ) (tasks : Tasks) (k : ℕ) (o : Option Task)
    → k < length tasks
    → Kin pid (task_at tasks k) o
    → AllKin pid tasks (set tasks k o)
set-AllKin pid tasks k o h kin = (length-set tasks k o, λ i. at i (Bool-cases (k == i)))
  where
    at :
        (i : ℕ)
        → ((k == i) ≡ true) ⊎ ((k == i) ≡ false)
        → Kin pid (task_at tasks i) (task_at (set tasks k o) i)
    at i (inl here) = rw (← (==_iff k i).0 here) (rw (get_or-set_self tasks k o none h) kin)
    at i (inr apart) =
        let ne : k ≢ i = ground arith in
        rw (get_or-set_ne tasks {i = k} {j = i} o none ne) (Kin-refl pid (task_at tasks i))

pub raise-Kin : (pid sig : ℕ) (o : Option Task) → Kin pid o (on_task (raise sig) o)
raise-Kin pid sig none = tt
raise-Kin pid sig (some p) = (refl, λ h. refl)

told-Kin :
    (pid : ℕ) (current : Task) (o : Option Task) → Kin pid o (send_sig current sigchld true o).1
unfolding send_sig
told-Kin pid current none = tt
told-Kin pid current (some p) = (refl, λ h. refl)

pub adopt_slot-AllKin :
    (current : Task) (i : ℕ) (tasks : Tasks)
    → i < length tasks
    → 1 < length tasks
    → AllKin current.pid tasks (adopt_slot current i tasks)
unfolding adopt_slot
adopt_slot-AllKin current i tasks h one = elim (Option-cases (task_at tasks i)) [
  | inl e ↦ rw (adopt_slot, e) (refl, λ j. Kin-refl current.pid (task_at tasks j))
  | inr (p, e) ↦
      let tasks₁ = set tasks i (some (record p { father = 1 })) in
      let told = (send_sig current sigchld true (task_at tasks₁ 1)).1 in
      rw (adopt_slot, e)
        (either p (Bool-cases (p.father == current.pid)) tasks₁ (set tasks₁ 1 told)
          (λ child.
            set-AllKin current.pid tasks i (some (record p { father = 1 })) h
              (rw e (refl, λ d. absurd (d child))))
          (set-AllKin current.pid tasks₁ 1 told
            (omega (arith, one, length-set tasks i (some (record p { father = 1 }))))
            (told-Kin current.pid current (task_at tasks₁ 1))))
]
  where
    either :
        (p : Task)
        → ((p.father == current.pid) ≡ true) ⊎ ((p.father == current.pid) ≡ false)
        → (a b : Tasks) → (p.father ≡ current.pid → AllKin current.pid tasks a)
        → AllKin current.pid a b
        → AllKin current.pid tasks
            (if p.father == current.pid then (if is_zombie p.state then b else a) else tasks)
    either p (inr other) a b h k = rw other (refl, λ j. Kin-refl current.pid (task_at tasks j))
    either p (inl child) a b h k =
        let first = h ((==_iff _ _).0 child) in
        rw child (both (is_zombie p.state) first (AllKin-trans current.pid tasks a b first k))
      where
        both :
            (z : Bool)
            → AllKin current.pid tasks a
            → AllKin current.pid tasks b
            → AllKin current.pid tasks (if z then b else a)
        both true h k = k
        both false h k = h

pub adopt-AllKin :
    (current : Task) (k i : ℕ) (tasks : Tasks)
    → i + k ≤ length tasks
    → 1 < length tasks
    → AllKin current.pid tasks (adopt current k i tasks)
unfolding adopt
adopt-AllKin current zero i tasks h one = (refl, λ j. Kin-refl current.pid (task_at tasks j))
adopt-AllKin current (suc k) i tasks h one =
    let first = adopt_slot-AllKin current i tasks (omega arith) one in
    AllKin-trans current.pid tasks (adopt_slot current i tasks) _ first (
      adopt-AllKin current k (i + 1) (adopt_slot current i tasks) (omega (arith, h, first.0))
        (omega (arith, one, first.0)))

map-Kin :
    (pid : ℕ) (f : Task → Task) (tasks : Tasks)
    → ((p : Task) → Kin pid (some p) (some (f p)))
    → (i : ℕ)
    → Kin pid
        (task_at tasks i)
        (task_at (map (λ t. elim t [ none ↦ none | some p ↦ some (f p) ]) tasks) i)
map-Kin pid f [] h i = tt
map-Kin pid f (none ∷ tasks) h zero = tt
map-Kin pid f (some p ∷ tasks) h zero = h p
map-Kin pid f (t ∷ tasks) h (suc i) = map-Kin pid f tasks h i

pub kill_session-AllKin :
    (pid : ℕ) (current : Task) (tasks : Tasks) → AllKin pid tasks (kill_session current tasks)
unfolding kill_session
kill_session-AllKin pid current [] = (refl, λ i. tt)
kill_session-AllKin pid current (idle ∷ tasks) = (ap suc (length-map tasks _), at)
  where
    f : Task → Task
    f p = if p.session == current.session then raise sighup p else p

    f-Kin : (p : Task) → Kin pid (some p) (some (f p))
    f-Kin p = either (p.session == current.session)
      where
        either : (b : Bool) → Kin pid (some p) (some (if b then raise sighup p else p))
        either true = (refl, λ h. refl)
        either false = (refl, λ h. refl)

    at : (i : ℕ) → Kin pid (task_at (idle ∷ tasks) i) (task_at (each_task f (idle ∷ tasks)) i)
    at zero = Kin-refl pid idle
    at (suc i) = map-Kin pid f tasks f-Kin i
