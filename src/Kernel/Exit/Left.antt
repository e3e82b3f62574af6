-- ===== src/Kernel/Exit/Left.antt =====
-- What do_exit leaves: a process that has exited, and its father.
use linux.Common.{
  ℕ, ◌≤◌, ◌<◌, ◌^◌, ◌≡◌, refl, ◌≢◌, ◌⊎◌, inl, inr, Bool, true, false, Option, none, some, arith,
  ◌==◌, ==_iff, if◌then◌else◌, Bool-cases, length, length-set, set, get_or-set_self, get_or-set_ne,
  subst, sym, ap, ◌∙◌,
}
use linux.Kernel.Task.{Task, Tasks, task_at, nr_tasks, zombie, sigchld}
use linux.Kernel.Signals.{raise}
use linux.Kernel.Exit.{
  System, set_task, kill_session, adopt, find_pid, on_task, tell_father, end_task,
}
use linux.Kernel.Exit.Kin.{
  Kin, AllKin, AllKin-trans, Kin-refl, set-AllKin, adopt-AllKin, kill_session-AllKin, raise-Kin,
}
use linux.Kernel.Exit.Find.{pid_of, find_pid-finds}

-- Slot `c` has a process whose father is in slot `f`, and no other task has its number.
pub record IsFamily (s : System) (c f : ℕ) (child father : Task) : Type 0 where
  pub size : length s.tasks ≡ nr_tasks
  pub slots : (1 ≤ c) × (c < nr_tasks) × (f < nr_tasks)
  pub child_there : task_at s.tasks c ≡ some child
  pub father_there : task_at s.tasks f ≡ some father
  pub parent : child.father ≡ father.pid
  pub numbers : (1 ≤ child.pid) × (child.pid < 2 ^ 31) × (father.pid ≢ 0) × (father.pid ≢ child.pid)
  pub alone : (i : ℕ) (q : Task) → task_at s.tasks i ≡ some q → q.pid ≡ child.pid → i ≡ c

-- The process has exited.
pub record Exited (s : System) (c f code : ℕ) (child father : Task) : Type 0 where
  pub size : length s.tasks ≡ nr_tasks
  pub corpse : Task
  pub there : task_at s.tasks c ≡ some corpse
  pub dead : corpse.state ≡ zombie
  pub status : corpse.exit_code ≡ code
  pub same_pid : corpse.pid ≡ child.pid
  pub parent : corpse.father ≡ father.pid
  pub father_there : (q : Task) × (task_at s.tasks f ≡ some q) × (q.pid ≡ father.pid)
  pub alone : (i : ℕ) (q : Task) → task_at s.tasks i ≡ some q → q.pid ≡ child.pid → i ≡ c

Kin-some :
    (pid : ℕ) (p : Task) (o : Option Task)
    → Kin pid (some p) o
    → (q : Task) × (o ≡ some q) × (q.pid ≡ p.pid) × (p.father ≢ pid → q.father ≡ p.father)
Kin-some pid p none h = absurd h
Kin-some pid p (some q) h = (q, refl, h.0, h.1)

Kin-back :
    (pid : ℕ) (o : Option Task) (q : Task)
    → Kin pid o (some q)
    → (p : Task) × (o ≡ some p) × (q.pid ≡ p.pid)
Kin-back pid none q h = absurd h
Kin-back pid (some p) q h = (p, refl, h.0)

tell_father-run :
    (pid c m : ℕ) (s : System)
    → pid ≢ 0
    → find_pid pid nr_tasks 0 s.tasks ≡ some m
    → tell_father pid c s ≡ some (set_task m (on_task (raise sigchld) (task_at s.tasks m)) s)
unfolding tell_father
tell_father-run pid c m s h found =
    let nonzero : (pid == 0) ≡ false = ground arith in rw (tell_father, nonzero) (rw found refl)

tell_father-Exited :
    (s : System) (c f code : ℕ) (child father : Task)
    → father.pid ≢ 0
    → father.pid ≢ child.pid
    → c < nr_tasks
    → f < nr_tasks
    → Exited s c f code child father
    → (s' : System) × (tell_father father.pid c s ≡ some s') × Exited s' c f code child father
tell_father-Exited s c f code child father some_pid other ic fi e =
    let (q, at_f, q_pid) = e.father_there in
    let (m, p, found, at_m, p_pid, bound) =
      find_pid-finds father.pid nr_tasks 0 s.tasks f q (omega arith) fi at_f q_pid in
    let told = on_task (raise sigchld) (task_at s.tasks m) in
    let s' = set_task m told s in
    let inside : m < length s.tasks = omega (arith, bound, e.size) in
    let kin =
      set-AllKin child.pid s.tasks m told inside
        (raise-Kin child.pid sigchld (task_at s.tasks m)) in
    let apart : m ≢ c = λ same.
      other (sym p_pid ∙ ap pid_of (sym at_m ∙ ap (task_at s.tasks) same ∙ e.there) ∙ e.same_pid) in
    let (q', at_f', q'_pid, _) =
      Kin-some child.pid q (task_at s'.tasks f)
        (subst (λ o. Kin child.pid o (task_at s'.tasks f)) at_f (kin.1 f)) in
    (
      s',
      tell_father-run father.pid c m s some_pid found,
      record {
        size = kin.0 ∙ e.size;
        corpse = e.corpse;
        there = get_or-set_ne s.tasks {i = m} {j = c} told none apart ∙ e.there;
        dead = e.dead;
        status = e.status;
        same_pid = e.same_pid;
        parent = e.parent;
        father_there = (q', at_f', q'_pid ∙ q_pid);
        alone = λ i r at_i r_pid.
            let (o, at_o, o_pid) =
              Kin-back child.pid (task_at s.tasks i) r
                (subst (λ o. Kin child.pid (task_at s.tasks i) o) at_i (kin.1 i)) in
            e.alone i o at_o (sym o_pid ∙ r_pid);
      },
    )

-- The loop of do_exit over the children has run.
abbrev pub adopted : Task → System → System
adopted child s = record s { tasks = adopt child nr_tasks 0 s.tasks }

abbrev after_adopt : Task → Tasks → Tasks
after_adopt child tasks =
    let tasks₁ = adopt child nr_tasks 0 tasks in
    if child.leader then kill_session child tasks₁ else tasks₁

end_task-run :
    (s : System) (c code : ℕ) (child p : Task)
    → task_at (after_adopt child s.tasks) c ≡ some p
    → end_task c code child (adopted child s)
      ≡ tell_father p.father c (record s {
        tasks =
            set
              (after_adopt child s.tasks)
              c
              (some (record p { state = zombie; exit_code = code }));
      })
unfolding end_task
end_task-run s c code child p h = rw (end_task, h) refl

pub end_task-Exited :
    (s : System) (c f code : ℕ) (child father : Task)
    → IsFamily s c f child father
    → (s' : System) × (end_task c code child (adopted child s) ≡ some s')
      × Exited s' c f code child father
end_task-Exited s c f code child father v =
    let pid = child.pid in
    let tasks₁ = adopt child nr_tasks 0 s.tasks in
    let kin₁ =
      adopt-AllKin child nr_tasks 0 s.tasks (omega (arith, v.size)) (omega (arith, v.size)) in
    let tasks₂ = after_adopt child s.tasks in
    let kin₂ = AllKin-trans pid s.tasks tasks₁ tasks₂ kin₁ (session child.leader tasks₁) in
    let (p, at_c, p_pid, p_father) =
      Kin-some pid child (task_at tasks₂ c)
        (subst (λ o. Kin pid o (task_at tasks₂ c)) v.child_there (kin₂.1 c)) in
    let parent : p.father ≡ father.pid =
      p_father (λ q. v.numbers.3 (sym v.parent ∙ q)) ∙ v.parent in
    let z = record p { state = zombie; exit_code = code } in
    let s₃ = record s { tasks = set tasks₂ c (some z) } in
    let (q, at_f, q_pid, _) =
      Kin-some pid father (task_at tasks₂ f)
        (subst (λ o. Kin pid o (task_at tasks₂ f)) v.father_there (kin₂.1 f)) in
    let inside : c < length tasks₂ = omega (arith, kin₂.0, v.size, v.slots.1) in
    let elsewhere : c ≢ f = λ same.
      v.numbers.3
        (ap pid_of (sym v.father_there ∙ ap (task_at s.tasks) (sym same) ∙ v.child_there)) in
    let (s', run, gone) =
      tell_father-Exited s₃ c f code child father v.numbers.2 v.numbers.3 v.slots.1 v.slots.2
        (record {
          size = length-set tasks₂ c (some z) ∙ kin₂.0 ∙ v.size;
          corpse = z;
          there = get_or-set_self tasks₂ c (some z) none inside;
          dead = refl;
          status = refl;
          same_pid = p_pid;
          parent = parent;
          father_there =
              (q, get_or-set_ne tasks₂ {i = c} {j = f} (some z) none elsewhere ∙ at_f, q_pid);
          alone = λ i r at_i r_pid. alone tasks₂ kin₂ i r (some z) (Bool-cases (c == i)) at_i r_pid;
        }) in
    (s', end_task-run s c code child p at_c ∙ ap (λ n. tell_father n c s₃) parent ∙ run, gone)
  where
    session :
        (b : Bool) (tasks : Tasks)
        → AllKin child.pid tasks (if b then kill_session child tasks else tasks)
    session true tasks = kill_session-AllKin child.pid child tasks
    session false tasks = (refl, λ i. Kin-refl child.pid (task_at tasks i))

    alone :
        (tasks : Tasks)
        → AllKin child.pid s.tasks tasks
        → (i : ℕ) (r : Task) (o : Option Task) → ((c == i) ≡ true) ⊎ ((c == i) ≡ false)
        → task_at (set tasks c o) i ≡ some r
        → r.pid ≡ child.pid
        → i ≡ c
    alone tasks kin i r o (inl here) at_i r_pid = sym ((==_iff c i).0 here)
    alone tasks kin i r o (inr apart) at_i r_pid =
        let ne : c ≢ i = ground arith in
        let was : task_at tasks i ≡ some r =
          sym (get_or-set_ne tasks {i = c} {j = i} o none ne) ∙ at_i in
        let (o', at_o, o_pid) =
          Kin-back child.pid (task_at s.tasks i) r
            (subst (λ t. Kin child.pid (task_at s.tasks i) t) was (kin.1 i)) in
        v.alone i o' at_o (sym o_pid ∙ r_pid)
