-- ===== src/Kernel/Timers/Due.antt =====
-- When the timers of a list are due, and how add_timer and a tick change that.
use linux.Common.{
  ℕ, ◌+◌, ◌-◌, ◌≤◌, ◌<◌, ◌^◌, ◌≡◌, refl, ◌⊎◌, inl, inr, false, none, some, List, [], ◌∷◌, ◌++◌,
  arith, ◌||◌, ltb, leb, ◌==◌, Bool-cases, ap, length, map,
}
use linux.Kernel.Timers.{Timer, time_requests, insert_timer, added, add_timer, expire, run_timers}

-- The functions of a list with the times at which they are due, counted from `now`.
unfoldable pub dues : ℕ → List Timer → List (ℕ × ℕ)
dues now [] = []
dues now (t ∷ rest) = (now + t.jiffies, t.fn) ∷ dues (now + t.jiffies) rest

abbrev pub total : List Timer → ℕ
total [] = 0
total (t ∷ rest) = t.jiffies + total rest

-- Every timer of the list waits for at least a tick.
abbrev pub AllPositive : List Timer → Type 0
AllPositive [] = Unit
AllPositive (t ∷ rest) = (1 ≤ t.jiffies) × AllPositive rest

-- What adding a timer does: the timers before it keep their times, it has its own, and those after it
-- count from its time.
pub record Inserted (jiffies fn : ℕ) (timers timers' : List Timer) : Type 0 where
  pub before : List Timer
  pub after : List Timer
  pub split : timers ≡ before ++ after
  pub times : dues 0 timers' ≡ dues 0 before ++ ((jiffies, fn) ∷ dues jiffies after)
  pub earlier : total before ≤ jiffies
  pub later :
      (after ≡ [])
      ⊎ ((t : Timer) × (rest : List Timer) × (after ≡ t ∷ rest)
          × (jiffies ≤ total before + t.jiffies))

record InsertedFrom (now : ℕ) (p : Timer) (timers timers' : List Timer) : Type 0 where
  before : List Timer
  after : List Timer
  split : timers ≡ before ++ after
  times :
      dues now timers' ≡ dues now before ++ ((now + p.jiffies, p.fn) ∷ dues (now + p.jiffies) after)
  earlier : total before ≤ p.jiffies
  later :
      (after ≡ [])
      ⊎ ((t : Timer) × (rest : List Timer) × (after ≡ t ∷ rest)
          × (p.jiffies ≤ total before + t.jiffies))
  positive : AllPositive timers → 1 ≤ p.jiffies → AllPositive timers'

insert_timer-Inserted :
    (now : ℕ) (p : Timer) (timers : List Timer) → InsertedFrom now p timers (insert_timer p timers)
unfolding insert_timer dues
insert_timer-Inserted now p [] = record {
  before = [];
  after = [];
  split = refl;
  times = refl;
  earlier = omega arith;
  later = inl refl;
  positive = λ all one. (one, tt);
}
insert_timer-Inserted now p (next ∷ rest) = elim (Bool-cases (ltb next.jiffies p.jiffies)) [
  | inl behind ↦
      let i =
        insert_timer-Inserted (now + next.jiffies) (record p { jiffies = p.jiffies - next.jiffies })
          rest in
      let due : now + next.jiffies + (p.jiffies - next.jiffies) ≡ now + p.jiffies = ground arith in
      rw behind (record {
        before = next ∷ i.before;
        after = i.after;
        split = ap (λ l. next ∷ l) i.split;
        times = ap (λ l. (now + next.jiffies, next.fn) ∷ l) (rw due at i.times);
        earlier = ground (arith, i.earlier);
        later = elim i.later [
          | inl last ↦ inl last
          | inr (t, more, e, h) ↦ inr (t, more, e, ground (arith, h))
        ];
        positive = λ all one. (all.0, i.positive all.1 (ground arith));
      })
  | inr ahead ↦ rw ahead (record {
    before = [];
    after = next ∷ rest;
    split = refl;
    times = refl;
    earlier = omega arith;
    later = inr (next, rest, refl, ground arith);
    positive = λ all one. (one, all);
  })
]

-- A timer added with a positive time below 2 ^ 31, while there is a free entry, is due at exactly that
-- time, after the timers that are due earlier, which keep their times; every later timer then counts
-- from the new one, so it is put off by the new timer's distance from the one before it. The timers
-- stay positive.
pub add_timer-Inserted :
    (jiffies fn : ℕ) (timers : List Timer)
    → 1 ≤ jiffies
    → jiffies < 2 ^ 31
    → length timers < time_requests
    → AllPositive timers
    → (timers' : List Timer) × (add_timer jiffies (some fn) timers ≡ added timers' none)
      × Inserted jiffies fn timers timers'
      × AllPositive timers'
unfolding add_timer
add_timer-Inserted jiffies fn timers low high room all =
    let p : Timer = record { jiffies = jiffies; fn = fn } in
    let i = insert_timer-Inserted 0 p timers in
    let positive : (jiffies == 0 || leb (2 ^ 31) jiffies) ≡ false = ground arith in
    let z : 0 + jiffies ≡ jiffies = omega arith in
    let free : leb time_requests (length timers) ≡ false = ground arith in
    (
      insert_timer p timers,
      rw (positive, free),
      record {
        before = i.before;
        after = i.after;
        split = i.split;
        times = rw z at i.times;
        earlier = i.earlier;
        later = i.later;
      },
      i.positive all low,
    )

expire-AllPositive : (timers : List Timer) → AllPositive timers → expire timers ≡ ([], timers)
unfolding expire
expire-AllPositive [] all = refl
expire-AllPositive (t ∷ rest) all =
    let waits : (t.jiffies == 0) ≡ false = ground (arith, all.0) in rw waits

-- A tick runs exactly the functions that were due at 1, in order, and leaves every other timer at its
-- time, which the list then counts from the tick; the timers stay positive.
pub run_timers-dues :
    (timers : List Timer)
    → AllPositive timers
    → let (fired, left) = run_timers timers in
      (dues 0 timers ≡ map (λ fn. (1, fn)) fired ++ dues 1 left) × AllPositive left
unfolding run_timers dues expire
run_timers-dues [] all = (refl, tt)
run_timers-dues (t ∷ rest) all = elim (Bool-cases (t.jiffies - 1 == 0)) [
  | inl now ↦
      let one : t.jiffies ≡ 1 = ground (arith, all.0) in
      rw (now, expire-AllPositive rest all.1) (rw one refl, all.1)
  | inr later ↦
      let due : 1 + (t.jiffies - 1) ≡ 0 + t.jiffies = omega (arith, all.0) in
      rw later (rw due refl, (ground (arith, all.0), all.1))
]
