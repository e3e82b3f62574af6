-- ===== src/Kernel/Requests/Slots.antt =====
-- make_request: which requests are made, and in which entry of the table.
use linux.Common.{
  ℕ, zero, suc, ◌*◌, ◌/◌, ◌%◌, ◌^◌, ◌<◌, ◌≡◌, refl, ◌≢◌, inl, inr, Bool, true, false, Option, none,
  some, List, [], ◌∷◌, not, ◌&&◌, ◌||◌, arith, ◌==◌, ==_iff, if◌then◌else◌, Bool-cases,
  Option-cases, sym, ◌∙◌, get_or, set,
}
use linux.Kernel.Requests.{
  Request, Buffer, Requests, nr_request, read, write, reada, writea, add_request, find_request,
  Requested, returns, sleeps_on_buffer, sleeps_on_request, request_at, queue_request, make_request,
}

abbrev pub is_ahead : ℕ → Bool
is_ahead rw = rw == reada || rw == writea

abbrev pub command : ℕ → ℕ
command rw = if rw == reada then read else if rw == writea then write else rw

-- Nothing to write, or nothing to read.
abbrev pub is_idle : ℕ → Buffer → Bool
is_idle cmd b = cmd == write && not b.b_dirt || cmd == read && b.b_uptodate

-- Reads may use the whole table, writes the first two thirds of it.
abbrev pub room : ℕ → ℕ
room cmd = if cmd == read then nr_request else nr_request * 2 / 3

abbrev pub AllTaken : ℕ → Requests → Type 0
AllTaken cmd s = (i : ℕ) → i < room cmd → get_or s.request i none ≢ none

pub record Entered (cmd bh : ℕ) (b : Buffer) (s s' : Requests) (starts : Bool) : Type 0 where
  pub index : ℕ
  pub in_room : index < room cmd
  pub was_free : get_or s.request index none ≡ none
  pub entry :
      s'.request
      ≡ set s.request index
          (some (record { dev = b.b_dev; cmd = cmd; sector = b.b_blocknr * 2 % 2 ^ 32; bh = bh }))
  pub queued : s'.queue ≡ add_request (request_at s'.request) index s.queue
  pub started : starts ≡ true → s.queue ≡ []

pub data Handled (rw bh : ℕ) (b : Buffer) (s : Requests) : Requested → Type 0 where
  locked_ahead : b.b_lock ≡ true → is_ahead rw ≡ true → Handled rw bh b s (returns s b false)
  locked : b.b_lock ≡ true → is_ahead rw ≡ false → Handled rw bh b s sleeps_on_buffer
  idle : b.b_lock ≡ false → is_idle (command rw) b ≡ true → Handled rw bh b s (returns s b false)
  full_ahead :
      {b' : Buffer}
      → b.b_lock ≡ false
      → is_idle (command rw) b ≡ false
      → AllTaken (command rw) s
      → is_ahead rw ≡ true
      → b' ≡ record b { b_lock = false }
      → Handled rw bh b s (returns s b' false)
  full :
      {b' : Buffer}
      → b.b_lock ≡ false
      → is_idle (command rw) b ≡ false
      → AllTaken (command rw) s
      → is_ahead rw ≡ false
      → b' ≡ record b { b_lock = true }
      → Handled rw bh b s (sleeps_on_request b')
  entered :
      {b' : Buffer} {s' : Requests} {starts : Bool}
      → b.b_lock ≡ false
      → is_idle (command rw) b ≡ false
      → Entered (command rw) bh b s s' starts
      → b' ≡ record b { b_lock = true; b_dirt = false }
      → Handled rw bh b s (returns s' b' starts)

find_request-some :
    (table : List (Option Request)) (n : ℕ) {i : ℕ}
    → find_request table n ≡ some i
    → (i < n) × (get_or table i none ≡ none)
unfolding find_request
find_request-some table zero e = absurd (no e)
  where
    no : {i : ℕ} → none ≡ some i → ⊥
    no p = cc
find_request-some table (suc n) {i} e = elim (Option-cases (get_or table n none)) [
  | inl free ↦ found (rw (find_request, free) at e) free
  | inr (r, taken) ↦
      let (below, free) = find_request-some table n (rw (find_request, taken) at e) in
      (omega arith, free)
]
  where
    found :
        some n ≡ some i → get_or table n none ≡ none → (i < suc n) × (get_or table i none ≡ none)
    found p free = let q : n ≡ i = inj p in (omega (arith, q), rw (← q) free)
      where
        inj : some n ≡ some i → n ≡ i
        inj p' = cc

find_request-none :
    (table : List (Option Request)) (n : ℕ)
    → find_request table n ≡ none
    → (i : ℕ) → i < n
    → get_or table i none ≢ none
unfolding find_request
find_request-none table zero e i h free = absurd (omega arith)
find_request-none table (suc n) e i h free = elim (Option-cases (get_or table n none)) [
  | inl here ↦ no (rw (find_request, here) at e)
  | inr (r, taken) ↦ elim (Bool-cases (i == n)) [
    | inl same ↦ other (sym taken ∙ rw ((==_iff i n).0 same) at free)
    | inr apart ↦ find_request-none table n (rw (find_request, taken) at e) i (ground arith) free
  ]
]
  where
    no : {k : ℕ} → some k ≡ none → ⊥
    no p = cc

    other : {r : Request} → some r ≡ none → ⊥
    other p = cc

started_empty : (queue : List ℕ) → (elim queue [ [] ↦ true | t ∷ ts ↦ false ]) ≡ true → queue ≡ []
started_empty [] e = refl
started_empty (t ∷ ts) e = absurd (no e)
  where
    no : false ≡ true → ⊥
    no p = cc

-- From the locked buffer on.
queue_request-Handled :
    (rw' bh : ℕ) (b : Buffer) (s : Requests)
    → b.b_lock ≡ false
    → is_idle (command rw') b ≡ false
    → Handled rw' bh b s
        (queue_request (command rw') (is_ahead rw') bh (record b { b_lock = true }) s)
unfolding queue_request
queue_request-Handled rw' bh b s free needed =
    elim (Option-cases (find_request s.request (room (command rw')))) [
      | inl none_left ↦
          let taken = find_request-none s.request (room (command rw')) none_left in
          elim (Bool-cases (is_ahead rw')) [
            | inl ahead ↦
                rw (queue_request, none_left) (rw ahead (full_ahead free needed taken ahead refl))
            | inr now ↦ rw (queue_request, none_left) (rw now (full free needed taken now refl))
          ]
      | inr (i, found) ↦
          let (inside, was_free) = find_request-some s.request (room (command rw')) found in
          rw (queue_request, found)
            (entered free needed
              (record {
                index = i;
                in_room = inside;
                was_free = was_free;
                entry = refl;
                queued = refl;
                started = started_empty s.queue;
              })
              refl)
    ]

-- make_request skips a locked buffer if it reads or writes ahead, and waits for it if not; it makes no
-- request if there is nothing to write or to read; else it puts the request into a free entry, for a
-- write never one of the last third, locks the buffer, marks it clean and adds the request to the
-- queue; and it sleeps, or gives up if it is ahead, only if every entry that it may use is taken.
pub make_request-Handled :
    (rw' bh : ℕ) (b : Buffer) (s : Requests)
    → rw' < 4
    → Handled rw' bh b s (make_request rw' bh b s)
unfolding make_request
make_request-Handled rw' bh b s valid = elim (Bool-cases b.b_lock) [
  | inl lock ↦ elim (Bool-cases (is_ahead rw')) [
    | inl ahead ↦ simp (ahead, lock) (locked_ahead lock ahead)
    | inr now ↦ simp (now, lock, good) (locked lock now)
  ]
  | inr free ↦
      let quiet : (is_ahead rw' && false) ≡ false = ground arith in
      elim (Bool-cases (is_idle (command rw') b)) [
        | inl nothing ↦ simp (quiet, free, good, nothing) (idle free nothing)
        | inr needed ↦
            simp (quiet, free, good, needed) (queue_request-Handled rw' bh b s free needed)
      ]
]
  where
    good : (not (command rw' == read) && not (command rw' == write)) ≡ false
    good = ground arith
