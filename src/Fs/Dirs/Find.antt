-- ===== src/Fs/Dirs/Find.antt =====
-- find_entry finds the first entry of a directory that has the name.
use linux.Common.{
  ℕ, zero, suc, ◌+◌, ◌/◌, ◌%◌, ◌≤◌, ◌<◌, ◌≡◌, refl, subst, sym, ◌∙◌, ◌⊎◌, inl, inr, true, false,
  Option, none, some, List, ◌==◌, ltb, arith, Bool-cases, Option-cases, ltb→lt,
}
use linux.Fs.Dirs.{DirEntry, Dir, matches, entry_at, find_loop, search}

-- No entry from `i` up to `k` has the name.
unfoldable pub Misses : ℕ → List ℕ → Dir → ℕ → ℕ → Type 0
Misses len name d i k =
    (j : ℕ) (de : DirEntry) → i ≤ j → j < k → entry_at d j ≡ some de → matches len name de ≡ false

pub data Found (len : ℕ) (name : List ℕ) (d : Dir) (i entries : ℕ) : Option ℕ → Type 0 where
  nowhere : Misses len name d i entries → Found len name d i entries none
  is_at :
      {k : ℕ} (de : DirEntry)
      → i ≤ k
      → k < entries
      → entry_at d k ≡ some de
      → matches len name de ≡ true
      → Misses len name d i k
      → Found len name d i entries (some k)

-- The loop stands at the first entry of a block or at an entry that it can read.
Loaded : Dir → ℕ → Type 0
Loaded d i = (i % 64 ≡ 0) ⊎ ((de : DirEntry) × (entry_at d i ≡ some de))

empty_range :
    (len : ℕ) (name : List ℕ) (d : Dir) (i entries : ℕ) → entries ≤ i → Misses len name d i entries
unfolding Misses
empty_range len name d i entries h j de p q e = absurd (omega arith)

-- What stands at `i` does not have the name, and neither does anything from `i'` on.
widen :
    (len : ℕ) (name : List ℕ) (d : Dir) (i i' entries : ℕ) (o : Option ℕ)
    → i ≤ i'
    → Misses len name d i i'
    → Found len name d i' entries o
    → Found len name d i entries o
unfolding Misses
widen len name d i i' entries o h before (nowhere after) = nowhere (λ j de p q e.
    elim (Bool-cases (ltb j i')) [
      | inl early ↦ before j de p (ltb→lt j i' early) e
      | inr late ↦ after j de (ground arith) q e
    ])
widen len name d i i' entries o h before (is_at de a b c m after) =
    is_at de (omega arith) b c m (λ j de' p q e. elim (Bool-cases (ltb j i')) [
      | inl early ↦ before j de' p (ltb→lt j i' early) e
      | inr late ↦ after j de' (ground arith) q e
    ])

same_block : (d : Dir) (i j : ℕ) → i / 64 ≡ j / 64 → entry_at d i ≡ none → entry_at d j ≡ none
unfolding entry_at
same_block d i j h e = elim (Option-cases (d.block (i / 64))) [
  | inl gone ↦ rw (sym h, gone, entry_at) refl
  | inr (b, here) ↦ absurd (some_ne_none (rw (here, entry_at) at e))
]
  where
    some_ne_none : {A : Type 0} {a : A} → some a ≡ none → ⊥
    some_ne_none q = cc

next_Loaded : (d : Dir) (i : ℕ) (de : DirEntry) → entry_at d i ≡ some de → Loaded d (i + 1)
unfolding Loaded
next_Loaded d i de e = elim (Bool-cases ((i + 1) % 64 == 0)) [
  | inl start ↦ inl (ground arith)
  | inr inside ↦ elim (Option-cases (entry_at d (i + 1))) [
    | inl gone ↦ absurd (some_ne_none (sym e ∙ same_block d (i + 1) i (ground arith) gone))
    | inr there ↦ inr there
  ]
]
  where
    some_ne_none : {A : Type 0} {a : A} → some a ≡ none → ⊥
    some_ne_none q = cc

none_ne_some : {A : Type 0} {a : A} → none ≡ some a → ⊥
none_ne_some q = cc

at_start : (d : Dir) (i : ℕ) → entry_at d i ≡ none → Loaded d i → i % 64 ≡ 0
unfolding Loaded
at_start d i gone (inl start) = start
at_start d i gone (inr (de, here)) = absurd (none_ne_some (sym gone ∙ here))

some_inj : {A : Type 0} {a b : A} → some a ≡ some b → a ≡ b
some_inj q = cc

-- The entries of a block that cannot be read.
skip :
    (len : ℕ) (name : List ℕ) (d : Dir) (i : ℕ)
    → entry_at d i ≡ none
    → i % 64 ≡ 0
    → Misses len name d i (i + 64)
unfolding Misses
skip len name d i gone start j de p q e =
    absurd (none_ne_some (sym (same_block d i j (omega arith) gone) ∙ e))

one :
    (len : ℕ) (name : List ℕ) (d : Dir) (i : ℕ) (de : DirEntry)
    → entry_at d i ≡ some de
    → matches len name de ≡ false
    → Misses len name d i (i + 1)
unfolding Misses
one len name d i de here other j de' p q e =
    let at_i : j ≡ i = omega arith in
    subst (λ x. matches len name x ≡ false)
      (some_inj (sym here ∙ subst (λ k. entry_at d k ≡ some de') at_i e)) other

at_least : (i entries : ℕ) → ltb i entries ≡ false → entries ≤ i
at_least i entries h = ground arith

find_loop-Found :
    (n len : ℕ) (name : List ℕ) (entries i : ℕ) (d : Dir)
    → Loaded d i
    → entries ≤ n + i
    → Found len name d i entries (find_loop n len name entries i d)
unfolding find_loop Loaded
find_loop-Found zero len name entries i d l b =
    nowhere (empty_range len name d i entries (omega arith))
find_loop-Found (suc n) len name entries i d l b = elim (Bool-cases (ltb i entries)) [
  | inr past ↦
      rw (past, find_loop) (nowhere (empty_range len name d i entries (at_least i entries past)))
  | inl inside ↦ elim (Option-cases (entry_at d i)) [
    | inl gone ↦
        rw (inside, gone, find_loop)
          (widen len name d i (i + 64) entries _ (omega arith)
            (skip len name d i gone (at_start d i gone l))
            (find_loop-Found n len name entries (i + 64) d
              (inl (omega (arith, at_start d i gone l))) (omega arith)))
    | inr (de, here) ↦ elim (Bool-cases (matches len name de)) [
      | inl hit ↦
          rw (inside, here, hit, find_loop)
            (is_at de (omega arith) (ltb→lt i entries inside) here hit
              (empty_range len name d i i (omega arith)))
      | inr other ↦
          rw (inside, here, other, find_loop)
            (widen len name d i (i + 1) entries _ (omega arith) (one len name d i de here other) (
              find_loop-Found n len name entries (i + 1) d (next_Loaded d i de here) (omega arith)))
    ]
  ]
]

-- On a directory whose first block can be read, the search of find_entry gives the first entry, below the
-- size of the directory and in a block that can be read, that match accepts, and no entry exactly when
-- there is none; blocks that cannot be read are passed over.
pub search-Found :
    (len : ℕ) (name : List ℕ) (d : Dir) (b : List DirEntry)
    → d.block 0 ≡ some b
    → Found len name d 0 (d.i_size / 16) (search len name d)
unfolding search Loaded
search-Found len name d b first =
    rw (first, search)
      (find_loop-Found (d.i_size / 16) len name (d.i_size / 16) 0 d (inl refl) (omega arith))
