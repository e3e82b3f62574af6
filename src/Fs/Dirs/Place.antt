-- ===== src/Fs/Dirs/Place.antt =====
-- The loop of add_entry ends with a place for the name.
use linux.Common.{
  ℕ, zero, suc, ◌+◌, ◌*◌, ◌/◌, ◌%◌, ◌≤◌, ◌<◌, ◌≡◌, refl, subst, sym, ap, ◌∙◌, ◌⊎◌, inl, inr, Bool,
  true, Option, none, some, List, not, ◌&&◌, ◌==◌, leb, arith, Bool-cases, Option-cases, get_or,
  if◌then◌else◌,
}
use linux.Fs.Dirs.{
  DirEntry, Dir, name_len, no_entry, entry_at, padded, put_entry, take_entry, Creator, add_loop,
}
use linux.Fs.Dirs.Add.{
  IsBlock, WholeBlocks, Created, Creates, NoRoom, max_blocks, Placed, put-IsBlock, put_entry_self,
  put_entry-Kept, entry_in, none_ne_some,
}

abbrev AllKept : Dir → Dir → Type 0
AllKept d d' = (j : ℕ) (de : DirEntry) → entry_at d j ≡ some de → entry_at d' j ≡ some de

abbrev pub at_new_block : ℕ → Bool
at_new_block i = i % 64 == 0 && not (i == 0)

abbrev pub Loaded : Dir → ℕ → Type 0
Loaded d i = (at_new_block i ≡ true) ⊎ IsBlock d (i / 64)

record Ready (d : Dir) (i : ℕ) (o : Option Dir) : Type 0 where
  dir : Dir
  ready : o ≡ some dir
  block : IsBlock dir (i / 64)
  whole : WholeBlocks dir
  same_size : dir.i_size ≡ d.i_size
  kept : AllKept d dir

entry_at-cong :
    (d d' : Dir) (j : ℕ) → d'.block (j / 64) ≡ d.block (j / 64) → entry_at d' j ≡ entry_at d j
unfolding entry_at
entry_at-cong d d' j h = rw (h, entry_at) refl

entry_at-none : (d : Dir) (j : ℕ) → d.block (j / 64) ≡ none → entry_at d j ≡ none
unfolding entry_at
entry_at-none d j h = rw (h, entry_at) refl

Created-AllKept : (k : ℕ) (d : Dir) (o : Option Dir) (c : Created k d o) → AllKept d c.dir
Created-AllKept k d o c j de h = elim (Bool-cases (j / 64 == k)) [
  | inr apart ↦ entry_at-cong d c.dir j (c.others (j / 64) (ground (arith, apart))) ∙ h
  | inl here ↦ elim (Option-cases (d.block (j / 64))) [
    | inl gone ↦ absurd (none_ne_some (sym (entry_at-none d j gone) ∙ h))
    | inr (b, there) ↦
        let at_k : j / 64 ≡ k = ground (arith, here) in
        let same : c.dir.block (j / 64) ≡ some b =
          subst (λ n. c.dir.block n ≡ some b) (sym at_k)
            (c.same_block b (subst (λ n. d.block n ≡ some b) at_k there)) in
        entry_at-cong d c.dir j (same ∙ sym there) ∙ h
  ]
]

abbrev next_dir : Creator → ℕ → Dir → ℕ → Option Dir
next_dir create n d i = if at_new_block i then create n (i / 64) d else some d

-- The round of the loop has its block, or the call of create_block found no room.
abbrev HasBlock : Creator → ℕ → Dir → ℕ → Type 0
HasBlock create n d i =
    ((next_dir create n d i ≡ none) × NoRoom create) ⊎ Ready d i (next_dir create n d i)

ready-new :
    (create : Creator) (n : ℕ) (d : Dir) (i : ℕ)
    → Creates create
    → WholeBlocks d
    → i / 64 < max_blocks
    → at_new_block i ≡ true
    → HasBlock create n d i
ready-new create n d i law ws h new = elim (law n (i / 64) d ws h) [
  | inl no_room ↦ rw (new, if◌then◌else◌) (inl (no_room, (n, i / 64, d, no_room)))
  | inr c ↦
      rw (new, if◌then◌else◌)
        (inr (record {
          dir = c.dir;
          ready = c.made;
          block = c.block;
          whole = c.whole;
          same_size = c.same_size;
          kept = Created-AllKept (i / 64) d (create n (i / 64) d) c;
        }))
]

ready :
    (create : Creator) (n : ℕ) (d : Dir) (i : ℕ)
    → Creates create
    → WholeBlocks d
    → i / 64 < max_blocks
    → Loaded d i
    → HasBlock create n d i
ready create n d i law ws h (inl new) = ready-new create n d i law ws h new
ready create n d i law ws h (inr b) = elim (Bool-cases (at_new_block i)) [
  | inl new ↦ ready-new create n d i law ws h new
  | inr old ↦
      rw (old, if◌then◌else◌)
        (inr (record {
          dir = d;
          ready = refl;
          block = b;
          whole = ws;
          same_size = refl;
          kept = λ j de h. h;
        }))
]

Placed-trans :
    (namelen : ℕ) (name : List ℕ) (d d1 : Dir) (o : Option (ℕ × Dir))
    → d1.i_size ≡ d.i_size
    → AllKept d d1
    → Placed namelen name d1 o
    → Placed namelen name d o
Placed-trans namelen name d d1 o s k a = record {
  index = a.index;
  dir = a.dir;
  added = a.added;
  entry = a.entry;
  inside = a.inside;
  grown = elim a.grown [
    | inl same ↦ inl (same ∙ s)
    | inr (size, past, near) ↦ inr (size, (omega (arith, past, s)), (omega (arith, near, s)))
  ];
  was_unused = λ de h. elim (a.was_unused de (k a.index de h)) [
    | inl free ↦ inl free
    | inr past ↦ inr (omega (arith, past, s))
  ];
  kept = λ j de ne h. a.kept j de ne (k j de h);
  block = a.block;
}

-- The entry that take_entry takes at `i`.
taken :
    (namelen : ℕ) (name : List ℕ) (i : ℕ) (d : Dir) (de : DirEntry)
    → IsBlock d (i / 64)
    → entry_at d i ≡ some de
    → i * 16 < d.i_size + 16
    → (Placed namelen name d (take_entry namelen name i d de))
      ⊎ ((take_entry namelen name i d de ≡ none) × (i * 16 < d.i_size))
unfolding take_entry entry_at
taken namelen name i d de b here near = elim (Bool-cases (leb d.i_size (i * 16))) [
  | inl past ↦
      let unused : DirEntry = record { inode = 0; name = padded name_len namelen name } in
      let d' : Dir = record d { i_size = (i + 1) * 16 } in
      rw (past, if◌then◌else◌)
        (inl (record {
          index = i;
          dir = put_entry i unused d';
          added = refl;
          entry = put_entry_self d' i unused b;
          inside = grown i;
          grown = inr (refl, ground (arith, past), near);
          was_unused = λ e h. inr (ground (arith, past));
          kept = λ j e ne h. put_entry-Kept d' i unused j e ne h;
          block = put-IsBlock d' i unused b;
        }))
  | inr before ↦ elim (Bool-cases (de.inode == 0)) [
    | inl free ↦
        let unused : DirEntry = record { inode = 0; name = padded name_len namelen name } in
        rw (before, free, if◌then◌else◌)
          (inl (record {
            index = i;
            dir = put_entry i unused d;
            added = refl;
            entry = put_entry_self d i unused b;
            inside = ground (arith, before);
            grown = inl refl;
            was_unused =
                λ e h. inl (ground (arith, ap (λ x. x.inode) (some_inj (sym here ∙ h)), free));
            kept = λ j e ne h. put_entry-Kept d i unused j e ne h;
            block = put-IsBlock d i unused b;
          }))
    | inr used ↦ rw (before, used, if◌then◌else◌) (inr (refl, ground (arith, before)))
  ]
]
  where
    some_inj : {a b : DirEntry} → some a ≡ some b → a ≡ b
    some_inj q = cc

    grown : (i : ℕ) → i * 16 < (i + 1) * 16
    grown i = omega arith

next_Loaded : (d : Dir) (i : ℕ) → IsBlock d (i / 64) → Loaded d (i + 1)
next_Loaded d i b = elim (Bool-cases (at_new_block (i + 1))) [
  | inl new ↦ inl new
  | inr old ↦
      let same : i / 64 ≡ (i + 1) / 64 = ground (arith, old) in inr (subst (IsBlock d) same b)
]

pub add_loop-Placed :
    (n : ℕ) (create : Creator) (namelen : ℕ) (name : List ℕ) (i : ℕ) (d : Dir)
    → Creates create
    → WholeBlocks d
    → d.i_size + 16 ≤ max_blocks * 1024
    → Loaded d i
    → i * 16 < d.i_size + 16
    → d.i_size + 16 ≤ (n + i) * 16
    → ((add_loop n create namelen name i d ≡ none) × NoRoom create)
      ⊎ Placed namelen name d (add_loop n create namelen name i d)
unfolding add_loop
add_loop-Placed zero create namelen name i d law ws m l b e = absurd (omega arith)
add_loop-Placed (suc n) create namelen name i d law ws m l b e =
    elim (ready create n d i law ws (omega (arith, m, b)) l) [
      | inl (none_there, no_room) ↦ rw (none_there, add_loop) (inl (refl, no_room))
      | inr r ↦
          let (block, there, whole) = r.block in
          let de = get_or block (i % 64) no_entry in
          let here = entry_in r.dir i block there in
          elim (taken namelen name i r.dir de r.block here (omega (arith, b, r.same_size))) [
            | inl a ↦
                rw (r.ready, here, a.added, add_loop)
                  (inr (
                    Placed-trans namelen name d r.dir _ r.same_size r.kept
                      (subst (Placed namelen name r.dir) a.added a)))
            | inr (used, before) ↦
                let rest =
                  add_loop-Placed n create namelen name (i + 1) r.dir law r.whole
                    (omega (arith, m, r.same_size)) (next_Loaded r.dir i r.block) (omega arith)
                    (omega (arith, e, r.same_size)) in
                rw (r.ready, here, used, add_loop)
                  (later (add_loop n create namelen name (i + 1) r.dir) r.dir r.same_size r.kept
                    rest)
          ]
    ]
  where
    later :
        (o : Option (ℕ × Dir)) (d1 : Dir)
        → d1.i_size ≡ d.i_size
        → AllKept d d1
        → ((o ≡ none) × NoRoom create) ⊎ Placed namelen name d1 o
        → ((o ≡ none) × NoRoom create) ⊎ Placed namelen name d o
    later o d1 s k (inl failed) = inl failed
    later o d1 s k (inr a) = inr (Placed-trans namelen name d d1 o s k a)
