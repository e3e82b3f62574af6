-- ===== src/Fs/Dirs/Add.antt =====
-- add_entry finds a place for a name, and leaves the entries that are in use.
use linux.Common.{
  ℕ, ◌+◌, ◌*◌, ◌/◌, ◌%◌, ◌≤◌, ◌<◌, ◌≡◌, ◌≢◌, refl, subst, sym, ap, ◌∙◌, ◌⊎◌, inl, inr, true, false,
  Option, none, some, List, ◌==◌, arith, Bool-cases, Option-cases, length, get_or, set, length-set,
  get_or-set_self, get_or-set_ne, if◌then◌else◌,
}
use linux.Fs.Dirs.{DirEntry, Dir, name_len, no_entry, entry_at, padded, put_entry, Creator}

pub none_ne_some : {A : Type 0} {a : A} → none ≡ some a → ⊥
none_ne_some q = cc

pub some_inj : {A : Type 0} {a b : A} → some a ≡ some b → a ≡ b
some_inj q = cc

-- Block `k` can be read, and is whole.
abbrev pub IsBlock : Dir → ℕ → Type 0
IsBlock d k = (b : List DirEntry) × (d.block k ≡ some b) × (length b ≡ 64)

-- The blocks that can be read have 64 entries.
abbrev pub WholeBlocks : Dir → Type 0
WholeBlocks d = (j : ℕ) (b : List DirEntry) → d.block j ≡ some b → length b ≡ 64

pub record Created (k : ℕ) (d : Dir) (o : Option Dir) : Type 0 where
  pub dir : Dir
  pub made : o ≡ some dir
  pub block : IsBlock dir k
  pub whole : WholeBlocks dir
  pub same_size : dir.i_size ≡ d.i_size
  pub same_block : (b : List DirEntry) → d.block k ≡ some b → dir.block k ≡ some b
  pub others : (j : ℕ) → j ≢ k → dir.block j ≡ d.block j

-- The blocks that a file can have: 7, 512 and 512 * 512. Past them create_block panics.
abbrev pub max_blocks : ℕ
max_blocks = 262663

-- A call of create_block for a block that a file can have either finds no room, or, with bread, gives the
-- block, an old one as it is, and leaves the others.
abbrev pub Creates : Creator → Type 0
Creates create =
    (n k : ℕ) (d : Dir)
    → WholeBlocks d
    → k < max_blocks
    → (create n k d ≡ none) ⊎ Created k d (create n k d)

-- A call of create_block finds no room.
abbrev pub NoRoom : Creator → Type 0
NoRoom create = (n : ℕ) × (k : ℕ) × (d : Dir) × (create n k d ≡ none)

-- A readable entry of `d` other than `i` is the same in `d'`.
abbrev pub Kept : ℕ → Dir → Dir → Type 0
Kept i d d' = (j : ℕ) (de : DirEntry) → j ≢ i → entry_at d j ≡ some de → entry_at d' j ≡ some de

pub record Placed (namelen : ℕ) (name : List ℕ) (d : Dir) (o : Option (ℕ × Dir)) : Type 0 where
  pub index : ℕ
  pub dir : Dir
  pub added : o ≡ some (index, dir)
  pub entry : entry_at dir index ≡ some (record { inode = 0; name = padded name_len namelen name })
  pub inside : index * 16 < dir.i_size
  pub grown :
      (dir.i_size ≡ d.i_size)
      ⊎ ((dir.i_size ≡ (index + 1) * 16) × (d.i_size ≤ index * 16) × (index * 16 < d.i_size + 16))
  pub was_unused :
      (de : DirEntry) → entry_at d index ≡ some de → (de.inode ≡ 0) ⊎ (d.i_size ≤ index * 16)
  pub kept : Kept index d dir
  pub block : IsBlock dir (index / 64)

pub entry_in :
    (d : Dir) (i : ℕ) (b : List DirEntry)
    → d.block (i / 64) ≡ some b
    → entry_at d i ≡ some (get_or b (i % 64) no_entry)
unfolding entry_at
entry_in d i b h = rw (h, entry_at) refl

pub block_of :
    (d : Dir) (i : ℕ) (de : DirEntry)
    → entry_at d i ≡ some de
    → (b : List DirEntry) × (d.block (i / 64) ≡ some b) × (get_or b (i % 64) no_entry ≡ de)
unfolding entry_at
block_of d i de h = elim (Option-cases (d.block (i / 64))) [
  | inl gone ↦ absurd (none_ne_some (rw (gone, entry_at) at h))
  | inr (b, here) ↦ (b, here, some_inj (rw (here, entry_at) at h))
]

put-block :
    (d : Dir) (i : ℕ) (de : DirEntry) (b : List DirEntry)
    → d.block (i / 64) ≡ some b
    → (put_entry i de d).block (i / 64) ≡ some (set b (i % 64) de)
unfolding put_entry
put-block d i de b h = rw (same (i / 64), h, if◌then◌else◌) refl
  where
    same : (n : ℕ) → (n == n) ≡ true
    same n = ground arith

put-other :
    (d : Dir) (i k : ℕ) (de : DirEntry) → k ≢ i / 64 → (put_entry i de d).block k ≡ d.block k
unfolding put_entry
put-other d i k de h = rw (apart k (i / 64) h, if◌then◌else◌) refl
  where
    apart : (a b : ℕ) → a ≢ b → (a == b) ≡ false
    apart a b n = ground arith

pub put-IsBlock :
    (d : Dir) (i : ℕ) (de : DirEntry) → IsBlock d (i / 64) → IsBlock (put_entry i de d) (i / 64)
put-IsBlock d i de (b, h, l) =
    (set b (i % 64) de, put-block d i de b h, length-set b (i % 64) de ∙ l)

-- The entry that is written is read back.
pub put_entry_self :
    (d : Dir) (i : ℕ) (de : DirEntry) → IsBlock d (i / 64) → entry_at (put_entry i de d) i ≡ some de
put_entry_self d i de (b, h, l) =
    entry_in (put_entry i de d) i (set b (i % 64) de) (put-block d i de b h)
    ∙ ap some (get_or-set_self b (i % 64) de no_entry (omega (arith, l)))

pub put_entry-Kept : (d : Dir) (i : ℕ) (de : DirEntry) → Kept i d (put_entry i de d)
put_entry-Kept d i de j e ne h = elim (Bool-cases (j / 64 == i / 64)) [
  | inl same ↦
      let at_i : j / 64 ≡ i / 64 = ground (arith, same) in
      let (b, here, value) = block_of d j e h in
      entry_in (put_entry i de d) j (set b (i % 64) de) (
        subst (λ k. (put_entry i de d).block k ≡ some (set b (i % 64) de)) (sym at_i)
          (put-block d i de b (subst (λ k. d.block k ≡ some b) at_i here)))
      ∙ ap some (
          get_or-set_ne b {i = i % 64} {j = j % 64} de no_entry (λ q. ne (omega (arith, q, at_i)))
          ∙ value)
  | inr apart ↦
      let (b, here, value) = block_of d j e h in
      entry_in (put_entry i de d) j b (put-other d i (j / 64) de (ground (arith, apart)) ∙ here)
      ∙ ap some value
]
