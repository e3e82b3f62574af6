-- ===== src/Fs/Dirs.antt =====
-- Directories of fs/namei.c: match and the searches of find_entry and add_entry. A directory is its size
-- and its blocks of 64 entries; a block that has no zone, or that bread fails on, is `none`.
pub mod Match
pub mod Find
pub mod Add
pub mod Place
pub mod RoundTrip
mod Tests
use linux.Common.{
  ℕ, zero, suc, ◌+◌, ◌-◌, ◌*◌, ◌/◌, ◌%◌, min, Bool, true, false, Option, none, some, List, [], ◌∷◌,
  ◌++◌, not, ◌&&◌, ◌||◌, ltb, leb, ◌==◌, if◌then◌else◌, length, get_or, set, take, replicate,
}

-- `struct dir_entry`; the name has 14 characters.
pub record DirEntry : Type 0 where
  pub inode : ℕ
  pub name : List ℕ

abbrev pub name_len : ℕ
name_len = 14

-- BLOCK_SIZE/sizeof(struct dir_entry)
abbrev pub dir_entries_per_block : ℕ
dir_entries_per_block = 64

abbrev pub no_entry : DirEntry
no_entry = record { inode = 0; name = [] }

-- The bytes that `repe cmpsb` compares, all `len` of them.
pub same_bytes : ℕ → List ℕ → List ℕ → Bool
same_bytes zero name other = true
same_bytes (suc len) name other =
    get_or name 0 0 == get_or other 0 0
    && same_bytes len (linux.Common.drop 1 name) (linux.Common.drop 1 other)

-- match, for a length that is not 0: with 0 the instructions compare nothing and leave the flags.
pub matches : ℕ → List ℕ → DirEntry → Bool
unfolding same_bytes
matches len name de =
    not (de.inode == 0)
    && leb len name_len
    && (leb name_len len || get_or de.name len 0 == 0)
    && same_bytes len name de.name

pub record Dir : Type 0 where
  pub i_size : ℕ
  pub block : ℕ → Option (List DirEntry)

-- Entry `i`, if its block can be read.
unfoldable pub entry_at : Dir → ℕ → Option DirEntry
entry_at d i = elim (d.block (i / dir_entries_per_block)) [
  | none ↦ none
  | some b ↦ some (get_or b (i % dir_entries_per_block) no_entry)
]

-- The loop of find_entry from entry `i` on, with `entries` rounds of fuel. Where a block cannot be read, `i`
-- stands at its first entry and goes on to the next block: the source compares `de` there with an
-- address that it reads through the null pointer `bh`, and that address is below every buffer.
pub find_loop : ℕ → ℕ → List ℕ → ℕ → ℕ → Dir → Option ℕ
unfolding matches entry_at
find_loop zero len name entries i d = none
find_loop (suc n) len name entries i d = elim (ltb i entries) [
  | false ↦ none
  | true ↦ elim (entry_at d i) [
    | none ↦ find_loop n len name entries (i + dir_entries_per_block) d
    | some de ↦ elim (matches len name de) [
      | true ↦ some i
      | false ↦ find_loop n len name entries (i + 1) d
    ]
  ]
]

-- The search of find_entry for the first `len` characters of `name`: the index of the entry.
unfoldable pub search : ℕ → List ℕ → Dir → Option ℕ
unfolding find_loop
search len name d = elim (d.block 0) [
  | none ↦ none
  | some _ ↦ find_loop (d.i_size / 16) len name (d.i_size / 16) 0 d
]

-- The loop `de->name[i]=(i<namelen)?get_fs_byte(name+i):0`.
pub padded : ℕ → ℕ → List ℕ → List ℕ
padded zero namelen name = []
padded (suc n) zero name = 0 ∷ padded n zero name
padded (suc n) (suc namelen) name = get_or name 0 0 ∷ padded n namelen (linux.Common.drop 1 name)

-- Entry `i` is written.
unfoldable pub put_entry : ℕ → DirEntry → Dir → Dir
put_entry i de d = record d {
  block = λ k.
      if k == i / dir_entries_per_block
      then elim (d.block k) [ none ↦ none | some b ↦ some (set b (i % dir_entries_per_block) de) ]
      else d.block k;
}

-- What add_entry takes from create_block and bread: the directory with block `k`, as far as it can be read,
-- or none where create_block returns 0. The first argument tells the calls apart: it is the number of
-- rounds that the loop has left, so that the answer can depend on the state of the device at the call.
abbrev pub Creator : Type 0
Creator = ℕ → ℕ → Dir → Option Dir

-- The lines from the test for a new entry on: the entry `i`, if it is unused or past the size.
pub take_entry : ℕ → List ℕ → ℕ → Dir → DirEntry → Option (ℕ × Dir)
unfolding padded put_entry
take_entry namelen name i d de =
    let past = leb d.i_size (i * 16) in
    let d' : Dir = if past then record d { i_size = (i + 1) * 16 } else d in
    let unused : DirEntry = record { inode = 0; name = padded name_len namelen name } in
    if past || de.inode == 0 then some (i, put_entry i unused d') else none

-- The loop of add_entry, on fuel; a block is created at each of its first entries but that of block 0.
pub add_loop : ℕ → Creator → ℕ → List ℕ → ℕ → Dir → Option (ℕ × Dir)
unfolding take_entry entry_at
add_loop zero create namelen name i d = none
add_loop (suc n) create namelen name i d =
    elim (if i % dir_entries_per_block == 0 && not (i == 0)
      then create n (i / dir_entries_per_block) d
      else some d) [
        | none ↦ none
        | some d' ↦ elim (entry_at d' i) [
          | none ↦ add_loop n create namelen name (i + dir_entries_per_block) d'
          | some de ↦ elim (take_entry namelen name i d' de) [
            | some added ↦ some added
            | none ↦ add_loop n create namelen name (i + 1) d'
          ]
        ]
      ]

-- The entry that is found or made, unused and with the name, or none.
pub add_entry : Creator → List ℕ → Dir → Option (ℕ × Dir)
unfolding add_loop
add_entry create name d =
    let namelen = min (length name) name_len in
    if namelen == 0 then none else elim (d.block 0) [
      | none ↦ none
      | some b ↦ add_loop (d.i_size / 16 + 2) create namelen name 0 d
    ]
