-- ===== src/Fs/Dirs/Tests.antt =====
-- Tests of the directory searches: a directory of three entries in one block.
use linux.Common.{
  ℕ, ◌≡◌, ◌≢◌, leb, ◌↔◌, refl, true, none, some, List, [], ◌∷◌, ◌==◌, if◌then◌else◌, arith,
  replicate,
}
use linux.Fs.Dirs.{DirEntry, Dir, Creator, name_len, no_entry, matches, search}
use linux.Fs.Dirs.Match.{IsName, stored, matches_iff}
use linux.Fs.Dirs.Find.{Found, search-Found}

abbrev etc : DirEntry
etc = record { inode = 7; name = 101 ∷ 116 ∷ 99 ∷ replicate 11 0 }

abbrev block : List DirEntry
block =
    record { inode = 1; name = 46 ∷ replicate 13 0 }
    ∷ record { inode = 0; name = 101 ∷ 116 ∷ 99 ∷ replicate 11 0 }
    ∷ etc
    ∷ replicate 61 no_entry

abbrev dir : Dir
dir = record { i_size = 48; block = λ k. if k == 0 then some block else none }

etc_found : search 3 (101 ∷ 116 ∷ 99 ∷ []) dir ≡ some 2
unfolding search
etc_found = refl

matches_iff_example :
    (matches 3 (101 ∷ 116 ∷ 99 ∷ []) etc ≡ true)
    ↔ ((etc.inode ≢ 0) × (stored 14 etc.name ≡ 101 ∷ 116 ∷ 99 ∷ []))
unfolding linux.Fs.Dirs.Match.IsName
matches_iff_example =
    matches_iff (101 ∷ 116 ∷ 99 ∷ []) etc (omega arith, (omega arith, (omega arith, tt)))
      (omega arith) (omega arith)

search-Found_example : Found 3 (101 ∷ 116 ∷ 99 ∷ []) dir 0 3 (search 3 (101 ∷ 116 ∷ 99 ∷ []) dir)
search-Found_example = search-Found 3 (101 ∷ 116 ∷ 99 ∷ []) dir block refl

-- A device with room for four blocks, which gives an empty block where there is none.
abbrev made : ℕ → Dir → List DirEntry
made k d = elim (d.block k) [ none ↦ replicate 64 no_entry | some b ↦ b ]

abbrev with_block : ℕ → Dir → Dir
with_block k d = record d { block = λ j. if j == k then some (made k d) else d.block j }

abbrev creator : Creator
creator n k d = if leb 4 k then none else some (with_block k d)

-- "rc"
abbrev rc : List ℕ
rc = 114 ∷ 99 ∷ []
