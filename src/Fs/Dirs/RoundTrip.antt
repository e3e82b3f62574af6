-- ===== src/Fs/Dirs/RoundTrip.antt =====
-- What add_entry adds, find_entry finds.
use linux.Common.{ℕ, ◌+◌, ◌*◌, ◌/◌, ◌%◌, ◌≤◌, ◌<◌, ◌≡◌, Option, List}
use linux.Fs.Dirs.{DirEntry, Dir, name_len, padded, put_entry}
use linux.Fs.Dirs.Add.{IsBlock, WholeBlocks, max_blocks, Placed}

-- All the blocks of the directory can be read, its size is a number of entries, and another entry fits
-- below the largest size of a file.
pub record IsWhole (d : Dir) : Type 0 where
  pub first : IsBlock d 0
  pub blocks : (j : ℕ) → j * 16 < d.i_size → IsBlock d (j / 64)
  pub lengths : WholeBlocks d
  pub size : d.i_size % 16 ≡ 0
  pub room : d.i_size + 16 ≤ max_blocks * 1024

module _ (namelen : ℕ) (name : List ℕ) (d : Dir) (o : Option (ℕ × Dir))
    (a : Placed namelen name d o) (v : IsWhole d) where
  abbrev named : ℕ → DirEntry
  named ino = record { inode = ino; name = padded name_len namelen name }

  abbrev final : ℕ → Dir
  final ino = put_entry a.index (named ino) a.dir
