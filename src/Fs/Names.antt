-- ===== src/Fs/Names.antt =====
-- Path names: permission, find_entry, get_dir, dir_namei and namei of fs/namei.c, over an interface to the
-- table of inodes of fs/inode.c. A path is the list of its characters before the 0 that ends it.
pub mod Access
pub mod Path
pub mod Walk
mod Tests
use linux.Common.{
  ℕ, zero, suc, ◌+◌, ◌/◌, ◌%◌, bit_and, min, Bool, true, false, Option, none, some, List, [], ◌∷◌,
  not, ◌&&◌, ◌||◌, ltb, leb, ◌==◌, if◌then◌else◌, length, get_or,
}
use linux.Kernel.Task.{Task}
use linux.Kernel.Ids.{suser}
use linux.Fs.Zones.{s_isdir}
use linux.Fs.Dirs.{DirEntry, Dir, no_entry, name_len, entry_at, search}

-- What path names use of an inode in memory.
pub record InodeInfo : Type 0 where
  pub i_dev : ℕ
  pub i_num : ℕ
  pub i_mode : ℕ
  pub i_uid : ℕ
  pub i_gid : ℕ
  pub i_nlinks : ℕ
  pub i_count : ℕ
  pub dir : Dir

-- The table of inodes: an inode is named by a number, `iget` gives none where the inode cannot be read, and
-- `mounted_on` is `s_imount` of the superblock of a device. `hold` is `i_count++`, and `touch` sets the
-- time of access.
pub record InodeTable : Type 1 where
  pub State : Type 0
  pub inode : State → ℕ → InodeInfo
  pub iget : ℕ → ℕ → State → Option ℕ × State
  pub iput : ℕ → State → State
  pub hold : ℕ → State → State
  pub touch : ℕ → State → State
  pub mounted_on : State → ℕ → Option ℕ

abbrev pub may_exec : ℕ
may_exec = 1

abbrev pub may_write : ℕ
may_write = 2

abbrev pub may_read : ℕ
may_read = 4

abbrev pub root_ino : ℕ
root_ino = 1

-- The three bits of the mode that apply to the process.
pub mode_for : Task → InodeInfo → ℕ
mode_for current i =
    if current.euid == i.i_uid
    then i.i_mode / 64
    else if current.egid == i.i_gid
    then i.i_mode / 8
    else i.i_mode

pub permission : Task → InodeInfo → ℕ → Bool
unfolding mode_for
permission current i mask =
    if not (i.i_dev == 0) && i.i_nlinks == 0
    then false
    else bit_and (bit_and (mode_for current i) mask) 7 == mask || suser current

abbrev pub slash : ℕ
slash = 47

abbrev dot : ℕ
dot = 46

abbrev pub is_dotdot : List ℕ → Bool
is_dotdot name = length name == 2 && get_or name 0 0 == dot && get_or name 1 0 == dot

module _ (t : InodeTable) where
  open t use {State, inode, iget, iput, hold, touch, mounted_on}

  -- The process, with `current->root` and `current->pwd`.
  pub record Walker : Type 0 where
    pub current : Task
    pub root : Option ℕ
    pub pwd : Option ℕ

  -- What find_entry leaves: the directory, which `..` may exchange for the one that it is mounted on, and
  -- the entry, if there is one.
  pub find_in : List ℕ → ℕ → ℕ → State → ℕ × Option DirEntry × State
  find_in name namelen dir s = (
    dir,
    elim (search namelen name (inode s dir).dir) [
      | none ↦ none
      | some i ↦ entry_at (inode s dir).dir i
    ],
    s,
  )

  pub find_entry : Walker → ℕ → List ℕ → State → ℕ × Option DirEntry × State
  unfolding find_in
  find_entry w dir name s =
      let namelen = min (length name) name_len in
      if namelen == 0
      then (dir, none, s)
      else if is_dotdot name
      then if elim w.root [ none ↦ false | some r ↦ dir == r ]
        then find_in name 1 dir s
        else if (inode s dir).i_num == root_ino
        then elim (mounted_on s (inode s dir).i_dev) [
          | none ↦ find_in name namelen dir s
          | some up ↦ find_in name namelen up (hold up (iput dir s))
        ]
        else find_in name namelen dir s
      else find_in name namelen dir s

  -- A call gives an inode, or NULL, or panics.
  pub data Found : Type 0 where
    found : ℕ → State → Found
    missing : State → Found
    panic : Found

  -- `inr = de->inode` and the lines after it: the inode of an entry takes the place of its directory.
  pub enter : Walker → ℕ → List ℕ → State → Option ℕ × State
  unfolding find_entry
  enter w dir name s =
      let (dir', de, s') = find_entry w dir name s in
      elim de [
        | none ↦ (none, iput dir' s')
        | some e ↦ iget (inode s' dir').i_dev e.inode (iput dir' s')
      ]

  -- `S_ISDIR(inode->i_mode) && permission(inode,MAY_EXEC)`
  pub can_search : Walker → ℕ → State → Bool
  unfolding permission
  can_search w i s = s_isdir (inode s i).i_mode && permission w.current (inode s i) may_exec

  -- `!current->root || !current->root->i_count`
  pub not_held : Option ℕ → State → Bool
  not_held none s = true
  not_held (some i) s = (inode s i).i_count == 0

abbrev pub start_of : Option ℕ → ℕ
start_of none = 0
start_of (some i) = i

-- The inner loop of get_dir: the characters up to a slash, and what stands after it, if there is one.
pub scan : List ℕ → List ℕ × Option (List ℕ)
scan [] = ([], none)
scan (c ∷ path) =
    let (name, rest) = scan path in if c == slash then ([], some path) else (c ∷ name, rest)

-- `basename` of dir_namei: what stands after the last slash.
pub basename : List ℕ → List ℕ → List ℕ
basename base [] = base
basename base (c ∷ path) = basename (if c == slash then path else base) path

module _ {t : InodeTable} where
  open t use {State, inode, hold, iget, iput, touch}

  -- The outer loop of get_dir, on fuel.
  pub dir_loop : ℕ → Walker t → List ℕ → ℕ → State → Found t
  unfolding scan enter can_search
  dir_loop zero w path i s = panic
  dir_loop (suc n) w path i s = elim (can_search t w i s) [
    | false ↦ missing (iput i s)
    | true ↦
        let (name, rest) = scan path in
        elim rest [
          | none ↦ found i s
          | some path' ↦
              let (next, s') = enter t w i name s in
              elim next [ none ↦ missing s' | some i' ↦ dir_loop n w path' i' s' ]
        ]
  ]

  pub get_dir : Walker t → List ℕ → State → Found t
  unfolding dir_loop not_held
  get_dir w [] s = if not_held t w.root s || not_held t w.pwd s then panic else missing s
  get_dir w (c ∷ path) s =
      if not_held t w.root s || not_held t w.pwd s
      then panic
      else if c == slash
      then dir_loop (suc (length path)) w path (start_of w.root) (hold (start_of w.root) s)
      else dir_loop (suc (length (c ∷ path))) w (c ∷ path) (start_of w.pwd)
          (hold (start_of w.pwd) s)

  -- The directory of a path, and the last part of its name.
  pub dir_namei : Walker t → List ℕ → State → Found t × List ℕ
  unfolding get_dir basename
  dir_namei w path s = (get_dir w path s, basename path path)

  pub namei : Walker t → List ℕ → State → Found t
  unfolding dir_namei enter
  namei w path s =
      let (dir, name) = dir_namei w path s in
      elim dir [
        | panic ↦ panic
        | missing s' ↦ missing s'
        | found i s' ↦
            if length name == 0
            then found i s'
            else let (next, s'') = enter t w i name s' in
              elim next [ none ↦ missing s'' | some i' ↦ found i' (touch i' s'') ]
      ]
