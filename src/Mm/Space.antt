-- ===== src/Mm/Space.antt =====
-- copy_page_tables and free_page_tables of mm/memory.c: the page tables of a whole address space,
-- one directory entry (4 MB) at a time.
pub mod Copy
pub mod Free
pub mod Undo
use linux.Common.{
  ℕ, zero, suc, ◌+◌, ◌-◌, ◌/◌, ◌%◌, ◌^◌, Bool, not, ◌&&◌, ◌||◌, ltb, ◌==◌, if◌then◌else◌, get_or,
}
use linux.Mm.{
  Mm, low_mem, page_of, present, or7, clear2, dir_offset, store, set_count, Outcome, ok, panic,
  ◌>>=◌, ◌>>◌,
}
use linux.Mm.Frame.{get_free_page, free_page}

-- One round of the inner loop: the entry loses its write bit in both tables, and the page in main
-- memory gains a user in its unsigned char.
pub copy_entry : ℕ → ℕ → Mm → Mm
unfolding store set_count
copy_entry from to mm =
    let this_page = clear2 (mm.mem from) in
    let mm₁ = store to this_page mm in
    let i = (this_page - low_mem) / 4096 in
    let mm₂ = store from this_page mm₁ in
    if not (present (mm.mem from))
    then mm
    else if ltb low_mem this_page
    then set_count i ((get_or mm₂.mem_map i 0 + 1) % 256) mm₂
    else mm₁

pub copy_entries : ℕ → ℕ → ℕ → Mm → Mm
unfolding copy_entry
copy_entries zero from to mm = mm
copy_entries (suc nr) from to mm = copy_entries nr (from + 4) (to + 4) (copy_entry from to mm)

-- One round of the outer loop; `false` is the return of -1 when there is no page for a table.
pub copy_dir : Bool → ℕ → ℕ → Mm → Outcome Bool
unfolding store copy_entries
copy_dir first from_dir to_dir mm =
    let (table, mm₁) = get_free_page mm in
    let nr : ℕ = if first then 0xA0 else 1024 in
    if present (mm.mem to_dir)
    then panic
    else if not (present (mm.mem from_dir))
    then ok Bool.true mm
    else if table == 0
    then ok Bool.false mm₁
    else ok Bool.true
        (copy_entries nr (page_of (mm.mem from_dir)) table (store to_dir (or7 table) mm₁))

pub copy_dirs : ℕ → Bool → ℕ → ℕ → Mm → Outcome Bool
unfolding copy_dir
copy_dirs zero first from_dir to_dir mm = ok Bool.true mm
copy_dirs (suc size) first from_dir to_dir mm = copy_dir first from_dir to_dir mm >>= λ more mm'.
    let rest = copy_dirs size first (from_dir + 4) (to_dir + 4) mm' in
    if more then rest else ok Bool.false mm'

-- `(size + 0x3fffff) >> 22` on 32 bits.
abbrev pub dir_count : ℕ → ℕ
dir_count size = (size + 0x3fffff) % 2 ^ 32 / 2 ^ 22

pub copy_page_tables : ℕ → ℕ → ℕ → Mm → Outcome Bool
unfolding copy_dirs
copy_page_tables from to size mm =
    let copied = copy_dirs (dir_count size) (from == 0) (dir_offset from) (dir_offset to) mm in
    if not (from % 2 ^ 22 == 0) || not (to % 2 ^ 22 == 0) then panic else copied

pub free_entry : ℕ → Mm → Outcome (Unit {0})
unfolding store
free_entry entry mm =
    (if present (mm.mem entry) then free_page (page_of (mm.mem entry)) mm else ok tt mm)
    >>= λ _ mm'. ok tt (store entry 0 mm')

pub free_entries : ℕ → ℕ → Mm → Outcome (Unit {0})
unfolding free_entry
free_entries zero entry mm = ok tt mm
free_entries (suc nr) entry mm = free_entry entry mm >>= λ _ mm'. free_entries nr (entry + 4) mm'

pub free_dir : ℕ → Mm → Outcome (Unit {0})
unfolding store free_entries
free_dir dir mm =
    let freed = free_entries 1024 (page_of (mm.mem dir)) mm >>= λ _ mm₁.
    free_page (page_of (mm₁.mem dir)) mm₁ >>= λ _ mm₂. ok tt (store dir 0 mm₂) in
    if not (present (mm.mem dir)) then ok tt mm else freed

unfoldable pub free_dirs : ℕ → ℕ → Mm → Outcome (Unit {0})
unfolding free_dir
free_dirs zero dir mm = ok tt mm
free_dirs (suc size) dir mm = free_dir dir mm >>= λ _ mm'. free_dirs size (dir + 4) mm'

unfoldable pub free_page_tables : ℕ → ℕ → Mm → Outcome (Unit {0})
unfolding free_dirs
free_page_tables from size mm =
    let freed = free_dirs (dir_count size) (dir_offset from) mm in
    if not (from % 2 ^ 22 == 0) then panic else if from == 0 then panic else freed
