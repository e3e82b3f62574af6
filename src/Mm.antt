-- ===== src/Mm.antt =====
-- mm/memory.c: the state of the memory manager and the masks that it applies to addresses and
-- page-table entries. A call that ends in `panic` or in `do_exit` does not return.
pub mod Frame
pub mod Fault
pub mod Space
mod Tests
use linux.Common.{
  ℕ, ◌+◌, ◌-◌, ◌*◌, ◌/◌, ◌%◌, ◌^◌, ◌≤◌, ◌<◌, ◌≡◌, Bool, true, false, List, ◌&&◌, ltb, leb, ◌==◌,
  if◌then◌else◌, length, get_or, set,
}

-- `mem` is physical memory by longwords: the word that stands at a byte address divisible by 4.
pub record Mm : Type 0 where
  pub mem_map : List ℕ
  pub mem : ℕ → ℕ
  pub high_memory : ℕ

abbrev pub low_mem : ℕ
low_mem = 0x100000

abbrev pub paging_pages : ℕ
paging_pages = 15 * 1024 * 1024 / 4096

-- `MAP_NR(addr)` on unsigned longs.
abbrev pub map_nr : ℕ → ℕ
map_nr addr = (addr + 2 ^ 32 - low_mem) % 2 ^ 32 / 4096

-- `0xfffff000 & x`
abbrev pub page_of : ℕ → ℕ
page_of x = x / 4096 * 4096

-- `1 & x`
abbrev pub present : ℕ → Bool
present x = x % 2 == 1

-- `x | 7`, `x | 2` and `x & ~2`
abbrev pub or7 : ℕ → ℕ
or7 x = x / 8 * 8 + 7

abbrev pub or2 : ℕ → ℕ
or2 x = if x / 2 % 2 == 1 then x else x + 2

abbrev pub clear2 : ℕ → ℕ
clear2 x = if x / 2 % 2 == 1 then x - 2 else x

-- `(address>>20) & 0xffc` and `(address>>10) & 0xffc`: offsets in the directory and in a table.
abbrev pub dir_offset : ℕ → ℕ
dir_offset address = address / 2 ^ 22 % 1024 * 4

abbrev pub table_offset : ℕ → ℕ
table_offset address = address / 2 ^ 12 % 1024 * 4

-- Whether a byte address lies in the page at `page`.
abbrev pub in_page : ℕ → ℕ → Bool
in_page page a = leb page a && ltb a (page + 4096)

unfoldable pub store : ℕ → ℕ → Mm → Mm
store p w mm = record mm { mem = λ a. if a == p then w else mm.mem a }

unfoldable pub set_count : ℕ → ℕ → Mm → Mm
set_count i c mm = record mm { mem_map = set mm.mem_map i c }

-- What a call that may not return ends in.
pub data Outcome (A : Type 0) : Type 0 where
  ok : A → Mm → Outcome A
  panic : Outcome A
  exits : ℕ → Outcome A

infixl 5 ◌>>=◌ ◌>>◌
abbrev pub ◌>>=◌ : {A B : Type 0} → Outcome A → (A → Mm → Outcome B) → Outcome B
ok a mm >>= k = k a mm
panic >>= k = panic
exits c >>= k = exits c

abbrev pub ◌>>◌ : {A B : Type 0} → Outcome A → (Mm → Outcome B) → Outcome B
m >> k = m >>= λ _ mm. k mm

-- The map has a byte for each page, and memory ends at most at 16 MB.
pub record IsValid (mm : Mm) : Type 0 where
  pub pages : length mm.mem_map ≡ paging_pages
  pub high : mm.high_memory ≤ 0x1000000
