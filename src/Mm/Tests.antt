-- ===== src/Mm/Tests.antt =====
-- Tests of mm/memory.c: two free tables, and an entry that shares the first page with another one.
use linux.Common.{
  ℕ, zero, suc, ◌+◌, ◌*◌, ◌≤◌, ◌<◌, ◌≡◌, refl, ◌≢◌, ◌⊎◌, inl, inr, true, false, arith, ◌==◌,
  if◌then◌else◌, ◌∙◌, length, get_or, set, length-set, replicate, length-replicate,
  get_or-replicate,
}
use linux.Mm.{Mm, low_mem, paging_pages, page_of, present, in_page, IsValid, ok, exits, panic}
use linux.Mm.Frame.{find_free, get_free_page, free_page}
use linux.Mm.Frame.Alloc.{Taken, get_free_page_lem}
use linux.Mm.Frame.Release.{free-get_free_page}
use linux.Mm.Fault.{un_wp_page}
use linux.Mm.Fault.Private.{IsMapped, Private, un_wp_page-Private}
use linux.Mm.Space.{copy_entries, free_entries}
use linux.Mm.Space.Copy.{uses, refs, Copied, copy_entries-Copied}
use linux.Mm.Space.Undo.{free-copy_entries}
use linux.Mm.Space.Free.{CanFree, Freed, free_entries-Freed}

-- The word at 8192 maps the first page of main memory, read-only and with two users.
abbrev shared : Mm
shared = record {
  mem_map = set (replicate paging_pages 0) 0 2;
  mem = λ a. if a == 8192 then low_mem + 5 else 0;
  high_memory = 0x1000000;
}

shared-IsValid : IsValid shared
shared-IsValid = record {
  pages =
      length-set {A = ℕ} (replicate paging_pages 0) 0 2 ∙ length-replicate {A = ℕ} paging_pages 0;
  high = omega arith;
}

shared-IsMapped : IsMapped shared 8192
shared-IsMapped = record {
  here = refl;
  word = omega arith;
  page = inr (record {
    main = omega arith;
    inside = omega arith;
    counted = omega arith;
    byte = omega arith;
  });
  apart = refl;
  in_use = inl (omega arith);
}

un_wp_page-Private_example :
    ((mm' : Mm) × (un_wp_page 8192 shared ≡ ok tt mm') × Private shared 8192 mm')
    ⊎ ((un_wp_page 8192 shared ≡ exits 11)
        × ((j : ℕ) → j < paging_pages → get_or shared.mem_map j 1 ≢ 0))
un_wp_page-Private_example = un_wp_page-Private shared-IsValid shared-IsMapped

copy_entries-Copied_example : Copied 1 8192 12288 shared (copy_entries 1 8192 12288 shared)
copy_entries-Copied_example = copy_entries-Copied 1 8192 12288 shared (inl (omega arith))

get_free_page_lem_example :
    (let (page, mm') = get_free_page shared in Taken shared page mm')
    ⊎ ((get_free_page shared ≡ (0, shared))
        × ((j : ℕ) → j < paging_pages → get_or shared.mem_map j 1 ≢ 0))
get_free_page_lem_example = get_free_page_lem shared

-- All of main memory free, and the same with the last page taken.
abbrev fresh : Mm
fresh = record { mem_map = replicate paging_pages 0; mem = λ a. 7; high_memory = 0x1000000 }

abbrev last_page : ℕ
last_page = low_mem + 3839 * 4096

abbrev one_taken : Mm
one_taken = record {
  mem_map = set (replicate paging_pages 0) 3839 1;
  mem = λ a. if in_page last_page a then 0 else 7;
  high_memory = 0x1000000;
}

fresh-IsValid : IsValid fresh
fresh-IsValid = record { pages = length-replicate {A = ℕ} paging_pages 0; high = omega arith }

last_page_taken : get_free_page fresh ≡ (last_page, one_taken)
unfolding get_free_page find_free
last_page_taken = refl

free-get_free_page_example :
    (mm'' : Mm) × (free_page last_page one_taken ≡ ok tt mm'')
    × (mm''.mem_map ≡ fresh.mem_map)
    × (free_page last_page mm'' ≡ panic)
free-get_free_page_example =
    free-get_free_page fresh-IsValid last_page_taken (omega arith) (omega arith)

other_page : (i : ℕ) → uses (low_mem + 5) (suc i) ≡ false
other_page i = ground arith

shared-users : (i : ℕ) → refs shared.mem 1 8192 i ≤ get_or shared.mem_map i 0
unfolding refs
shared-users zero = omega arith
shared-users (suc i) = rw (other_page i) (omega arith)

shared-below :
    (k : ℕ)
    → k < 1
    → present (shared.mem (8192 + 4 * k)) ≡ true
    → page_of (shared.mem (8192 + 4 * k)) < shared.high_memory
shared-below zero h here = omega arith
shared-below (suc k) h here = absurd (omega arith)

shared-CanFree : CanFree 1 8192 shared
shared-CanFree = record { below = shared-below; enough = λ i h. shared-users i }

free_entries-Freed_example :
    (mm' : Mm) × (free_entries 1 8192 shared ≡ ok tt mm') × Freed 1 8192 shared mm'
free_entries-Freed_example = free_entries-Freed 1 8192 shared shared-IsValid shared-CanFree

shared-empty : (k : ℕ) → k < 1 → present (shared.mem (12288 + 4 * k)) ≡ false
shared-empty zero h = refl
shared-empty (suc k) h = absurd (omega arith)

shared-room :
    (i : ℕ) → i < length shared.mem_map → get_or shared.mem_map i 0 + refs shared.mem 1 8192 i < 256
unfolding refs
shared-room zero h = omega arith
shared-room (suc i) h =
    let inside : suc i < paging_pages = rw shared-IsValid.pages at h in
    let none_here = get_or-replicate {A = ℕ} 3839 0 i 0 (omega (arith, inside)) in
    rw (none_here, other_page i) (omega arith)

free-copy_entries_example :
    (mm' : Mm) × (free_entries 1 12288 (copy_entries 1 8192 12288 shared) ≡ ok tt mm')
    × ((i : ℕ) → i < length shared.mem_map → get_or mm'.mem_map i 0 ≡ get_or shared.mem_map i 0)
    × ((k : ℕ) → k < 1 → mm'.mem (12288 + 4 * k) ≡ 0)
free-copy_entries_example =
    free-copy_entries 1 8192 12288 shared shared-IsValid (inl (omega arith)) shared-empty
      shared-below shared-room
