-- ===== src/Mm/Fault/Put.antt =====
-- put_page: the page is found again by the walk that the processor makes.
use linux.Common.{
  ℕ, ◌+◌, ◌%◌, ◌≤◌, ◌<◌, ◌≡◌, refl, ◌≢◌, ◌⊎◌, inl, inr, true, false, Option, none, some, arith,
  ◌==◌, if◌then◌else◌, Bool-cases, get_or,
}
use linux.Mm.{Mm, paging_pages, page_of, present, or7, dir_offset, table_offset, store}
use linux.Mm.Frame.{get_free_page}
use linux.Mm.Frame.Alloc.{get_free_page_lem}
use linux.Mm.Fault.{put_page, table_entry}

-- The physical address of a linear address: directory entry, table entry, offset in the page.
pub walk : Mm → ℕ → Option ℕ
walk mm address =
    let entry = mm.mem (table_entry mm address) in
    if present (mm.mem (dir_offset address))
    then if present entry then some (page_of entry + address % 4096) else none
    else none

-- Mapping a page in a table that stands outside the page directory.
walk-store :
    (mm : Mm) (page address table : ℕ)
    → mm.mem (dir_offset address) ≡ or7 table
    → table % 4096 ≡ 0
    → 4096 ≤ table
    → page % 4096 ≡ 0
    → walk (store (table + table_offset address) (or7 page) mm) address
      ≡ some (page + address % 4096)
unfolding walk store
walk-store mm page address table e t far p =
    let apart : (dir_offset address == table + table_offset address) ≡ false = ground arith in
    let here : page_of (or7 table) ≡ table = omega arith in
    let on : present (or7 table) ≡ true = ground arith in
    let self : (table + table_offset address == table + table_offset address) ≡ true =
      ground arith in
    let frame : page_of (or7 page) ≡ page = omega arith in
    let there : present (or7 page) ≡ true = ground arith in
    rw (apart, e, on, here, self, there, frame)

-- An entry of the directory that is present has the form in which the code writes it and names a table
-- outside the first page.
pub record IsTable (mm : Mm) (address : ℕ) : Type 0 where
  pub outside : 4096 ≤ page_of (mm.mem (dir_offset address))

walk-store_old :
    (mm : Mm) (page address : ℕ)
    → present (mm.mem (dir_offset address)) ≡ true
    → IsTable mm address
    → page % 4096 ≡ 0
    → walk
        (store (page_of (mm.mem (dir_offset address)) + table_offset address) (or7 page) mm)
        address
      ≡ some (page + address % 4096)
unfolding walk store
walk-store_old mm page address here is p =
    let table = page_of (mm.mem (dir_offset address)) in
    let apart : (dir_offset address == table + table_offset address) ≡ false = ground (arith, is) in
    let self : (table + table_offset address == table + table_offset address) ≡ true =
      ground arith in
    let frame : page_of (or7 page) ≡ page = omega arith in
    let there : present (or7 page) ≡ true = ground arith in rw (apart, here, self, there, frame)

-- put_page either returns 0, and then there is no page for a table that it needs, or returns the page,
-- and then the linear address walks to the same offset in that page.
pub put_page-walk :
    (mm : Mm) (page address : ℕ)
    → page % 4096 ≡ 0
    → (present (mm.mem (dir_offset address)) ≡ true → IsTable mm address)
    → (((put_page page address mm).0 ≡ page)
        × (walk (put_page page address mm).1 address ≡ some (page + address % 4096)))
      ⊎ (((put_page page address mm).0 ≡ 0)
          × (present (mm.mem (dir_offset address)) ≡ false)
          × ((j : ℕ) → j < paging_pages → get_or mm.mem_map j 1 ≢ 0))
unfolding put_page
put_page-walk mm page address p is = elim (Bool-cases (present (mm.mem (dir_offset address)))) [
  | inl here ↦ inl (
    rw (put_page, here) refl,
    rw (put_page, here) (walk-store_old mm page address here (is here) p),
  )
  | inr absent ↦ elim (get_free_page_lem mm) [
    | inl t ↦
        let (tmp, mm₁) = get_free_page mm in
        let found : ((get_free_page mm).0 == 0) ≡ false = ground (arith, t.address) in
        let mm₂ = store (dir_offset address) (or7 (get_free_page mm).0) (get_free_page mm).1 in
        inl (
          rw (put_page, absent, found) refl,
          rw (put_page, absent, found)
              (walk-store mm₂ page address (get_free_page mm).0 (entry mm₂ refl)
                (omega (arith, t.address)) (omega (arith, t.address)) p),
        )
    | inr (none_left, full) ↦ inr (rw (put_page, absent, none_left) refl, absent, full)
  ]
]
  where
    entry :
        (mm₂ : Mm)
        → mm₂ ≡ store (dir_offset address) (or7 (get_free_page mm).0) (get_free_page mm).1
        → mm₂.mem (dir_offset address) ≡ or7 (get_free_page mm).0
    entry mm₂ e =
        let self : (dir_offset address == dir_offset address) ≡ true = ground arith in
        rw e (rw self)
