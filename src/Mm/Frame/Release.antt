-- ===== src/Mm/Frame/Release.antt =====
-- free_page and mem_init of mm/memory.c.
use linux.Common.{
  ℕ, zero, suc, ◌+◌, ◌-◌, ◌*◌, ◌/◌, ◌≤◌, ◌<◌, ◌≡◌, refl, ◌≢◌, inl, inr, false, List, [], ◌∷◌, arith,
  ltb, leb, ◌==◌, ==_iff, if◌then◌else◌, Bool-cases, ap, sym, subst, ◌∙◌, ◌&&◌, length, get_or, set,
  get_or-set_self, get_or-set_ne, length-set, replicate, length-replicate, get_or-replicate,
}
use linux.Mm.{Mm, low_mem, paging_pages, map_nr, set_count, IsValid, ok, panic}
use linux.Mm.Frame.{get_free_page, free_page, mem_init, clear_counts, used}
use linux.Mm.Frame.Alloc.{Taken, get_free_page_lem}

pub set-set_self :
    (map : List ℕ) (i c d : ℕ) → get_or map i (suc d) ≡ d → set (set map i c) i d ≡ map
set-set_self [] i c d h = refl
set-set_self (x ∷ map) zero c d h = ap (λ k. k ∷ map) (omega arith)
set-set_self (x ∷ map) (suc i) c d h = ap (λ m. x ∷ m) (set-set_self map i c d h)

-- What freeing a page below the end of memory does to its count.
pub free_page-count :
    (mm : Mm) (i c : ℕ)
    → low_mem + i * 4096 < mm.high_memory
    → get_or mm.mem_map i 0 ≡ suc c
    → free_page (low_mem + i * 4096) mm ≡ ok tt (set_count i c mm)
unfolding free_page
free_page-count mm i c below h =
    let here : (low_mem + i * 4096 - low_mem) / 4096 ≡ i = omega arith in
    let above : ltb (low_mem + i * 4096) low_mem ≡ false = ground arith in
    let inside : leb mm.high_memory (low_mem + i * 4096) ≡ false = ground arith in
    rw (above, inside, here, h) (ground arith)

pub free_page-free :
    (mm : Mm) (i : ℕ) → get_or mm.mem_map i 0 ≡ 0 → free_page (low_mem + i * 4096) mm ≡ panic
unfolding free_page
free_page-free mm i h =
    let here : (low_mem + i * 4096 - low_mem) / 4096 ≡ i = omega arith in
    let above : ltb (low_mem + i * 4096) low_mem ≡ false = ground arith in
    rw (above, here, h) (ground arith)

free-Taken :
    {mm mm' : Mm} {page : ℕ}
    → IsValid mm
    → Taken mm page mm'
    → page < mm.high_memory
    → (mm'' : Mm) × (free_page page mm' ≡ ok tt mm'')
      × (mm''.mem_map ≡ mm.mem_map)
      × (free_page page mm'' ≡ panic)
unfolding set_count
free-Taken {mm} {mm'} {page} v t below =
    let i = t.index in
    let fits : i < length mm.mem_map = omega (arith, v.pages, t.in_map) in
    let map' = t.map in
    let count : get_or mm'.mem_map i 0 ≡ 1 = rw t.map (get_or-set_self mm.mem_map i 1 0 fits) in
    let restored : set mm'.mem_map i 0 ≡ mm.mem_map =
      rw t.map (set-set_self mm.mem_map i 1 0 t.was_free) in
    (
      set_count i 0 mm',
      rw t.address (free_page-count mm' i 0 (omega (arith, t.address, t.high, below)) count),
      restored,
      rw t.address (
          free_page-free (set_count i 0 mm') i
            (get_or-set_self mm'.mem_map i 0 0 (rw (t.map, length-set mm.mem_map i 1) fits))),
    )

-- When get_free_page returns a page below the end of memory, the page can be given back once: free_page
-- restores the map as it was before both calls, and a second free_page of the page panics.
pub free-get_free_page :
    {mm mm' : Mm} {page : ℕ}
    → IsValid mm
    → get_free_page mm ≡ (page, mm')
    → page ≢ 0
    → page < mm.high_memory
    → (mm'' : Mm) × (free_page page mm' ≡ ok tt mm'')
      × (mm''.mem_map ≡ mm.mem_map)
      × (free_page page mm'' ≡ panic)
free-get_free_page {mm} v e some_page below = elim (get_free_page_lem mm) [
  | inl t ↦ free-Taken v (subst (λ p. Taken mm p.0 p.1) e t) below
  | inr (full, none_free) ↦ absurd (some_page (ap (λ p. p.0) (sym e ∙ full)))
]

length-clear_counts : (n i : ℕ) (map : List ℕ) → length (clear_counts n i map) ≡ length map
unfolding clear_counts
length-clear_counts zero i map = refl
length-clear_counts (suc n) i map =
    rw (length-clear_counts n (i + 1) (set map i 0), length-set map i 0)

get_or-clear_counts :
    (n i : ℕ) (map : List ℕ) (j d : ℕ)
    → j < length map
    → get_or (clear_counts n i map) j d ≡ (if leb i j && ltb j (i + n) then 0 else get_or map j d)
unfolding clear_counts
get_or-clear_counts zero i map j d h = ground arith
get_or-clear_counts (suc n) i map j d h =
    rw (get_or-clear_counts n (i + 1) (set map i 0) j d (rw (length-set map i 0) h))
      (elim (Bool-cases (j == i)) [
        | inl here ↦
            let e : j ≡ i = (==_iff j i).0 here in
            rw e (ground (arith, get_or-set_self map i 0 d (rw (← e) h)))
        | inr apart ↦
            let away : i ≢ j = ground arith in
            ground (arith, get_or-set_ne map {i = i} {j = j} 0 d away)
      ])

-- After mem_init exactly the whole pages between the two addresses are free, and the others are marked
-- as used.
pub mem_init_lem :
    (start_mem end_mem : ℕ) (mm : Mm)
    → low_mem ≤ start_mem
    → start_mem ≤ end_mem
    → end_mem ≤ 0x1000000
    → IsValid (mem_init start_mem end_mem mm)
      × ((j : ℕ)
          → j < paging_pages
          → get_or (mem_init start_mem end_mem mm).mem_map j 1 ≡ (
              if leb (map_nr start_mem) j && ltb j (map_nr start_mem + (end_mem - start_mem) / 4096)
              then 0
              else used))
unfolding mem_init
mem_init_lem start_mem end_mem mm h k l = (
  record { pages = length-clear_counts n i fresh ∙ length-replicate paging_pages used; high = l },
  λ j below.
      get_or-clear_counts n i fresh j 1 (rw (length-replicate paging_pages used) below)
      ∙ ap (λ d. if leb i j && ltb j (i + n) then 0 else d)
          (get_or-replicate paging_pages used j 1 below),
)
  where
    n : ℕ
    n = (end_mem - start_mem) / 4096

    i : ℕ
    i = map_nr start_mem

    fresh : List ℕ
    fresh = replicate paging_pages used
