-- ===== src/Mm/Frame/Alloc.antt =====
-- get_free_page of mm/memory.c: which page it takes, and when there is none.
use linux.Common.{
  ℕ, zero, suc, ◌+◌, ◌*◌, ◌<◌, ◌≡◌, refl, ◌≢◌, ◌⊎◌, inl, inr, true, false, none, some, List, [],
  ◌∷◌, arith, ◌==◌, ==_iff, Bool-cases, Option-cases, length, get_or, set, length-set,
}
use linux.Mm.{Mm, low_mem, paging_pages, in_page, IsValid}
use linux.Mm.Frame.{find_free, get_free_page, count_free}

-- The scan stops at the highest free byte.
pub find_free-some :
    (map : List ℕ) (n : ℕ) {i : ℕ}
    → find_free map n ≡ some i
    → (i < n) × (get_or map i 1 ≡ 0) × ((j : ℕ) → i < j → j < n → get_or map j 1 ≢ 0)
unfolding find_free
find_free-some map zero h = absurd (none_ne_some h)
  where
    none_ne_some : {k : ℕ} → none ≡ some k → ⊥
    none_ne_some e = cc
find_free-some map (suc n) {i} h = elim (Bool-cases (get_or map n 1 == 0)) [
  | inl free ↦ (ground arith, ground arith, λ j p q. ground arith)
  | inr taken ↦
      let (below, zero_here, above) = find_free-some map n (rw taken at h) in
      (omega arith, zero_here, λ j p q. upto above taken j p q)
]
  where
    upto :
        ((j : ℕ) → i < j → j < n → get_or map j 1 ≢ 0)
        → (get_or map n 1 == 0) ≡ false
        → (j : ℕ) → i < j
        → j < suc n
        → get_or map j 1 ≢ 0
    upto above taken j p q e = elim (Bool-cases (j == n)) [
      | inl here ↦ ground (arith, rw ((==_iff j n).0 here) at e)
      | inr apart ↦ above j p (ground arith) e
    ]

pub find_free-none :
    (map : List ℕ) (n : ℕ) → find_free map n ≡ none → (j : ℕ) → j < n → get_or map j 1 ≢ 0
unfolding find_free
find_free-none map zero h j l e = absurd (omega arith)
find_free-none map (suc n) h j l e = elim (Bool-cases (get_or map n 1 == 0)) [
  | inl free ↦ ground arith
  | inr taken ↦ elim (Bool-cases (j == n)) [
    | inl here ↦ ground (arith, rw ((==_iff j n).0 here) at e)
    | inr apart ↦ find_free-none map n (rw taken at h) j (ground arith) e
  ]
]

-- What a call that finds a page has done.
pub record Taken (mm : Mm) (page : ℕ) (mm' : Mm) : Type 0 where
  pub index : ℕ
  pub address : page ≡ low_mem + index * 4096
  pub in_map : index < paging_pages
  pub was_free : get_or mm.mem_map index 1 ≡ 0
  pub highest : (j : ℕ) → index < j → j < paging_pages → get_or mm.mem_map j 1 ≢ 0
  pub map : mm'.mem_map ≡ set mm.mem_map index 1
  pub cleared : (a : ℕ) → in_page page a ≡ true → mm'.mem a ≡ 0
  pub others : (a : ℕ) → in_page page a ≡ false → mm'.mem a ≡ mm.mem a
  pub high : mm'.high_memory ≡ mm.high_memory

-- A call takes the highest page whose count is 0, makes its count 1, clears it and leaves the rest of
-- memory and of the map alone; it returns 0 and changes nothing exactly when no count is 0.
pub get_free_page_lem :
    (mm : Mm)
    → (let (page, mm') = get_free_page mm in Taken mm page mm')
      ⊎ ((get_free_page mm ≡ (0, mm)) × ((j : ℕ) → j < paging_pages → get_or mm.mem_map j 1 ≢ 0))
unfolding get_free_page
get_free_page_lem mm = elim (Option-cases (find_free mm.mem_map paging_pages)) [
  | inl full ↦ rw (full, get_free_page) (inr (refl, find_free-none mm.mem_map paging_pages full))
  | inr (i, found) ↦
      let (below, free, above) = find_free-some mm.mem_map paging_pages found in
      rw (found, get_free_page)
        (inl (record {
          index = i;
          address = refl;
          in_map = below;
          was_free = free;
          highest = above;
          map = refl;
          cleared = λ a inside. rw inside;
          others = λ a outside. rw outside;
          high = refl;
        }))
]

pub get_free_page-IsValid : {mm : Mm} → IsValid mm → IsValid (get_free_page mm).1
unfolding get_free_page
get_free_page-IsValid {mm} v = elim (Option-cases (find_free mm.mem_map paging_pages)) [
  | inl full ↦ rw (full, get_free_page) v
  | inr (i, found) ↦
      rw (found, get_free_page)
        (record { pages = rw (length-set mm.mem_map i 1) v.pages; high = v.high })
]

-- Taking a page with count 0 lowers the number of free pages by one.
pub count_free-set_one :
    (map : List ℕ) (i : ℕ) → get_or map i 1 ≡ 0 → count_free map ≡ suc (count_free (set map i 1))
unfolding count_free
count_free-set_one [] i h = absurd (omega arith)
count_free-set_one (c ∷ map) zero h = ground arith
count_free-set_one (c ∷ map) (suc i) h = omega (arith, count_free-set_one map i h)

count_free-full :
    (map : List ℕ) → ((j : ℕ) → j < length map → get_or map j 1 ≢ 0) → count_free map ≡ 0
unfolding count_free
count_free-full [] full = refl
count_free-full (c ∷ map) full =
    let rest = count_free-full map (λ j l. full (suc j) (omega arith)) in
    ground (arith, rest, full 0)
