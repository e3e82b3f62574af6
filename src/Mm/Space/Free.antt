-- ===== src/Mm/Space/Free.antt =====
-- What the inner loop of free_page_tables does.
use linux.Common.{
  ℕ, zero, suc, ◌+◌, ◌-◌, ◌*◌, ◌/◌, ◌≤◌, ◌<◌, ◌≡◌, refl, ◌≢◌, inl, inr, true, arith, ltb, ◌==◌,
  if◌then◌else◌, Bool-cases, ◌∙◌, length, get_or, length-set,
}
use linux.Mm.{Mm, low_mem, paging_pages, page_of, present, clear2, store, set_count, IsValid, ok}
use linux.Mm.Frame.{free_page}
use linux.Mm.Frame.Release.{free_page-count}
use linux.Mm.Space.{free_entry, free_entries}
use linux.Mm.Space.Copy.{uses, refs, refs_same, Outside, get_or-set_count, first, next}

-- The frames of the present entries of a table lie below the end of memory, and each page has at least
-- as many users as the table has entries for it.
pub record CanFree (n p : ℕ) (mm : Mm) : Type 0 where
  pub below :
      (k : ℕ)
      → k < n
      → present (mm.mem (p + 4 * k)) ≡ true
      → page_of (mm.mem (p + 4 * k)) < mm.high_memory
  pub enough : (i : ℕ) → i < length mm.mem_map → refs mm.mem n p i ≤ get_or mm.mem_map i 0

pub record Freed (n p : ℕ) (mm mm' : Mm) : Type 0 where
  pub cleared : (k : ℕ) → k < n → mm'.mem (p + 4 * k) ≡ 0
  pub others : (a : ℕ) → Outside n p a → mm'.mem a ≡ mm.mem a
  pub size : length mm'.mem_map ≡ length mm.mem_map
  pub counts :
      (i : ℕ)
      → i < length mm.mem_map
      → get_or mm'.mem_map i 0 + refs mm.mem n p i ≡ get_or mm.mem_map i 0
  pub high : mm'.high_memory ≡ mm.high_memory

free_page-low : (a : ℕ) (mm : Mm) → a < low_mem → free_page a mm ≡ ok tt mm
unfolding free_page
free_page-low a mm h = let low : ltb a low_mem ≡ true = ground arith in rw low

-- Freeing the page of one present entry.
record FreedOne (p : ℕ) (mm mm' : Mm) : Type 0 where
  mem : (a : ℕ) → mm'.mem a ≡ (if a == p then 0 else mm.mem a)
  size : length mm'.mem_map ≡ length mm.mem_map
  counts :
      (i : ℕ)
      → i < length mm.mem_map
      → get_or mm'.mem_map i 0 + (if uses (mm.mem p) i then 1 else 0) ≡ get_or mm.mem_map i 0
  high : mm'.high_memory ≡ mm.high_memory

module _ (p : ℕ) (mm : Mm) (below : present (mm.mem p) ≡ true → page_of (mm.mem p) < mm.high_memory)
    (high : mm.high_memory ≤ 0x1000000) (pages : length mm.mem_map ≡ paging_pages)
    (enough : (i : ℕ)
      → i < length mm.mem_map
      → (if uses (mm.mem p) i then 1 else 0) ≤ get_or mm.mem_map i 0) where
  abbrev frame : ℕ
  frame = (clear2 (mm.mem p) - low_mem) / 4096

  free_entry-FreedOne : (mm' : Mm) × (free_entry p mm ≡ ok tt mm') × FreedOne p mm mm'
  unfolding free_entry set_count
  free_entry-FreedOne = elim (Bool-cases (present (mm.mem p))) [
    | inr absent ↦ (
      store p 0 mm,
      rw absent refl,
      record { mem = λ a. refl; size = refl; counts = λ i h. rw absent (omega arith); high = refl },
    )
    | inl here ↦ elim (Bool-cases (ltb (page_of (mm.mem p)) low_mem)) [
      | inl low ↦ (
        store p 0 mm,
        rw (here, free_page-low (page_of (mm.mem p)) mm (ground arith)) refl,
        record { mem = λ a. refl; size = refl; counts = λ i h. ground arith; high = refl },
      )
      | inr main ↦
          let page : page_of (mm.mem p) ≡ low_mem + frame * 4096 = ground arith in
          let inside : frame < length mm.mem_map = omega (arith, below here) in
          let user : uses (mm.mem p) frame ≡ true = ground arith in
          let count : get_or mm.mem_map frame 0 ≡ suc (get_or mm.mem_map frame 0 - 1) =
            omega (arith, rw user at (enough frame inside)) in
          let left = get_or mm.mem_map frame 0 - 1 in
          let end : low_mem + frame * 4096 < mm.high_memory = omega (arith, below here) in
          (
            store p 0 (set_count frame left mm),
            rw (here, page, free_page-count mm frame left end count) refl,
            record {
              mem = λ a. refl;
              size = length-set mm.mem_map _ _;
              counts = λ i h. ground (arith, get_or-set_count mm.mem_map i frame left h);
              high = refl;
            },
          )
    ]
  ]

-- The inner loop of free_page_tables on a table that it can free: it does not panic, clears the table,
-- takes one user from each page for each entry that mapped it, and touches nothing else.
pub free_entries-Freed :
    (n p : ℕ) (mm : Mm)
    → IsValid mm
    → CanFree n p mm
    → (mm' : Mm) × (free_entries n p mm ≡ ok tt mm') × Freed n p mm mm'
unfolding free_entries refs
free_entries-Freed zero p mm v can = (
  mm,
  refl,
  record {
    cleared = λ k h. absurd (omega arith);
    others = λ a out. refl;
    size = refl;
    counts = λ i h. omega arith;
    high = refl;
  },
)
free_entries-Freed (suc n) p mm v can =
    let below₀ : present (mm.mem p) ≡ true → page_of (mm.mem p) < mm.high_memory =
      rw (first p) at (can.below 0 (omega arith)) in
    let (mm₁, e₁, one) =
      free_entry-FreedOne p mm below₀ v.high v.pages (λ i h. omega (arith, can.enough i h)) in
    let kept = λ (k : ℕ) (h : k < n). kept_entry one k in
    let v₁ : IsValid mm₁ = record { pages = one.size ∙ v.pages; high = rw one.high v.high } in
    let can₁ : CanFree n (p + 4) mm₁ = record {
      below = λ k h. rw (kept k h, one.high) (rw (next p k) at (can.below (suc k) (omega arith)));
      enough = λ i h.
          let h' : i < length mm.mem_map = rw one.size at h in
          omega
            (arith, can.enough i h', one.counts i h', refs_same mm.mem mm₁.mem n (p + 4) i kept);
    } in
    let (mm', e', rest) = free_entries-Freed n (p + 4) mm₁ v₁ can₁ in
    (
      mm',
      rw e₁ e',
      record {
        cleared = λ k h. cleared one rest k h;
        others = λ a out. rest.others a (omega arith) ∙ other one a (omega arith);
        size = rest.size ∙ one.size;
        counts = λ i h. omega (
          arith,
          rest.counts i (rw one.size h),
          one.counts i h,
          refs_same mm.mem mm₁.mem n (p + 4) i kept,
        );
        high = rest.high ∙ one.high;
      },
    )
  where
    other : {mm₁ : Mm} → FreedOne p mm mm₁ → (a : ℕ) → a ≢ p → mm₁.mem a ≡ mm.mem a
    other one a h = ground (arith, one.mem a)

    kept_entry :
        {mm₁ : Mm} → FreedOne p mm mm₁ → (k : ℕ) → mm₁.mem (p + 4 + 4 * k) ≡ mm.mem (p + 4 + 4 * k)
    kept_entry one k = other one (p + 4 + 4 * k) (omega arith)

    cleared :
        {mm₁ mm' : Mm}
        → FreedOne p mm mm₁
        → Freed n (p + 4) mm₁ mm'
        → (k : ℕ) → k < suc n
        → mm'.mem (p + 4 * k) ≡ 0
    cleared one rest zero h = rw (first p) (rest.others p (omega arith) ∙ ground (arith, one.mem p))
    cleared one rest (suc k) h = rw (next p k) (rest.cleared k (omega arith))
