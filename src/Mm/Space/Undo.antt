-- ===== src/Mm/Space/Undo.antt =====
-- The inner loop of free_page_tables undoes the inner loop of copy_page_tables.
use linux.Common.{
  ℕ, zero, suc, ◌+◌, ◌*◌, ◌%◌, ◌<◌, ◌≡◌, refl, inl, inr, Bool, true, false, arith, Bool-cases, ◌∙◌,
  length, get_or,
}
use linux.Mm.{Mm, page_of, present, clear2, IsValid, ok}
use linux.Mm.Space.{free_entries, copy_entries}
use linux.Mm.Space.Copy.{uses, refs, Apart, Copied, copy_entries-Copied, first, next}
use linux.Mm.Space.Free.{free_entries-Freed}

refs_match :
    (mem mem' : ℕ → ℕ) (n p q i : ℕ)
    → ((k : ℕ) → k < n → uses (mem' (q + 4 * k)) i ≡ uses (mem (p + 4 * k)) i)
    → refs mem' n q i ≡ refs mem n p i
unfolding refs
refs_match mem mem' zero p q i same = refl
refs_match mem mem' (suc n) p q i same =
    let here : uses (mem' q) i ≡ uses (mem p) i = rw (first q, first p) at (same 0 (omega arith)) in
    rw (
      here,
      refs_match mem mem' n (p + 4) (q + 4) i
          (λ k h. rw (next q k, next p k) at (same (suc k) (omega arith))),
    )

uses-clear2 : (e i : ℕ) → uses (clear2 e) i ≡ uses e i
uses-clear2 e i = ground arith

-- Freeing the copy of a table brings the map back: if no count overflows its byte, the frames lie below
-- the end of memory and the target was empty, then the inner loop of free_page_tables run on the target
-- after the inner loop of copy_page_tables returns, with the target cleared and every count as it was
-- before the copy.
pub free-copy_entries :
    (n f t : ℕ) (mm : Mm)
    → IsValid mm
    → Apart n f t
    → ((k : ℕ) → k < n → present (mm.mem (t + 4 * k)) ≡ false)
    → ((k : ℕ)
        → k < n
        → present (mm.mem (f + 4 * k)) ≡ true
        → page_of (mm.mem (f + 4 * k)) < mm.high_memory)
    → ((i : ℕ) → i < length mm.mem_map → get_or mm.mem_map i 0 + refs mm.mem n f i < 256)
    → (mm' : Mm) × (free_entries n t (copy_entries n f t mm) ≡ ok tt mm')
      × ((i : ℕ) → i < length mm.mem_map → get_or mm'.mem_map i 0 ≡ get_or mm.mem_map i 0)
      × ((k : ℕ) → k < n → mm'.mem (t + 4 * k) ≡ 0)
free-copy_entries n f t mm v apart empty below room =
    let mm₁ = copy_entries n f t mm in
    let c = copy_entries-Copied n f t mm apart in
    let users = λ (i : ℕ). refs_match mm.mem mm₁.mem n f t i (λ k h. match k h c i) in
    let total = λ (i : ℕ) (h : i < length mm.mem_map). sum i h (c.counts i h) in
    let (mm', e, freed) =
      free_entries-Freed n t mm₁ (record { pages = c.size ∙ v.pages; high = rw c.high v.high })
        (record {
          below = λ k h here. target_below k h c here;
          enough = λ i h.
              let h' : i < length mm.mem_map = rw c.size at h in omega (arith, users i, total i h');
        }) in
    (mm', e, λ i h. omega (arith, freed.counts i (rw c.size h), users i, total i h), freed.cleared)
  where
    match :
        (k : ℕ)
        → k < n
        → Copied n f t mm (copy_entries n f t mm)
        → (i : ℕ) → uses ((copy_entries n f t mm).mem (t + 4 * k)) i ≡ uses (mm.mem (f + 4 * k)) i
    match k h c i = elim (Bool-cases (present (mm.mem (f + 4 * k)))) [
      | inl here ↦ rw (c.target k h, here) (uses-clear2 (mm.mem (f + 4 * k)) i ∙ rw here)
      | inr absent ↦ rw (c.target k h, absent, empty k h)
    ]

    sum :
        (i : ℕ)
        → i < length mm.mem_map
        → (get_or mm.mem_map i 0 < 256
            → get_or (copy_entries n f t mm).mem_map i 0
              ≡ (get_or mm.mem_map i 0 + refs mm.mem n f i) % 256)
        → get_or (copy_entries n f t mm).mem_map i 0 ≡ get_or mm.mem_map i 0 + refs mm.mem n f i
    sum i h eq = omega (arith, room i h, eq (omega (arith, room i h)))

    target_below :
        (k : ℕ)
        → k < n
        → Copied n f t mm (copy_entries n f t mm)
        → present ((copy_entries n f t mm).mem (t + 4 * k)) ≡ true
        → page_of ((copy_entries n f t mm).mem (t + 4 * k)) < (copy_entries n f t mm).high_memory
    target_below k h c here = elim (Bool-cases (present (mm.mem (f + 4 * k)))) [
      | inl there ↦
          let same : page_of (clear2 (mm.mem (f + 4 * k))) ≡ page_of (mm.mem (f + 4 * k)) =
            ground arith in
          rw (c.target k h, c.high, there) (rw same (below k h there))
      | inr absent ↦ absurd (not_here (rw (c.target k h, absent) at here) (empty k h))
    ]
      where
        not_here : {b : Bool} → b ≡ true → b ≡ false → ⊥
        not_here p q = cc
