-- ===== src/Mm/Space/Copy.antt =====
-- What the inner loop of copy_page_tables does to two tables, to memory and to the counts.
use linux.Common.{
  ℕ, zero, suc, ◌+◌, ◌-◌, ◌*◌, ◌/◌, ◌%◌, ◌≤◌, ◌<◌, ◌≡◌, refl, ◌≢◌, ◌⊎◌, inl, inr, Bool, List, arith,
  ltb, ◌==◌, ==_iff, if◌then◌else◌, Bool-cases, ◌∙◌, ◌&&◌, length, get_or, set, get_or-set_self,
  get_or-set_ne, length-set,
}
use linux.Mm.{Mm, low_mem, present, clear2}
use linux.Mm.Space.{copy_entry, copy_entries}

-- Whether an entry counts as a user of page `i` of main memory.
abbrev pub uses : ℕ → ℕ → Bool
uses e i = present e && (ltb low_mem (clear2 e) && ((clear2 e - low_mem) / 4096 == i))

-- How many of the `n` entries from address `p` on are users of page `i`.
unfoldable pub refs : (ℕ → ℕ) → ℕ → ℕ → ℕ → ℕ
refs mem zero p i = 0
refs mem (suc n) p i = (if uses (mem p) i then 1 else 0) + refs mem n (p + 4) i

-- Two tables of `n` entries that do not overlap.
abbrev pub Apart : ℕ → ℕ → ℕ → Type 0
Apart n f t = (f + 4 * n ≤ t) ⊎ (t + 4 * n ≤ f)

-- An address outside the `n` entries from `p` on.
abbrev pub Outside : ℕ → ℕ → ℕ → Type 0
Outside n p a = (a < p) ⊎ (p + 4 * n ≤ a)

pub first : (p : ℕ) → p + 4 * 0 ≡ p
first p = omega arith

pub next : (p k : ℕ) → p + 4 * suc k ≡ p + 4 + 4 * k
next p k = omega arith

pub refs_same :
    (mem mem' : ℕ → ℕ) (n p i : ℕ)
    → ((k : ℕ) → k < n → mem' (p + 4 * k) ≡ mem (p + 4 * k))
    → refs mem' n p i ≡ refs mem n p i
unfolding refs
refs_same mem mem' zero p i same = refl
refs_same mem mem' (suc n) p i same =
    let here : mem' p ≡ mem p = rw (first p) at (same 0 (omega arith)) in
    rw (here, refs_same mem mem' n (p + 4) i (λ k h. rw (next p k) at (same (suc k) (omega arith))))

-- After the copy both tables map the same pages without the write bit, everything else in memory is
-- as it was, and each page has gained as many users as the table had entries for it.
pub record Copied (n f t : ℕ) (mm mm' : Mm) : Type 0 where
  pub target :
      (k : ℕ)
      → k < n
      → mm'.mem (t + 4 * k)
        ≡ (if present (mm.mem (f + 4 * k)) then clear2 (mm.mem (f + 4 * k)) else mm.mem (t + 4 * k))
  pub source :
      (k : ℕ)
      → k < n
      → mm'.mem (f + 4 * k) ≡ (
          if present (mm.mem (f + 4 * k)) && ltb low_mem (clear2 (mm.mem (f + 4 * k)))
          then clear2 (mm.mem (f + 4 * k))
          else mm.mem (f + 4 * k))
  pub others : (a : ℕ) → Outside n f a → Outside n t a → mm'.mem a ≡ mm.mem a
  pub size : length mm'.mem_map ≡ length mm.mem_map
  pub counts :
      (i : ℕ)
      → i < length mm.mem_map
      → get_or mm.mem_map i 0 < 256
      → get_or mm'.mem_map i 0 ≡ (get_or mm.mem_map i 0 + refs mm.mem n f i) % 256
  pub high : mm'.high_memory ≡ mm.high_memory

-- The same for one entry.
record CopiedOne (f t : ℕ) (mm mm' : Mm) : Type 0 where
  target : mm'.mem t ≡ (if present (mm.mem f) then clear2 (mm.mem f) else mm.mem t)
  source : mm'.mem f ≡ (
      if present (mm.mem f) && ltb low_mem (clear2 (mm.mem f)) then clear2 (mm.mem f) else mm.mem f)
  others : (a : ℕ) → a ≢ f → a ≢ t → mm'.mem a ≡ mm.mem a
  size : length mm'.mem_map ≡ length mm.mem_map
  counts :
      (i : ℕ)
      → i < length mm.mem_map
      → get_or mm.mem_map i 0 < 256
      → get_or mm'.mem_map i 0
        ≡ (get_or mm.mem_map i 0 + (if uses (mm.mem f) i then 1 else 0)) % 256
  high : mm'.high_memory ≡ mm.high_memory

pub get_or-set_count :
    (map : List ℕ) (i j c : ℕ)
    → i < length map
    → get_or (set map j c) i 0 ≡ (if j == i then c else get_or map i 0)
get_or-set_count map i j c h = elim (Bool-cases (j == i)) [
  | inl here ↦ let e : j ≡ i = (==_iff j i).0 here in rw (here, e) (get_or-set_self map i c 0 h)
  | inr apart ↦ rw apart (get_or-set_ne map {i = j} {j = i} c 0 (ground arith))
]

copy_entry-CopiedOne : (f t : ℕ) (mm : Mm) → f ≢ t → CopiedOne f t mm (copy_entry f t mm)
unfolding copy_entry
copy_entry-CopiedOne f t mm apart = elim (Bool-cases (present (mm.mem f))) [
  | inr absent ↦
      rw (absent, copy_entry)
        (record {
          target = rw absent;
          source = rw absent;
          others = λ a p q. refl;
          size = refl;
          counts = λ i h l. rw absent (omega (arith, l));
          high = refl;
        })
  | inl here ↦ elim (Bool-cases (ltb low_mem (clear2 (mm.mem f)))) [
    | inl main ↦
        rw (here, copy_entry)
          (rw main (record {
            target = rw here (ground arith);
            source = rw (here, main) (ground arith);
            others = λ a p q. ground arith;
            size = length-set mm.mem_map _ _;
            counts = λ i h l.
                rw (here, main)
                  (ground (
                    arith,
                    get_or-set_count mm.mem_map i ((clear2 (mm.mem f) - low_mem) / 4096)
                        ((get_or mm.mem_map ((clear2 (mm.mem f) - low_mem) / 4096) 0 + 1) % 256) h,
                  ));
            high = refl;
          }))
    | inr low ↦
        rw (here, copy_entry)
          (rw low (record {
            target = rw here (ground arith);
            source = rw (here, low) (ground arith);
            others = λ a p q. ground arith;
            size = refl;
            counts = λ i h l. rw (here, low) (omega (arith, l));
            high = refl;
          }))
  ]
]

-- One entry copied, then the others.
Copied-cons :
    {n f t : ℕ} {mm mm₁ mm' : Mm}
    → Apart (suc n) f t
    → CopiedOne f t mm mm₁
    → Copied n (f + 4) (t + 4) mm₁ mm'
    → Copied (suc n) f t mm mm'
unfolding refs
Copied-cons {n} {f} {t} {mm} {mm₁} {mm'} apart one rest = record {
  target = λ k h. at_target k h;
  source = λ k h. at_source k h;
  others = λ a p q.
      rest.others a (ground arith) (ground arith) ∙ one.others a (ground arith) (ground arith);
  size = rest.size ∙ one.size;
  counts = λ i h l.
      let c = one.counts i h l in
      let r = rest.counts i (rw one.size h) (omega (arith, c)) in
      omega (arith, c, r, refs_same mm.mem mm₁.mem n (f + 4) i (λ k q. kept_source k q));
  high = rest.high ∙ one.high;
}
  where
    kept_source : (k : ℕ) → k < n → mm₁.mem (f + 4 + 4 * k) ≡ mm.mem (f + 4 + 4 * k)
    kept_source k h = one.others (f + 4 + 4 * k) (omega arith) (omega arith)

    kept_target : (k : ℕ) → k < n → mm₁.mem (t + 4 + 4 * k) ≡ mm.mem (t + 4 + 4 * k)
    kept_target k h = one.others (t + 4 + 4 * k) (omega arith) (omega arith)

    at_target :
        (k : ℕ)
        → k < suc n
        → mm'.mem (t + 4 * k) ≡ (
            if present (mm.mem (f + 4 * k))
            then clear2 (mm.mem (f + 4 * k))
            else mm.mem (t + 4 * k))
    at_target zero h =
        rw (first t, first f) (rest.others t (omega arith) (omega arith) ∙ one.target)
    at_target (suc k) h =
        rw (next t k, next f k)
          (rw (kept_source k (omega arith), kept_target k (omega arith)) at
            (rest.target k (omega arith)))

    at_source :
        (k : ℕ)
        → k < suc n
        → mm'.mem (f + 4 * k) ≡ (
            if present (mm.mem (f + 4 * k)) && ltb low_mem (clear2 (mm.mem (f + 4 * k)))
            then clear2 (mm.mem (f + 4 * k))
            else mm.mem (f + 4 * k))
    at_source zero h = rw (first f) (rest.others f (omega arith) (omega arith) ∙ one.source)
    at_source (suc k) h =
        rw (next f k) (rw (kept_source k (omega arith)) at (rest.source k (omega arith)))

-- The inner loop of copy_page_tables on tables that do not overlap: both map the same pages with the
-- write bit off (in the source for main memory only), all other words stay, and the count of each page
-- grows by the entries that map it, modulo 256.
pub copy_entries-Copied :
    (n f t : ℕ) (mm : Mm) → Apart n f t → Copied n f t mm (copy_entries n f t mm)
unfolding copy_entries refs
copy_entries-Copied zero f t mm apart = record {
  target = λ k h. absurd (omega arith);
  source = λ k h. absurd (omega arith);
  others = λ a p q. refl;
  size = refl;
  counts = λ i h l. omega (arith, l);
  high = refl;
}
copy_entries-Copied (suc n) f t mm apart =
    Copied-cons apart (copy_entry-CopiedOne f t mm (omega arith))
      (copy_entries-Copied n (f + 4) (t + 4) (copy_entry f t mm) (omega arith))
