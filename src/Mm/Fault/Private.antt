-- ===== src/Mm/Fault/Private.antt =====
-- Copy on write: what un_wp_page leaves behind.
use linux.Common.{
  ℕ, suc, ◌+◌, ◌-◌, ◌*◌, ◌/◌, ◌%◌, ◌^◌, ◌≤◌, ◌<◌, ◌≡◌, refl, ◌≢◌, ◌⊎◌, inl, inr, true, false, arith,
  leb, ◌==◌, ==_iff, Bool-cases, sym, ap, ◌&&◌, ◌∙◌, length, get_or, set, get_or-set_self,
  get_or-set_ne, get_or_default, length-set,
}
use linux.Mm.{
  Mm, low_mem, paging_pages, map_nr, page_of, present, in_page, or7, or2, store, set_count, IsValid,
  ok, exits,
}
use linux.Mm.Frame.{get_free_page}
use linux.Mm.Frame.Alloc.{Taken, get_free_page_lem}
use linux.Mm.Fault.{un_wp_page, copy_page, drop_count}

-- A word that stands neither in the page that an entry maps nor in a free page.
abbrev pub InUse : Mm → ℕ → Type 0
InUse mm a = (a < low_mem) ⊎ (get_or mm.mem_map ((a - low_mem) / 4096) 1 ≢ 0)

-- The page of an entry is one of main memory, and its count is that of a page in use.
pub record IsCounted (mm : Mm) (entry : ℕ) : Type 0 where
  pub main : low_mem ≤ page_of (mm.mem entry)
  pub inside : map_nr (page_of (mm.mem entry)) < paging_pages
  pub counted : 1 ≤ get_or mm.mem_map (map_nr (page_of (mm.mem entry))) 0
  pub byte : get_or mm.mem_map (map_nr (page_of (mm.mem entry))) 0 < 256

-- An entry that maps a page of the first megabyte, which has no count, or a counted one of main memory, and
-- that stands outside that page and every free one.
pub record IsMapped (mm : Mm) (entry : ℕ) : Type 0 where
  pub here : present (mm.mem entry) ≡ true
  pub word : mm.mem entry < 2 ^ 32
  pub page : (page_of (mm.mem entry) < low_mem) ⊎ IsCounted mm entry
  pub apart : in_page (page_of (mm.mem entry)) entry ≡ false
  pub in_use : InUse mm entry

-- The entry is writable, its page has no other user, and holds what the old page held and holds.
pub record Private (mm : Mm) (entry : ℕ) (mm' : Mm) : Type 0 where
  pub here : present (mm'.mem entry) ≡ true
  pub writable : mm'.mem entry / 2 % 2 ≡ 1
  pub alone : get_or mm'.mem_map (map_nr (page_of (mm'.mem entry))) 0 ≡ 1
  pub contents :
      (off : ℕ)
      → off < 4096
      → mm'.mem (page_of (mm'.mem entry) + off) ≡ mm.mem (page_of (mm.mem entry) + off)
  pub old_page :
      (off : ℕ)
      → off < 4096
      → mm'.mem (page_of (mm.mem entry) + off) ≡ mm.mem (page_of (mm.mem entry) + off)
  pub moved :
      ((page_of (mm'.mem entry) ≡ page_of (mm.mem entry)) × (mm'.mem_map ≡ mm.mem_map))
      ⊎ ((low_mem ≤ page_of (mm.mem entry))
          × (suc (get_or mm'.mem_map (map_nr (page_of (mm.mem entry))) 0)
              ≡ get_or mm.mem_map (map_nr (page_of (mm.mem entry))) 0))
      ⊎ ((page_of (mm.mem entry) < low_mem)
          × (mm'.mem_map ≡ set mm.mem_map (map_nr (page_of (mm'.mem entry))) 1))

module _ {mm : Mm} {entry : ℕ} (v : IsValid mm) (m : IsMapped mm entry) where
  outside : (off : ℕ) → off < 4096 → (page_of (mm.mem entry) + off == entry) ≡ false
  outside off h = ground (arith, m.apart)

  -- The page had one user: only the bit is set.
  keep-Private :
      get_or mm.mem_map (map_nr (page_of (mm.mem entry))) 0 ≡ 1
      → Private mm entry (store entry (or2 (mm.mem entry)) mm)
  unfolding store
  keep-Private one =
      let e = mm.mem entry in
      let self : (entry == entry) ≡ true = ground arith in
      let same : page_of (or2 (mm.mem entry)) ≡ page_of (mm.mem entry) = ground arith in
      record {
        here = rw self (ground (arith, m.here));
        writable = rw self (ground arith);
        alone = rw (self, same) one;
        contents = λ off h. rw (self, same, outside off h);
        old_page = λ off h. rw (outside off h);
        moved = inl (rw self same, refl);
      }

  module _ {new : ℕ} {mm₁ : Mm} (t : Taken mm new mm₁) where
    abbrev old : ℕ
    old = page_of (mm.mem entry)

    abbrev old_index : ℕ
    old_index = map_nr (page_of (mm.mem entry))

    other_index : IsCounted mm entry → t.index ≢ old_index
    other_index c e =
        let d : get_or mm.mem_map old_index 0 ≡ get_or mm.mem_map old_index 1 =
          get_or_default mm.mem_map old_index 0 1 (omega (arith, c.inside, v.pages)) in
        let z : get_or mm.mem_map old_index 1 ≡ 0 = rw e at t.was_free in
        omega (arith, d, z, c.counted)

    old_address : IsCounted mm entry → old ≡ low_mem + old_index * 4096
    old_address c = omega (arith, c.main, m.word)

    old_outside : (off : ℕ) → off < 4096 → in_page new (old + off) ≡ false
    old_outside off h = elim m.page [
      | inl low ↦
          let below : old + off < low_mem = omega (arith, low, h) in below_page (old + off) below
      | inr c ↦
          let ne = other_index c in
          let a = t.address in
          let b = old_address c in ground (arith, in_other_page t.index old_index off)
    ]
      where
        below_page : (a : ℕ) → a < low_mem → in_page new a ≡ false
        below_page a h = ground (arith, t.address)

        in_other_page :
            (i o off : ℕ)
            → i ≢ o
            → off < 4096
            → in_page (low_mem + i * 4096) (low_mem + o * 4096 + off) ≡ false
        in_other_page i o off p q = ground arith

    entry_outside : in_page new entry ≡ false
    entry_outside = elim (Bool-cases (in_page new entry)) [
      | inr out ↦ out
      | inl within ↦ absurd (elim m.in_use [
        | inl low ↦ ground (arith, t.address)
        | inr counted ↦
            let here : (entry - low_mem) / 4096 ≡ t.index = ground (arith, t.address) in
            counted (rw here t.was_free)
      ])
    ]

    -- What stands in memory and in the map after the copy.
    module _ (mm' : Mm)
        (e : mm' ≡ copy_page old new (store entry (or7 new) (drop_count old mm₁))) where
      same_mem : (drop_count old mm₁).mem ≡ mm₁.mem
      unfolding drop_count set_count
      same_mem = elim (Bool-cases (leb low_mem old)) [ inl h ↦ rw h refl | inr h ↦ rw h refl ]

      dropped :
          low_mem ≤ old
          → drop_count old mm₁
            ≡ set_count old_index ((get_or mm₁.mem_map old_index 0 + 255) % 256) mm₁
      unfolding drop_count
      dropped main = let h : leb low_mem old ≡ true = ground (arith, main) in rw h

      low_counts : old < low_mem → mm'.mem_map ≡ set mm.mem_map t.index 1
      unfolding copy_page store drop_count
      low_counts low = let h : leb low_mem old ≡ false = ground (arith, low) in rw e (rw h t.map)

      new_entry : mm'.mem entry ≡ or7 new
      unfolding copy_page store
      new_entry =
          let self : (entry == entry) ≡ true = ground arith in rw e (rw (entry_outside, self))

      at_old : (off : ℕ) → off < 4096 → mm'.mem (old + off) ≡ mm.mem (old + off)
      unfolding copy_page store
      at_old off h =
          rw (e, same_mem)
            (rw (old_outside off h, outside off h) (t.others (old + off) (old_outside off h)))

      at_new : (off : ℕ) → off < 4096 → mm'.mem (new + off) ≡ mm.mem (old + off)
      unfolding copy_page store
      at_new off h =
          let within : in_page new (new + off) ≡ true = ground arith in
          let from : new + off - new + old ≡ old + off = omega arith in
          rw (e, same_mem)
            (rw (within, from, outside off h) (t.others (old + off) (old_outside off h)))

      counts :
          IsCounted mm entry
          → (get_or mm'.mem_map t.index 0 ≡ 1)
            × (suc (get_or mm'.mem_map old_index 0) ≡ get_or mm.mem_map old_index 0)
      unfolding copy_page store set_count
      counts counted_page =
          let i = t.index in
          let o = old_index in
          let c = get_or mm.mem_map old_index 0 in
          let map₁ = set mm.mem_map i 1 in
          let size : length (set mm.mem_map i 1) ≡ paging_pages =
            length-set mm.mem_map i 1 ∙ v.pages in
          let kept : get_or map₁ o 0 ≡ c =
            get_or-set_ne mm.mem_map {i = i} {j = o} 1 0 (other_index counted_page) in
          rw (e, dropped counted_page.main, t.map, kept)
            (
              get_or-set_ne map₁ {i = o} {j = i} ((c + 255) % 256) 0
                    (λ q. other_index counted_page (sym q))
                  ∙ get_or-set_self mm.mem_map i 1 0 (omega (arith, v.pages, t.in_map)),
              omega (
                arith,
                get_or-set_self map₁ o ((c + 255) % 256) 0
                    (omega (arith, size, counted_page.inside)),
                counted_page.counted,
                counted_page.byte,
              ),
            )

  copied-Private :
      {new : ℕ} {mm₁ mm' : Mm} (t : Taken mm new mm₁)
      → mm'
        ≡ copy_page
            (page_of (mm.mem entry))
            new
            (store entry (or7 new) (drop_count (page_of (mm.mem entry)) mm₁))
      → Private mm entry mm'
  copied-Private {new} {mm₁} {mm'} t e =
      let word = new_entry t mm' e in
      let frame : page_of (mm'.mem entry) ≡ new = rw word (omega (arith, t.address)) in
      let index : map_nr (page_of (mm'.mem entry)) ≡ t.index =
        rw frame (omega (arith, t.address, t.in_map)) in
      record {
        here = rw word (ground (arith, t.address));
        writable = rw word (omega (arith, t.address));
        alone = rw index (elim m.page [
          | inl low ↦
              rw (low_counts t mm' e low)
                (get_or-set_self mm.mem_map t.index 1 0 (omega (arith, v.pages, t.in_map)))
          | inr c ↦ (counts t mm' e c).0
        ]);
        contents = λ off h. rw frame (at_new t mm' e off h);
        old_page = at_old t mm' e;
        moved = inr (elim m.page [
          | inl low ↦ inr (low, low_counts t mm' e low ∙ ap (λ i. set mm.mem_map i 1) (sym index))
          | inr c ↦ inl (c.main, (counts t mm' e c).1)
        ]);
      }

copy_case :
    {mm : Mm} {entry : ℕ}
    → IsValid mm
    → IsMapped mm entry
    → (leb low_mem (page_of (mm.mem entry))
        && get_or mm.mem_map (map_nr (page_of (mm.mem entry))) 0 == 1)
      ≡ false
    → ((mm' : Mm) × (un_wp_page entry mm ≡ ok tt mm') × Private mm entry mm')
      ⊎ ((un_wp_page entry mm ≡ exits 11)
          × ((j : ℕ) → j < paging_pages → get_or mm.mem_map j 1 ≢ 0))
unfolding un_wp_page
copy_case {mm} {entry} v m other = elim (get_free_page_lem mm) [
  | inl t ↦
      let some_page : ((get_free_page mm).0 == 0) ≡ false = ground (arith, t.address) in
      inl (_, rw (other, some_page) refl, copied-Private v m t refl)
  | inr (none_left, full) ↦ inr (rw (other, none_left) refl, full)
]

-- Let an entry map a page of the first megabyte or a counted page of main memory, and stand outside that
-- page and every free one. A write to the page either finds no free page and kills the task, or returns
-- with the entry present and writable and its page counted once: the page of before, or a new one. The
-- page holds what the old page held, and the old page is unchanged. If the page is a new one, the count
-- of an old page of main memory is one less, and for one of the first megabyte no count changes but that of
-- the new page.
pub un_wp_page-Private :
    {mm : Mm} {entry : ℕ}
    → IsValid mm
    → IsMapped mm entry
    → ((mm' : Mm) × (un_wp_page entry mm ≡ ok tt mm') × Private mm entry mm')
      ⊎ ((un_wp_page entry mm ≡ exits 11)
          × ((j : ℕ) → j < paging_pages → get_or mm.mem_map j 1 ≢ 0))
unfolding un_wp_page
un_wp_page-Private {mm} {entry} v m = elim m.page [
  | inl low ↦
      let below : leb low_mem (page_of (mm.mem entry)) ≡ false = ground (arith, low) in
      copy_case v m (rw below refl)
  | inr c ↦
      let main : leb low_mem (page_of (mm.mem entry)) ≡ true = ground (arith, c.main) in
      elim (Bool-cases (get_or mm.mem_map (map_nr (page_of (mm.mem entry))) 0 == 1)) [
        | inl one ↦ inl (_, rw (main, one) refl, keep-Private v m ((==_iff _ 1).0 one))
        | inr more ↦ copy_case v m (rw (main, more) refl)
      ]
]
