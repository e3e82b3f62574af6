-- ===== src/Fs/Zones/Truncate.antt =====
-- truncate: what is left of an inode and of its zones.
use linux.Common.{
  ℕ, zero, suc, ◌+◌, ◌≤◌, ◌<◌, ◌≡◌, refl, ◌≢◌, ◌⊎◌, inl, inr, Bool, true, false, ◌||◌, arith, ltb,
  leb, ◌==◌, ==_iff, if◌then◌else◌, Bool-cases, sym, ap, ◌∙◌, length, length-set, set,
  get_or-set_self, get_or-set_ne, subst,
}
use linux.Fs.ZoneMap.{ZoneMap}
use linux.Fs.Zones.{
  s_isreg, s_isdir, Volume, Result, ok, panic, ◌>>=◌, zone_at, set_zone, give_back, free_ind,
  free_dind, free_direct, truncate,
}
use linux.Fs.Zones.Slots.{Slot, zone, ind, dind, leaf, IsSlot, same, entry, val, IsTree}
use linux.Fs.Zones.Freed.{rank, Freed, Freed-zero}
use linux.Fs.Zones.FreeBlocks.{
  give_back-Freed, entry-Freed, free_ind-Freed, free_dind-Freed, entry_zero, if_true,
}

module _ {z : ZoneMap} where
  zone_at-set_zone :
      (w : Volume z) (i n j : ℕ)
      → i < length w.inode.i_zone
      → zone_at (set_zone i n w) j ≡ (if i == j then n else zone_at w j)
  zone_at-set_zone w i n j h = elim (Bool-cases (i == j)) [
    | inl here ↦ rw (here, ← ((==_iff i j).0 here)) (get_or-set_self w.inode.i_zone i n 0 h)
    | inr apart ↦
        let ne : i ≢ j = ground arith in
        rw apart (get_or-set_ne w.inode.i_zone {i = i} {j = j} n 0 ne)
  ]

  -- The direct zones below `i` have been freed.
  record Direct (v : Volume z) (i : ℕ) (w : Volume z) : Type 0 where
    words : w.word ≡ v.word
    size : length w.inode.i_zone ≡ 9
    entries : (j : ℕ) → zone_at w j ≡ (if ltb j i then 0 else zone_at v j)
    freed : Freed v i w.zones

  Direct-step :
      {v : Volume z} (i : ℕ) (w : Volume z)
      → IsTree v
      → i < 7
      → Direct v i w
      → (w' : Volume z) × ((if zone_at w i == 0
            then ok tt w
            else give_back (zone_at w i) w >>= λ _ v'. ok tt (set_zone i 0 v'))
          ≡ ok tt w')
        × Direct v (i + 1) w'
  Direct-step {v} i w tree h at =
      let here : zone_at w i ≡ zone_at v i = at.entries i ∙ ground arith in
      let name : rank (zone i) ≡ i = ground arith in
      elim (Bool-cases (zone_at w i == 0)) [
        | inl none_there ↦
            let (zones, run, freed) =
              entry-Freed tree w (zone i) 0 (omega arith) name
                (sym here ∙ (==_iff _ _).0 none_there) at.freed in
            (
              w,
              rw none_there refl,
              record {
                words = at.words;
                size = at.size;
                entries = λ j. at.entries j ∙ skip j (sym here ∙ (==_iff _ _).0 none_there);
                freed = subst (λ r. Freed v (i + 1) r) (ap store (sym run)) freed;
              },
            )
        | inr there ↦
            let (zones, run, freed) =
              give_back-Freed tree w (zone i) (zone_at w i) (omega arith) name (sym here)
                (ground arith) at.freed in
            let w' = record w { zones = zones } in
            (
              set_zone i 0 w',
              rw there (ap (λ r. r >>= λ _ v'. ok tt (set_zone i 0 v')) run),
              record {
                words = at.words;
                size = length-set w.inode.i_zone i 0 ∙ at.size;
                entries = λ j.
                    zone_at-set_zone w' i 0 j (omega (arith, at.size))
                    ∙ ap (λ n. if i == j then 0 else n) (at.entries j)
                    ∙ clear (zone_at v j) j;
                freed = freed;
              },
            )
      ]
    where
      store : Result z (Unit {0}) → z.State
      store (ok u x) = x.zones
      store panic = w.zones

      skip :
          (j : ℕ)
          → zone_at v i ≡ 0
          → (if ltb j i then 0 else zone_at v j) ≡ (if ltb j (i + 1) then 0 else zone_at v j)
      skip j e = elim (Bool-cases (i == j)) [
        | inr apart ↦ ground arith
        | inl same ↦
            let empty : zone_at v j ≡ 0 = ap (zone_at v) (sym ((==_iff i j).0 same)) ∙ e in
            ground arith
      ]

      clear :
          (n j : ℕ)
          → (if i == j then 0 else (if ltb j i then 0 else n)) ≡ (if ltb j (i + 1) then 0 else n)
      clear n j = ground arith

  free_direct-Direct :
      {v : Volume z} (k i : ℕ) (w : Volume z)
      → IsTree v
      → k + i ≡ 7
      → Direct v i w
      → (w' : Volume z) × (free_direct k i w ≡ ok tt w') × Direct v 7 w'
  unfolding free_direct
  free_direct-Direct {v} zero i w tree e at =
      let done : i ≡ 7 = omega (arith, e) in (w, refl, subst (λ j. Direct v j w) done at)
  free_direct-Direct {v} (suc k) i w tree e at =
      let (w₁, run₁, at₁) = Direct-step i w tree (omega (arith, e)) at in
      let (w₂, run₂, at₂) = free_direct-Direct k (i + 1) w₁ tree (omega (arith, e)) at₁ in
      (w₂, ap (λ r. r >>= λ _ v'. free_direct k (i + 1) v') run₁ ∙ run₂, at₂)

  ind_empty :
      (v : Volume z)
      → zone_at v 7 ≡ 0
      → (s : Slot) → IsSlot s
      → 7 ≤ rank s
      → rank s < 520
      → val v s ≡ 0
  ind_empty v e (zone i) is low high = let here : i ≡ 7 = ground arith in ap (zone_at v) here ∙ e
  ind_empty v e (ind j) is low high = rw e refl
  ind_empty v e (dind h) is low high = absurd (omega arith)
  ind_empty v e (leaf h l) is low high = absurd (omega arith)

  -- The calls of truncate for the indirect blocks.
  free_blocks :
      {v v₁ : Volume z} (bread : ℕ → Bool)
      → ((m : ℕ) → bread m ≡ true)
      → IsTree v
      → Direct v 7 v₁
      → (k : Volume z → Result z (Unit {0}))
      → (zones : z.State) × ((free_ind bread (zone_at v₁ 7) v₁ >>= λ _ v₂.
            free_dind bread (zone_at v₂ 8) v₂ >>= λ _ v₃. k v₃)
          ≡ k (record v₁ { zones = zones }))
        × Freed v 263177 zones
  free_blocks {v} {v₁} bread readable tree at k =
      let seven : zone_at v₁ 7 ≡ zone_at v 7 = at.entries 7 in
      let (zones₂, run₂, freed₂) =
        free_ind-Freed tree bread readable v₁ 7 (zone 7) ind (zone_at v₁ 7) (omega arith) refl
          (sym seven) (λ i h. (h, refl, ap (λ b. entry v b i) (sym seven)))
          (λ e. ind_empty v (sym seven ∙ e)) at.words at.freed in
      let (zones₃, run₃, freed₃) =
        free_dind-Freed tree bread readable (record v₁ { zones = zones₂ }) (zone_at v₁ 8)
          (sym (at.entries 8)) at.words freed₂ in
      (
        zones₃,
        ap (λ r. r >>= λ _ v₂. free_dind bread (zone_at v₂ 8) v₂ >>= λ _ v₃. k v₃) run₂
            ∙ ap (λ r. r >>= λ _ v₃. k v₃) run₃,
        freed₃,
      )

  -- What truncate promises.
  pub record Truncated (v v' : Volume z) : Type 0 where
    pub tree : IsTree v'
    pub empty : (s : Slot) → IsSlot s → val v' s ≡ 0
    pub size : v'.inode.i_size ≡ 0
    pub dirty : v'.inode.i_dirt ≡ true
    pub freed :
        (s : Slot) → IsSlot s → val v s ≢ 0 → z.is_used v'.zones (val v s) ≡ z.held (val v s)
    pub others :
        (m : ℕ)
        → ((s : Slot) → IsSlot s → val v s ≢ 0 → val v s ≢ m)
        → z.is_used v'.zones m ≡ z.is_used v.zones m

  -- The rest of truncate.
  abbrev done : Volume z → Volume z
  done w =
      let w' = set_zone 8 0 (set_zone 7 0 w) in
      record w' { inode = record w'.inode { i_size = 0; i_dirt = true } }

  abbrev finish : Volume z → Result z (Unit {0})
  finish w = ok tt (done w)

  module _ (w : Volume z) (size : length w.inode.i_zone ≡ 9)
      (direct : (j : ℕ) → j < 7 → zone_at w j ≡ 0) where
    zone_at-done : (i : ℕ) → i < 9 → zone_at (done w) i ≡ 0
    zone_at-done i h =
        zone_at-set_zone (set_zone 7 0 w) 8 0 i (omega (arith, length-set w.inode.i_zone 7 0, size))
        ∙ ap (λ n. if 8 == i then 0 else n) (zone_at-set_zone w 7 0 i (omega (arith, size)))
        ∙ others (Bool-cases (ltb i 7))
      where
        others :
            (ltb i 7 ≡ true) ⊎ (ltb i 7 ≡ false)
            → (if 8 == i then 0 else (if 7 == i then 0 else zone_at w i)) ≡ 0
        others (inl low) = ground (arith, direct i)
        others (inr high) = ground arith

    done-empty : (s : Slot) → IsSlot s → val (done w) s ≡ 0
    done-empty (zone i) is = zone_at-done i is
    done-empty (ind j) is = entry_zero (done w) j (zone_at-done 7 (omega arith))
    done-empty (dind h) is = entry_zero (done w) h (zone_at-done 8 (omega arith))
    done-empty (leaf h l) is =
        entry_zero (done w) l (entry_zero (done w) h (zone_at-done 8 (omega arith)))

  done-Truncated :
      {v w : Volume z} {zones : z.State}
      → IsTree v
      → Direct v 7 w
      → Freed v 263177 zones
      → Truncated v (done (record w { zones = zones }))
  done-Truncated {v} {w} {zones} tree at freed = record {
    tree = record {
      ok = freed.is_ok;
      size = length-set (set w.inode.i_zone 7 0) 8 0 ∙ length-set w.inode.i_zone 7 0 ∙ at.size;
      in_use = λ s is p. absurd (p (empty s is));
      distinct = λ s t is it p e. absurd (p (empty s is));
    };
    empty = empty;
    size = refl;
    dirty = refl;
    freed = λ s is p. freed.slots s is p ∙ ap (λ c. c || z.held (val v s)) (below s is);
    others = freed.rest;
  }
    where
      empty : (s : Slot) → IsSlot s → val (done (record w { zones = zones })) s ≡ 0
      empty = done-empty (record w { zones = zones }) at.size (λ j h. at.entries j ∙ ground arith)

      below : (s : Slot) → IsSlot s → leb 263177 (rank s) ≡ false
      below (zone i) is = ground arith
      below (ind j) is = ground arith
      below (dind h) is = ground arith
      below (leaf h l) is = ground arith

-- If all blocks can be read and every zone of a regular file or directory is in use and stands in one
-- place, then truncate does not panic. Afterwards a zone of the inode, the indirect blocks included, is
-- free if it is not held, and still in use if it is held, since a buffer of it has another user; every
-- other zone is as it was, and the inode has no zone left and the size 0.
pub truncate-Truncated :
    {z : ZoneMap} (bread : ℕ → Bool) (v : Volume z)
    → ((m : ℕ) → bread m ≡ true)
    → IsTree v
    → (s_isreg v.inode.i_mode || s_isdir v.inode.i_mode) ≡ true
    → (v' : Volume z) × (truncate bread v ≡ ok tt v') × Truncated v v'
unfolding truncate
truncate-Truncated {z} bread v readable tree mode =
    let start : Direct v 0 v = record {
      words = refl;
      size = tree.size;
      entries = λ j. ground arith;
      freed = Freed-zero tree;
    } in
    let (v₁, run₁, at₁) = free_direct-Direct 7 0 v tree refl start in
    let (zones, run, freed) = free_blocks bread readable tree at₁ finish in
    let after : truncate bread v ≡ finish (record v₁ { zones = zones }) =
      if_true _ _ mode ∙ ap (λ r. r >>= λ _ w. rest w) run₁ ∙ run in
    (done (record v₁ { zones = zones }), after, done-Truncated tree at₁ freed)
  where
    rest : Volume z → Result z (Unit {0})
    rest w = free_ind bread (zone_at w 7) w >>= λ _ v₂.
        free_dind bread (zone_at v₂ 8) v₂ >>= λ _ v₃. finish v₃
