-- ===== src/Fs/Zones/Create.antt =====
-- create_block and bmap: which zone a block of a file has.
use linux.Common.{
  ℕ, ◌-◌, ◌/◌, ◌%◌, ◌<◌, ◌≡◌, refl, ◌≢◌, ◌⊎◌, inl, inr, Bool, true, false, ◌||◌, arith, ltb, leb,
  ◌==◌, Bool-cases, sym, ap, ◌∙◌,
}
use linux.Common.Word.{is_neg}
use linux.Fs.ZoneMap.{ZoneMap}
use linux.Fs.Zones.{
  Volume, Result, ok, panic, ◌>>=◌, zone_at, fill, fill_word, bmap_create, bmap, create_block,
}
use linux.Fs.Zones.Slots.{same, entry, val, IsTree}
use linux.Fs.Zones.Steps.{
  limit, slot_of, slot_of-IsSlot, slot_of-same, Got, NoneLeft, Step-Got, zone-Step, indirect,
  double,
}

in_range : (b : ℕ) → b < limit → (is_neg b || leb limit b) ≡ false
in_range b h = ground arith

module _ {z : ZoneMap} where
  module _ (bread : ℕ → Bool) (readable : (c : ℕ) → bread c ≡ true) where
    fill_word-entry : (v : Volume z) (b i : ℕ) → fill_word bread false b i v ≡ ok (entry v b i) v
    unfolding fill_word fill
    fill_word-entry v b i = elim (Bool-cases (b == 0)) [
      | inl e ↦ rw e refl
      | inr e ↦ rw (e, readable b) refl
    ]

    bmap-val : (v : Volume z) (b : ℕ) → b < limit → bmap bread b v ≡ ok (val v (slot_of b)) v
    unfolding bmap bmap_create fill fill_word
    bmap-val v b h = elim (Bool-cases (ltb b 7)) [
      | inl direct ↦ rw (in_range b h, direct) refl
      | inr far ↦ elim (Bool-cases (ltb b 519)) [
        | inl near ↦ rw (in_range b h, far, near) (fill_word-entry v (zone_at v 7) (b - 7))
        | inr farther ↦
            rw (in_range b h, far, farther)
              (ap (λ r. r >>= λ c v₂. fill_word bread false c ((b - 519) % 512) v₂)
                  (fill_word-entry v (zone_at v 8) ((b - 519) / 512))
                ∙ fill_word-entry v (entry v (zone_at v 8) ((b - 519) / 512)) ((b - 519) % 512))
      ]
    ]

    create-Got :
        {v : Volume z} (b : ℕ)
        → IsTree v
        → b < limit
        → (n : ℕ) × (v' : Volume z) × (create_block bread b v ≡ ok n v') × Got v (slot_of b) n v'
    unfolding create_block bmap_create
    create-Got {v} b tree h = elim (Bool-cases (ltb b 7)) [
      | inl direct ↦
          let (n, v', run, step) = zone-Step bread readable {v = v} b tree (ground arith) in
          (n, v', rw (in_range b h, direct) run, rw direct (Step-Got step))
      | inr far ↦ elim (Bool-cases (ltb b 519)) [
        | inl near ↦
            let (n, v', run, got) = indirect bread readable {v = v} (b - 7) tree (ground arith) in
            (n, v', rw (in_range b h, far, near) run, rw (far, near) got)
        | inr farther ↦
            let (n, v', run, got) =
              double bread readable {v = v} ((b - 519) / 512) ((b - 519) % 512) tree (ground arith)
                (ground arith) in
            (n, v', rw (in_range b h, far, farther) run, rw (far, farther) got)
      ]
    ]

    value : {v : Volume z} {c m : ℕ} → c < limit → bmap bread c v ≡ ok m v → val v (slot_of c) ≡ m
    value {v} {c} {m} h e = ap number (sym (bmap-val v c h) ∙ e)
      where
        number : Result z ℕ → ℕ
        number (ok k w) = k
        number panic = 0

  -- What create_block promises about block `b`.
  pub record Created (bread : ℕ → Bool) (v : Volume z) (b n : ℕ) (v' : Volume z) : Type 0 where
    pub tree : IsTree v'
    pub mapped : bmap bread b v' ≡ ok n v'
    pub others : (c m : ℕ) → c < limit → c ≢ b → bmap bread c v ≡ ok m v → bmap bread c v' ≡ ok m v'
    pub kept : (m : ℕ) → bmap bread b v ≡ ok m v → m ≢ 0 → n ≡ m
    pub got : (n ≢ 0) ⊎ NoneLeft v'

-- If all blocks can be read and every zone of the inode is in use and stands in one place, then
-- create_block does not panic for a block below 7 + 512 + 512 * 512: bmap finds the zone that it
-- returns for the block afterwards, every other block has the zone it had, a zone that was there is
-- returned, and again every zone of the inode is in use and stands in one place. A block that has no zone
-- gets one: the number returned is 0 only if new_block found no zone, for the block or for an indirect one.
pub create_block-Created :
    {z : ZoneMap} (bread : ℕ → Bool) (v : Volume z) (b : ℕ)
    → ((c : ℕ) → bread c ≡ true)
    → IsTree v
    → b < limit
    → (n : ℕ) × (v' : Volume z) × (create_block bread b v ≡ ok n v') × Created bread v b n v'
create_block-Created bread v b readable tree h =
    let (n, v', run, got) = create-Got bread readable {v = v} b tree h in
    (
      n,
      v',
      run,
      record {
        tree = got.tree;
        mapped = bmap-val bread readable v' b h ∙ ap (λ m. ok m v') got.here;
        others = λ c m hc ne e.
            bmap-val bread readable v' c hc
            ∙ ap (λ k. ok k v')
                (got.others (slot_of c) (slot_of-IsSlot c hc).0 (slot_of-IsSlot c hc).1
                    (apart c hc ne)
                  ∙ value bread readable hc e);
        kept = λ m e p. let was = value bread readable h e in got.kept (λ q. p (sym was ∙ q)) ∙ was;
        got = got.got;
      },
    )
  where
    apart : (c : ℕ) → c < limit → c ≢ b → same (slot_of b) (slot_of c) ≡ false
    apart c hc ne = elim (Bool-cases (same (slot_of b) (slot_of c))) [
      | inr d ↦ d
      | inl e ↦ absurd (ne (sym (slot_of-same b c h hc e)))
    ]
