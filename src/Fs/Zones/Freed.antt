-- ===== src/Fs/Zones/Freed.antt =====
-- The order in which truncate frees the zones of an inode, and how far it is.
use linux.Common.{
  ℕ, ◌+◌, ◌*◌, ◌≤◌, ◌<◌, ◌≡◌, refl, ◌≢◌, ◌⊎◌, inl, inr, Bool, true, false, not, ◌&&◌, ◌||◌, arith,
  ltb, leb, ◌==◌, ==_iff, if◌then◌else◌, Bool-cases, sym, ap, ◌∙◌, some,
}
use linux.Fs.ZoneMap.{ZoneMap}
use linux.Fs.Zones.{Volume, Result, ok}
use linux.Fs.Zones.Slots.{Slot, zone, ind, dind, leaf, IsSlot, same, same-eq, val, IsTree}

-- The direct zones, the entries of the indirect block and that block, and for each entry of the double
-- indirect block the entries of the block it names and that block, before the double indirect block.
abbrev pub rank : Slot → ℕ
rank (zone i) = if ltb i 7 then i else if i == 7 then 519 else 263176
rank (ind j) = 7 + j
rank (leaf h l) = 520 + h * 513 + l
rank (dind h) = 520 + h * 513 + 512

pub rank-same : (s t : Slot) → IsSlot s → IsSlot t → (rank s == rank t) ≡ same s t
rank-same (zone i) (zone j) is it = ground arith
rank-same (zone i) (ind j) is it = ground arith
rank-same (zone i) (leaf h l) is it = ground arith
rank-same (zone i) (dind h) is it = ground arith
rank-same (ind i) (zone j) is it = ground arith
rank-same (ind i) (ind j) is it = ground arith
rank-same (ind i) (leaf h l) is it = ground arith
rank-same (ind i) (dind h) is it = ground arith
rank-same (leaf g k) (zone j) is it = ground arith
rank-same (leaf g k) (ind j) is it = ground arith
rank-same (leaf g k) (leaf h l) is it = ground arith
rank-same (leaf g k) (dind h) is it = ground arith
rank-same (dind g) (zone j) is it = ground arith
rank-same (dind g) (ind j) is it = ground arith
rank-same (dind g) (leaf h l) is it = ground arith
rank-same (dind g) (dind h) is it = ground arith

module _ {z : ZoneMap} where
  -- The zones of `v` in the places of a rank below `k` are free unless they are held, the others are as
  -- they were.
  pub record Freed (v : Volume z) (k : ℕ) (zones : z.State) : Type 0 where
    pub is_ok : z.IsOk zones
    pub slots :
        (t : Slot)
        → IsSlot t
        → val v t ≢ 0
        → z.is_used zones (val v t) ≡ (leb k (rank t) || z.held (val v t))
    pub rest :
        (m : ℕ)
        → ((t : Slot) → IsSlot t → val v t ≢ 0 → val v t ≢ m)
        → z.is_used zones m ≡ z.is_used v.zones m

  pub Freed-zero : {v : Volume z} → IsTree v → Freed v 0 v.zones
  Freed-zero tree = record {
    is_ok = tree.ok;
    slots = λ t it p. tree.in_use t it p ∙ ground arith;
    rest = λ m h. refl;
  }

  pub Freed-skip :
      {v : Volume z} {k : ℕ} {zones : z.State} (k' : ℕ)
      → Freed v k zones
      → k ≤ k'
      → ((t : Slot) → IsSlot t → k ≤ rank t → rank t < k' → val v t ≡ 0)
      → Freed v k' zones
  Freed-skip {v} {k} k' freed h empty = record {
    is_ok = freed.is_ok;
    slots = λ t it p.
        freed.slots t it p
        ∙ ap (λ c. c || z.held (val v t)) (between t it p (Bool-cases (leb k (rank t))));
    rest = freed.rest;
  }
    where
      between :
          (t : Slot)
          → IsSlot t
          → val v t ≢ 0
          → (leb k (rank t) ≡ true) ⊎ (leb k (rank t) ≡ false)
          → leb k (rank t) ≡ leb k' (rank t)
      between t it p (inr low) = ground arith
      between t it p (inl high) = elim (Bool-cases (leb k' (rank t))) [
        | inl higher ↦ high ∙ sym higher
        | inr lower ↦ absurd (p (empty t it (ground arith) (ground arith)))
      ]

  pub Freed-next :
      {v : Volume z} {k : ℕ} {zones : z.State} (s : Slot)
      → IsTree v
      → IsSlot s
      → rank s ≡ k
      → Freed v k zones
      → val v s ≢ 0
      → (zones' : z.State) × (z.give_zone (val v s) zones ≡ some zones') × Freed v (k + 1) zones'
  Freed-next {v} {k} {zones} s tree is e freed p =
      let in_use : z.is_used zones (val v s) ≡ true = freed.slots s is p ∙ ground arith in
      let (zones', run, ok', used) = z.give_zone-used zones (val v s) freed.is_ok in_use in
      (
        zones',
        run,
        record {
          is_ok = ok';
          slots = λ t it q.
              used (val v t)
              ∙ rw (freed.slots t it q) (rw (number t it, e) (up_to (rank t) (z.held (val v t))));
          rest = λ m h.
              used m ∙ rw (freed.rest m h, apart m (h s is p)) (and_true (z.is_used v.zones m));
        },
      )
    where
      up_to : (r : ℕ) (h : Bool) → ((leb k r || h) && (not (k == r) || h)) ≡ (leb (k + 1) r || h)
      up_to r true = ground arith
      up_to r false = ground arith

      and_true : (b : Bool) → (b && true) ≡ b
      and_true true = refl
      and_true false = refl

      apart : (m : ℕ) → val v s ≢ m → (val v s == m) ≡ false
      apart m q = ground arith

      number : (t : Slot) → IsSlot t → (val v s == val v t) ≡ (rank s == rank t)
      number t it = elim (Bool-cases (same s t)) [
        | inl here ↦ rw (← same-eq s t here) ((==_iff _ _).1 refl ∙ sym ((==_iff _ _).1 refl))
        | inr other ↦
            apart (val v t) (λ q. differ (sym (tree.distinct s t is it p q) ∙ other))
            ∙ sym (rank-same s t is it ∙ other)
      ]
        where
          differ : true ≡ false → ⊥
          differ q = cc

  -- A call on a volume with the blocks of `v` frees the places up to the rank `k`.
  abbrev pub Frees : (v : Volume z) → ℕ → Volume z → Result z (Unit {0}) → Type 0
  Frees v k w r = (zones : z.State) × (r ≡ ok tt (record w { zones = zones })) × Freed v k zones
