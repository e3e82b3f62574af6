-- ===== src/Fs/Zones/Steps.antt =====
-- The steps of create_block: a place that has no zone gets one.
use linux.Common.{
  ℕ, ◌+◌, ◌-◌, ◌*◌, ◌/◌, ◌%◌, ◌<◌, ◌≡◌, refl, ◌≢◌, ◌⊎◌, inl, inr, Bool, true, false, arith, ltb,
  ◌==◌, ==_iff, if◌then◌else◌, Bool-cases, sym, ap, ◌∙◌, some,
}
use linux.Fs.ZoneMap.{ZoneMap}
use linux.Fs.Zones.{Volume, ok, ◌>>=◌, zone_at, set_zone, set_word, take_block, fill, fill_word}
use linux.Fs.Zones.Slots.{
  Slot, zone, ind, dind, leaf, IsSlot, same, same-eq, same_refl, entry, val, put, HasPlace, IsTree,
  cleared,
}
use linux.Fs.Zones.Place.{put_leaf, val-after, put-IsTree}

abbrev pub limit : ℕ
limit = 7 + 512 + 512 * 512

-- The place of block `block` of a file.
abbrev pub slot_of : ℕ → Slot
slot_of block =
    if ltb block 7
    then zone block
    else if ltb block 519
    then ind (block - 7)
    else leaf ((block - 519) / 512) ((block - 519) % 512)

-- The places that name blocks of the file.
abbrev pub is_data : Slot → Bool
is_data (zone i) = ltb i 7
is_data (ind j) = true
is_data (dind h) = false
is_data (leaf h l) = true

pub slot_of-IsSlot : (b : ℕ) → b < limit → IsSlot (slot_of b) × (is_data (slot_of b) ≡ true)
slot_of-IsSlot b h = ground arith

pub slot_of-same : (a b : ℕ) → a < limit → b < limit → same (slot_of a) (slot_of b) ≡ true → a ≡ b
slot_of-same a b h k e = ground arith

module _ {z : ZoneMap} where
  -- The zones of `v` are what new_block left when it found no zone.
  abbrev pub NoneLeft : Volume z → Type 0
  NoneLeft v = (before : z.State) × (z.take_zone before ≡ some (0, v.zones))

  -- The place `s` has got the zone `n`, or had it.
  pub record Step (v : Volume z) (s : Slot) (n : ℕ) (v' : Volume z) : Type 0 where
    pub tree : IsTree v'
    pub here : val v' s ≡ n
    pub others : (t : Slot) → IsSlot t → same s t ≡ false → val v' t ≡ val v t
    pub kept : val v s ≢ 0 → n ≡ val v s
    pub got : (n ≢ 0) ⊎ NoneLeft v'

  val-zones :
      (v : Volume z) (zones : z.State) (s : Slot) → val (record v { zones = zones }) s ≡ val v s
  val-zones v zones (zone i) = refl
  val-zones v zones (ind i) = refl
  val-zones v zones (dind i) = refl
  val-zones v zones (leaf i k) = refl

  IsTree-zones :
      {v : Volume z} {zones : z.State}
      → IsTree v
      → z.IsOk zones
      → ((m : ℕ) → z.is_used zones m ≡ z.is_used v.zones m)
      → IsTree (record v { zones = zones })
  IsTree-zones {v} {zones} tree ok_zones same_used = record {
    ok = ok_zones;
    size = tree.size;
    in_use = λ s is p.
        rw (val-zones v zones s)
          (same_used (val v s) ∙ tree.in_use s is (λ q. p (val-zones v zones s ∙ q)));
    distinct = λ s t is it p e.
        tree.distinct s t is it (λ q. p (val-zones v zones s ∙ q))
          (sym (val-zones v zones s) ∙ e ∙ val-zones v zones t);
  }

  fill_takes :
      (v : Volume z) (e : ℕ) (store : ℕ → Volume z → Volume z) (n : ℕ) (zones : z.State)
      → (e == 0) ≡ true
      → z.take_zone v.zones ≡ some (n, zones)
      → n ≢ 0
      → fill true e store v ≡ ok n (store n (cleared n zones v))
  unfolding fill
  fill_takes v e store n zones free new some_zone =
      let nz : (n == 0) ≡ false = ground arith in rw (free, take_block, new, nz) (rw nz refl)

  fill-Step :
      {v : Volume z} (s : Slot) (store : ℕ → Volume z → Volume z)
      → IsTree v
      → IsSlot s
      → HasPlace v s
      → ((n : ℕ) (zones : z.State)
          → n ≢ 0
          → z.is_used v.zones n ≡ false
          → store n (cleared n zones v) ≡ put s n (cleared n zones v))
      → (n : ℕ) × (v' : Volume z) × (fill true (val v s) store v ≡ ok n v') × Step v s n v'
  unfolding fill
  fill-Step {v} s store tree is has agree = elim (Bool-cases (val v s == 0)) [
    | inr full ↦ (
      val v s,
      v,
      rw full refl,
      record {
        tree = tree;
        here = refl;
        others = λ t it d. refl;
        kept = λ p. refl;
        got = inl (λ q. absurd (ground (arith, full, q)));
      },
    )
    | inl free ↦
        let empty : val v s ≡ 0 = (==_iff _ _).0 free in
        let (n, zones, e, ok_zones, how) = z.take_zone-lem v.zones tree.ok in
        elim how [
          | inr (n_zero, used) ↦ (
            0,
            record v { zones = zones },
            rw (free, take_block, e, n_zero) refl,
            record {
              tree = IsTree-zones tree ok_zones used;
              here = val-zones v zones s ∙ empty;
              others = λ t it d. val-zones v zones t;
              kept = λ p. absurd (p empty);
              got = inr (v.zones, e ∙ ap (λ k. some (k, zones)) n_zero);
            },
          )
          | inl (some_zone, unused, used) ↦ (
            n,
            put s n (cleared n zones v),
            fill_takes v (val v s) store n zones free e some_zone
                ∙ ap (ok n) (agree n zones some_zone unused),
            record {
              tree = put-IsTree tree some_zone ok_zones unused used s is has empty;
              here =
                  rw (same_refl s) at
                    (val-after tree some_zone ok_zones unused used s is has empty s is);
              others = λ t it d.
                  rw d at (val-after tree some_zone ok_zones unused used s is has empty t it);
              kept = λ p. absurd (p empty);
              got = inl some_zone;
            },
          )
        ]
  ]

  word-Step :
      {v : Volume z} (bread : ℕ → Bool) (s : Slot) (b i : ℕ)
      → ((c : ℕ) → bread c ≡ true)
      → IsTree v
      → IsSlot s
      → val v s ≡ entry v b i
      → (b ≢ 0 → HasPlace v s)
      → (b ≢ 0) ⊎ NoneLeft v
      → ((n : ℕ) (zones : z.State)
          → n ≢ 0
          → z.is_used v.zones n ≡ false
          → set_word b i n (cleared n zones v) ≡ put s n (cleared n zones v))
      → (n : ℕ) × (v' : Volume z) × (fill_word bread true b i v ≡ ok n v') × Step v s n v'
  unfolding fill_word
  word-Step {v} bread s b i readable tree is e has named agree = elim (Bool-cases (b == 0)) [
    | inl none_there ↦
        let empty : val v s ≡ 0 = e ∙ rw none_there refl in
        (
          0,
          v,
          rw none_there refl,
          record {
            tree = tree;
            here = empty;
            others = λ t it d. refl;
            kept = λ p. absurd (p empty);
            got = elim named [
              | inl block ↦ absurd (block ((==_iff _ _).0 none_there))
              | inr none_left ↦ inr none_left
            ];
          },
        )
    | inr there ↦
        let ne : b ≢ 0 = ground arith in
        let word : v.word b i ≡ val v s = sym (e ∙ rw there refl) in
        let (n, v', run, step) = fill-Step s (set_word b i) tree is (has ne) agree in
        (n, v', rw (there, readable b) (ap (λ w. fill true w (set_word b i) v) word ∙ run), step)
  ]

  -- The place `s` of a block of the file has got the zone `n`, and the other blocks have the zones they had.
  pub record Got (v : Volume z) (s : Slot) (n : ℕ) (v' : Volume z) : Type 0 where
    pub tree : IsTree v'
    pub here : val v' s ≡ n
    pub others : (t : Slot) → IsSlot t → is_data t ≡ true → same s t ≡ false → val v' t ≡ val v t
    pub kept : val v s ≢ 0 → n ≡ val v s
    pub got : (n ≢ 0) ⊎ NoneLeft v'

  pub Step-Got : {v v' : Volume z} {s : Slot} {n : ℕ} → Step v s n v' → Got v s n v'
  Step-Got step = record {
    tree = step.tree;
    here = step.here;
    others = λ t it dt. step.others t it;
    kept = step.kept;
    got = step.got;
  }

  -- A place that names no block of the file comes first.
  Step-then :
      {v v₁ v' : Volume z} {c s : Slot} {b n : ℕ}
      → Step v c b v₁
      → Got v₁ s n v'
      → is_data c ≡ false
      → IsSlot s
      → is_data s ≡ true
      → Got v s n v'
  Step-then {v} {v₁} {v'} {c} {s} step got pointer is ds = record {
    tree = got.tree;
    here = got.here;
    others = λ t it dt d. got.others t it dt d ∙ step.others t it (apart t dt);
    kept = λ p. let e = step.others s is (apart s ds) in got.kept (λ q. p (sym e ∙ q)) ∙ e;
    got = got.got;
  }
    where
      apart : (t : Slot) → is_data t ≡ true → same c t ≡ false
      apart t dt = elim (Bool-cases (same c t)) [
        | inr d ↦ d
        | inl e ↦ absurd (no (sym pointer ∙ ap is_data (same-eq c t e) ∙ dt))
      ]
        where
          no : false ≡ true → ⊥
          no q = cc

  module _ (bread : ℕ → Bool) (readable : (c : ℕ) → bread c ≡ true) where
    pub zone-Step :
        {v : Volume z} (i : ℕ)
        → IsTree v
        → i < 9
        → (n : ℕ) × (v' : Volume z) × (fill true (zone_at v i) (set_zone i) v ≡ ok n v')
          × Step v (zone i) n v'
    zone-Step i tree h = fill-Step (zone i) (set_zone i) tree h tt (λ n zones p q. refl)

    -- A block named by the indirect block, which comes first.
    pub indirect :
        {v : Volume z} (j : ℕ)
        → IsTree v
        → j < 512
        → (n : ℕ) × (v' : Volume z) × ((fill true (zone_at v 7) (set_zone 7) v >>= λ b v₁.
              fill_word bread true b j v₁)
            ≡ ok n v')
          × Got v (ind j) n v'
    indirect {v} j tree h =
        let (b, v₁, run₁, step₁) = zone-Step {v = v} 7 tree (omega arith) in
        let at : zone_at v₁ 7 ≡ b = step₁.here in
        let (n, v', run, step) =
          word-Step bread (ind j) b j readable step₁.tree h (ap (λ c. entry v₁ c j) at)
            (λ p q. p (sym at ∙ q)) step₁.got
            (λ m zones p q. ap (λ c. set_word c j m (cleared m zones v₁)) (sym at)) in
        (n, v', rw run₁ run, Step-then step₁ (Step-Got step) refl h refl)

    pub double :
        {v : Volume z} (h l : ℕ)
        → IsTree v
        → h < 512
        → l < 512
        → (n : ℕ) × (v' : Volume z) × ((fill true (zone_at v 8) (set_zone 8) v >>= λ b v₁.
              fill_word bread true b h v₁ >>= λ c v₂. fill_word bread true c l v₂)
            ≡ ok n v')
          × Got v (leaf h l) n v'
    double {v} h l tree ih il =
        let (b, v₁, run₁, step₁) = zone-Step {v = v} 8 tree (omega arith) in
        let at₁ : zone_at v₁ 8 ≡ b = step₁.here in
        let (c, v₂, run₂, step₂) =
          word-Step bread (dind h) b h readable step₁.tree ih (ap (λ d. entry v₁ d h) at₁)
            (λ p q. p (sym at₁ ∙ q)) step₁.got
            (λ m zones p q. ap (λ d. set_word d h m (cleared m zones v₁)) (sym at₁)) in
        let at₂ : val v₂ (dind h) ≡ c = step₂.here in
        let (n, v', run, step) =
          word-Step bread (leaf h l) c l readable step₂.tree (ih, il) (ap (λ d. entry v₂ d l) at₂)
            (λ p q. p (sym at₂ ∙ q)) step₂.got
            (λ m zones p q.
              ap (λ d. set_word d l m (cleared m zones v₂)) (sym at₂)
              ∙ sym (put_leaf step₂.tree zones p q h l)) in
        (
          n,
          v',
          rw run₁ (rw run₂ run),
          Step-then step₁ (Step-then step₂ (Step-Got step) refl (ih, il) refl) refl (ih, il) refl,
        )
