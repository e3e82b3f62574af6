-- ===== src/Fs/Zones/FreeBlocks.antt =====
-- The calls of truncate that free an indirect block and the double indirect block.
use linux.Common.{
  ℕ, zero, suc, ◌+◌, ◌*◌, ◌≤◌, ◌<◌, ◌≡◌, refl, ◌≢◌, inl, inr, Bool, true, false, arith, ◌==◌,
  ==_iff, if◌then◌else◌, Bool-cases, sym, ap, ◌∙◌, some, subst,
}
use linux.Fs.ZoneMap.{ZoneMap}
use linux.Fs.Zones.{Volume, Result, ok, ◌>>=◌, zone_at, give_back, each_word, free_ind, free_dind}
use linux.Fs.Zones.Slots.{Slot, zone, ind, dind, leaf, IsSlot, same-eq, entry, val, IsTree}
use linux.Fs.Zones.Freed.{rank, rank-same, Freed, Freed-skip, Freed-next, Frees}

pub if_true : {A : Type 0} {c : Bool} (x y : A) → c ≡ true → (if c then x else y) ≡ x
if_true x y e = rw e refl

module _ {z : ZoneMap} where
  pub entry_zero : (v : Volume z) (l : ℕ) {b : ℕ} → b ≡ 0 → entry v b l ≡ 0
  entry_zero v l e = rw e refl

  if_there :
      {c d : Bool} (x y r : Result z (Unit {0})) (k : Unit {0} → Volume z → Result z (Unit {0}))
      → c ≡ false
      → d ≡ true
      → (if c then x else (if d then r else y) >>= k) ≡ (r >>= k)
  if_there x y r k e f = rw (e, f) refl

  free_ind-zero :
      (bread : ℕ → Bool) (n : ℕ) (w : Volume z)
      → (if n == 0 then ok tt w else free_ind bread n w) ≡ free_ind bread n w
  unfolding free_ind
  free_ind-zero bread n w = elim (Bool-cases (n == 0)) [ inl e ↦ rw e refl | inr e ↦ rw e refl ]

  module _ {v : Volume z} (tree : IsTree v) where
    pub give_back-Freed :
        (w : Volume z) {k : ℕ} (s : Slot) (n : ℕ)
        → IsSlot s
        → rank s ≡ k
        → val v s ≡ n
        → n ≢ 0
        → Freed v k w.zones
        → Frees v (k + 1) w (give_back n w)
    unfolding give_back
    give_back-Freed w s n is e at p freed =
        let (zones', run, freed') = Freed-next s tree is e freed (λ q. p (sym at ∙ q)) in
        let run' : z.give_zone n w.zones ≡ some zones' =
          ap (λ m. z.give_zone m w.zones) (sym at) ∙ run in
        (zones', rw (give_back, run') refl, freed')

    pub each_word-Freed :
        (f : ℕ → Volume z → Result z (Unit {0})) (b base stride : ℕ)
        → ((i : ℕ) (w : Volume z)
            → i < 512
            → w.word ≡ v.word
            → Freed v (base + i * stride) w.zones
            → Frees v
                (base + (i + 1) * stride)
                w
                (if v.word b i == 0 then ok tt w else f (v.word b i) w))
        → (k i : ℕ) (w : Volume z) → k + i ≡ 512
        → w.word ≡ v.word
        → Freed v (base + i * stride) w.zones
        → Frees v (base + 512 * stride) w (each_word f b k i w)
    unfolding each_word
    each_word-Freed f b base stride one zero i w e same_word freed =
        let done : i ≡ 512 = omega (arith, e) in
        (w.zones, refl, subst (λ j. Freed v (base + j * stride) w.zones) done freed)
    each_word-Freed f b base stride one (suc k) i w e same_word freed =
        let (zones₁, run₁, freed₁) = one i w (omega arith) same_word freed in
        let (zones₂, run₂, freed₂) =
          each_word-Freed f b base stride one k (i + 1) (record w { zones = zones₁ })
            (omega (arith, e)) same_word freed₁ in
        let head = ap (λ g. if g b i == 0 then ok tt w else f (g b i) w) same_word ∙ run₁ in
        (zones₂, ap (λ r. r >>= λ _ w'. each_word f b k (i + 1) w') head ∙ run₂, freed₂)

    pub entry-Freed :
        (w : Volume z) {k : ℕ} (s : Slot) (n : ℕ)
        → IsSlot s
        → rank s ≡ k
        → val v s ≡ n
        → Freed v k w.zones
        → Frees v (k + 1) w (if n == 0 then ok tt w else give_back n w)
    entry-Freed w {k} s n is e at freed = elim (Bool-cases (n == 0)) [
      | inl none_there ↦ (
        w.zones,
        rw none_there refl,
        Freed-skip (k + 1) freed (omega arith) (λ t it low high.
            ap (val v)
              (sym (same-eq s t (sym (rank-same s t is it) ∙ (==_iff _ _).1 (omega (arith, e)))))
            ∙ at
            ∙ (==_iff _ _).0 none_there),
      )
      | inr there ↦
          let (zones, run, freed') = give_back-Freed w s n is e at (ground arith) freed in
          (zones, rw there run, freed')
    ]

    each_entry :
        (base : ℕ) (t : ℕ → Slot) (b : ℕ)
        → b ≢ 0
        → ((i : ℕ) → i < 512 → IsSlot (t i) × (rank (t i) ≡ base + i) × (val v (t i) ≡ entry v b i))
        → (i : ℕ) (w : Volume z) → i < 512
        → w.word ≡ v.word
        → Freed v (base + i * 1) w.zones
        → Frees v
            (base + (i + 1) * 1)
            w
            (if v.word b i == 0 then ok tt w else give_back (v.word b i) w)
    each_entry base t b there entries i w h same_word freed =
        let (is_i, rank_i, val_i) = entries i h in
        let full : (b == 0) ≡ false = ground arith in
        let now : val v (t i) ≡ v.word b i = val_i ∙ rw full refl in
        let rank_here : rank (t i) ≡ base + i * 1 = rank_i ∙ omega arith in
        let (zones, run, freed₂) = entry-Freed w (t i) (v.word b i) is_i rank_here now freed in
        (zones, run, subst (λ k. Freed v k zones) (omega arith) freed₂)

    -- A block of 512 entries in the places `t`, itself in the place `c`.
    pub free_ind-Freed :
        (bread : ℕ → Bool)
        → ((m : ℕ) → bread m ≡ true)
        → (w : Volume z) (base : ℕ) (c : Slot) (t : ℕ → Slot) (b : ℕ) → IsSlot c
        → rank c ≡ base + 512
        → val v c ≡ b
        → ((i : ℕ) → i < 512 → IsSlot (t i) × (rank (t i) ≡ base + i) × (val v (t i) ≡ entry v b i))
        → (b ≡ 0 → (s : Slot) → IsSlot s → base ≤ rank s → rank s < base + 513 → val v s ≡ 0)
        → w.word ≡ v.word
        → Freed v base w.zones
        → Frees v (base + 513) w (free_ind bread b w)
    unfolding free_ind
    free_ind-Freed bread readable w base c t b is e at entries empty same_word freed =
        elim (Bool-cases (b == 0)) [
          | inl none_there ↦ (
            w.zones,
            rw none_there refl,
            Freed-skip (base + 513) freed (omega arith) (empty ((==_iff _ _).0 none_there)),
          )
          | inr there ↦
              let (zones₁, run₁, freed₁) =
                each_word-Freed give_back b base 1 (each_entry base t b (ground arith) entries) 512
                  0 w (omega arith) same_word
                  (subst (λ k. Freed v k w.zones) (omega arith) freed) in
              let (zones₂, run₂, freed₂) =
                give_back-Freed (record w { zones = zones₁ }) c b is e at (ground arith)
                  (subst (λ k. Freed v k zones₁) (omega arith) freed₁) in
              (
                zones₂,
                rw (there, readable b) (ap (λ r. r >>= λ _ w'. give_back b w') run₁ ∙ run₂),
                subst (λ k. Freed v k zones₂) (omega arith) freed₂,
              )
        ]

    dind_empty : zone_at v 8 ≡ 0 → (s : Slot) → IsSlot s → 520 ≤ rank s → val v s ≡ 0
    dind_empty e (zone i) is low = ap (zone_at v) (ground arith) ∙ e
    dind_empty e (ind j) is low = absurd (omega (arith, is))
    dind_empty e (dind h) is low = rw e refl
    dind_empty e (leaf h l) is low = rw e refl

    leaf_empty :
        (h : ℕ)
        → h < 512
        → val v (dind h) ≡ 0
        → (s : Slot) → IsSlot s
        → 520 + h * 513 ≤ rank s
        → rank s < 520 + h * 513 + 513
        → val v s ≡ 0
    leaf_empty h ih e (zone i) is low high = absurd (ground arith)
    leaf_empty h ih e (ind j) is low high = absurd (omega (arith, is))
    leaf_empty h ih e (dind g) is low high = let here : g ≡ h = omega arith in rw here e
    leaf_empty h ih e (leaf g l) is low high =
        let here : g ≡ h = omega (arith, is.1) in entry_zero v l (ap (λ k. val v (dind k)) here ∙ e)

    each_ind :
        (bread : ℕ → Bool)
        → ((m : ℕ) → bread m ≡ true)
        → (b : ℕ) → zone_at v 8 ≡ b
        → b ≢ 0
        → (h : ℕ) (w : Volume z) → h < 512
        → w.word ≡ v.word
        → Freed v (520 + h * 513) w.zones
        → Frees v
            (520 + (h + 1) * 513)
            w
            (if v.word b h == 0 then ok tt w else free_ind bread (v.word b h) w)
    each_ind bread readable b at there h w ih same_word freed =
        let full : (b == 0) ≡ false = ground arith in
        let now : val v (dind h) ≡ v.word b h = rw at (rw full refl) in
        let (zones, run, freed₂) =
          free_ind-Freed bread readable w (520 + h * 513) (dind h) (leaf h) (v.word b h) ih
            (omega arith) now (λ i il. ((ih, il), refl, ap (λ d. entry v d i) now))
            (λ e. leaf_empty h ih (now ∙ e)) same_word freed in
        (
          zones,
          free_ind-zero bread (v.word b h) w ∙ run,
          subst (λ k. Freed v k zones) (omega arith) freed₂,
        )

    pub free_dind-Freed :
        (bread : ℕ → Bool)
        → ((m : ℕ) → bread m ≡ true)
        → (w : Volume z) (b : ℕ) → zone_at v 8 ≡ b
        → w.word ≡ v.word
        → Freed v 520 w.zones
        → Frees v 263177 w (free_dind bread b w)
    unfolding free_dind
    free_dind-Freed bread readable w b at same_word freed = elim (Bool-cases (b == 0)) [
      | inl none_there ↦ (
        w.zones,
        if_true _ _ none_there,
        Freed-skip 263177 freed (omega arith)
            (λ s is low high. dind_empty (at ∙ (==_iff _ _).0 none_there) s is low),
      )
      | inr there ↦
          let (zones₁, run₁, freed₁) =
            each_word-Freed (free_ind bread) b 520 513 (each_ind bread readable b at (ground arith))
              512 0 w (omega arith) same_word
              (subst (λ k. Freed v k w.zones) (omega arith) freed) in
          let (zones₂, run₂, freed₂) =
            give_back-Freed (record w { zones = zones₁ }) (zone 8) b (omega arith) refl at
              (ground arith) (subst (λ k. Freed v k zones₁) (omega arith) freed₁) in
          (
            zones₂,
            if_there _ _ _ _ there (readable b)
                ∙ (ap (λ r. r >>= λ _ w'. give_back b w') run₁ ∙ run₂),
            subst (λ k. Freed v k zones₂) (omega arith) freed₂,
          )
    ]
