-- ===== src/Fs/Zones/Place.antt =====
-- A new zone in a place that names none changes that place alone.
use linux.Common.{
  ℕ, ◌<◌, ◌≡◌, refl, ◌≢◌, ◌⊎◌, inl, inr, Bool, true, false, ◌&&◌, ◌||◌, arith, ◌==◌, ==_iff,
  if◌then◌else◌, Bool-cases, length, length-set, get_or-set_self, get_or-set_ne, sym, ap, ◌∙◌,
}
use linux.Fs.ZoneMap.{ZoneMap}
use linux.Fs.Zones.{Volume, zone_at, set_zone, set_word}
use linux.Fs.Zones.Slots.{
  Slot, zone, ind, dind, leaf, IsSlot, same, same-eq, same_refl, entry, val, put, HasPlace, IsTree,
  cleared,
}

module _ {z : ZoneMap} where
  module _ {v : Volume z} (tree : IsTree v) {n : ℕ} (zones : z.State) (some_zone : n ≢ 0)
      (free : z.is_used v.zones n ≡ false) where
    fresh : (t : Slot) → IsSlot t → val v t ≢ n
    fresh t is e = no (rw e at (tree.in_use t is (λ q. some_zone (sym e ∙ q)))) free
      where
        no : {b : Bool} → b ≡ true → b ≡ false → ⊥
        no p q = cc

    abbrev v' : Volume z
    v' = cleared n zones v

    zone_at-set_zone :
        (i j : ℕ) → i < 9 → zone_at (set_zone i n v') j ≡ (if i == j then n else zone_at v j)
    zone_at-set_zone i j h = elim (Bool-cases (i == j)) [
      | inl here ↦
          rw (here, ← ((==_iff i j).0 here))
            (get_or-set_self v.inode.i_zone i n 0 (omega (arith, tree.size)))
      | inr apart ↦
          let ne : i ≢ j = ground arith in
          rw apart (get_or-set_ne v.inode.i_zone {i = i} {j = j} n 0 ne)
    ]

    val-put_zone :
        (i : ℕ)
        → i < 9
        → zone_at v i ≡ 0
        → (t : Slot) → IsSlot t
        → val (put (zone i) n v') t ≡ (if same (zone i) t then n else val v t)
    val-put_zone i h e (zone j) is = zone_at-set_zone i j h
    val-put_zone i h e (ind j) is =
        ground (arith, zone_at-set_zone i 7 h, fresh (zone 7) (omega arith))
    val-put_zone i h e (dind g) is =
        ground (arith, zone_at-set_zone i 8 h, fresh (zone 8) (omega arith))
    val-put_zone i h e (leaf g l) is =
        ground (arith, zone_at-set_zone i 8 h, fresh (zone 8) (omega arith), fresh (dind g) is.0)

    val-put_ind :
        (i : ℕ)
        → i < 512
        → zone_at v 7 ≢ 0
        → val v (ind i) ≡ 0
        → (t : Slot) → IsSlot t
        → val (put (ind i) n v') t ≡ (if same (ind i) t then n else val v t)
    val-put_ind i h p e (zone j) is = refl
    val-put_ind i h p e (ind j) is = ground (arith, fresh (zone 7) (omega arith))
    val-put_ind i h p e (dind g) is = ground (
      arith,
      fresh (zone 8) (omega arith),
      tree.distinct (zone 8) (zone 7) (omega arith) (omega arith),
    )
    val-put_ind i h p e (leaf g l) is = ground (
      arith,
      fresh (zone 8) (omega arith),
      fresh (dind g) is.0,
      tree.distinct (zone 8) (zone 7) (omega arith) (omega arith),
      tree.distinct (dind g) (zone 7) is.0 (omega arith),
    )

    val-put_dind :
        (i : ℕ)
        → i < 512
        → zone_at v 8 ≢ 0
        → val v (dind i) ≡ 0
        → (t : Slot) → IsSlot t
        → val (put (dind i) n v') t ≡ (if same (dind i) t then n else val v t)
    val-put_dind i h p e (zone j) is = refl
    val-put_dind i h p e (ind j) is = ground (
      arith,
      fresh (zone 7) (omega arith),
      tree.distinct (zone 7) (zone 8) (omega arith) (omega arith),
    )
    val-put_dind i h p e (dind g) is = ground (arith, fresh (zone 8) (omega arith))
    val-put_dind i h p e (leaf g l) is = ground (
      arith,
      fresh (zone 8) (omega arith),
      fresh (dind g) is.0,
      tree.distinct (dind g) (zone 8) is.0 (omega arith),
    )

    entry-set_word :
        (b i b' j : ℕ)
        → b ≢ 0
        → b' ≢ n
        → entry (set_word b i n v') b' j ≡ (if (b == b') && (i == j) then n else entry v b' j)
    entry-set_word b i b' j p q = ground arith

    apart :
        (s t : Slot)
        → IsSlot s
        → IsSlot t
        → val v s ≢ 0
        → same s t ≡ false
        → (val v s == val v t) ≡ false
    apart s t is it p d = ground (arith, tree.distinct s t is it)

    pub put_leaf : (i k : ℕ) → put (leaf i k) n v' ≡ set_word (val v (dind i)) k n v'
    put_leaf i k = ap (λ b. set_word b k n v') place
      where
        place : entry v' (zone_at v 8) i ≡ val v (dind i)
        place = ground (arith, fresh (zone 8) (omega arith))

    val-put_leaf_dind :
        (i k : ℕ)
        → i < 512
        → val v (dind i) ≢ 0
        → (g : ℕ) → g < 512
        → val (put (leaf i k) n v') (dind g) ≡ val v (dind g)
    val-put_leaf_dind i k h p g is =
        ap (λ w. val w (dind g)) (put_leaf i k)
        ∙ entry-set_word (val v (dind i)) k (zone_at v 8) g p (fresh (zone 8) (omega arith))
        ∙ rw (apart (dind i) (zone 8) h (omega arith) p refl)

    val-put_leaf :
        (i k : ℕ)
        → i < 512
        → k < 512
        → val v (dind i) ≢ 0
        → (t : Slot) → IsSlot t
        → val (put (leaf i k) n v') t ≡ (if same (leaf i k) t then n else val v t)
    val-put_leaf i k h q p (zone j) is = refl
    val-put_leaf i k h q p (ind j) is =
        ap (λ w. val w (ind j)) (put_leaf i k)
        ∙ entry-set_word (val v (dind i)) k (zone_at v 7) j p (fresh (zone 7) (omega arith))
        ∙ rw (apart (dind i) (zone 7) h (omega arith) p refl)
    val-put_leaf i k h q p (dind g) is = val-put_leaf_dind i k h p g is
    val-put_leaf i k h q p (leaf g l) is =
        let inner = val-put_leaf_dind i k h p g is.0 in
        ap (λ b. entry (put (leaf i k) n v') b l) inner
        ∙ ap (λ w. entry w (val v (dind g)) l) (put_leaf i k)
        ∙ entry-set_word (val v (dind i)) k (val v (dind g)) l p (fresh (dind g) is.0)
        ∙ ap (λ b. if b && (k == l) then n else val v (leaf g l)) (block (Bool-cases (i == g)))
      where
        block :
            ((i == g) ≡ true) ⊎ ((i == g) ≡ false) → (val v (dind i) == val v (dind g)) ≡ (i == g)
        block (inl here) = rw (here, (==_iff i g).0 here) ((==_iff _ _).1 refl)
        block (inr other) = rw other (apart (dind i) (dind g) h is.0 p other)

    val-put :
        (s : Slot)
        → IsSlot s
        → HasPlace v s
        → val v s ≡ 0
        → (t : Slot) → IsSlot t
        → val (put s n v') t ≡ (if same s t then n else val v t)
    val-put (zone i) is has e = val-put_zone i is e
    val-put (ind i) is has e = val-put_ind i is has e
    val-put (dind i) is has e = val-put_dind i is has e
    val-put (leaf i k) is has e = val-put_leaf i k is.0 is.1 has

  size-put :
      (s : Slot) (n : ℕ) (v : Volume z) → length (put s n v).inode.i_zone ≡ length v.inode.i_zone
  size-put (zone i) n v = length-set v.inode.i_zone i n
  size-put (ind i) n v = refl
  size-put (dind i) n v = refl
  size-put (leaf i k) n v = refl

  zones-put : (s : Slot) (n : ℕ) (v : Volume z) → (put s n v).zones ≡ v.zones
  zones-put (zone i) n v = refl
  zones-put (ind i) n v = refl
  zones-put (dind i) n v = refl
  zones-put (leaf i k) n v = refl

module _ {z : ZoneMap} {v : Volume z} (tree : IsTree v) {n : ℕ} {zones : z.State}
    (some_zone : n ≢ 0) (ok_zones : z.IsOk zones) (free : z.is_used v.zones n ≡ false)
    (taken : (m : ℕ) → z.is_used zones m ≡ ((n == m) || z.is_used v.zones m)) (s : Slot)
    (is : IsSlot s) (has : HasPlace v s) (empty : val v s ≡ 0) where
  abbrev pub after : Volume z
  after = put s n (cleared n zones v)

  pub val-after : (t : Slot) → IsSlot t → val after t ≡ (if same s t then n else val v t)
  val-after = val-put tree zones some_zone free s is has empty

  val-after_here : (t : Slot) → IsSlot t → same s t ≡ true → val after t ≡ n
  val-after_here t it h = rw h at (val-after t it)

  val-after_other : (t : Slot) → IsSlot t → same s t ≡ false → val after t ≡ val v t
  val-after_other t it h = rw h at (val-after t it)

  zones-after : after.zones ≡ zones
  zones-after = zones-put s n (cleared n zones v)

  still_used :
      (t : Slot)
      → IsSlot t
      → val after t ≢ 0
      → (same s t ≡ true) ⊎ (same s t ≡ false)
      → z.is_used zones (val after t) ≡ true
  still_used t it p (inl here) =
      rw (val-after_here t it here)
        (taken n ∙ ap (λ b. b || z.is_used v.zones n) ((==_iff n n).1 refl))
  still_used t it p (inr other) =
      let e = val-after_other t it other in
      let old = tree.in_use t it (λ q. p (e ∙ q)) in
      rw e (taken (val v t) ∙ rw old (or_true (n == val v t)))
    where
      or_true : (b : Bool) → (b || true) ≡ true
      or_true true = refl
      or_true false = refl

  still_distinct :
      (t u : Slot)
      → IsSlot t
      → IsSlot u
      → val after t ≢ 0
      → val after t ≡ val after u
      → (same s t ≡ true) ⊎ (same s t ≡ false)
      → (same s u ≡ true) ⊎ (same s u ≡ false)
      → same t u ≡ true
  still_distinct t u it iu p e (inl st) (inl su) =
      rw (← same-eq s t st, ← same-eq s u su) (same_refl s)
  still_distinct t u it iu p e (inl st) (inr su) = absurd (
      fresh tree zones some_zone free u iu
        (sym (val-after_other u iu su) ∙ sym e ∙ val-after_here t it st))
  still_distinct t u it iu p e (inr st) (inl su) = absurd (
      fresh tree zones some_zone free t it
        (sym (val-after_other t it st) ∙ e ∙ val-after_here u iu su))
  still_distinct t u it iu p e (inr st) (inr su) =
      let et = val-after_other t it st in
      let eu = val-after_other u iu su in
      tree.distinct t u it iu (λ q. p (et ∙ q)) (sym et ∙ e ∙ eu)

  -- A new zone in a place keeps the rest of the tree as it was.
  pub put-IsTree : IsTree after
  put-IsTree = record {
    ok = rw zones-after ok_zones;
    size = size-put s n (cleared n zones v) ∙ tree.size;
    in_use = λ t it p. rw zones-after (still_used t it p (Bool-cases (same s t)));
    distinct = λ t u it iu p e.
        still_distinct t u it iu p e (Bool-cases (same s t)) (Bool-cases (same s u));
  }
