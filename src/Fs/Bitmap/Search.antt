-- ===== src/Fs/Bitmap/Search.antt =====
-- The search of new_block for a bit that is 0, and single bits of a map.
use linux.Common.{
  ℕ, zero, suc, ◌+◌, ◌*◌, ◌≤◌, ◌<◌, ◌≡◌, refl, ◌≢◌, ◌⊎◌, inl, inr, Bool, true, false, Option, none,
  some, List, [], ◌∷◌, ◌&&◌, arith, ltb, ◌==◌, ==_iff, if◌then◌else◌, Bool-cases, Option-cases, ap,
  sym, ◌∙◌, length, get_or, set, get_or-set_self, get_or-set_ne,
}
use linux.Fs.Bitmap.{BitBlock, Super, find_first_zero, find_zone, write_bit, bit_at}

-- Every block of the map has its 8192 bits.
pub record IsMap (map : List (Option BitBlock)) : Type 0 where
  pub blocks : length map ≡ 8
  pub size : (i : ℕ) (b : BitBlock) → get_or map i none ≡ some b → length b.bits ≡ 8192

pub find_first_zero-lem :
    (bits : List Bool)
    → find_first_zero bits < length bits
    → (get_or bits (find_first_zero bits) false ≡ false)
      × ((k : ℕ) → k < find_first_zero bits → get_or bits k false ≡ true)
unfolding find_first_zero
find_first_zero-lem [] h = absurd (omega arith)
find_first_zero-lem (true ∷ bits) h =
    let (here, before) = find_first_zero-lem bits (omega arith) in (here, upto before)
  where
    upto :
        ((k : ℕ) → k < find_first_zero bits → get_or bits k false ≡ true)
        → (k : ℕ) → k < suc (find_first_zero bits)
        → get_or (true ∷ bits) k false ≡ true
    upto before zero l = refl
    upto before (suc k) l = before k (omega arith)
find_first_zero-lem (false ∷ bits) h = (refl, λ k l. absurd (omega arith))

-- A zone of the data area whose bit was the first one that is 0.
pub record Found (map : List (Option BitBlock)) (i j : ℕ) : Type 0 where
  pub block : BitBlock
  pub there : get_or map i none ≡ some block
  pub inside : j < 8192
  pub place : i < 8
  pub was_free : get_or block.bits j false ≡ false
  pub first : (k : ℕ) → k < j → get_or block.bits k false ≡ true

pub find_zone-Found :
    (map : List (Option BitBlock)) (n i₀ : ℕ) {i j : ℕ}
    → IsMap map
    → n + i₀ ≤ 8
    → find_zone map n i₀ ≡ some (i, j)
    → Found map i j
unfolding find_zone
find_zone-Found map zero i₀ m h e = absurd (nothing e)
  where
    nothing : {p : ℕ × ℕ} → none ≡ some p → ⊥
    nothing q = cc
find_zone-Found map (suc n) i₀ {i} {j} m h e = elim (Option-cases (get_or map i₀ none)) [
  | inl absent ↦ find_zone-Found map n (i₀ + 1) m (omega arith) (rw (find_zone, absent) at e)
  | inr (b, there) ↦ elim (Bool-cases (ltb (find_first_zero b.bits) 8192)) [
    | inr full ↦
        find_zone-Found map n (i₀ + 1) m (omega arith) (rw full at (rw (find_zone, there) at e))
    | inl room ↦ here b there room (rw room at (rw (find_zone, there) at e))
  ]
]
  where
    here :
        (b : BitBlock)
        → get_or map i₀ none ≡ some b
        → ltb (find_first_zero b.bits) 8192 ≡ true
        → ◌≡◌ {A = Option (ℕ × ℕ)} (some (i₀, find_first_zero b.bits)) (some (i, j))
        → Found map i j
    here b there room q =
        let (i_eq, j_eq) = pair q in
        let size = m.size i₀ b there in
        let (free, first) = find_first_zero-lem b.bits (ground (arith, size)) in
        rw (← i_eq, ← j_eq)
          (record {
            block = b;
            there = there;
            inside = ground arith;
            place = omega (arith, h);
            was_free = free;
            first = first;
          })
      where
        pair :
            {a c : ℕ} → ◌≡◌ {A = Option (ℕ × ℕ)} (some (i₀, a)) (some (i, c)) → (i₀ ≡ i) × (a ≡ c)
        pair p = (cc, cc)

pub bit_at-some :
    (map : List (Option BitBlock)) (i j : ℕ) {b : BitBlock}
    → get_or map i none ≡ some b
    → bit_at map i j ≡ get_or b.bits j false
bit_at-some map i j e = rw (bit_at, e)

-- The bits after a write into block `i`.
pub bit_at-write_bit :
    (s : Super) {i j : ℕ} (v : Bool) {b : BitBlock}
    → get_or s.s_zmap i none ≡ some b
    → i < length s.s_zmap
    → j < length b.bits
    → (i' j' : ℕ)
    → bit_at (write_bit i j v s).s_zmap i' j'
      ≡ (if (i == i') && (j == j') then v else bit_at s.s_zmap i' j')
unfolding write_bit
bit_at-write_bit s {i} {j} v {b} there inside fits i' j' = elim (Bool-cases (i == i')) [
  | inr apart ↦
      let ne : i ≢ i' = ground arith in
      rw (apart, there) (rw (bit_at, get_or-set_ne s.s_zmap {i = i} {j = i'} _ none ne))
  | inl same ↦
      let e : i ≡ i' = (==_iff i i').0 same in
      let here : get_or s.s_zmap i' none ≡ some b = rw e at there in
      let now =
        get_or-set_self s.s_zmap i (some (record { bits = set b.bits j v; b_dirt = true })) none
          inside in
      rw (same, there, e)
        (bit_at-some _ i' j' (rw e at now)
          ∙ in_block (j == j') refl
          ∙ ap (λ c. if j == j' then v else c) (sym (bit_at-some s.s_zmap i' j' here)))
]
  where
    in_block :
        (t : Bool)
        → (j == j') ≡ t
        → get_or (set b.bits j v) j' false ≡ (if t then v else get_or b.bits j' false)
    in_block true eq = rw (← ((==_iff j j').0 eq)) (get_or-set_self b.bits j v false fits)
    in_block false ne = get_or-set_ne b.bits {i = j} {j = j'} v false (ground (arith, ne))

pub find_first_zero-before :
    (bits : List Bool) (k : ℕ) → k < find_first_zero bits → get_or bits k false ≡ true
unfolding find_first_zero
find_first_zero-before [] k h = absurd (omega arith)
find_first_zero-before (true ∷ bits) zero h = refl
find_first_zero-before (true ∷ bits) (suc k) h = find_first_zero-before bits k (omega arith)
find_first_zero-before (false ∷ bits) k h = absurd (omega arith)

-- Every bit of the blocks that are there is 1.
abbrev pub IsFull : List (Option BitBlock) → Type 0
IsFull map =
    (i j : ℕ) (b : BitBlock)
    → i < 8
    → j < 8192
    → get_or map i none ≡ some b
    → get_or b.bits j false ≡ true

pub find_zone-none :
    (map : List (Option BitBlock)) (n i₀ : ℕ)
    → find_zone map n i₀ ≡ none
    → (i j : ℕ) (b : BitBlock) → i₀ ≤ i
    → i < i₀ + n
    → j < 8192
    → get_or map i none ≡ some b
    → get_or b.bits j false ≡ true
unfolding find_zone
find_zone-none map zero i₀ e i j b low high inside there = absurd (omega arith)
find_zone-none map (suc n) i₀ e i j b low high inside there = elim (Bool-cases (i₀ == i)) [
  | inr apart ↦
      find_zone-none map n (i₀ + 1) (later (Option-cases (get_or map i₀ none))) i j b (ground arith)
        (omega arith) inside there
  | inl same ↦
      let here : get_or map i₀ none ≡ some b = rw ((==_iff i₀ i).0 same) there in
      elim (Bool-cases (ltb (find_first_zero b.bits) 8192)) [
        | inl room ↦ absurd (found (rw room at (rw (find_zone, here) at e)))
        | inr full ↦ find_first_zero-before b.bits j (ground arith)
      ]
]
  where
    found : {p : ℕ × ℕ} → some p ≡ none → ⊥
    found q = cc

    later :
        (get_or map i₀ none ≡ none) ⊎ ((b : BitBlock) × (get_or map i₀ none ≡ some b))
        → find_zone map n (i₀ + 1) ≡ none
    later (inl absent) = rw (find_zone, absent) at e
    later (inr (b, block)) = elim (Bool-cases (ltb (find_first_zero b.bits) 8192)) [
      | inl room ↦ absurd (found (rw room at (rw (find_zone, block) at e)))
      | inr full ↦ rw full at (rw (find_zone, block) at e)
    ]

-- If the first bit of a map is 1, a bit that is 0 is not the first one.
pub not_first :
    (map : List (Option BitBlock))
    → bit_at map 0 0 ≡ true
    → (i j : ℕ) → bit_at map i j ≡ false
    → 1 ≤ j + i * 8192
not_first map reserved i j free = elim (Bool-cases (j + i * 8192 == 0)) [
  | inr some_zone ↦ ground arith
  | inl first ↦
      let no_block : i ≡ 0 = ground (arith, first) in
      let no_bit : j ≡ 0 = ground (arith, first) in
      absurd (both reserved (rw (no_block, no_bit) at free))
]
  where
    both : {b : Bool} → b ≡ true → b ≡ false → ⊥
    both p q = cc
