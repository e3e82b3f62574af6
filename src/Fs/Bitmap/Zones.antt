-- ===== src/Fs/Bitmap/Zones.antt =====
-- Which zone new_block takes, and that free_block gives it back.
use linux.Common.{
  ℕ, ◌+◌, ◌-◌, ◌*◌, ◌/◌, ◌%◌, ◌^◌, ◌≤◌, ◌<◌, ◌≡◌, refl, ◌⊎◌, inl, inr, Bool, true, false, not,
  Option, none, some, ◌&&◌, arith, leb, ◌==◌, if◌then◌else◌, Bool-cases, Option-cases, ap, sym, ◌∙◌,
  length, get_or, set, get_or-set_self, length-set,
}
use linux.Common.Word.{slt}
use linux.Fs.Bitmap.{
  BitBlock, Super, find_zone, write_bit, bit_at, Zone, zone, panic, fault, new_block, clear_zone,
  free_block,
}
use linux.Fs.Bitmap.Search.{
  IsMap, Found, find_zone-Found, bit_at-some, bit_at-write_bit, IsFull, find_zone-none, not_first,
}

-- The bits of two maps agree.
abbrev pub SameBits : Super → Super → Type 0
SameBits s s' = (i j : ℕ) → bit_at s'.s_zmap i j ≡ bit_at s.s_zmap i j

-- A call of new_block that has taken zone `block`.
pub record TakenZone (block : ℕ) (s s' : Super) : Type 0 where
  pub map_block : ℕ
  pub place : ℕ
  pub address : block ≡ place + map_block * 8192 + s.s_firstdatazone - 1
  pub inside : (map_block < 8) × (place < 8192)
  pub in_zones : block < s.s_nzones
  pub was_free : bit_at s.s_zmap map_block place ≡ false
  pub first : (k : ℕ) → k < place → bit_at s.s_zmap map_block k ≡ true
  pub marked :
      (i j : ℕ)
      → bit_at s'.s_zmap i j
        ≡ (if (map_block == i) && (place == j) then true else bit_at s.s_zmap i j)

pub clear_zone-set :
    (s : Super) (i j : ℕ) {b : BitBlock}
    → get_or s.s_zmap i none ≡ some b
    → get_or b.bits j false ≡ true
    → clear_zone i j s ≡ zone 0 (write_bit i j false s)
unfolding clear_zone
clear_zone-set s i j e h =
    let at_block : Option BitBlock → Zone = λ o. elim o [
      | none ↦ fault
      | some b ↦ if get_or b.bits j false then zone 0 (write_bit i j false s) else panic
    ] in
    ap at_block e ∙ rw h

-- A buffer of the zone is found, and it has a user or more than one beside the call.
abbrev pub has_other_user : Option ℕ → Bool
has_other_user none = false
has_other_user (some b_count) = not (b_count == 1)

-- What free_block has done when the maps before and after new_block are `s` and `s'`.
abbrev pub GivenBack : Option ℕ → Super → Super → Super → Type 0
GivenBack hashed s s' s'' =
    ((has_other_user hashed ≡ false) × SameBits s s'')
    ⊎ ((has_other_user hashed ≡ true) × (s'' ≡ s'))

module _ (s : Super) {i j : ℕ} (f : Found s.s_zmap i j) (m : IsMap s.s_zmap) where
  abbrev marked : Super
  marked = write_bit i j true s

  fits : j < length f.block.bits
  fits = omega (arith, f.inside, m.size i f.block f.there)

  in_map : i < length s.s_zmap
  in_map = omega (arith, f.place, m.blocks)

  marked_block :
      get_or marked.s_zmap i none ≡ some (record { bits = set f.block.bits j true; b_dirt = true })
  unfolding write_bit
  marked_block = rw f.there (get_or-set_self s.s_zmap i _ none in_map)

  marked_sizes : length marked.s_zmap ≡ length s.s_zmap
  unfolding write_bit
  marked_sizes = length-set s.s_zmap i _

  clear_zone-marked : clear_zone i j marked ≡ zone 0 (write_bit i j false marked)
  clear_zone-marked =
      clear_zone-set marked i j marked_block (get_or-set_self f.block.bits j true false fits)

  cleared-SameBits : SameBits s (write_bit i j false marked)
  cleared-SameBits i' j' =
      let inner = bit_at-write_bit s true f.there in_map fits i' j' in
      let outer =
        bit_at-write_bit marked false marked_block (omega (arith, marked_sizes, in_map))
          (omega (arith, length-set f.block.bits j true, fits)) i' j' in
      outer
      ∙ ap (λ c. if (i == i') && (j == j') then false else c) inner
      ∙ back (Bool-cases ((i == i') && (j == j')))
    where
      back :
          (((i == i') && (j == j')) ≡ true) ⊎ (((i == i') && (j == j')) ≡ false)
          → (if (i == i') && (j == j')
              then false
              else (if (i == i') && (j == j') then true else bit_at s.s_zmap i' j'))
            ≡ bit_at s.s_zmap i' j'
      back (inr other) = rw other
      back (inl same) =
          let block_eq : i ≡ i' = ground (arith, same) in
          let bit_eq : j ≡ j' = ground (arith, same) in
          let free : bit_at s.s_zmap i j ≡ false = bit_at-some s.s_zmap i j f.there ∙ f.was_free in
          rw same (sym (rw (block_eq, bit_eq) at free))

  free_block-marked :
      (block : ℕ)
      → block ≡ j + i * 8192 + s.s_firstdatazone - 1
      → 1 ≤ j + i * 8192
      → 1 ≤ s.s_firstdatazone
      → block < s.s_nzones
      → s.s_nzones < 2 ^ 16
      → (hashed : Option ℕ)
      → (s'' : Super) × (free_block hashed block (some marked) ≡ zone 0 s'')
        × GivenBack hashed s marked s''
  unfolding free_block write_bit
  free_block-marked block e some_zone positive inside zones hashed =
      let low : slt block s.s_firstdatazone ≡ false = ground (arith, e) in
      let high : slt block s.s_nzones ≡ true = ground arith in
      let in_block : (block - (s.s_firstdatazone - 1)) / 8192 ≡ i = omega (arith, f.inside) in
      let place : (block - (s.s_firstdatazone - 1)) % 8192 ≡ j = omega (arith, f.inside) in
      by_user low high in_block place hashed
    where
      by_user :
          slt block s.s_firstdatazone ≡ false
          → slt block s.s_nzones ≡ true
          → (block - (s.s_firstdatazone - 1)) / 8192 ≡ i
          → (block - (s.s_firstdatazone - 1)) % 8192 ≡ j
          → (o : Option ℕ)
          → (s'' : Super) × (free_block o block (some marked) ≡ zone 0 s'')
            × GivenBack o s marked s''
      by_user low high in_block place none = (
        write_bit i j false marked,
        rw (low, high, in_block, place) clear_zone-marked,
        inl (refl, cleared-SameBits),
      )
      by_user low high in_block place (some b_count) = elim (Bool-cases (b_count == 1)) [
        | inl alone ↦ (
          write_bit i j false marked,
          rw (low, high, alone, in_block, place) clear_zone-marked,
          inl (ap not alone, cleared-SameBits),
        )
        | inr used ↦ (marked, rw (low, high, used) refl, inr (ap not used, refl))
      ]

-- If the first bit of the map is in use, as the bit that stands for no zone is, and getblk gives a buffer
-- without another user, then new_block takes the zone of a bit that was 0, all before it in its block of
-- the map being 1, and marks exactly that bit. free_block of that zone then brings every bit back if the
-- zone has no buffer or one without another user, and changes nothing if its buffer has another user. It returns 0 only if every bit is 1, or if the first bit 0 is that of a zone
-- beyond the last one, and then it has marked that bit.
pub free_block-new_block :
    (hashed : Option ℕ) (s : Super)
    → IsMap s.s_zmap
    → bit_at s.s_zmap 0 0 ≡ true
    → 1 ≤ s.s_firstdatazone
    → s.s_nzones < 2 ^ 16
    → ((block : ℕ) × (s' s'' : Super) × (new_block (some 1) (some s) ≡ zone block s')
        × TakenZone block s s'
        × (free_block hashed block (some s') ≡ zone 0 s'')
        × GivenBack hashed s s' s'')
      ⊎ ((new_block (some 1) (some s) ≡ zone 0 s) × IsFull s.s_zmap)
      ⊎ ((i j : ℕ) × (new_block (some 1) (some s) ≡ zone 0 (write_bit i j true s))
          × Found s.s_zmap i j
          × (s.s_nzones ≤ j + i * 8192 + s.s_firstdatazone - 1))
unfolding new_block
free_block-new_block hashed s m reserved positive zones =
    elim (Option-cases (find_zone s.s_zmap 8 0)) [
      | inl full ↦ inr (
          inl (
            rw (new_block, full) refl,
            λ i j b low inside there.
                find_zone-none s.s_zmap 8 0 full i j b (omega arith) (omega arith) inside there,
          ))
      | inr ((i, j), found) ↦
          let f = find_zone-Found s.s_zmap 8 0 m (omega arith) found in
          let free : bit_at s.s_zmap i j ≡ false = bit_at-some s.s_zmap i j f.there ∙ f.was_free in
          let block = j + i * 8192 + s.s_firstdatazone - 1 in
          elim (Bool-cases (leb s.s_nzones block)) [
            | inl beyond ↦
                inr (inr (i, j, rw (new_block, found) (rw (free, beyond) refl), f, ground arith))
            | inr inside ↦
                let some_zone : 1 ≤ j + i * 8192 = not_first s.s_zmap reserved i j free in
                let in_zones : block < s.s_nzones = ground arith in
                let (s'', run, given) =
                  free_block-marked s f m block refl some_zone positive in_zones zones hashed in
                inl (
                  block,
                  marked s f m,
                  s'',
                  rw (new_block, found) (rw (free, inside) refl),
                  record {
                    map_block = i;
                    place = j;
                    address = refl;
                    inside = (f.place, f.inside);
                    in_zones = in_zones;
                    was_free = free;
                    first = λ k h. bit_at-some s.s_zmap i k f.there ∙ f.first k h;
                    marked = bit_at-write_bit s true f.there (in_map s f m) (fits s f m);
                  },
                  run,
                  given,
                )
          ]
    ]
