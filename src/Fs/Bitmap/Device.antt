-- ===== src/Fs/Bitmap/Device.antt =====
-- The zone bitmap of fs/bitmap.c as the zone map of a device. `hashed` gives the use count of the buffer
-- that get_hash_table returns for a zone, and getblk returns for a new zone a buffer without another user.
use linux.Common.{
  ℕ, ◌+◌, ◌-◌, ◌*◌, ◌/◌, ◌%◌, ◌≤◌, ◌<◌, ◌≡◌, refl, ◌≢◌, ◌⊎◌, inl, inr, Bool, true, false, Option,
  none, some, not, ◌&&◌, ◌||◌, arith, leb, ltb, ◌==◌, if◌then◌else◌, ==_iff, Bool-cases,
  Option-cases, ap, sym, ◌∙◌, get_or,
}
use linux.Common.Word.{slt}
use linux.Fs.ZoneMap.{ZoneMap}
use linux.Fs.Bitmap.{
  BitBlock, Super, find_zone, write_bit, bit_at, Zone, zone, panic, fault, clear_zone,
}
use linux.Fs.Bitmap
use linux.Fs.Bitmap.Search.{find_zone-Found, bit_at-some, not_first}
use linux.Fs.Bitmap.Zones.{has_other_user, clear_zone-set}
use linux.Fs.Bitmap.Used.{IsSuper, bit_of, zone_used, zone_of, super_of, after-IsSuper, used-after}

abbrev pub new_zone : Super → Option (ℕ × Super)
new_zone s = zone_of (Bitmap.new_block (some 1) (some s))

abbrev pub free_zone : (ℕ → Option ℕ) → ℕ → Super → Option Super
free_zone hashed n s = super_of (Bitmap.free_block (hashed n) n (some s))

module _ (f m nz block : ℕ) (b : Bool) where
  beyond_same :
      nz ≤ block
      → (if block == m then leb f m && ltb m nz && true else leb f m && ltb m nz && b)
        ≡ (leb f m && ltb m nz && b)
  beyond_same h = ground arith

  inside_same :
      f ≤ block
      → block < nz
      → (if block == m then leb f m && ltb m nz && true else leb f m && ltb m nz && b)
        ≡ ((block == m) || (leb f m && ltb m nz && b))
  inside_same l h = ground arith

free_bit :
    (s : Super) (i j n : ℕ)
    → j < 8192
    → 1 ≤ s.s_firstdatazone
    → n ≡ j + i * 8192 + s.s_firstdatazone - 1
    → bit_at s.s_zmap i j ≡ false
    → zone_used s n ≡ false
free_bit s i j n inside positive e free =
    let hi : (n - (s.s_firstdatazone - 1)) / 8192 ≡ i = omega arith in
    let lo : (n - (s.s_firstdatazone - 1)) % 8192 ≡ j = omega arith in
    rw (hi, lo, free) (no (leb s.s_firstdatazone n) (ltb n s.s_nzones))
  where
    no : (a b : Bool) → (a && b && false) ≡ false
    no true true = refl
    no true false = refl
    no false b = refl

pub new_zone-lem :
    (s : Super)
    → IsSuper s
    → (n : ℕ) × (s' : Super) × (new_zone s ≡ some (n, s'))
      × IsSuper s'
      × (((n ≢ 0)
            × (zone_used s n ≡ false)
            × ((m : ℕ) → zone_used s' m ≡ ((n == m) || zone_used s m)))
          ⊎ ((n ≡ 0) × ((m : ℕ) → zone_used s' m ≡ zone_used s m)))
unfolding Bitmap.new_block
new_zone-lem s ok = elim (Option-cases (find_zone s.s_zmap 8 0)) [
  | inl full ↦
      let run : Bitmap.new_block (some 1) (some s) ≡ zone 0 s = rw (Bitmap.new_block, full) refl in
      (0, s, ap zone_of run, ok, inr (refl, λ m. refl))
  | inr ((i, j), found) ↦
      let f = find_zone-Found s.s_zmap 8 0 ok.map (omega arith) found in
      let free : bit_at s.s_zmap i j ≡ false = bit_at-some s.s_zmap i j f.there ∙ f.was_free in
      let block = j + i * 8192 + s.s_firstdatazone - 1 in
      let s' = write_bit i j true s in
      let ok' = after-IsSuper s ok.map true f.there f.place f.inside ok (inr refl) in
      let marks = used-after s ok.map true f.there f.place f.inside ok.positive in
      elim (Bool-cases (leb s.s_nzones block)) [
        | inl beyond ↦
            let run : Bitmap.new_block (some 1) (some s) ≡ zone 0 s' =
              rw (Bitmap.new_block, found) (rw (free, beyond) refl) in
            (
              0,
              s',
              ap zone_of run,
              ok',
              inr (
                refl,
                λ m.
                    marks m
                    ∙ beyond_same s.s_firstdatazone m s.s_nzones block (bit_of s m) (ground arith),
              ),
            )
        | inr inside ↦
            let run : Bitmap.new_block (some 1) (some s) ≡ zone block s' =
              rw (Bitmap.new_block, found) (rw (free, inside) refl) in
            let some_zone = not_first s.s_zmap ok.reserved i j free in
            (
              block,
              s',
              ap zone_of run,
              ok',
              inl (
                omega (arith, some_zone, ok.positive),
                free_bit s i j block f.inside ok.positive refl free,
                λ m.
                    marks m
                    ∙ inside_same s.s_firstdatazone m s.s_nzones block (bit_of s m)
                        (omega (arith, some_zone)) (ground arith),
              ),
            )
      ]
]

and3 : (a b c : Bool) → (a && b && c) ≡ true → (a ≡ true) × (b ≡ true) × (c ≡ true)
and3 true true true e = (refl, refl, refl)
and3 true true false e = absurd cc
and3 true false c e = absurd cc
and3 false b c e = absurd cc

-- After bit `n` has been cleared.
cleared_same :
    (f m nz n : ℕ) (b held : Bool)
    → (n ≡ m → held ≡ false)
    → (if n == m then leb f m && ltb m nz && false else leb f m && ltb m nz && b)
      ≡ ((leb f m && ltb m nz && b) && (not (n == m) || held))
cleared_same f m nz n b held h = elim (Bool-cases (n == m)) [
  | inl here ↦ let gone : held ≡ false = h ((==_iff n m).0 here) in rw gone (ground arith)
  | inr apart ↦ ground arith
]

-- A buffer with another user keeps the zone.
kept_same : (n m : ℕ) (b held : Bool) → (n ≡ m → held ≡ true) → b ≡ (b && (not (n == m) || held))
kept_same n m b held h = elim (Bool-cases (n == m)) [
  | inl here ↦ let there : held ≡ true = h ((==_iff n m).0 here) in rw (here, there) (and_true b)
  | inr apart ↦ rw apart (and_true b)
]
  where
    and_true : (b : Bool) → b ≡ (b && true)
    and_true true = refl
    and_true false = refl

free_block-clears :
    (o : Option ℕ) (n : ℕ) (s : Super) (i j : ℕ)
    → has_other_user o ≡ false
    → slt n s.s_firstdatazone ≡ false
    → slt n s.s_nzones ≡ true
    → (n - (s.s_firstdatazone - 1)) / 8192 ≡ i
    → (n - (s.s_firstdatazone - 1)) % 8192 ≡ j
    → Bitmap.free_block o n (some s) ≡ clear_zone i j s
unfolding Bitmap.free_block
free_block-clears none n s i j alone above below block place = rw (above, below, block, place) refl
free_block-clears (some c) n s i j alone above below block place =
    let one : (c == 1) ≡ true = ground arith in rw (above, below, one, block, place) refl

free_block-keeps :
    (o : Option ℕ) (n : ℕ) (s : Super)
    → has_other_user o ≡ true
    → slt n s.s_firstdatazone ≡ false
    → slt n s.s_nzones ≡ true
    → Bitmap.free_block o n (some s) ≡ zone 0 s
unfolding Bitmap.free_block
free_block-keeps none n s used above below = absurd cc
free_block-keeps (some c) n s used above below =
    let more : (c == 1) ≡ false = ground arith in rw (above, below, more) refl

pub free_zone-used :
    (hashed : ℕ → Option ℕ) (s : Super) (n : ℕ)
    → IsSuper s
    → zone_used s n ≡ true
    → (s' : Super) × (free_zone hashed n s ≡ some s')
      × IsSuper s'
      × ((m : ℕ) → zone_used s' m ≡ (zone_used s m && (not (n == m) || has_other_user (hashed m))))
free_zone-used hashed s n ok h =
    let f = s.s_firstdatazone in
    let nr = n - (f - 1) in
    let (low, high, marked) = and3 (leb f n) (ltb n s.s_nzones) (bit_of s n) h in
    let above : slt n f ≡ false = ground (arith, ok.zones) in
    let below : slt n s.s_nzones ≡ true = ground (arith, ok.zones) in
    elim (Option-cases (get_or s.s_zmap (nr / 8192) none)) [
      | inl absent ↦ absurd (no (rw (bit_at, absent) at marked))
      | inr (b, there) ↦ elim (Bool-cases (has_other_user (hashed n))) [
        | inl used ↦ (
          s,
          ap super_of (free_block-keeps (hashed n) n s used above below),
          ok,
          λ m.
              kept_same n m (zone_used s m) (has_other_user (hashed m))
                (λ e. ap (λ k. has_other_user (hashed k)) (sym e) ∙ used),
        )
        | inr alone ↦
            let inside : nr % 8192 < 8192 = omega arith in
            let block : nr / 8192 < 8 = ground (arith, ok.zones) in
            let s' = write_bit (nr / 8192) (nr % 8192) false s in
            let nth : n ≡ nr % 8192 + nr / 8192 * 8192 + f - 1 = ground (arith, ok.positive) in
            let run : Bitmap.free_block (hashed n) n (some s) ≡ zone 0 s' =
              free_block-clears (hashed n) n s (nr / 8192) (nr % 8192) alone above below refl refl
              ∙ clear_zone-set s (nr / 8192) (nr % 8192) there
                  (sym (bit_at-some s.s_zmap _ _ there) ∙ marked) in
            (
              s',
              ap super_of run,
              after-IsSuper s ok.map false there block inside ok
                  (inl (ground (arith, ok.positive))),
              λ m.
                  used-after s ok.map false there block inside ok.positive m
                  ∙ ap (λ c. if c == m then leb f m && ltb m s.s_nzones && false else zone_used s m)
                      (sym nth)
                  ∙ cleared_same f m s.s_nzones n (bit_of s m) (has_other_user (hashed m))
                      (λ e. ap (λ k. has_other_user (hashed k)) (sym e) ∙ alone),
            )
      ]
    ]
  where
    no : false ≡ true → ⊥
    no p = cc

-- The zone map of a device; its laws are the lemmas above.
abbrev pub bitmap_zones : (ℕ → Option ℕ) → ZoneMap
bitmap_zones hashed = record {
  State = Super;
  take_zone = new_zone;
  give_zone = free_zone hashed;
  held = λ n. has_other_user (hashed n);
  is_used = zone_used;
  IsOk = IsSuper;
  take_zone-lem = new_zone-lem;
  give_zone-used = free_zone-used hashed;
}
