-- ===== src/Fs/Bitmap/Used.antt =====
-- The zones of a device that are used, and what a write to its bitmap changes.
use linux.Common.{
  ℕ, ◌+◌, ◌-◌, ◌*◌, ◌/◌, ◌%◌, ◌^◌, ◌≤◌, ◌<◌, ◌≡◌, refl, ◌≢◌, ◌⊎◌, inl, inr, Bool, true, false,
  Option, none, some, ◌&&◌, arith, leb, ltb, ◌==◌, ==_iff, if◌then◌else◌, Bool-cases, ap, sym, ◌∙◌,
  length, get_or, set, get_or-set_self, get_or-set_ne, length-set,
}
use linux.Fs.Bitmap.{BitBlock, Super, write_bit, bit_at, Zone, zone, panic, fault}
use linux.Fs.Bitmap.Search.{IsMap, bit_at-write_bit}

pub record IsSuper (s : Super) : Type 0 where
  pub map : IsMap s.s_zmap
  pub reserved : bit_at s.s_zmap 0 0 ≡ true
  pub positive : 1 ≤ s.s_firstdatazone
  pub zones : s.s_nzones < 2 ^ 16

abbrev pub bit_of : Super → ℕ → Bool
bit_of s n = let nr = n - (s.s_firstdatazone - 1) in bit_at s.s_zmap (nr / 8192) (nr % 8192)

abbrev pub zone_used : Super → ℕ → Bool
zone_used s n = leb s.s_firstdatazone n && ltb n s.s_nzones && bit_of s n

abbrev pub zone_of : Zone → Option (ℕ × Super)
zone_of (zone n s) = some (n, s)
zone_of panic = none
zone_of fault = none

-- Which bit stands for zone `m`.
pub same_bit :
    (i j m f : ℕ)
    → f ≤ m
    → 1 ≤ f
    → j < 8192
    → ((i == (m - (f - 1)) / 8192) && (j == (m - (f - 1)) % 8192)) ≡ (j + i * 8192 + f - 1 == m)
same_bit i j m f low positive inside = ground arith

abbrev pub super_of : Zone → Option Super
super_of (zone n s) = some s
super_of panic = none
super_of fault = none

module _ (s : Super) (m : IsMap s.s_zmap) {i j : ℕ} (v : Bool) {b : BitBlock}
    (there : get_or s.s_zmap i none ≡ some b) (inside : i < 8) (fits : j < 8192) where
  abbrev pub after : Super
  after = write_bit i j v s

  pub write_bit-IsMap : IsMap after.s_zmap
  unfolding write_bit
  write_bit-IsMap = record {
    blocks = length-set s.s_zmap i _ ∙ m.blocks;
    size = λ k c e. elim (Bool-cases (i == k)) [
      | inr apart ↦
          let ne : i ≢ k = ground arith in
          m.size k c (sym (get_or-set_ne s.s_zmap {i = i} {j = k} _ none ne) ∙ e)
      | inl here ↦
          let now =
            get_or-set_self s.s_zmap i (some (record { bits = set b.bits j v; b_dirt = true })) none
              (omega (arith, m.blocks)) in
          same (
            sym now
            ∙ ap
                (λ r.
                  get_or (set s.s_zmap i (some (record { bits = set b.bits j v; b_dirt = true }))) r
                    none)
                ((==_iff i k).0 here)
            ∙ ap (λ o. get_or (set s.s_zmap i (written o)) k none) (sym there)
            ∙ e)
    ];
  }
    where
      written : Option BitBlock → Option BitBlock
      written none = none
      written (some c) = some (record { bits = set c.bits j v; b_dirt = true })

      same :
          {c : BitBlock}
          → some (record { bits = set b.bits j v; b_dirt = true }) ≡ some c
          → length c.bits ≡ 8192
      same p = ap (λ o. size_of o) (sym p) ∙ length-set b.bits j v ∙ m.size i b there
        where
          size_of : Option BitBlock → ℕ
          size_of none = 0
          size_of (some c) = length c.bits

  pub bits-after :
      (k l : ℕ)
      → bit_at after.s_zmap k l ≡ (if (i == k) && (j == l) then v else bit_at s.s_zmap k l)
  bits-after =
      bit_at-write_bit s v there (omega (arith, m.blocks)) (omega (arith, m.size i b there))

  pub firstdatazone-after : after.s_firstdatazone ≡ s.s_firstdatazone
  unfolding write_bit
  firstdatazone-after = refl

  pub nzones-after : after.s_nzones ≡ s.s_nzones
  unfolding write_bit
  nzones-after = refl

  pub after-IsSuper : IsSuper s → (j + i * 8192 ≢ 0) ⊎ (v ≡ true) → IsSuper after
  after-IsSuper ok h = record {
    map = write_bit-IsMap;
    reserved = bits-after 0 0 ∙ first h (Bool-cases ((i == 0) && (j == 0)));
    positive = rw firstdatazone-after ok.positive;
    zones = rw nzones-after ok.zones;
  }
    where
      first :
          (j + i * 8192 ≢ 0) ⊎ (v ≡ true)
          → (((i == 0) && (j == 0)) ≡ true) ⊎ (((i == 0) && (j == 0)) ≡ false)
          → (if (i == 0) && (j == 0) then v else bit_at s.s_zmap 0 0) ≡ true
      first h (inr other) = rw other ok.reserved
      first (inr set_bit) (inl here) = rw here set_bit
      first (inl later) (inl here) = absurd (later (ground (arith, here)))

  pub used-after :
      1 ≤ s.s_firstdatazone
      → (n : ℕ)
      → zone_used after n ≡ (
          if j + i * 8192 + s.s_firstdatazone - 1 == n
          then leb s.s_firstdatazone n && ltb n s.s_nzones && v
          else zone_used s n)
  unfolding write_bit
  used-after positive n = elim (Bool-cases (leb s.s_firstdatazone n)) [
    | inr low ↦ rw low (ground arith)
    | inl high ↦
        let nr = n - (s.s_firstdatazone - 1) in
        ap (λ c. leb s.s_firstdatazone n && ltb n s.s_nzones && c)
          (bits-after (nr / 8192) (nr % 8192))
        ∙ ap (λ c. leb s.s_firstdatazone n && ltb n s.s_nzones && (if c then v else bit_of s n))
            (same_bit i j n s.s_firstdatazone (ground arith) positive fits)
        ∙ ground arith
  ]
