-- ===== src/Fs/Bitmap/Tests.antt =====
-- Tests of fs/bitmap.c: a map whose first two zones are in use.
use linux.Common.{
  ℕ, zero, suc, ◌+◌, ◌*◌, ◌-◌, ◌≤◌, ◌≡◌, refl, ◌⊎◌, Bool, true, false, Option, some, none, ◌∷◌,
  arith, replicate, length, length-replicate, get_or, get_or-replicate_self, ap, ◌∙◌,
}
use linux.Fs.Bitmap.{BitBlock, Super, zone, new_block, free_block, write_bit}
use linux.Fs.Bitmap.Search.{IsFull, Found, IsMap}
use linux.Fs.Bitmap.Zones.{TakenZone, GivenBack, free_block-new_block}

abbrev block : BitBlock
block = record { bits = true ∷ true ∷ replicate 8190 false; b_dirt = false }

abbrev pub super : Super
super = record { s_zmap = some block ∷ replicate 7 none; s_firstdatazone = 10; s_nzones = 360 }

block-size : length block.bits ≡ 8192
block-size = ap (λ n. suc (suc n)) (length-replicate {A = Bool} 8190 false)

super-size : (i : ℕ) (b : BitBlock) → get_or super.s_zmap i none ≡ some b → length b.bits ≡ 8192
super-size zero b e = same e ∙ block-size
  where
    same : some block ≡ some b → length b.bits ≡ length block.bits
    same p = cc
super-size (suc i) b e =
    absurd (no (rw (get_or-replicate_self {A = Option BitBlock} 7 none i) at e))
  where
    no : none ≡ some b → ⊥
    no p = cc

pub super-IsMap : IsMap super.s_zmap
super-IsMap = record { blocks = refl; size = super-size }

free_block-new_block_example :
    ((zone_nr : ℕ) × (s' s'' : Super) × (new_block (some 1) (some super) ≡ zone zone_nr s')
      × TakenZone zone_nr super s'
      × (free_block (some 1) zone_nr (some s') ≡ zone 0 s'')
      × GivenBack (some 1) super s' s'')
    ⊎ ((new_block (some 1) (some super) ≡ zone 0 super) × IsFull super.s_zmap)
    ⊎ ((i j : ℕ) × (new_block (some 1) (some super) ≡ zone 0 (write_bit i j true super))
        × Found super.s_zmap i j
        × (360 ≤ j + i * 8192 + 10 - 1))
free_block-new_block_example =
    free_block-new_block (some 1) super super-IsMap refl (omega arith) (omega arith)
