-- ===== src/Fs/Zones/Tests.antt =====
-- Tests of the blocks of a file: a regular file of one zone on a device with the bitmap of fs/bitmap.c.
use linux.Common.{
  ℕ, zero, suc, ◌≡◌, refl, ◌≢◌, true, false, Option, none, some, ◌==◌, if◌then◌else◌, ◌∷◌, arith,
  ◌∙◌, replicate, get_or-replicate_self,
}
use linux.Fs.Bitmap.Device.{bitmap_zones}
use linux.Fs.Bitmap.Used.{IsSuper}
use linux.Fs.Bitmap.Tests.{super, super-IsMap}
use linux.Fs.Zones.{Volume, ok, create_block, truncate}
use linux.Fs.Zones.Slots.{Slot, zone, ind, dind, leaf, val, IsTree}
use linux.Fs.Zones.Create.{Created, create_block-Created}
use linux.Fs.Zones.Truncate.{Truncated, truncate-Truncated}

super-IsSuper : IsSuper super
super-IsSuper = record {
  map = super-IsMap;
  reserved = refl;
  positive = omega arith;
  zones = omega arith;
}

-- Zone 10 has a buffer without another user.
abbrev hashed : ℕ → Option ℕ
hashed n = if n == 10 then some 1 else none

-- Zone 10 is the first one of the data area.
abbrev file : Volume (bitmap_zones hashed)
file = record {
  inode = record { i_mode = 33188; i_size = 3; i_zone = 10 ∷ replicate 8 0; i_dirt = false };
  word = λ b i. 0;
  zones = super;
}

only_zone : (s : Slot) → val file s ≢ 0 → s ≡ zone 0
only_zone (zone zero) p = refl
only_zone (zone (suc i)) p = absurd (p (get_or-replicate_self {A = ℕ} 8 0 i))
only_zone (ind j) p = absurd (p refl)
only_zone (dind h) p = absurd (p refl)
only_zone (leaf h l) p = absurd (p refl)

file-IsTree : IsTree file
file-IsTree = record {
  ok = super-IsSuper;
  size = refl;
  in_use = λ s is p. rw (only_zone s p) refl;
  distinct = λ s t is it p e. rw (only_zone s p, only_zone t (λ q. p (e ∙ q))) refl;
}

create_block-Created_example :
    (n : ℕ) × (v' : Volume (bitmap_zones hashed)) × (create_block (λ b. true) 600 file ≡ ok n v')
    × Created (λ b. true) file 600 n v'
create_block-Created_example =
    create_block-Created (λ b. true) file 600 (λ c. refl) file-IsTree (omega arith)

truncate-Truncated_example :
    (v' : Volume (bitmap_zones hashed)) × (truncate (λ b. true) file ≡ ok tt v') × Truncated file v'
truncate-Truncated_example = truncate-Truncated (λ b. true) file (λ m. refl) file-IsTree refl
