-- ===== src/Fs/Zones/Slots.antt =====
-- The places of an inode and of its indirect blocks that name zones, and what a new zone in one of them
-- changes.
use linux.Common.{ℕ, ◌<◌, ◌≡◌, ◌≢◌, Bool, true, false, ◌&&◌, arith, ◌==◌, if◌then◌else◌, length}
use linux.Fs.ZoneMap.{ZoneMap}
use linux.Fs.Zones.{Volume, zone_at, set_zone, set_word}

-- An entry of `i_zone`, of the indirect block, of the double indirect block, and of a block named there.
pub data Slot : Type 0 where
  zone : ℕ → Slot
  ind : ℕ → Slot
  dind : ℕ → Slot
  leaf : ℕ → ℕ → Slot

abbrev pub IsSlot : Slot → Type 0
IsSlot (zone i) = i < 9
IsSlot (ind j) = j < 512
IsSlot (dind h) = h < 512
IsSlot (leaf h l) = (h < 512) × (l < 512)

abbrev pub same : Slot → Slot → Bool
same (zone i) (zone j) = i == j
same (ind i) (ind j) = i == j
same (dind i) (dind j) = i == j
same (leaf i k) (leaf j l) = (i == j) && (k == l)
same (zone i) _ = false
same (ind i) _ = false
same (dind i) _ = false
same (leaf i k) _ = false

module _ {z : ZoneMap} where
  abbrev pub entry : Volume z → ℕ → ℕ → ℕ
  entry v b i = if b == 0 then 0 else v.word b i

  -- The zone in a place; there are no places in a block that is not there.
  abbrev pub val : Volume z → Slot → ℕ
  val v (zone i) = zone_at v i
  val v (ind j) = entry v (zone_at v 7) j
  val v (dind h) = entry v (zone_at v 8) h
  val v (leaf h l) = entry v (entry v (zone_at v 8) h) l

  abbrev pub put : Slot → ℕ → Volume z → Volume z
  put (zone i) n v = set_zone i n v
  put (ind j) n v = set_word (zone_at v 7) j n v
  put (dind h) n v = set_word (zone_at v 8) h n v
  put (leaf h l) n v = set_word (entry v (zone_at v 8) h) l n v

  -- The block that holds a place.
  abbrev pub HasPlace : Volume z → Slot → Type 0
  HasPlace v (zone i) = Unit {0}
  HasPlace v (ind j) = zone_at v 7 ≢ 0
  HasPlace v (dind h) = zone_at v 8 ≢ 0
  HasPlace v (leaf h l) = entry v (zone_at v 8) h ≢ 0

  -- Every zone is in use and stands in one place.
  pub record IsTree (v : Volume z) : Type 0 where
    pub ok : z.IsOk v.zones
    pub size : length v.inode.i_zone ≡ 9
    pub in_use : (s : Slot) → IsSlot s → val v s ≢ 0 → z.is_used v.zones (val v s) ≡ true
    pub distinct :
        (s t : Slot) → IsSlot s → IsSlot t → val v s ≢ 0 → val v s ≡ val v t → same s t ≡ true

  -- After new_block has taken zone `n`.
  abbrev pub cleared : ℕ → z.State → Volume z → Volume z
  cleared n zones v = record v { zones = zones; word = λ c j. if c == n then 0 else v.word c j }

pub same-eq : (s t : Slot) → same s t ≡ true → s ≡ t
same-eq (zone i) (zone j) h = ground arith
same-eq (ind i) (ind j) h = ground arith
same-eq (dind i) (dind j) h = ground arith
same-eq (leaf i k) (leaf j l) h = ground arith
same-eq (zone i) (ind j) h = cc
same-eq (zone i) (dind j) h = cc
same-eq (zone i) (leaf j l) h = cc
same-eq (ind i) (zone j) h = cc
same-eq (ind i) (dind j) h = cc
same-eq (ind i) (leaf j l) h = cc
same-eq (dind i) (zone j) h = cc
same-eq (dind i) (ind j) h = cc
same-eq (dind i) (leaf j l) h = cc
same-eq (leaf i k) (zone j) h = cc
same-eq (leaf i k) (ind j) h = cc
same-eq (leaf i k) (dind j) h = cc

pub same_refl : (s : Slot) → same s s ≡ true
same_refl (zone i) = ground arith
same_refl (ind i) = ground arith
same_refl (dind i) = ground arith
same_refl (leaf i k) = ground arith
