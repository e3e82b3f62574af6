-- ===== src/Fs/Zones.antt =====
-- The blocks of a file: _bmap, bmap and create_block of fs/inode.c and fs/truncate.c, over the zone map
-- of the device. `bread` says which blocks can be read, and a block that holds zone numbers is its 512
-- unsigned shorts. Times, and the dirty flags of buffers, are left out.
pub mod Slots
pub mod Place
pub mod Steps
pub mod Create
pub mod Freed
pub mod FreeBlocks
pub mod Truncate
mod Tests
use linux.Common.{
  ℕ, zero, suc, ◌+◌, ◌-◌, ◌*◌, ◌/◌, ◌%◌, Bool, true, false, Option, none, some, List, [], ◌∷◌, not,
  ◌&&◌, ◌||◌, ltb, leb, ◌==◌, if◌then◌else◌, get_or, set,
}
use linux.Common.Word.{is_neg}
use linux.Fs.ZoneMap.{ZoneMap}

-- The fields of `struct m_inode` that are used here; `i_zone` has 9 entries.
pub record MInode : Type 0 where
  pub i_mode : ℕ
  pub i_size : ℕ
  pub i_zone : List ℕ
  pub i_dirt : Bool

abbrev pub s_isreg : ℕ → Bool
s_isreg mode = mode / 4096 % 16 == 8

abbrev pub s_isdir : ℕ → Bool
s_isdir mode = mode / 4096 % 16 == 4

module _ (z : ZoneMap) where
  -- An inode and its device; `word b i` is entry `i` of block `b`.
  pub record Volume : Type 0 where
    pub inode : MInode
    pub word : ℕ → ℕ → ℕ
    pub zones : z.State

  pub data Result (A : Type 0) : Type 0 where
    ok : A → Volume → Result A
    panic : Result A

module _ {z : ZoneMap} where
  infixl 5 ◌>>=◌
  abbrev pub ◌>>=◌ : {A B : Type 0} → Result z A → (A → Volume z → Result z B) → Result z B
  ok a v >>= k = k a v
  panic >>= k = panic

  abbrev pub zone_at : Volume z → ℕ → ℕ
  zone_at v i = get_or v.inode.i_zone i 0

  abbrev pub set_zone : ℕ → ℕ → Volume z → Volume z
  set_zone i n v = record v {
    inode = record v.inode { i_zone = set v.inode.i_zone i n; i_dirt = true };
  }

  abbrev pub set_word : ℕ → ℕ → ℕ → Volume z → Volume z
  set_word b i n v = record v { word = λ c j. if (c == b) && (j == i) then n else v.word c j }

  -- `new_block`: the new block is cleared.
  abbrev pub take_block : Volume z → Result z ℕ
  take_block v = elim (z.take_zone v.zones) [
    | none ↦ panic
    | some (n, zones) ↦
        if n == 0
        then ok 0 (record v { zones = zones })
        else ok n (record v { zones = zones; word = λ c j. if c == n then 0 else v.word c j })
  ]

  -- `if (create && !entry) if (entry=new_block(inode->i_dev)) ...`, then the entry.
  pub fill : Bool → ℕ → (ℕ → Volume z → Volume z) → Volume z → Result z ℕ
  fill create entry store v =
      if create && (entry == 0)
      then (take_block v >>= λ n v'. if n == 0 then ok 0 v' else ok n (store n v'))
      else ok entry v

  -- `if (!(bh=bread(dev,b))) return 0;` for a block that may be 0, then entry `i` of it.
  pub fill_word : (ℕ → Bool) → Bool → ℕ → ℕ → Volume z → Result z ℕ
  unfolding fill
  fill_word bread create b i v =
      if (b == 0) || not (bread b) then ok 0 v else fill create (v.word b i) (set_word b i) v

  pub bmap_create : (ℕ → Bool) → ℕ → Bool → Volume z → Result z ℕ
  unfolding fill fill_word
  bmap_create bread block create v =
      let indirect = fill create (zone_at v 7) (set_zone 7) v >>= λ b v₁.
      fill_word bread create b (block - 7) v₁ in
      let double = fill create (zone_at v 8) (set_zone 8) v >>= λ b v₁.
      fill_word bread create b ((block - 519) / 512) v₁ >>= λ c v₂.
      fill_word bread create c ((block - 519) % 512) v₂ in
      if is_neg block || leb (7 + 512 + 512 * 512) block
      then panic
      else if ltb block 7
      then fill create (zone_at v block) (set_zone block) v
      else if ltb block 519
      then indirect
      else double

  pub bmap : (ℕ → Bool) → ℕ → Volume z → Result z ℕ
  unfolding bmap_create
  bmap bread block v = bmap_create bread block false v

  pub create_block : (ℕ → Bool) → ℕ → Volume z → Result z ℕ
  unfolding bmap_create
  create_block bread block v = bmap_create bread block true v

  pub give_back : ℕ → Volume z → Result z (Unit {0})
  give_back n v = elim (z.give_zone n v.zones) [
    | none ↦ panic
    | some zones ↦ ok tt (record v { zones = zones })
  ]

  -- The loop over the entries of a block from `i` on, `k` being left.
  pub each_word : (ℕ → Volume z → Result z (Unit {0})) → ℕ → ℕ → ℕ → Volume z → Result z (Unit {0})
  each_word f b zero i v = ok tt v
  each_word f b (suc k) i v =
      (if v.word b i == 0 then ok tt v else f (v.word b i) v) >>= λ _ v'. each_word f b k (i + 1) v'

  pub free_ind : (ℕ → Bool) → ℕ → Volume z → Result z (Unit {0})
  unfolding give_back each_word
  free_ind bread b v =
      let entries = if bread b then each_word give_back b 512 0 v else ok tt v in
      if b == 0 then ok tt v else entries >>= λ _ v'. give_back b v'

  pub free_dind : (ℕ → Bool) → ℕ → Volume z → Result z (Unit {0})
  unfolding give_back each_word free_ind
  free_dind bread b v =
      let entries = if bread b then each_word (free_ind bread) b 512 0 v else ok tt v in
      if b == 0 then ok tt v else entries >>= λ _ v'. give_back b v'

  -- The loop over the direct zones from `i` on, `k` being left.
  pub free_direct : ℕ → ℕ → Volume z → Result z (Unit {0})
  unfolding give_back
  free_direct zero i v = ok tt v
  free_direct (suc k) i v =
      (if zone_at v i == 0
        then ok tt v
        else give_back (zone_at v i) v >>= λ _ v'. ok tt (set_zone i 0 v'))
      >>= λ _ v'. free_direct k (i + 1) v'

  pub truncate : (ℕ → Bool) → Volume z → Result z (Unit {0})
  unfolding free_direct free_ind free_dind
  truncate bread v =
      let freed = free_direct 7 0 v >>= λ _ v₁. free_ind bread (zone_at v₁ 7) v₁ >>= λ _ v₂.
      free_dind bread (zone_at v₂ 8) v₂ >>= λ _ v₃.
      let v₄ = set_zone 8 0 (set_zone 7 0 v₃) in
      ok tt (record v₄ { inode = record v₄.inode { i_size = 0; i_dirt = true } }) in
      if s_isreg v.inode.i_mode || s_isdir v.inode.i_mode then freed else ok tt v
