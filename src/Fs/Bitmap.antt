-- ===== src/Fs/Bitmap.antt =====
-- new_block and free_block of fs/bitmap.c. What the buffer cache answers is an argument: the use count
-- of the buffer that get_hash_table or getblk returns, or `none` for a null pointer.
pub mod Device
pub mod Search
pub mod Used
pub mod Zones
pub mod Tests
use linux.Common.{
  ℕ, zero, suc, ◌+◌, ◌-◌, ◌*◌, ◌/◌, ◌%◌, Bool, true, false, Option, none, some, List, [], ◌∷◌, not,
  ◌||◌, leb, ltb, ◌==◌, if◌then◌else◌, length, get_or, set,
}
use linux.Common.Word.{slt}

-- A block of a bitmap in its buffer: 8192 bits, the first one being bit 0 of the first byte.
pub record BitBlock : Type 0 where
  pub bits : List Bool
  pub b_dirt : Bool

-- The fields of `struct super_block` that the code uses.
pub record Super : Type 0 where
  pub s_zmap : List (Option BitBlock)
  pub s_firstdatazone : ℕ
  pub s_nzones : ℕ

-- `find_first_zero(addr)`: the number of the first bit that is 0, or the number of bits.
pub find_first_zero : List Bool → ℕ
find_first_zero [] = 0
find_first_zero (b ∷ bits) = let rest = find_first_zero bits in if b then suc rest else 0

-- The first block `i` of the map, from `i` on with `n` left, that has a bit 0, and the bit's number.
pub find_zone : List (Option BitBlock) → ℕ → ℕ → Option (ℕ × ℕ)
unfolding find_first_zero
find_zone map zero i = none
find_zone map (suc n) i =
    let rest = find_zone map n (i + 1) in
    elim (get_or map i none) [
      | none ↦ rest
      | some b ↦ let j = find_first_zero b.bits in if ltb j 8192 then some (i, j) else rest
    ]

unfoldable pub write_bit : ℕ → ℕ → Bool → Super → Super
write_bit i j v s =
    let block : Option BitBlock = elim (get_or s.s_zmap i none) [
      | none ↦ none
      | some b ↦ some (record { bits = set b.bits j v; b_dirt = true })
    ] in
    record s { s_zmap = set s.s_zmap i block }

-- Bit `j` of block `i` of the map.
abbrev pub bit_at : List (Option BitBlock) → ℕ → ℕ → Bool
bit_at map i j = elim (get_or map i none) [ none ↦ false | some b ↦ get_or b.bits j false ]

pub data Zone : Type 0 where
  zone : ℕ → Super → Zone
  panic : Zone
  -- a null pointer is followed
  fault : Zone

-- A bit that find_first_zero has found is 0, so the test of set_bit does not panic.
pub new_block : Option ℕ → Option Super → Zone
unfolding find_zone write_bit
new_block getblk none = panic
new_block getblk (some s) = elim (find_zone s.s_zmap 8 0) [
  | none ↦ zone 0 s
  | some (i, j) ↦
      let s' = write_bit i j true s in
      let block = j + i * 8192 + s.s_firstdatazone - 1 in
      if bit_at s.s_zmap i j
      then panic
      else if leb s.s_nzones block
      then zone 0 s'
      else elim getblk [
        | none ↦ panic
        | some b_count ↦ if b_count == 1 then zone block s' else panic
      ]
]

-- The tail of free_block, for bit `j` of block `i`.
pub clear_zone : ℕ → ℕ → Super → Zone
unfolding write_bit
clear_zone i j s = elim (get_or s.s_zmap i none) [
  | none ↦ fault
  | some b ↦ if get_or b.bits j false then zone 0 (write_bit i j false s) else panic
]

-- The call returns nothing; `zone 0` stands for its return.
pub free_block : Option ℕ → ℕ → Option Super → Zone
unfolding clear_zone
free_block hashed block none = panic
free_block hashed block (some s) =
    let nr = block - (s.s_firstdatazone - 1) in
    let cleared = clear_zone (nr / 8192) (nr % 8192) s in
    if slt block s.s_firstdatazone || not (slt block s.s_nzones)
    then panic
    else elim hashed [ none ↦ cleared | some b_count ↦ if b_count == 1 then cleared else zone 0 s ]
