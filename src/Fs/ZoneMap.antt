-- ===== src/Fs/ZoneMap.antt =====
-- What the block map of an inode needs from the zone bitmap of its device: zones are taken and given
-- back, and `none` is a panic.
use linux.Common.{ℕ, ◌≡◌, ◌≢◌, ◌⊎◌, Bool, true, false, Option, some, not, ◌&&◌, ◌||◌, ◌==◌}

-- `take_zone` is new_block, and returns 0 if there is no zone. `give_zone` is free_block; a zone that is
-- `held`, since a buffer of it has another user, stays in use.
pub record ZoneMap : Type 1 where
  pub State : Type 0
  pub take_zone : State → Option (ℕ × State)
  pub give_zone : ℕ → State → Option State
  pub held : ℕ → Bool
  pub is_used : State → ℕ → Bool
  pub IsOk : State → Type 0
  pub take_zone-lem :
      (s : State)
      → IsOk s
      → (n : ℕ) × (s' : State) × (take_zone s ≡ some (n, s'))
        × IsOk s'
        × (((n ≢ 0) × (is_used s n ≡ false) × ((m : ℕ) → is_used s' m ≡ ((n == m) || is_used s m)))
            ⊎ ((n ≡ 0) × ((m : ℕ) → is_used s' m ≡ is_used s m)))
  pub give_zone-used :
      (s : State) (n : ℕ)
      → IsOk s
      → is_used s n ≡ true
      → (s' : State) × (give_zone n s ≡ some s')
        × IsOk s'
        × ((m : ℕ) → is_used s' m ≡ (is_used s m && (not (n == m) || held m)))
