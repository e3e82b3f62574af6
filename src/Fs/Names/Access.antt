-- ===== src/Fs/Names/Access.antt =====
-- What permission grants, bit by bit.
use linux.Common.{
  ℕ, zero, suc, ◌+◌, ◌/◌, ◌^◌, ◌<◌, ◌≡◌, ◌↔◌, ◌⊎◌, refl, sym, ap, ◌∙◌, inl, inr, Bool, true, false,
  not, ◌&&◌, ◌||◌, ◌==◌, ==_iff, if◌then◌else◌, bit_and, arith, Bool-cases,
}
use linux.Common.Bits.{bit, bit-bit_and, bit-high, eq_of_bits, bit_and-le}
use linux.Kernel.Task.{Task}
use linux.Kernel.Ids.{suser}
use linux.Fs.Names.{InodeInfo, mode_for, permission}

-- Every bit that is set in `mask` is set in `mode` `shift` places further up.
pub Grants : ℕ → ℕ → ℕ → Type 0
Grants mode shift mask = (k : ℕ) → bit mask k ≡ true → bit mode (shift + k) ≡ true

bit-div8 : (w k : ℕ) → bit (w / 8) k ≡ bit w (3 + k)
bit-div8 w k =
    let thirds : w / 8 ≡ w / 2 / 2 / 2 = omega arith in
    let place : suc (suc (suc k)) ≡ 3 + k = omega arith in
    ap (λ v. bit v k) thirds ∙ ap (bit w) place

bit-div64 : (w k : ℕ) → bit (w / 64) k ≡ bit w (6 + k)
bit-div64 w k =
    let sixths : w / 64 ≡ w / 2 / 2 / 2 / 2 / 2 / 2 = omega arith in
    let place : suc (suc (suc (suc (suc (suc k))))) ≡ 6 + k = omega arith in
    ap (λ v. bit v k) sixths ∙ ap (bit w) place

bit-seven : (mask k : ℕ) → mask < 8 → bit mask k ≡ true → bit 7 k ≡ true
bit-seven mask zero h set = refl
bit-seven mask (suc zero) h set = refl
bit-seven mask (suc (suc zero)) h set = refl
bit-seven mask (suc (suc (suc k))) h set =
    absurd
      (false_ne_true (sym (bit-high 3 mask (suc (suc (suc k))) (omega arith) (omega arith)) ∙ set))
  where
    false_ne_true : false ≡ true → ⊥
    false_ne_true q = cc

masked : (m mask k : ℕ) → bit (bit_and (bit_and m mask) 7) k ≡ (bit m k && bit mask k && bit 7 k)
masked m mask k = rw (bit-bit_and (bit_and m mask) 7 k, bit-bit_and m mask k) refl

covered-to : (m mask k : ℕ) → bit_and (bit_and m mask) 7 ≡ mask → bit mask k ≡ true → bit m k ≡ true
covered-to m mask k e set =
    first (bit m k) (bit mask k) (bit 7 k) (sym (masked m mask k) ∙ ap (λ v. bit v k) e ∙ set)
  where
    first : (a b c : Bool) → (a && b && c) ≡ true → a ≡ true
    first true b c h = refl
    first false b c h = cc

covered-from :
    (m mask : ℕ)
    → m < 2 ^ 16
    → mask < 8
    → ((k : ℕ) → bit mask k ≡ true → bit m k ≡ true)
    → bit_and (bit_and m mask) 7 ≡ mask
covered-from m mask hm h grants =
    eq_of_bits 16 (bit_and (bit_and m mask) 7) mask small (omega arith)
      (λ k. masked m mask k ∙ each k)
  where
    small : bit_and (bit_and m mask) 7 < 2 ^ 16
    small = omega (
      arith,
      bit_and-le (bit_and m mask) (bit_and m mask) 7 (omega arith),
      bit_and-le m m mask (omega arith),
    )

    each : (k : ℕ) → (bit m k && bit mask k && bit 7 k) ≡ bit mask k
    each k = elim (Bool-cases (bit mask k)) [
      | inl set ↦ rw (grants k set, set, bit-seven mask k h set) refl
      | inr clear ↦ rw clear (none (bit m k) (bit 7 k))
    ]
      where
        none : (a c : Bool) → (a && false && c) ≡ false
        none true c = refl
        none false c = refl

-- The place of the bits that apply to the process: its own, its group's or those for others.
pub shift_for : Task → InodeInfo → ℕ
shift_for current i =
    if current.euid == i.i_uid then 6 else if current.egid == i.i_gid then 3 else 0

bits_for :
    (current : Task) (i : InodeInfo) (k : ℕ)
    → bit (mode_for current i) k ≡ bit i.i_mode (shift_for current i + k)
unfolding mode_for shift_for
bits_for current i k = elim (Bool-cases (current.euid == i.i_uid)) [
  | inl owner ↦ rw (owner, if◌then◌else◌) (bit-div64 i.i_mode k)
  | inr no_owner ↦ elim (Bool-cases (current.egid == i.i_gid)) [
    | inl group ↦ rw (no_owner, group, if◌then◌else◌) (bit-div8 i.i_mode k)
    | inr others ↦ rw (no_owner, others, if◌then◌else◌) (ap (bit i.i_mode) (zero_add k))
  ]
]
  where
    zero_add : (k : ℕ) → k ≡ 0 + k
    zero_add k = omega arith

mode_for-lt : (current : Task) (i : InodeInfo) → i.i_mode < 2 ^ 16 → mode_for current i < 2 ^ 16
unfolding mode_for
mode_for-lt current i h = ground arith

-- For a mode of 16 bits and a mask of some of the permissions to read, write and execute, permission
-- grants the access exactly when the file is not a deleted one of a device, and the process is the
-- superuser's or all the bits of the mask are set in the part of the mode that applies to it: that for
-- the owner if it is the owner, else that for the group if it is of the group, else that for others.
pub permission_iff :
    (current : Task) (i : InodeInfo) (mask : ℕ)
    → i.i_mode < 2 ^ 16
    → mask < 8
    → (permission current i mask ≡ true) ↔ (
        ((not (i.i_dev == 0) && i.i_nlinks == 0) ≡ false)
        × ((suser current ≡ true) ⊎ Grants i.i_mode (shift_for current i) mask))
unfolding permission Grants
permission_iff current i mask hm h = (to, back)
  where
    deleted : Bool
    deleted = not (i.i_dev == 0) && i.i_nlinks == 0

    m : ℕ
    m = mode_for current i

    or_cases : (a b : Bool) → (a || b) ≡ true → (a ≡ true) ⊎ (b ≡ true)
    or_cases true b e = inl refl
    or_cases false b e = inr e

    alive : (a b : Bool) → (if a then false else b) ≡ true → (a ≡ false) × (b ≡ true)
    alive true b e = cc
    alive false b e = (refl, e)

    to :
        permission current i mask ≡ true
        → ((not (i.i_dev == 0) && i.i_nlinks == 0) ≡ false)
          × ((suser current ≡ true) ⊎ Grants i.i_mode (shift_for current i) mask)
    to e =
        let (a, b) = alive deleted (bit_and (bit_and m mask) 7 == mask || suser current) e in
        (
          a,
          elim (or_cases (bit_and (bit_and m mask) 7 == mask) (suser current) b) [
            | inl bits ↦ inr (λ k set.
                sym (bits_for current i k)
                ∙ covered-to m mask k ((==_iff (bit_and (bit_and m mask) 7) mask).0 bits) set)
            | inr super ↦ inl super
          ],
        )

    any : (b : Bool) → (b || true) ≡ true
    any true = refl
    any false = refl

    back :
        ((not (i.i_dev == 0) && i.i_nlinks == 0) ≡ false)
          × ((suser current ≡ true) ⊎ Grants i.i_mode (shift_for current i) mask)
        → permission current i mask ≡ true
    back (a, inl super) = rw (a, super, if◌then◌else◌) (any (bit_and (bit_and m mask) 7 == mask))
    back (a, inr bits) =
        let all = (==_iff (bit_and (bit_and m mask) 7) mask).1 (
          covered-from m mask (mode_for-lt current i hm) h
            (λ k set. bits_for current i k ∙ bits k set)) in
        rw (a, all, if◌then◌else◌) refl
