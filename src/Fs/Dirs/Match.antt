-- ===== src/Fs/Dirs/Match.antt =====
-- match compares a name with the name that an entry stores, padded with zeros.
use linux.Common.{
  ℕ, zero, suc, ◌≤◌, ◌≡◌, ◌≢◌, ◌↔◌, refl, Bool, true, List, [], ◌∷◌, ◌||◌, ◌==◌, leb, if◌then◌else◌,
  arith, length, get_or, Bool-cases, inl, inr,
}
use linux.Fs.Dirs.{DirEntry, same_bytes, matches, name_len}

-- The name in a field of `n` characters: what stands before the first 0.
pub stored : ℕ → List ℕ → List ℕ
stored zero field = []
stored (suc n) [] = []
stored (suc n) (c ∷ field) = if c == 0 then [] else c ∷ stored n field

unfoldable pub IsName : List ℕ → Type 0
IsName [] = Unit {0}
IsName (c ∷ name) = (c ≢ 0) × IsName name

ends_at : ℕ → ℕ → List ℕ → Bool
ends_at n len field = leb n len || get_or field len 0 == 0

same_bytes-stored :
    (n : ℕ) (name field : List ℕ)
    → IsName name
    → length name ≤ n
    → ends_at n (length name) field ≡ true
    → same_bytes (length name) name field ≡ true
    → stored n field ≡ name
unfolding same_bytes stored IsName ends_at
same_bytes-stored zero [] field v b e s = refl
same_bytes-stored (suc n) [] [] v b e s = refl
same_bytes-stored (suc n) [] (x ∷ field) v b e s = ground arith
same_bytes-stored zero (c ∷ name) field v b e s = absurd (omega arith)
same_bytes-stored (suc n) (c ∷ name) [] v b e s = absurd (ground (arith, v.0))
same_bytes-stored (suc n) (c ∷ name) (x ∷ field) v b e s =
    let rest = same_bytes-stored n name field v.1 (omega arith) (ground arith) (ground arith) in
    ground (arith, rest, v.0)

stored-same_bytes :
    (n : ℕ) (name field : List ℕ)
    → length name ≤ n
    → IsName name
    → stored n field ≡ name
    → (ends_at n (length name) field ≡ true) × (same_bytes (length name) name field ≡ true)
unfolding same_bytes stored ends_at IsName
stored-same_bytes zero [] field b v e = (refl, refl)
stored-same_bytes (suc n) [] [] b v e = (ground arith, refl)
stored-same_bytes (suc n) [] (x ∷ field) b v e = (ground arith, refl)
stored-same_bytes zero (c ∷ name) field b v e = absurd (omega arith)
stored-same_bytes (suc n) (c ∷ name) [] b v e = cc
stored-same_bytes (suc n) (c ∷ name) (x ∷ field) b v e = elim (Bool-cases (x == 0)) [
  | inl none ↦ absurd (nil_ne_cons (rw (none, if◌then◌else◌) at e))
  | inr some_char ↦
      let both = split (rw (some_char, if◌then◌else◌) at e) in
      let (ends, rest) = stored-same_bytes n name field (omega arith) v.1 both.1 in
      (ground arith, ground arith)
]
  where
    nil_ne_cons : {a : ℕ} {xs : List ℕ} → [] ≡ a ∷ xs → ⊥
    nil_ne_cons q = cc

    split : {a b : ℕ} {xs ys : List ℕ} → a ∷ xs ≡ b ∷ ys → (a ≡ b) × (xs ≡ ys)
    split q = (cc, cc)

-- For a name of 1 to 14 characters, none of them 0, match accepts an entry exactly when the entry is in use
-- and the name that it stores, which ends at the first 0 or has all 14 characters, is that name.
pub matches_iff :
    (name : List ℕ) (de : DirEntry)
    → IsName name
    → 1 ≤ length name
    → length name ≤ name_len
    → (matches (length name) name de ≡ true) ↔ ((de.inode ≢ 0) × (stored name_len de.name ≡ name))
unfolding matches ends_at
matches_iff name de v some_char b = (to, back)
  where
    to : matches (length name) name de ≡ true → (de.inode ≢ 0) × (stored name_len de.name ≡ name)
    to h = (
      ground (arith, h),
      same_bytes-stored name_len name de.name v b (ground (arith, h)) (ground (arith, h)),
    )

    back : (de.inode ≢ 0) × (stored name_len de.name ≡ name) → matches (length name) name de ≡ true
    back h =
        let (ends, rest) = stored-same_bytes name_len name de.name b v h.1 in
        ground (arith, h.0, ends, rest)
