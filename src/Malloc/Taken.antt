-- ===== src/Malloc/Taken.antt =====
-- One chain: what malloc takes from it, free_s gives back to it.
use linux.Common.{
  ℕ, ◌+◌, ◌-◌, ◌%◌, ◌^◌, ◌≤◌, ◌<◌, ◌≡◌, ◌≢◌, refl, subst, sym, ◌∙◌, inl, inr, true, false, none,
  some, List, [], ◌∷◌, ◌==◌, if◌then◌else◌, arith, Bool-cases, Option-cases,
}
use linux.Mm.{Mm, page_of}
use linux.Malloc.{Bucket, take_object, give_object}

-- No bucket of the chain has the page.
abbrev pub Apart : ℕ → List Bucket → Type 0
Apart page [] = Unit {0}
Apart page (b ∷ chain) = (b.page ≢ page) × Apart page chain

-- The free list of a bucket starts in its page, its objects in use are counted, and no other bucket of the
-- chain has its page.
abbrev pub IsChain : List Bucket → Type 0
IsChain [] = Unit {0}
IsChain (b ∷ chain) =
    (b.freeptr ≢ 0 → page_of b.freeptr ≡ b.page)
    × (1 ≤ b.refcnt)
    × (b.refcnt < 256)
    × Apart b.page chain
    × IsChain chain

pub apart-test : (a b : ℕ) → a ≢ b → (a == b) ≡ false
apart-test a b n = ground arith

pub same-test : (n : ℕ) → (n == n) ≡ true
same-test n = ground arith

down-up : (n : ℕ) → n < 256 → ((n + 1) % 2 ^ 16 + 2 ^ 16 - 1) % 2 ^ 16 ≡ n
down-up n h = omega arith

-- The first bucket with a free object gives it.
abbrev pub with_taken : Mm → Bucket → Bucket
with_taken mm b = record b { freeptr = mm.mem b.freeptr; refcnt = (b.refcnt + 1) % 2 ^ 16 }

pub data Took (mm : Mm) : List Bucket → ℕ → List Bucket → Type 0 where
  first :
      (b : Bucket) (chain : List Bucket)
      → b.freeptr ≢ 0
      → Took mm (b ∷ chain) b.freeptr (with_taken mm b ∷ chain)
  later :
      (b : Bucket) (chain : List Bucket) (obj : ℕ) (chain' : List Bucket)
      → Took mm chain obj chain'
      → Took mm (b ∷ chain) obj (b ∷ chain')

pair_of : {p q : ℕ × List Bucket} → some p ≡ some q → p ≡ q
pair_of e = cc

pub take-Took :
    (mm : Mm) (chain : List Bucket) (p : ℕ × List Bucket)
    → take_object mm chain ≡ some p
    → Took mm chain p.0 p.1
unfolding take_object
take-Took mm [] p h = cc
take-Took mm (b ∷ chain) p h = elim (Bool-cases (b.freeptr == 0)) [
  | inr some_obj ↦
      subst (λ q. Took mm (b ∷ chain) q.0 q.1) (pair_of (rw (some_obj, if◌then◌else◌) at h))
        (first b chain (ground (arith, some_obj)))
  | inl full ↦ elim (Option-cases (take_object mm chain)) [
    | inl gone ↦ absurd (none_ne_some (rw (full, gone, if◌then◌else◌) at h))
    | inr (q, there) ↦
        subst (λ q. Took mm (b ∷ chain) q.0 q.1) (pair_of (rw (full, there, if◌then◌else◌) at h))
          (later b chain q.0 q.1 (take-Took mm chain q there))
  ]
]
  where
    none_ne_some : {p : ℕ × List Bucket} → none ≡ some p → ⊥
    none_ne_some q = cc

-- A page that no bucket has is not that of the object.
pub Apart-taken :
    (mm : Mm) (page obj : ℕ) (chain chain' : List Bucket)
    → IsChain chain
    → Took mm chain obj chain'
    → Apart page chain
    → page ≢ page_of obj
Apart-taken mm page _ _ _ v (first b chain used) a = λ e. a.0 (sym (v.0 used) ∙ sym e)
Apart-taken mm page _ _ _ v (later b chain obj chain' t) a =
    Apart-taken mm page obj chain chain' v.4 t a.1

pub give-taken :
    (mm : Mm) (obj : ℕ) (chain chain' : List Bucket)
    → IsChain chain
    → Took mm chain obj chain'
    → give_object (page_of obj) obj chain' ≡ some (mm.mem obj, false, chain)
unfolding give_object
give-taken mm _ _ _ v (first b chain used) =
    rw (v.0 used, same-test b.page, down-up b.refcnt v.2, in_use b.refcnt v.1, if◌then◌else◌) refl
  where
    in_use : (n : ℕ) → 1 ≤ n → (n == 0) ≡ false
    in_use n h = ground arith
give-taken mm _ _ _ v (later b chain obj chain' t) =
    rw
      (
        apart-test b.page (page_of obj) (Apart-taken mm b.page obj chain chain' v.4 t v.3),
        give-taken mm obj chain chain' v.4 t,
        if◌then◌else◌,
      )
      refl
