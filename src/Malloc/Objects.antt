-- ===== src/Malloc/Objects.antt =====
-- The free objects of a new bucket are linked one after the other through its page.
use linux.Common.{
  ℕ, zero, suc, ◌+◌, ◌<◌, ◌≡◌, ◌≢◌, refl, subst, sym, ◌∙◌, List, [], ◌∷◌, ◌==◌, if◌then◌else◌,
  arith, false, true,
}
use linux.Mm.{Mm, store}
use linux.Malloc.{link_objects}

-- A free list from `p` on: no object is null, and each holds the address of the next.
abbrev pub IsLinked : Mm → ℕ → List ℕ → Type 0
IsLinked mm p [] = p ≡ 0
IsLinked mm p (obj ∷ objects) = (p ≡ obj) × (obj ≢ 0) × IsLinked mm (mm.mem obj) objects

-- The addresses of `n` more objects after the one at `cp`.
abbrev pub objects_at : ℕ → ℕ → ℕ → List ℕ
objects_at zero cp size = cp ∷ []
objects_at (suc n) cp size = cp ∷ objects_at n (cp + size) size

store-mem : (p w : ℕ) (mm : Mm) → (store p w mm).mem p ≡ w
unfolding store
store-mem p w mm = rw (same p, if◌then◌else◌) refl
  where
    same : (n : ℕ) → (n == n) ≡ true
    same n = ground arith

store-below : (a p w : ℕ) (mm : Mm) → a < p → (store p w mm).mem a ≡ mm.mem a
unfolding store
store-below a p w mm h = rw (below a p h, if◌then◌else◌) refl
  where
    below : (a p : ℕ) → a < p → (a == p) ≡ false
    below a p h = ground arith

link_objects-below :
    (n cp size a : ℕ) (mm : Mm) → a < cp → (link_objects n cp size mm).mem a ≡ mm.mem a
unfolding link_objects
link_objects-below zero cp size a mm h = store-below a cp 0 mm h
link_objects-below (suc n) cp size a mm h =
    link_objects-below n (cp + size) size a (store cp (cp + size) mm) (omega arith)
    ∙ store-below a cp (cp + size) mm h

-- For a positive size and an address that is not 0, the loop that sets up a new bucket links the object at
-- the address and `n` more, one size apart, and ends the list after the last one.
pub link_objects-IsLinked :
    (n cp size : ℕ) (mm : Mm)
    → 0 < size
    → cp ≢ 0
    → IsLinked (link_objects n cp size mm) cp (objects_at n cp size)
unfolding link_objects
link_objects-IsLinked zero cp size mm h ne = (refl, ne, store-mem cp 0 mm)
link_objects-IsLinked (suc n) cp size mm h ne =
    let mm' = store cp (cp + size) mm in
    let next =
      link_objects-below n (cp + size) size cp mm' (omega arith) ∙ store-mem cp (cp + size) mm in
    let rest = link_objects-IsLinked n (cp + size) size mm' h (omega arith) in
    (
      refl,
      ne,
      subst (λ p. IsLinked (link_objects n (cp + size) size mm') p (objects_at n (cp + size) size))
          (sym next) rest,
    )
