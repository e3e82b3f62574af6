-- ===== src/Malloc/RoundTrip.antt =====
-- free_s takes back an object that malloc has taken from a bucket in use, and leaves the heap as it was.
use linux.Common.{
  ℕ, zero, suc, ◌≤◌, ◌≡◌, refl, ap, ◌∙◌, inl, inr, Bool, true, false, Option, none, some, List, [],
  ◌∷◌, ltb, leb, ◌==◌, if◌then◌else◌, arith, get_or, set, Bool-cases, Option-cases,
}
use mathlib.Core.Path.{fun_ext}
use linux.Mm.{Mm, store, page_of}
use linux.Malloc.{
  Bucket, BucketDir, Heap, Malloc, done, find_size, take_object, no_dir, from_chain, malloc,
  give_object, give_dirs, free_s,
}
use linux.Malloc.Taken.{Apart, IsChain, Took, apart-test, take-Took, Apart-taken, give-taken}

-- No chain has the page.
abbrev pub ApartDirs : ℕ → List BucketDir → Type 0
ApartDirs page [] = Unit {0}
ApartDirs page (d ∷ dirs) = Apart page d.chain × ApartDirs page dirs

abbrev pub AllApart : List Bucket → List BucketDir → Type 0
AllApart [] dirs = Unit {0}
AllApart (b ∷ chain) dirs = ApartDirs b.page dirs × AllApart chain dirs

-- Every chain is in order, and no two of them share a page.
abbrev pub IsDirs : List BucketDir → Type 0
IsDirs [] = Unit {0}
IsDirs (d ∷ dirs) = IsChain d.chain × AllApart d.chain dirs × IsDirs dirs

chain_at : ℕ → List BucketDir → List Bucket
chain_at i dirs = (get_or dirs i no_dir).chain

ApartDirs-chain :
    (page i : ℕ) (dirs : List BucketDir) → ApartDirs page dirs → Apart page (chain_at i dirs)
unfolding chain_at
ApartDirs-chain page i [] a = tt
ApartDirs-chain page zero (d ∷ dirs) a = a.0
ApartDirs-chain page (suc i) (d ∷ dirs) a = ApartDirs-chain page i dirs a.1

IsDirs-IsChain : (i : ℕ) (dirs : List BucketDir) → IsDirs dirs → IsChain (chain_at i dirs)
unfolding chain_at
IsDirs-IsChain i [] v = tt
IsDirs-IsChain zero (d ∷ dirs) v = v.0
IsDirs-IsChain (suc i) (d ∷ dirs) v = IsDirs-IsChain i dirs v.2

-- The chains in front of the one that gave the object do not have its page.
Apart-object :
    (mm : Mm) (obj i : ℕ) (dirs : List BucketDir) (chain chain' : List Bucket)
    → IsDirs dirs
    → Took mm (chain_at i dirs) obj chain'
    → AllApart chain dirs
    → Apart (page_of obj) chain
Apart-object mm obj i dirs [] chain' v t a = tt
Apart-object mm obj i dirs (b ∷ chain) chain' v t a = (
  Apart-taken mm b.page obj (chain_at i dirs) chain' (IsDirs-IsChain i dirs v) t
      (ApartDirs-chain b.page i dirs a.0),
  Apart-object mm obj i dirs chain chain' v t a.1,
)

give-Apart :
    (page obj : ℕ) (chain : List Bucket) → Apart page chain → give_object page obj chain ≡ none
unfolding give_object
give-Apart page obj [] a = refl
give-Apart page obj (b ∷ chain) a =
    rw (apart-test b.page page a.0, give-Apart page obj chain a.1, if◌then◌else◌) refl

abbrev with_chain : ℕ → List Bucket → List BucketDir → List BucketDir
with_chain i chain dirs = set dirs i (record (get_or dirs i no_dir) { chain = chain })

give_dirs-taken :
    (mm : Mm) (obj size i : ℕ) (dirs : List BucketDir) (chain' : List Bucket)
    → IsDirs dirs
    → Took mm (chain_at i dirs) obj chain'
    → size ≤ (get_or dirs i no_dir).size
    → give_dirs (page_of obj) obj size (with_chain i chain' dirs) ≡ some (mm.mem obj, false, dirs)
unfolding give_dirs chain_at
give_dirs-taken mm obj size i [] chain' v t b = absurd (nothing t)
  where
    nothing : {obj : ℕ} {chain' : List Bucket} → Took mm [] obj chain' → ⊥
    nothing t = elim t [ ]
give_dirs-taken mm obj size zero (d ∷ dirs) chain' v t b =
    rw
      (
        not_less d.size size b,
        give-taken mm obj d.chain chain' v.0 t,
        if◌then◌else◌,
        give_dirs,
        with_chain,
      )
      refl
  where
    not_less : (a b : ℕ) → b ≤ a → ltb a b ≡ false
    not_less a b h = ground arith
give_dirs-taken mm obj size (suc i) (d ∷ dirs) chain' v t b =
    let elsewhere = Apart-object mm obj i dirs d.chain chain' v.2 t v.1 in
    rw
      (
        nowhere (ltb d.size size) (give-Apart (page_of obj) obj d.chain elsewhere),
        give_dirs-taken mm obj size i dirs chain' v.2 t b,
        give_dirs,
        with_chain,
      )
      refl
  where
    nowhere :
        (c : Bool)
        → give_object (page_of obj) obj d.chain ≡ none
        → (if c then none else give_object (page_of obj) obj d.chain) ≡ none
    nowhere true h = refl
    nowhere false h = h

find_size-le :
    (len i : ℕ) (dirs : List BucketDir)
    → find_size len dirs ≡ some i
    → len ≤ (get_or dirs i no_dir).size
unfolding find_size
find_size-le len i [] h = cc
find_size-le len zero (d ∷ dirs) h = ground arith
find_size-le len (suc i) (d ∷ dirs) h = elim (Bool-cases (leb len d.size)) [
  | inl fits ↦ absurd (zero_ne_suc (rw (fits, if◌then◌else◌) at h))
  | inr small ↦ elim (Option-cases (find_size len dirs)) [
    | inl gone ↦ absurd (none_ne_some (rw (small, gone, if◌then◌else◌) at h))
    | inr (j, there) ↦ find_size-le len i dirs (
        there
        ∙ ap {A = ℕ} {B = Option ℕ} (λ n. some n) (pred (rw (small, there, if◌then◌else◌) at h)))
  ]
]
  where
    zero_ne_suc : {n : ℕ} → some zero ≡ some (suc n) → ⊥
    zero_ne_suc q = cc

    none_ne_some : {n : ℕ} → none ≡ some n → ⊥
    none_ne_some q = cc

    pred : {m n : ℕ} → some (suc m) ≡ some (suc n) → m ≡ n
    pred q = cc

-- Writing back what is there changes nothing.
store-same : (p : ℕ) (mm : Mm) → store p (mm.mem p) mm ≡ mm
unfolding store
store-same p mm = ap {A = ℕ → ℕ} {B = Mm} (λ m. record mm { mem = m }) (fun_ext λ a. same a)
  where
    same : (a : ℕ) → (if a == p then mm.mem p else mm.mem a) ≡ mm.mem a
    same a = elim (Bool-cases (a == p)) [
      | inl here ↦
          let at_p : p ≡ a = ground (arith, here) in rw (here, if◌then◌else◌) (ap mm.mem at_p)
      | inr apart ↦ rw (apart, if◌then◌else◌) refl
    ]

abbrev taken_heap : ℕ → List Bucket → Heap → Heap
taken_heap i chain h = record h { bucket_dir = with_chain i chain h.bucket_dir }

free_s-taken :
    (obj size i : ℕ) (chain : List Bucket) (h : Heap)
    → IsDirs h.bucket_dir
    → Took h.mm (chain_at i h.bucket_dir) obj chain
    → size ≤ (get_or h.bucket_dir i no_dir).size
    → free_s obj size (taken_heap i chain h) ≡ done tt h
unfolding free_s
free_s-taken obj size i chain h v t b =
    rw (give_dirs-taken h.mm obj size i h.bucket_dir chain v t b, free_s, taken_heap, if◌then◌else◌)
      (ap {A = Mm} {B = Malloc (Unit {0})} (λ m. done tt (record h { mm = m }))
        (store-same obj h.mm))

malloc-taken :
    (len obj i : ℕ) (chain : List Bucket) (h : Heap)
    → find_size len h.bucket_dir ≡ some i
    → take_object h.mm (chain_at i h.bucket_dir) ≡ some (obj, chain)
    → malloc len h ≡ done obj (taken_heap i chain h)
unfolding malloc chain_at
malloc-taken len obj i chain h f t = rw (f, malloc) (rw (t, from_chain) refl)

-- In a heap in order, where no two buckets share a page, each has between 1 and 255 objects in use, and its
-- free list starts in its page, let the smallest size that fits `len` have a bucket with a free object.
-- Then malloc of `len` returns the first such object, and free_s of it, with `len`, a smaller size or 0
-- for the size that is not known, leaves the heap as it was before both calls, its memory included.
pub free_s-malloc :
    (len size i obj : ℕ) (chain : List Bucket) (h : Heap)
    → IsDirs h.bucket_dir
    → find_size len h.bucket_dir ≡ some i
    → take_object h.mm (get_or h.bucket_dir i no_dir).chain ≡ some (obj, chain)
    → size ≤ len
    → (h' : Heap) × (malloc len h ≡ done obj h') × (free_s obj size h' ≡ done tt h)
unfolding chain_at
free_s-malloc len size i obj chain h v f t b =
    let fits = find_size-le len i h.bucket_dir f in
    (
      taken_heap i chain h,
      malloc-taken len obj i chain h f t,
      free_s-taken obj size i chain h v (take-Took h.mm (chain_at i h.bucket_dir) (obj, chain) t)
          (omega arith),
    )
