-- ===== src/Malloc.antt =====
-- The kernel's allocator of lib/malloc.c, over the pages of mm/memory.c. The chains of descriptors are lists,
-- and of the free descriptors the number counts; the free objects of a page are linked through memory.
pub mod Objects
pub mod Taken
pub mod RoundTrip
mod Tests
use linux.Common.{
  ℕ, zero, suc, ◌+◌, ◌-◌, ◌*◌, ◌/◌, ◌%◌, ◌^◌, Bool, true, false, Option, none, some, List, [], ◌∷◌,
  ltb, leb, ◌==◌, if◌then◌else◌, get_or, set,
}
use linux.Mm.{Mm, store, page_of}
use linux.Mm.Frame.{get_free_page, free_page}

-- `struct bucket_desc` without `next`.
pub record Bucket : Type 0 where
  pub page : ℕ
  pub freeptr : ℕ
  pub refcnt : ℕ
  pub bucket_size : ℕ

-- `struct _bucket_dir`
pub record BucketDir : Type 0 where
  pub size : ℕ
  pub chain : List Bucket

pub record Heap : Type 0 where
  pub bucket_dir : List BucketDir
  pub free_bucket_desc : ℕ
  pub mm : Mm

pub data Malloc (A : Type 0) : Type 0 where
  done : A → Heap → Malloc A
  panic : Malloc A

-- The table without its end marker.
abbrev pub empty_dirs : List BucketDir
empty_dirs =
    record { size = 16; chain = [] }
    ∷ record { size = 32; chain = [] }
    ∷ record { size = 64; chain = [] }
    ∷ record { size = 128; chain = [] }
    ∷ record { size = 256; chain = [] }
    ∷ record { size = 512; chain = [] }
    ∷ record { size = 1024; chain = [] }
    ∷ record { size = 2048; chain = [] }
    ∷ record { size = 4096; chain = [] }
    ∷ []

-- A page of 256 descriptors goes to the list of free ones, which malloc finds empty.
pub init_bucket_desc : Heap → Malloc (Unit {0})
init_bucket_desc h =
    let (page, mm) = get_free_page h.mm in
    if page == 0
    then panic
    else done tt (record h { free_bucket_desc = h.free_bucket_desc + 256; mm = mm })

-- The first size of the table that is at least `len`.
pub find_size : ℕ → List BucketDir → Option ℕ
find_size len [] = none
find_size len (d ∷ dirs) =
    if leb len d.size
    then some 0
    else elim (find_size len dirs) [ none ↦ none | some i ↦ some (suc i) ]

-- The chain of free objects: `n` more of them after the one at `cp`.
pub link_objects : ℕ → ℕ → ℕ → Mm → Mm
link_objects zero cp size mm = store cp 0 mm
link_objects (suc n) cp size mm = link_objects n (cp + size) size (store cp (cp + size) mm)

-- An object from the first bucket of the chain that has one: the object, and the chain.
pub take_object : Mm → List Bucket → Option (ℕ × List Bucket)
take_object mm [] = none
take_object mm (b ∷ chain) =
    if b.freeptr == 0
    then elim (take_object mm chain) [ none ↦ none | some (obj, chain') ↦ some (obj, b ∷ chain') ]
    else some (
      b.freeptr,
      record b { freeptr = mm.mem b.freeptr; refcnt = (b.refcnt + 1) % 2 ^ 16 } ∷ chain,
    )

abbrev pub no_dir : BucketDir
no_dir = record { size = 0; chain = [] }

-- A new bucket for the directory entry `i`, at the head of its chain.
pub new_bucket : ℕ → Heap → Malloc (Unit {0})
unfolding init_bucket_desc link_objects
new_bucket i h =
    let d = get_or h.bucket_dir i no_dir in
    elim (if h.free_bucket_desc == 0 then init_bucket_desc h else done tt h) [
      | panic ↦ panic
      | done _ h1 ↦
          let (cp, mm) = get_free_page h1.mm in
          let b : Bucket = record { page = cp; freeptr = cp; refcnt = 0; bucket_size = d.size } in
          if cp == 0
          then panic
          else done tt (record {
            bucket_dir = set h1.bucket_dir i (record d { chain = b ∷ d.chain });
            free_bucket_desc = h1.free_bucket_desc - 1;
            mm = link_objects (4096 / d.size - 1) cp d.size mm;
          })
    ]

-- The object that a chain gives, with its chain stored.
pub from_chain : ℕ → Heap → Option (ℕ × Heap)
unfolding take_object
from_chain i h =
    let d = get_or h.bucket_dir i no_dir in
    elim (take_object h.mm d.chain) [
      | none ↦ none
      | some (obj, chain) ↦
          some (obj, record h { bucket_dir = set h.bucket_dir i (record d { chain = chain }) })
    ]

pub malloc : ℕ → Heap → Malloc ℕ
unfolding find_size new_bucket from_chain
malloc len h = elim (find_size len h.bucket_dir) [
  | none ↦ panic
  | some i ↦ elim (from_chain i h) [
    | some (obj, h') ↦ done obj h'
    | none ↦ elim (new_bucket i h) [
      | panic ↦ panic
      | done _ h1 ↦ elim (from_chain i h1) [ none ↦ panic | some (obj, h2) ↦ done obj h2 ]
    ]
  ]
]

-- What free_s does to the chain that has the page: the old `freeptr`, whether the bucket is empty now and
-- taken out, and the chain.
pub give_object : ℕ → ℕ → List Bucket → Option (ℕ × Bool × List Bucket)
give_object page obj [] = none
give_object page obj (b ∷ chain) =
    let refcnt = (b.refcnt + 2 ^ 16 - 1) % 2 ^ 16 in
    if b.page == page
    then some (
      b.freeptr,
      refcnt == 0,
      if refcnt == 0 then chain else record b { freeptr = obj; refcnt = refcnt } ∷ chain,
    )
    else elim (give_object page obj chain) [
      | none ↦ none
      | some (freeptr, is_empty, chain') ↦ some (freeptr, is_empty, b ∷ chain')
    ]

-- The search over the sizes from `size` on.
pub give_dirs : ℕ → ℕ → ℕ → List BucketDir → Option (ℕ × Bool × List BucketDir)
unfolding give_object
give_dirs page obj size [] = none
give_dirs page obj size (d ∷ dirs) =
    elim (if ltb d.size size then none else give_object page obj d.chain) [
      | some (freeptr, is_empty, chain) ↦
          some (freeptr, is_empty, record d { chain = chain } ∷ dirs)
      | none ↦ elim (give_dirs page obj size dirs) [
        | none ↦ none
        | some (freeptr, is_empty, dirs') ↦ some (freeptr, is_empty, d ∷ dirs')
      ]
    ]

pub free_s : ℕ → ℕ → Heap → Malloc (Unit {0})
unfolding give_dirs
free_s obj size h = elim (give_dirs (page_of obj) obj size h.bucket_dir) [
  | none ↦ panic
  | some (freeptr, is_empty, dirs) ↦
      let mm = store obj freeptr h.mm in
      if is_empty
      then elim (free_page (page_of obj) mm) [
        | linux.Mm.panic ↦ panic
        | linux.Mm.exits c ↦ panic
        | linux.Mm.ok _ mm' ↦
            done tt
              (record { bucket_dir = dirs; free_bucket_desc = h.free_bucket_desc + 1; mm = mm' })
      ]
      else done tt (record h { bucket_dir = dirs; mm = mm })
]
