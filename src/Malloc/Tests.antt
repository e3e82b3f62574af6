-- ===== src/Malloc/Tests.antt =====
-- Tests of the allocator: a bucket of 2048-byte objects with one in use.
use linux.Common.{ℕ, ◌+◌, ◌≡◌, refl, arith, [], ◌∷◌}
use linux.Mm.{Mm, low_mem}
use linux.Malloc.{Bucket, Heap, done, find_size, take_object, malloc, free_s, link_objects}
use linux.Malloc.Objects.{IsLinked, objects_at, link_objects-IsLinked}
use linux.Malloc.RoundTrip.{IsDirs, free_s-malloc}

abbrev page : ℕ
page = low_mem

abbrev memory : Mm
memory = record { mem_map = []; mem = λ a. 0; high_memory = 0x1000000 }

abbrev in_use : Bucket
in_use = record { page = page; freeptr = page + 2048; refcnt = 1; bucket_size = 2048 }

abbrev heap : Heap
heap = record {
  bucket_dir = record { size = 16; chain = [] } ∷ record { size = 2048; chain = in_use ∷ [] } ∷ [];
  free_bucket_desc = 255;
  mm = memory;
}

heap-IsDirs : IsDirs heap.bucket_dir
heap-IsDirs = (tt, tt, (((λ h. refl), omega arith, omega arith, tt, tt), (tt, tt), tt))

free_s-malloc_example :
    (h' : Heap) × (malloc 1000 heap ≡ done (page + 2048) h')
    × (free_s (page + 2048) 0 h' ≡ done tt heap)
unfolding find_size take_object
free_s-malloc_example =
    free_s-malloc 1000 0 1 (page + 2048)
      (record { page = page; freeptr = 0; refcnt = 2; bucket_size = 2048 } ∷ []) heap heap-IsDirs
      refl refl (omega arith)

-- Three objects more after the first, in a page of four.
four_objects : IsLinked (link_objects 3 page 1024 memory) page (objects_at 3 page 1024)
four_objects = link_objects-IsLinked 3 page 1024 memory (omega arith) (omega arith)
