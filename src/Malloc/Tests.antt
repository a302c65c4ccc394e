-- ===== src/Malloc/Tests.antt =====
-- A page of three buckets, and a heap with two used ones.
use ilo_pali.Prelude.{◌+◌, ◌≤◌, ◌≡◌, refl, true, [], ◌∷◌, ltb, ◌==◌, if◌then◌else◌, arith, inr}
use ilo_pali.Pages.{Pages}
use ilo_pali.Malloc.{
  Buckets, Heap, free_buckets_format_unused, free_buckets_alloc, free, realloc, size_class,
  header_size,
}
use ilo_pali.Malloc.Linked.{none_left, one_more, no_item, item, no_bucket, bucket}
use ilo_pali.Malloc.Chains.{Chain, stops, links, format_lem}
use ilo_pali.Malloc.Calls.{Used, Free, Given, malloc_lem}
use ilo_pali.Malloc.Free.{free_lem, free-malloc}
use ilo_pali.Malloc.Realloc.{realloc_lem}

abbrev zeros : Buckets
zeros = record { next = λ a. 0; prev = λ a. 0; size = λ a. 0; origin = λ a. 0 }

abbrev no_pages : Pages
no_pages = record { heap_bottom = 0; len = 0; rc = λ i. 0; clear = λ i. true }

abbrev page : Heap
page = record {
  buckets = free_buckets_format_unused zeros 8192 1024 1;
  used = 0;
  free = λ c. if c == 1024 then 8192 else 0;
  pages = no_pages;
  bytes = λ a. 0;
}

format_lem_example :
    Chain page.buckets.next page.buckets.size 1024 8192 (8192 ∷ 9248 ∷ 10304 ∷ []) 11360
format_lem_example = format_lem zeros 8192 1024 1 3 (omega arith) (omega arith) (omega arith)

page-Free : Free page 1024 (8192 ∷ 9248 ∷ 10304 ∷ []) 11360
page-Free = format_lem zeros 8192 1024 1 3 (omega arith) (omega arith) (omega arith)

page-Used : Used page []
page-Used = (no_bucket 0, no_item)

malloc_lem_example :
    Given (free_buckets_alloc true page 1000 5) 5 1024 8192 (9248 ∷ 10304 ∷ []) [] 11360
    × (1000 ≤ 1024)
unfolding size_class
malloc_lem_example =
    malloc_lem true page 1000 5 1024 8192 (9248 ∷ 10304 ∷ []) [] 11360 (omega arith) refl
      (omega arith) page-Free page-Used none_left
      (one_more 9248 _ (omega arith) (one_more 10304 _ (omega arith) none_left))

free-malloc_example :
    let r = free_buckets_alloc true page 1000 5 in
    let s' = free true r.1 r.0 in Used s' [] × Free s' 1024 (8192 ∷ 9248 ∷ 10304 ∷ []) 11360
unfolding size_class
free-malloc_example =
    free-malloc true page 1000 5 1024 8192 (9248 ∷ 10304 ∷ []) [] 11360 (omega arith) refl refl
      (omega arith) page-Free page-Used none_left
      (one_more 9248 _ (omega arith, one_more 8192 _ (omega arith) none_left)
        (one_more 10304 _ (omega arith, one_more 8192 _ (omega arith) none_left) none_left))
      (one_more 8192 _ (omega arith) none_left)

-- The buckets 100 and 200 are used, 300 and 2000 are free.
abbrev two_used : Heap
two_used = record {
  buckets = record {
    next = λ a. if a == 100 then 200 else 0;
    prev = λ a. if a == 200 then 100 else 0;
    size = λ a. if ltb a 1000 then 16 else 64;
    origin = λ a. 0;
  };
  used = 100;
  free = λ c. if c == 16 then 300 else if c == 64 then 2000 else 0;
  pages = no_pages;
  bytes = λ a. a + 1;
}

two_used-Used : Used two_used (100 ∷ 200 ∷ [])
two_used-Used = (
  bucket 0 100 200 (200 ∷ []) (omega arith) refl refl
      (bucket 100 200 0 [] (omega arith) refl refl (no_bucket 200)),
  item 100 _ (one_more 200 _ (omega arith) none_left) (item 200 _ none_left no_item),
)

free_lem_example :
    let s' = free true two_used (200 + header_size) in
    Used s' (100 ∷ []) × Free s' 16 (200 ∷ 300 ∷ []) 0
unfolding size_class
free_lem_example =
    free_lem true two_used 16 200 (100 ∷ []) [] (300 ∷ []) 0 two_used-Used refl refl
      (links 300 0 0 [] refl refl (stops 0))
      (one_more 300 _
        (omega arith, one_more 100 _ (omega arith) (one_more 200 _ (omega arith) none_left))
        none_left)
      (one_more 100 _ (omega arith) (one_more 200 _ (omega arith) none_left))

realloc_lem_example :
    ((realloc true two_used 132 50 7).0 ≡ 2000 + header_size)
    × ((realloc true two_used 132 50 7).1.bytes (2000 + header_size + 3) ≡ 136)
unfolding size_class
realloc_lem_example =
    realloc_lem true two_used 132 50 7 64 2000 [] 0 3 (omega arith) (omega arith) refl (omega arith)
      (links 2000 0 0 [] refl refl (stops 0)) (omega arith) (inr (omega arith)) (omega arith)

-- The fourth bucket of the page begins in it and ends behind it, at 12416.
fourth :
    let once = (free_buckets_alloc true page 1000 5).1 in
    let twice = (free_buckets_alloc true once 1000 5).1 in
    let thrice = (free_buckets_alloc true twice 1000 5).1 in
    (free_buckets_alloc true thrice 1000 5).0 ≡ 11392
unfolding free_buckets_alloc free_buckets_format_unused
fourth = refl
