-- ===== src/Malloc.antt =====
-- kernel/src/memory.c, the bucket allocator behind `malloc`, `free` and `realloc`. The headers of the
-- buckets are seen by themselves, one function from addresses for each field, and so are the bytes
-- behind them: a write to a header changes no byte of a bucket, and the other way round. NULL is 0.
-- The lock that each call takes is the subject of `Sync`.
pub mod Linked
pub mod Unlink
pub mod Chains
pub mod Calls
pub mod Free
pub mod Realloc
pub mod Debug
mod Tests
use ilo_pali.Prelude.{
  ℕ, zero, suc, ◌+◌, ◌-◌, ◌*◌, ◌/◌, Bool, true, false, Option, none, some, ltb, leb, ◌==◌,
  if◌then◌else◌, add64, mul64,
}
use ilo_pali.Bytes.{Region, memcpy_within}
use ilo_pali.Pages.{Pages, alloc_pages, dealloc_pages, page_size, fill}
use ilo_pali.Mmu.Address.{phys2safe, safe2phys}

-- `f` with `v` at `a`
abbrev pub put : (ℕ → ℕ) → ℕ → ℕ → ℕ → ℕ
put f a v x = if x == a then v else f x

-- `if (a != NULL) f[a] = v`
abbrev pub put_at : (ℕ → ℕ) → ℕ → ℕ → ℕ → ℕ
put_at f a v = if a == 0 then f else put f a v

-- the fields of `struct s_free_bucket`
pub record Buckets : Type 0 where
  pub next : ℕ → ℕ
  pub prev : ℕ → ℕ
  pub size : ℕ → ℕ
  pub origin : ℕ → ℕ

-- sizeof(struct s_free_bucket)
abbrev pub header_size : ℕ
header_size = 32

abbrev pub fallback_page_count : ℕ
fallback_page_count = 65

-- `free_buckets_alloc_t` with the memory around it; `free 16` is `free_16`, and so on.
pub record Heap : Type 0 where
  pub buckets : Buckets
  pub used : ℕ
  pub free : ℕ → ℕ
  pub pages : Pages
  pub bytes : Region

-- the list that a size belongs to
unfoldable pub size_class : ℕ → Option ℕ
size_class size =
    if leb size 16
    then some 16
    else if leb size 64
    then some 64
    else if leb size 256
    then some 256
    else if leb size 1024
    then some 1024
    else if leb size 4096
    then some 4096
    else if leb size 16384
    then some 16384
    else if leb size 65536
    then some 65536
    else none

-- one round of the loop of `free_buckets_format_unused`
abbrev pub format_bucket : Buckets → ℕ → ℕ → ℕ → ℕ → Buckets
format_bucket h base bucket_size total i =
    let size = header_size + bucket_size in
    record {
      prev = put h.prev (base + i) (if ltb 0 i then base + i - size else 0);
      next = put h.next (base + i) (if ltb (i + size) total then base + i + size else 0);
      size = put h.size (base + i) bucket_size;
      origin = put h.origin (base + i) 0;
    }

-- The loop from `i` on. `total / size` rounds are enough, since every one steps over `size` bytes.
unfoldable pub format_from : ℕ → Buckets → ℕ → ℕ → ℕ → ℕ → Buckets
format_from zero h base bucket_size total i = h
format_from (suc rounds) h base bucket_size total i =
    let size = header_size + bucket_size in
    let rest =
      format_from rounds (format_bucket h base bucket_size total i) base bucket_size total
        (i + size) in
    if ltb (i + size) total then rest else h

-- The number of bytes wraps around in 64 bits; that of a bucket and the sums of the loop do not for
-- the seven sizes of buckets and the pages that are asked for here.
unfoldable pub free_buckets_format_unused : Buckets → ℕ → ℕ → ℕ → Buckets
unfolding format_from
free_buckets_format_unused h base bucket_size page_count =
    let total = mul64 page_count page_size in
    format_from (total / (header_size + bucket_size)) h base bucket_size total 0

-- `alloc_pages` and `phys2safe`; the headers in the pages are zeros then.
abbrev pub take_pages : Bool → Heap → ℕ → ℕ × Heap
take_pages enabled s count =
    let (page, pages) = alloc_pages s.pages count in
    elim page [
      | none ↦ (phys2safe enabled 0, record s { pages = pages })
      | some p ↦
          let a = phys2safe enabled p in
          let zeroed = λ (f : ℕ → ℕ). fill f a (count * page_size) 0 in
          (
            a,
            record s {
              pages = pages;
              bytes = zeroed s.bytes;
              buckets = record {
                next = zeroed s.buckets.next;
                prev = zeroed s.buckets.prev;
                size = zeroed s.buckets.size;
                origin = zeroed s.buckets.origin;
              };
            },
          )
    ]

-- Fresh buckets for an empty list; whether there are any.
abbrev pub refill : Bool → Heap → ℕ → Bool × Heap
refill enabled s c =
    if s.free c == 0
    then (let (unformatted, s') = take_pages enabled s fallback_page_count in
        if unformatted == 0 then (false, s') else (
          true,
          record s' {
            buckets = free_buckets_format_unused s'.buckets unformatted c fallback_page_count;
            free = put s'.free c unformatted;
          },
        ))
    else (true, s)

-- Bucket `b` becomes the first of the used ones.
abbrev pub push_used : Heap → ℕ → ℕ → Heap
push_used s b origin = record s {
  buckets = record s.buckets {
    origin = put s.buckets.origin b origin;
    next = put s.buckets.next b s.used;
    prev = put (put_at s.buckets.prev s.used b) b 0;
  };
  used = b;
}

-- the end of `free_buckets_alloc`
abbrev pub use_bucket : Heap → ℕ → ℕ → ℕ × Heap
use_bucket s b origin = if b == 0 then (0, s) else (b + header_size, push_used s b origin)

-- the first bucket of a list
abbrev pub take_bucket : Heap → ℕ → ℕ → ℕ × Heap
take_bucket s c origin =
    let bucket = s.free c in
    use_bucket (record s { free = put s.free c (s.buckets.next bucket) }) bucket origin

-- pages of their own, for a large size; the sum wraps around in 64 bits
abbrev pub take_large : Bool → Heap → ℕ → ℕ → ℕ × Heap
take_large enabled s size origin =
    let (bucket, s') =
      take_pages enabled s (add64 (add64 size header_size) (page_size - 1) / page_size) in
    if bucket == 0
    then (0, s')
    else use_bucket
        (record s' { buckets = record s'.buckets { size = put s'.buckets.size bucket size } })
        bucket origin

-- The address that is returned, and the heap after it.
unfoldable pub free_buckets_alloc : Bool → Heap → ℕ → ℕ → ℕ × Heap
unfolding size_class free_buckets_format_unused
free_buckets_alloc enabled s size origin = if size == 0 then (0, s) else elim (size_class size) [
  | none ↦ take_large enabled s size origin
  | some c ↦ let (got, s') = refill enabled s c in if got then take_bucket s' c origin else (0, s')
]

-- Bucket `b` is taken out of the list of used ones, and its own links are NULL.
unfoldable pub unlink : Heap → ℕ → Heap
unlink s b =
    let next = put_at s.buckets.next (s.buckets.prev b) (s.buckets.next b) in
    let prev = put_at s.buckets.prev (next b) (s.buckets.prev b) in
    record s {
      used = if b == s.used then next s.used else s.used;
      buckets = record s.buckets { next = put next b 0; prev = put prev b 0 };
    }

-- Bucket `b` becomes the first of a list.
unfoldable pub push_free : Heap → ℕ → ℕ → Heap
push_free s c b = record s {
  buckets = record s.buckets {
    prev = put_at s.buckets.prev (s.free c) b;
    next = put s.buckets.next b (s.free c);
  };
  free = put s.free c b;
}

-- Bucket `b` goes to the list of its size, or its pages go back.
abbrev pub give_back : Bool → Heap → ℕ → Option ℕ → Heap
give_back enabled s b (some c) = push_free s c b
give_back enabled s b none = record s {
  pages =
      dealloc_pages s.pages (safe2phys enabled b)
        (add64 (add64 (s.buckets.size b) header_size) (page_size - 1) / page_size);
}

abbrev pub free_bucket : Bool → Heap → ℕ → Heap
free_bucket enabled s b =
    let s' = unlink s b in give_back enabled s' b (size_class (s'.buckets.size b))

unfoldable pub free : Bool → Heap → ℕ → Heap
unfolding unlink push_free size_class
free enabled s p = if p == 0 then s else free_bucket enabled s (p - header_size)

-- what was held at `p` goes to the new place
abbrev pub move_to : Bool → ℕ → ℕ × Heap → ℕ × Heap
move_to enabled p r = if r.0 == 0 then (0, r.1) else (
  r.0,
  free enabled
      (record r.1 { bytes = memcpy_within r.1.bytes r.0 p (r.1.buckets.size (p - header_size)) }) p,
)

unfoldable pub realloc : Bool → Heap → ℕ → ℕ → ℕ → ℕ × Heap
unfolding free_buckets_alloc free
realloc enabled s p new_size origin =
    if p == 0
    then free_buckets_alloc enabled s new_size origin
    else if leb new_size (s.buckets.size (p - header_size))
    then (p, s)
    else move_to enabled p (free_buckets_alloc enabled s new_size origin)
