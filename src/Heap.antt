-- ===== src/Heap.antt =====
-- kernel/heap.c: the list of blocks behind `kmalloc` and `kfree`. Memory is seen as the block headers
-- that stand at its addresses; the bytes behind a header belong to its owner.
pub mod Tiles
pub mod Malloc
pub mod Free
mod Tests
use os.Base.{
  ℕ, zero, suc, ◌+◌, ◌-◌, ◌*◌, ◌/◌, ◌%◌, ◌^◌, Bool, true, false, ◌&&◌, Option, none, some, leb,
  ◌==◌, if◌then◌else◌, update,
}

-- sizeof(heap_block_t)
abbrev pub header_size : ℕ
header_size = 32

-- `heap_block_t`
pub record Block : Type 0 where
  pub size : ℕ
  pub next : Option ℕ
  pub prev : Option ℕ
  pub free : Bool

-- `heap_head`, and the headers in memory.
pub record Heap : Type 0 where
  pub head : Option ℕ
  pub blocks : ℕ → Block

pub init : ℕ → ℕ → Heap → Heap
init start size h = record {
  head = some start;
  blocks = update h.blocks start (record {
    size = (size + 2 ^ 64 - header_size) % 2 ^ 64;
    next = none;
    prev = none;
    free = true;
  });
}

-- (size + 15) & ~15, on usize
abbrev pub align : ℕ → ℕ
align size = (size + 15) % 2 ^ 64 / 16 * 16

-- curr->free && curr->size >= aligned + sizeof(heap_block_t)
abbrev pub fits : ℕ → Block → Bool
fits aligned b = b.free && leb ((aligned + header_size) % 2 ^ 64) b.size

-- The loop of `kmalloc`: the first block that fits. None means that the fuel ran out, `some none` that
-- the list ends.
pub find_block : ℕ → ℕ → (ℕ → Block) → Option ℕ → Option (Option ℕ)
find_block zero aligned blocks curr = none
find_block (suc f) aligned blocks none = some none
find_block (suc f) aligned blocks (some c) =
    let rest = find_block f aligned blocks (blocks c).next in
    if fits aligned (blocks c) then some (some c) else rest

-- block->prev = p
abbrev pub set_prev : Option ℕ → ℕ → (ℕ → Block) → ℕ → Block
set_prev none p blocks = blocks
set_prev (some n) p blocks = update blocks n (record (blocks n) { prev = some p })

-- The block at `c` is cut behind `aligned` bytes.
pub split_block : ℕ → ℕ → (ℕ → Block) → ℕ → Block
split_block aligned c blocks =
    let fresh = (c + header_size + aligned) % 2 ^ 64 in
    let b1 = update blocks fresh (record {
      size = ((blocks c).size + 2 ^ 65 - aligned - header_size) % 2 ^ 64;
      next = (blocks c).next;
      prev = some c;
      free = true;
    }) in
    let b2 = set_prev (b1 c).next fresh b1 in
    update b2 c (record (b2 c) { size = aligned; next = some fresh; free = false })

-- `kmalloc` with the fuel of its loop; the result 0 is NULL.
pub malloc_found : ℕ → Heap → Option (Option ℕ) → Option (Heap × ℕ)
unfolding split_block
malloc_found aligned h none = none
malloc_found aligned h (some none) = some (h, 0)
malloc_found aligned h (some (some c)) =
    some (record h { blocks = split_block aligned c h.blocks }, (c + header_size) % 2 ^ 64)

pub malloc_at : ℕ → ℕ → Heap → Option ℕ → Option (Heap × ℕ)
unfolding malloc_found find_block
malloc_at fuel size h none = some (h, 0)
malloc_at fuel size h (some c) =
    let found = malloc_found (align size) h (find_block fuel (align size) h.blocks (some c)) in
    if size == 0 then some (h, 0) else found

pub kmalloc : ℕ → ℕ → Heap → Option (Heap × ℕ)
unfolding malloc_at
kmalloc fuel size h = malloc_at fuel size h h.head

-- Merging the block at `b` with the next one if that is free.
abbrev pub merge_next_of : ℕ → Option ℕ → (ℕ → Block) → ℕ → Block
merge_next_of b none blocks = blocks
merge_next_of b (some n) blocks =
    let b1 = update blocks b (record (blocks b) {
      size = ((blocks b).size + (header_size + (blocks n).size)) % 2 ^ 64;
      next = (blocks n).next;
    }) in
    let merged = set_prev (b1 b).next b b1 in if (blocks n).free then merged else blocks

pub merge_next : ℕ → (ℕ → Block) → ℕ → Block
merge_next b blocks = merge_next_of b (blocks b).next blocks

-- Merging it with the one before if that is free.
abbrev pub merge_prev_of : ℕ → Option ℕ → (ℕ → Block) → ℕ → Block
merge_prev_of b none blocks = blocks
merge_prev_of b (some p) blocks =
    let b1 = update blocks p (record (blocks p) {
      size = ((blocks p).size + (header_size + (blocks b).size)) % 2 ^ 64;
      next = (blocks b).next;
    }) in
    let merged = set_prev (b1 b).next p b1 in if (blocks p).free then merged else blocks

pub merge_prev : ℕ → (ℕ → Block) → ℕ → Block
merge_prev b blocks = merge_prev_of b (blocks b).prev blocks

pub free_block : ℕ → (ℕ → Block) → ℕ → Block
unfolding merge_next merge_prev
free_block b blocks =
    merge_prev b (merge_next b (update blocks b (record (blocks b) { free = true })))

pub free_at : ℕ → Heap → Option ℕ → Heap
unfolding free_block
free_at ptr h none = h
free_at ptr h (some c) =
    let freed = record h { blocks = free_block ((ptr + 2 ^ 64 - header_size) % 2 ^ 64) h.blocks } in
    if ptr == 0 then h else freed

pub kfree : ℕ → Heap → Heap
unfolding free_at
kfree ptr h = free_at ptr h h.head
