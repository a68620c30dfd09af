-- ===== src/Pmm.antt =====
-- kernel/pmm.c: the bitmap allocator of physical pages. Byte i of the bitmap holds the pages
-- 8 * i to 8 * i + 7, and a set bit is a page in use.
pub mod Bits
pub mod Pages
pub mod Alloc
pub mod Free
pub mod Reserve
pub mod Init
mod Tests
use os.Base.{
  ℕ, zero, suc, ◌+◌, ◌-◌, ◌*◌, ◌/◌, ◌%◌, ◌^◌, Option, none, some, List, [], ◌∷◌, ltb, leb, ◌==◌,
  if◌then◌else◌, update,
}
use Bits.{test_bit, set_bit, clear_bit, first_clear}

-- BITMAP_SIZE
abbrev pub bitmap_size : ℕ
bitmap_size = 131072

-- bitmap_base
abbrev pub bitmap_base : ℕ
bitmap_base = 0x100000

abbrev pub page_size : ℕ
page_size = 4096

-- The static state of the file.
pub record Pmm : Type 0 where
  pub bitmap : ℕ → ℕ
  pub last_free : ℕ

-- `mem_map_entry_t`, without its reserved word.
pub record Region : Type 0 where
  pub base : ℕ
  pub len : ℕ
  pub kind : ℕ

-- MULTIBOOT_MEMORY_AVAILABLE
abbrev pub available : ℕ
available = 1

-- bitmap[page / 8] |= (1 << (page % 8))
pub mark_page : ℕ → Pmm → Pmm
mark_page page p = record p {
  bitmap = update p.bitmap (page / 8) (set_bit (p.bitmap (page / 8)) (page % 8));
}

-- The loop that marks the kernel image, with `n` pages left. `page` is a u32.
pub mark_kernel : ℕ → ℕ → Pmm → Pmm
mark_kernel zero addr p = p
mark_kernel (suc n) addr p =
    let page = (addr - bitmap_base) / page_size % 2 ^ 32 in
    mark_kernel n (addr + page_size) (if ltb page (bitmap_size * 8) then mark_page page p else p)

-- The loop over one region that is not available. `page` is a u32.
pub mark_region : ℕ → ℕ → Pmm → Pmm
mark_region zero addr p = p
mark_region (suc n) addr p =
    let page = (addr - bitmap_base) / page_size % 2 ^ 32 in
    let skipped = mark_region n (addr + page_size) p in
    let marked = mark_region n (addr + page_size) (mark_page page p) in
    if ltb addr bitmap_base then skipped else if leb (bitmap_size * 8) page then p else marked

-- The number of addresses `start`, `start + page_size`, … below `end`.
abbrev pub steps : ℕ → ℕ → ℕ
steps start end = (end - start + (page_size - 1)) / page_size

-- The body of the loop over the memory map.
pub mark_entry : Region → Pmm → Pmm
mark_entry r p =
    let end = (r.base + r.len) % 2 ^ 64 in
    if r.kind == available
    then p
    else if ltb end r.base
    then p
    else mark_region (steps r.base end) r.base p

pub mark_regions : List Region → Pmm → Pmm
mark_regions [] p = p
mark_regions (r ∷ rs) p = mark_regions rs (mark_entry r p)

-- `kernel_end` is the address of the linker's `_kernel_end`; the regions are `bootmem_regions`.
-- The cursor is not reset.
pub init : ℕ → List Region → Pmm → Pmm
init kernel_end regions p =
    mark_regions regions
      (mark_kernel (steps bitmap_base kernel_end) bitmap_base (record p { bitmap = λ i. 0 }))

-- The loop of `pmm_reserve_range` with `n` pages left.
pub reserve_loop : ℕ → ℕ → Pmm → Pmm
reserve_loop zero a p = p
reserve_loop (suc n) a p =
    let page = (a - bitmap_base) / page_size in
    let skipped = reserve_loop n (a + page_size) p in
    let marked = reserve_loop n (a + page_size) (mark_page page p) in
    if ltb a bitmap_base then skipped else if leb (bitmap_size * 8) page then p else marked

-- x & ~4095
abbrev pub align_down : ℕ → ℕ
align_down x = x - x % page_size

-- (addr + len + 4095) & ~4095 on u64
abbrev pub range_end : ℕ → ℕ → ℕ
range_end addr len = align_down ((addr + len + 4095) % 2 ^ 64)

pub reserve_range : ℕ → ℕ → Pmm → Pmm
reserve_range addr len p =
    reserve_loop ((range_end addr len - align_down addr) / page_size) (align_down addr) p

-- A loop over `n` bytes of the bitmap from byte `i` on: the first byte that is not 0xFF, and its
-- first clear bit.
pub scan : (ℕ → ℕ) → ℕ → ℕ → Option (ℕ × ℕ)
scan bitmap zero i = none
scan bitmap (suc n) i =
    let rest = scan bitmap n (i + 1) in
    let found : Option (ℕ × ℕ) = elim (first_clear 8 0 (bitmap i)) [
      | none ↦ rest
      | some bit ↦ some (i, bit)
    ] in
    if bitmap i == 255 then rest else found

-- bitmap_base + (i * 8 + bit) * 4096, the product on u32
abbrev pub address : ℕ → ℕ → ℕ
address i bit = bitmap_base + (i * 8 + bit) * page_size % 2 ^ 32

-- The body that both loops end with.
pub claim : Pmm → ℕ × ℕ → Pmm × ℕ
claim p (i, bit) = (
  record p { bitmap = update p.bitmap i (set_bit (p.bitmap i) bit); last_free = i },
  address i bit,
)

pub alloc_page : Pmm → Pmm × ℕ
unfolding claim
alloc_page p = elim (scan p.bitmap (bitmap_size - p.last_free) p.last_free) [
  | some hit ↦ claim p hit
  | none ↦ elim (scan p.bitmap p.last_free 0) [ some hit ↦ claim p hit | none ↦ (p, 0) ]
]

-- `page` is a u32.
pub free_page : ℕ → Pmm → Pmm
free_page addr p =
    let page = (addr - bitmap_base) / page_size % 2 ^ 32 in
    let byte = page / 8 in
    let bit = page % 8 in
    let cleared = record p {
      bitmap = update p.bitmap byte (clear_bit (p.bitmap byte) bit);
      last_free = if ltb byte p.last_free then byte else p.last_free;
    } in
    if ltb addr bitmap_base
    then p
    else if leb (bitmap_size * 8) page
    then p
    else if test_bit (p.bitmap byte) bit
    then cleared
    else p

-- The set bits of a byte from bit `bit` on, `n` bits in all.
count_bits : ℕ → ℕ → ℕ → ℕ
count_bits zero bit b = 0
count_bits (suc n) bit b = (if test_bit b bit then 1 else 0) + count_bits n (bit + 1) b

-- The count is at most 8 * BITMAP_SIZE, below 2 ^ 32.
count_used : (ℕ → ℕ) → ℕ → ℕ → ℕ
unfolding count_bits
count_used bitmap zero i = 0
count_used bitmap (suc n) i = count_bits 8 0 (bitmap i) + count_used bitmap n (i + 1)

pub used_pages : Pmm → ℕ
used_pages p = count_used p.bitmap bitmap_size 0

pub free_pages : Pmm → ℕ
free_pages p = bitmap_size * 8 - used_pages p
