-- ===== src/Pmm/Free.antt =====
-- `pmm_free_page` of kernel/pmm.c.
use os.Base.{ℕ, ◌/◌, ◌%◌, ◌^◌, ◌≤◌, ◌<◌, ◌≡◌, ◌≢◌, false, ◌&&◌, arith, leb, ◌==◌, if◌then◌else◌}
use os.Pmm.Bits.{test_bit-clear_bit, bits_in_range}
use os.Pmm.{Pmm, bitmap_base, alloc_page, free_page}
use os.Pmm.Pages.{used, page_count, page_of, IsValid}
use os.Pmm.Alloc.{alloc_page_sound}

-- Below this bound the page number of an address fits a u32.
abbrev pub addr_limit : ℕ
addr_limit = 2 ^ 44

-- On a valid state, `pmm_free_page` frees the page of an address of the bitmap's range and no
-- other page, also where the page was free already; an address below the range or past it changes
-- nothing. The address is below 2 ^ 44.
used-free_page :
    (p : Pmm) (addr q : ℕ)
    → IsValid p
    → addr < addr_limit
    → q < page_count
    → used (free_page addr p) q
      ≡ (if leb bitmap_base addr && (q == page_of addr) then false else used p q)
unfolding free_page
used-free_page p addr q v ha hq = ground (
  arith,
  v.bytes (page_of addr / 8),
  test_bit-clear_bit (p.bitmap (page_of addr / 8)) (page_of addr % 8) (q % 8)
      (v.bytes (page_of addr / 8)) (omega arith) (omega arith),
)

-- `pmm_free_page` keeps a valid state valid for every address, and the cursor never moves forward.
free_page-IsValid :
    (p : Pmm) (addr : ℕ)
    → IsValid p
    → IsValid (free_page addr p) × ((free_page addr p).last_free ≤ p.last_free)
unfolding free_page
free_page-IsValid p addr v =
    (record { cursor = ground (arith, v.cursor); bytes = bytes }, ground arith)
  where
    bytes : (j : ℕ) → (free_page addr p).bitmap j < 256
    bytes j =
        let byte = page_of addr % 2 ^ 32 / 8 in
        ground (
          arith,
          v.bytes j,
          v.bytes byte,
          bits_in_range (p.bitmap byte) (page_of addr % 2 ^ 32 % 8) (v.bytes byte) (omega arith),
        )

-- On a valid state, giving a page back after `pmm_alloc_page` returned it undoes the call: every
-- page is in use or free as it was before.
free_page-alloc_page :
    (p : Pmm) (q : ℕ)
    → IsValid p
    → (alloc_page p).1 ≢ 0
    → q < page_count
    → used (free_page (alloc_page p).1 (alloc_page p).0) q ≡ used p q
free_page-alloc_page p q v h hq =
    let a = alloc_page_sound p v h in
    ground (
      arith,
      a.in_range,
      a.addr,
      a.was_free,
      a.view q,
      used-free_page (alloc_page p).0 (alloc_page p).1 q a.valid,
    )
