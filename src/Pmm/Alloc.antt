-- ===== src/Pmm/Alloc.antt =====
-- `pmm_alloc_page` of kernel/pmm.c.
use os.Base.{
  ℕ, ◌+◌, ◌-◌, ◌*◌, ◌/◌, ◌%◌, ◌≤◌, ◌<◌, ◌≡◌, refl, ◌≢◌, ◌↔◌, true, false, arith, ◌==◌,
  if◌then◌else◌, inl, inr, ◌⊎◌, Option-cases,
}
use os.Pmm.Bits.{test_bit, full_byte}
use os.Pmm.{Pmm, bitmap_size, bitmap_base, page_size, scan, claim, alloc_page}
use os.Pmm.Pages.{
  used, page_count, page_of, IsValid, used-set_bit, set_bit-bytes, scan-some, scan-none,
}

-- What a successful call has done.
pub record Allocated (p : Pmm) (page : ℕ) (out : Pmm × ℕ) : Type 0 where
  pub in_range : page < page_count
  pub addr : out.1 ≡ bitmap_base + page * page_size
  pub was_free : used p page ≡ false
  pub view : (q : ℕ) → used out.0 q ≡ (if q == page then true else used p q)
  pub valid : IsValid out.0

claim-Allocated :
    (p : Pmm) (i k : ℕ)
    → IsValid p
    → i < bitmap_size
    → k < 8
    → test_bit (p.bitmap i) k ≡ false
    → Allocated p (i * 8 + k) (claim p (i, k))
unfolding claim
claim-Allocated p i k v hi hk free = record {
  in_range = omega arith;
  addr = omega arith;
  was_free = rw (byte, bit) free;
  view = used-set_bit p.bitmap i k v.bytes hk;
  valid = record { cursor = hi; bytes = set_bit-bytes p.bitmap i k v.bytes hk };
}
  where
    byte : (i * 8 + k) / 8 ≡ i
    byte = omega arith

    bit : (i * 8 + k) % 8 ≡ k
    bit = omega arith

-- A call claims a free page, or the bitmap is full and nothing changes.
pub alloc_cases :
    (p : Pmm)
    → IsValid p
    → ((page : ℕ) × Allocated p page (alloc_page p))
      ⊎ ((alloc_page p ≡ (p, 0)) × ((i : ℕ) → i < bitmap_size → p.bitmap i ≡ 255))
unfolding alloc_page
alloc_cases p v = elim (Option-cases (scan p.bitmap (bitmap_size - p.last_free) p.last_free)) [
  | inr ((i, k), e) ↦
      let h = scan-some p.bitmap v.bytes (bitmap_size - p.last_free) p.last_free i k e in
      let c = v.cursor in
      rw (e, alloc_page) (inl (i * 8 + k, claim-Allocated p i k v (omega arith) h.2 h.3))
  | inl e ↦ elim (Option-cases (scan p.bitmap p.last_free 0)) [
    | inr ((i, k), e') ↦
        let h = scan-some p.bitmap v.bytes p.last_free 0 i k e' in
        let c = v.cursor in
        rw (e, e', alloc_page) (inl (i * 8 + k, claim-Allocated p i k v (omega arith) h.2 h.3))
    | inl e' ↦
        rw (e, e', alloc_page)
          (inr (
            refl,
            λ i hi. elim (before_cursor i) [
              | inl lo ↦ scan-none p.bitmap v.bytes p.last_free 0 e' i (omega arith) (omega arith)
              | inr hi' ↦
                  scan-none p.bitmap v.bytes (bitmap_size - p.last_free) p.last_free e i hi'
                    (omega (arith, v.cursor))
            ],
          ))
  ]
]
  where
    before_cursor : (i : ℕ) → (i < p.last_free) ⊎ (p.last_free ≤ i)
    before_cursor i = omega arith

-- On a valid state, a call that returns an address has claimed the page at that address: the page
-- lies in the bitmap, was free, is in use now, no other page changed, and the state stays valid.
pub alloc_page_sound :
    (p : Pmm)
    → IsValid p
    → (alloc_page p).1 ≢ 0
    → Allocated p (page_of (alloc_page p).1) (alloc_page p)
alloc_page_sound p v h = elim (alloc_cases p v) [
  | inl (page, a) ↦
      let same : page_of (alloc_page p).1 ≡ page = rw a.addr (omega arith) in rw same a
  | inr full ↦ absurd (h (rw full.0))
]

-- On a valid state, a call returns 0 exactly when every page is in use, wherever the cursor
-- stands.
pub alloc_page-zero_iff :
    (p : Pmm) → IsValid p → ((alloc_page p).1 ≡ 0) ↔ ((q : ℕ) → q < page_count → used p q ≡ true)
alloc_page-zero_iff p v = elim (alloc_cases p v) [
  | inl (page, a) ↦ (
    λ z. absurd (omega (arith, a.addr)),
    λ all. absurd (ground (arith, all page a.in_range, a.was_free)),
  )
  | inr (same, full) ↦ (
    λ z q hq. rw (full (q / 8) (omega arith)) (full_byte (q % 8) (omega arith)),
    λ all. rw same refl,
  )
]
