-- ===== src/Pmm/Init.antt =====
-- `pmm_init` of kernel/pmm.c: what the allocator knows of the memory map.
use os.Base.{
  ℕ, zero, suc, ◌+◌, ◌*◌, ◌%◌, ◌^◌, ◌≤◌, ◌<◌, ◌≡◌, refl, Bool, false, not, ◌&&◌, ◌||◌, List, [],
  ◌∷◌, arith, leb, ltb, ◌==◌, Bool-cases, inl, inr,
}
use os.Pmm.Bits.{zero_byte}
use os.Pmm.{
  Pmm, Region, available, bitmap_size, bitmap_base, page_size, mark_page, steps, mark_kernel,
  mark_region, mark_entry, mark_regions, init,
}
use os.Pmm.Pages.{used, page_count, page_of, IsValid, used-mark_page, mark_page-IsValid}
use os.Pmm.Free.{addr_limit}
use os.Pmm.Reserve.{Marked, between, page_addr}

mark_region-Marked :
    (n a b : ℕ) (p : Pmm)
    → IsValid p
    → a % page_size ≡ 0
    → a < addr_limit
    → b ≡ a + n * page_size
    → Marked p (between a b) (mark_region n a p)
unfolding mark_region
mark_region-Marked zero a b p v al lim e = record { view = λ q hq. ground arith; valid = v }
mark_region-Marked (suc n) a b p v al lim e = elim (Bool-cases (ltb a bitmap_base)) [
  | inl low ↦
      let ih =
        mark_region-Marked n (a + page_size) b p v (omega arith) (ground arith) (omega arith) in
      rw (low, mark_region)
        (record { view = λ q hq. ground (arith, ih.view q hq); valid = ih.valid })
  | inr high ↦ elim (Bool-cases (leb page_count (page_of a % 2 ^ 32))) [
    | inl out ↦ rw (high, out, mark_region) (record { view = λ q hq. ground arith; valid = v })
    | inr here ↦
        let page = page_of a % 2 ^ 32 in
        let w = mark_page-IsValid p page v in
        let ih =
          mark_region-Marked n (a + page_size) b (mark_page page p) w (omega arith) (ground arith)
            (omega arith) in
        rw (high, here, mark_region)
          (record {
            view = λ q hq. ground (arith, ih.view q hq, used-mark_page p page q v);
            valid = ih.valid;
          })
  ]
]

mark_kernel-Marked :
    (n a b : ℕ) (p : Pmm)
    → IsValid p
    → a % page_size ≡ 0
    → bitmap_base ≤ a
    → b ≡ a + n * page_size
    → b < addr_limit
    → Marked p (between a b) (mark_kernel n a p)
unfolding mark_kernel
mark_kernel-Marked zero a b p v al lo e lim = record { view = λ q hq. ground arith; valid = v }
mark_kernel-Marked (suc n) a b p v al lo e lim = elim (Bool-cases (ltb page page_count)) [
  | inl here ↦
      let w = mark_page-IsValid p page v in
      let ih =
        mark_kernel-Marked n (a + page_size) b (mark_page page p) w (omega arith) (omega arith)
          (omega arith) lim in
      rw (here, mark_kernel)
        (record {
          view = λ q hq. ground (arith, ih.view q hq, used-mark_page p page q v);
          valid = ih.valid;
        })
  | inr out ↦
      let ih =
        mark_kernel-Marked n (a + page_size) b p v (omega arith) (omega arith) (omega arith) lim in
      rw (out, mark_kernel)
        (record { view = λ q hq. ground (arith, ih.view q hq); valid = ih.valid })
]
  where
    page : ℕ
    page = page_of a % 2 ^ 32

-- Whether a region of the memory map that is not available covers the start of page `q`.
abbrev pub covered : List Region → ℕ → Bool
covered [] q = false
covered (r ∷ rs) q = not (r.kind == available) && between r.base (r.base + r.len) q || covered rs q

-- The regions start at page boundaries below 2 ^ 44, and do not wrap.
abbrev pub AllAligned : List Region → Type 0
AllAligned [] = Unit {0}
AllAligned (r ∷ rs) =
    (r.base % page_size ≡ 0) × (r.base < addr_limit) × (r.base + r.len < 2 ^ 64) × AllAligned rs

mark_entry-Marked :
    (r : Region) (p : Pmm)
    → IsValid p
    → r.base % page_size ≡ 0
    → r.base < addr_limit
    → r.base + r.len < 2 ^ 64
    → Marked p
        (λ q. not (r.kind == available) && between r.base (r.base + r.len) q)
        (mark_entry r p)
unfolding mark_entry
mark_entry-Marked r p v al lim wrap =
    let end = (r.base + r.len) % 2 ^ 64 in
    let n = steps r.base end in
    let loop = mark_region-Marked n r.base (r.base + n * page_size) p v al lim refl in
    elim (Bool-cases (r.kind == available)) [
      | inl skip ↦ rw (skip, mark_entry) (record { view = λ q hq. ground arith; valid = v })
      | inr go ↦ elim (Bool-cases (ltb end r.base)) [
        | inl wrapped ↦ absurd (ground arith)
        | inr fits ↦
            rw (go, fits, mark_entry)
              (record { view = λ q hq. ground (arith, loop.view q hq); valid = loop.valid })
      ]
    ]

mark_regions-Marked :
    (rs : List Region) (p : Pmm)
    → IsValid p
    → AllAligned rs
    → Marked p (covered rs) (mark_regions rs p)
unfolding mark_regions
mark_regions-Marked [] p v h = record { view = λ q hq. refl; valid = v }
mark_regions-Marked (r ∷ rs) p v h =
    let one = mark_entry-Marked r p v h.0 h.1 h.2 in
    let rest = mark_regions-Marked rs (mark_entry r p) one.valid h.3 in
    record { view = λ q hq. ground (arith, one.view q hq, rest.view q hq); valid = rest.valid }

-- After `pmm_init` a page of the bitmap is in use exactly if the kernel image reaches it or a
-- region that is not available covers it, and the state is valid, whatever it was before the call
-- but for the cursor. The regions start at page boundaries below 2 ^ 44 and do not wrap, and the
-- image ends below 2 ^ 44.
pub init_lem :
    (kernel_end : ℕ) (regions : List Region) (p : Pmm)
    → p.last_free < bitmap_size
    → bitmap_base ≤ kernel_end
    → kernel_end + page_size < addr_limit
    → AllAligned regions
    → IsValid (init kernel_end regions p)
      × ((q : ℕ)
          → q < page_count
          → used (init kernel_end regions p) q
            ≡ (ltb (page_addr q) kernel_end || covered regions q))
unfolding init
init_lem kernel_end regions p hc lo hi al = (
  rest.valid,
  λ q hq. ground (arith, rest.view q hq, image.view q hq, zero_byte (q % 8) (omega arith)),
)
  where
    empty : Pmm
    empty = record p { bitmap = λ i. 0 }

    n : ℕ
    n = steps bitmap_base kernel_end

    image :
        Marked empty
          (between bitmap_base (bitmap_base + n * page_size))
          (mark_kernel n bitmap_base empty)
    image =
        mark_kernel-Marked n bitmap_base (bitmap_base + n * page_size) empty
          (record { cursor = hc; bytes = λ i. omega arith }) refl (omega arith) refl (omega arith)

    rest :
        Marked
          (mark_kernel n bitmap_base empty)
          (covered regions)
          (mark_regions regions (mark_kernel n bitmap_base empty))
    rest = mark_regions-Marked regions (mark_kernel n bitmap_base empty) image.valid al
