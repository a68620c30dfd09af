-- ===== src/Pmm/Reserve.antt =====
-- The loop of kernel/pmm.c that puts pages out of use: `pmm_reserve_range`.
use os.Base.{
  ℕ, zero, suc, ◌+◌, ◌*◌, ◌%◌, ◌^◌, ◌<◌, ◌≡◌, Bool, ◌&&◌, ◌||◌, arith, leb, ltb, Bool-cases, inl,
  inr,
}
use os.Pmm.{
  Pmm, bitmap_base, page_size, mark_page, reserve_loop, reserve_range, align_down, range_end,
}
use os.Pmm.Pages.{used, page_count, page_of, IsValid, used-mark_page, mark_page-IsValid}

-- The address of page `q`.
abbrev pub page_addr : ℕ → ℕ
page_addr q = bitmap_base + q * page_size

-- Whether page `q` starts at or behind `start` and before `end`.
abbrev pub between : ℕ → ℕ → ℕ → Bool
between start end q = leb start (page_addr q) && ltb (page_addr q) end

-- A state `r` is that of `p` with the pages of a test put in use.
pub record Marked (p : Pmm) (pages : ℕ → Bool) (r : Pmm) : Type 0 where
  pub view : (q : ℕ) → q < page_count → used r q ≡ (pages q || used p q)
  pub valid : IsValid r

reserve_loop-Marked :
    (n a b : ℕ) (p : Pmm)
    → IsValid p
    → a % page_size ≡ 0
    → b ≡ a + n * page_size
    → Marked p (between a b) (reserve_loop n a p)
unfolding reserve_loop
reserve_loop-Marked zero a b p v al e = record { view = λ q hq. ground arith; valid = v }
reserve_loop-Marked (suc n) a b p v al e = elim (Bool-cases (ltb a bitmap_base)) [
  | inl low ↦
      let ih = reserve_loop-Marked n (a + page_size) b p v (omega arith) (omega arith) in
      rw (low, reserve_loop)
        (record { view = λ q hq. ground (arith, ih.view q hq); valid = ih.valid })
  | inr high ↦ elim (Bool-cases (leb page_count (page_of a))) [
    | inl out ↦ rw (high, out, reserve_loop) (record { view = λ q hq. ground arith; valid = v })
    | inr here ↦
        let w = mark_page-IsValid p (page_of a) v in
        let ih =
          reserve_loop-Marked n (a + page_size) b (mark_page (page_of a) p) w (omega arith)
            (omega arith) in
        rw (high, here, reserve_loop)
          (record {
            view = λ q hq. ground (arith, ih.view q hq, used-mark_page p (page_of a) q v);
            valid = ih.valid;
          })
  ]
]

-- On a valid state, `pmm_reserve_range` puts in use exactly the pages of the bitmap that start in
-- the range, its ends rounded outwards to pages, and leaves the others as they were. The end does
-- not wrap.
reserve_range-Marked :
    (p : Pmm) (addr len : ℕ)
    → IsValid p
    → addr + len + 4095 < 2 ^ 64
    → Marked p (between (align_down addr) (range_end addr len)) (reserve_range addr len p)
unfolding reserve_range
reserve_range-Marked p addr len v h =
    reserve_loop-Marked _ (align_down addr) (range_end addr len) p v (omega arith) (omega arith)
