-- ===== src/Pmm/Pages.antt =====
-- The abstract view of kernel/pmm.c: which pages are in use, and the invariant of its state.
use os.Base.{
  ℕ, zero, suc, ◌+◌, ◌-◌, ◌*◌, ◌/◌, ◌%◌, ◌≤◌, ◌<◌, ◌≡◌, Bool, true, false, none, some, arith, ◌==◌,
  if◌then◌else◌, update, Bool-cases, inl, inr,
}
use os.Pmm.Bits.{
  test_bit, set_bit, test_bit-set_bit, bits_in_range, first_clear-none, first_clear-some,
}
use os.Pmm.{Pmm, bitmap_size, bitmap_base, page_size, mark_page, scan}

-- Page `q` is the one at `bitmap_base + q * 4096`.
abbrev pub used : Pmm → ℕ → Bool
used p q = test_bit (p.bitmap (q / 8)) (q % 8)

abbrev pub page_count : ℕ
page_count = bitmap_size * 8

abbrev pub page_of : ℕ → ℕ
page_of addr = (addr - bitmap_base) / page_size

-- The cursor lies within the bitmap, whose entries are bytes.
pub record IsValid (p : Pmm) : Type 0 where
  pub cursor : p.last_free < bitmap_size
  pub bytes : (i : ℕ) → p.bitmap i < 256

module _ (bitmap : ℕ → ℕ) (i k : ℕ) (bytes : (i : ℕ) → bitmap i < 256) (small : k < 8) where
  -- Setting a bit changes the view at one page.
  pub used-set_bit :
      (q : ℕ)
      → test_bit (update bitmap i (set_bit (bitmap i) k) (q / 8)) (q % 8)
        ≡ (if q == i * 8 + k then true else test_bit (bitmap (q / 8)) (q % 8))
  used-set_bit q =
      ground (arith, test_bit-set_bit (bitmap i) k (q % 8) (bytes i) small (omega arith))

  pub set_bit-bytes : (j : ℕ) → update bitmap i (set_bit (bitmap i) k) j < 256
  set_bit-bytes j = ground (arith, bits_in_range (bitmap i) k (bytes i) small, bytes j)

pub used-mark_page :
    (p : Pmm) (page q : ℕ)
    → IsValid p
    → used (mark_page page p) q ≡ (if q == page then true else used p q)
unfolding mark_page
used-mark_page p page q v =
    ground (arith, used-set_bit p.bitmap (page / 8) (page % 8) v.bytes (omega arith) q)

pub mark_page-IsValid : (p : Pmm) (page : ℕ) → IsValid p → IsValid (mark_page page p)
unfolding mark_page
mark_page-IsValid p page v = record {
  cursor = v.cursor;
  bytes = set_bit-bytes p.bitmap (page / 8) (page % 8) v.bytes (omega arith);
}

module _ (bitmap : ℕ → ℕ) (bytes : (i : ℕ) → bitmap i < 256) where
  -- What `scan` finds is a clear bit within its range.
  pub scan-some :
      (n i j k : ℕ)
      → scan bitmap n i ≡ some (j, k)
      → (i ≤ j) × (j < i + n) × (k < 8) × (test_bit (bitmap j) k ≡ false)
  unfolding scan
  scan-some zero i j k e = ground arith
  scan-some (suc n) i j k e =
      ground (arith, scan-some n (i + 1) j k, first_clear-some (bitmap i) k (bytes i))

  -- Where `scan` finds nothing every byte is 0xFF.
  pub scan-none : (n i : ℕ) → scan bitmap n i ≡ none → (j : ℕ) → i ≤ j → j < i + n → bitmap j ≡ 255
  unfolding scan
  scan-none zero i e j lo hi = absurd (omega arith)
  scan-none (suc n) i e j lo hi = elim (Bool-cases (i == j)) [
    | inl same ↦ ground (arith, first_clear-none (bitmap i) (bytes i))
    | inr other ↦ ground (
      arith,
      first_clear-none (bitmap i) (bytes i),
      λ (t : scan bitmap n (i + 1) ≡ none) (lo : i + 1 ≤ j) (hi : j < i + 1 + n).
          scan-none n (i + 1) t j lo hi,
    )
  ]
