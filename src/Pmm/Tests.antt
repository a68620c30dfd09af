-- ===== src/Pmm/Tests.antt =====
-- Runs of kernel/pmm.c at concrete states, and the theorems at them.
use os.Base.{
  ℕ, ◌+◌, ◌*◌, ◌^◌, ◌<◌, ◌↔◌, ◌≡◌, refl, ◌≢◌, List, [], ◌∷◌, true, false, ◌||◌, ltb, update, arith,
}
use os.Pmm.Bits.{first_clear}
use os.Pmm.{Pmm, Region, scan, claim, alloc_page, free_page, init}
use os.Pmm.Pages.{used, IsValid}
use os.Pmm.Alloc.{Allocated, alloc_page_sound, alloc_page-zero_iff}
use os.Pmm.Reserve.{page_addr}
use os.Pmm.Init.{covered, init_lem}

-- Pages 0 to 8 and page 10 are in use.
abbrev sample : Pmm
sample = record { bitmap = update (update (λ i. 0) 0 255) 1 5; last_free = 0 }

sample-IsValid : IsValid sample
sample-IsValid = record { cursor = omega arith; bytes = λ i. ground arith }

abbrev one_reserved : List Region
one_reserved = record { base = 0x103000; len = 0x1800; kind = 2 } ∷ []

-- The next free page is page 9.
alloc_sample : (alloc_page sample).1 ≡ 0x100000 + 9 * 4096
unfolding alloc_page scan first_clear claim
alloc_sample = refl

alloc_sample-ne : (alloc_page sample).1 ≢ 0
alloc_sample-ne e = omega (arith, alloc_sample)

-- A u32 page number: an address 2 ^ 44 higher frees page 8.
free_aliases : used (free_page (2 ^ 44 + 0x108000) sample) 8 ≡ false
unfolding free_page
free_aliases = refl

alloc_page_sound_example : Allocated sample 9 (alloc_page sample)
unfolding alloc_page scan first_clear claim
alloc_page_sound_example = alloc_page_sound sample sample-IsValid alloc_sample-ne

alloc_page-zero_iff_example :
    ((alloc_page sample).1 ≡ 0) ↔ ((q : ℕ) → q < 1048576 → used sample q ≡ true)
alloc_page-zero_iff_example = alloc_page-zero_iff sample sample-IsValid

abbrev after_init : Pmm
after_init = init 0x102400 one_reserved sample

init_lem_example :
    IsValid after_init
    × ((q : ℕ)
        → q < 1048576
        → used after_init q ≡ (ltb (page_addr q) 0x102400 || covered one_reserved q))
init_lem_example =
    init_lem 0x102400 one_reserved sample (omega arith) (omega arith) (omega arith) (omega arith)
