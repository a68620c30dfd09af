-- ===== src/Vmm/Tests.antt =====
-- Runs of kernel/vmm.c on four small tables, and the theorems at them.
use os.Base.{◌+◌, ◌%◌, ◌^◌, ◌≡◌, ◌⊎◌, inl, [], refl, true, false, update, arith}
use os.Vmm.{
  Vm, map_page, unmap_page, get_phys, find_level, create_level, find_directory, create_path,
  table_of, page_size,
}
use os.Pmm.Pages.{IsValid}
use os.Vmm.Create.{IsSound, IsFull, indices, map_page-cases}
use os.Vmm.Path.{HasTable, map_page-other}

-- Tables at 0x1000, 0x2000, 0x3000 and 0x4000; the second entry of the third table is a page of 2 MiB.
abbrev sample : Vm
sample = record {
  words =
      update (update (update (update (λ a. 0) 0x1000 0x2003) 0x2000 0x3003) 0x3000 0x4003) 0x3008
        (0x200000 + 131);
  cr3 = 0x1000;
  pmm = record { bitmap = λ i. 0; last_free = 0 };
}

sample-HasTable : HasTable sample 0x5123 0x2003 0x3003 0x4003
sample-HasTable = record {
  at1 = refl;
  at2 = refl;
  at3 = refl;
  present1 = refl;
  present2 = refl;
  present3 = refl;
  small = refl;
  apart1 = λ e. omega (arith, e);
  apart2 = λ e. omega (arith, e);
  apart3 = λ e. omega (arith, e);
}

next-HasTable : HasTable sample 0x6000 0x2003 0x3003 0x4003
next-HasTable = record {
  at1 = refl;
  at2 = refl;
  at3 = refl;
  present1 = refl;
  present2 = refl;
  present3 = refl;
  small = refl;
  apart1 = λ e. omega (arith, e);
  apart2 = λ e. omega (arith, e);
  apart3 = λ e. omega (arith, e);
}

-- `vmm_map_page` in a large page takes the page itself for a page table: the word at 0x200028 changes.
map_page_large : (map_page 0x205000 0x9000 2 sample).1.words 0x200028 ≡ 0x9003
unfolding map_page create_path create_level
map_page_large = refl

-- With PTE_NX in a large page, the physical address has bit 63.
get_phys_nx :
    get_phys 0x200000
      (record sample { words = update sample.words 0x3008 (2 ^ 63 + 0x200000 + 131) })
    ≡ 2 ^ 63 + 0x200000
unfolding get_phys find_directory find_level
get_phys_nx = refl

-- Only the top table is there.
abbrev bare : Vm
bare = record sample { words = λ a. 0 }

bare-Sound : IsSound bare [] bare.cr3 (indices 0x5123)
bare-Sound = (λ q free. inl (omega arith), tt, λ p. absurd (cc p))

bare-IsValid : IsValid bare.pmm
bare-IsValid = record { cursor = omega arith; bytes = λ i. omega arith }

map_page-cases_example :
    (((map_page 0x5123 0x9000 3 bare).0 ≡ false) × IsFull (map_page 0x5123 0x9000 3 bare).1.pmm)
    ⊎ (((map_page 0x5123 0x9000 3 bare).0 ≡ true)
        × (get_phys 0x5123 (map_page 0x5123 0x9000 3 bare).1
            ≡ table_of 0x9000 + 0x5123 % page_size))
map_page-cases_example = map_page-cases bare 0x5123 0x9000 3 bare-IsValid bare-Sound (omega arith)

map_page-other_example :
    (get_phys 0x6000 (map_page 0x5123 0x9000 3 sample).1 ≡ get_phys 0x6000 sample)
    × (get_phys 0x6000 (unmap_page 0x5123 sample) ≡ get_phys 0x6000 sample)
map_page-other_example =
    map_page-other sample 0x5123 0x9000 3 0x2003 0x3003 0x4003 0x6000 0x2003 0x3003 0x4003
      sample-HasTable next-HasTable (λ e. omega (arith, e)) (λ e. omega (arith, e))
      (λ e. omega (arith, e)) (λ e. omega (arith, e))
