-- ===== src/Vmm.antt =====
-- kernel/vmm.c: the four levels of page tables. Memory is the 64-bit words at the addresses that are
-- divisible by 8; the tables lie where their physical addresses say, since low memory is mapped one
-- to one. Flushing the TLB has no effect on the model.
pub mod Path
pub mod Within
pub mod Create
mod Tests
use os.Base.{
  ℕ, ◌+◌, ◌-◌, ◌*◌, ◌/◌, ◌%◌, ◌^◌, Bool, true, false, not, ◌&&◌, ◌||◌, Option, none, some, ◌==◌,
  ltb, leb, if◌then◌else◌, update,
}
use os.Pmm.{Pmm, alloc_page}

-- The words in memory, CR3, and the allocator of pages.
pub record Vm : Type 0 where
  pub words : ℕ → ℕ
  pub cr3 : ℕ
  pub pmm : Pmm

abbrev pub page_size : ℕ
page_size = 4096

-- entry & PTE_PRESENT
abbrev pub is_present : ℕ → Bool
is_present entry = entry % 2 == 1

-- entry & (1 << 7), a page of 2 MiB in a page directory
abbrev pub is_large : ℕ → Bool
is_large entry = entry / 2 ^ 7 % 2 == 1

-- entry & ~0xFFF
abbrev pub table_of : ℕ → ℕ
table_of entry = entry / page_size * page_size

-- &table[idx]
abbrev pub entry_at : ℕ → ℕ → ℕ
entry_at table idx = table + 8 * idx

-- The four indices in a virtual address.
abbrev pub pml4_index : ℕ → ℕ
pml4_index virt = virt / 2 ^ 39 % 512

abbrev pub pdpt_index : ℕ → ℕ
pdpt_index virt = virt / 2 ^ 30 % 512

abbrev pub pd_index : ℕ → ℕ
pd_index virt = virt / 2 ^ 21 % 512

abbrev pub pt_index : ℕ → ℕ
pt_index virt = virt / 2 ^ 12 % 512

-- kmemset(page, 0, PAGE_SIZE)
abbrev pub clear_page : ℕ → (ℕ → ℕ) → ℕ → ℕ
clear_page page words a = if leb page a && ltb a (page + page_size) then 0 else words a

-- A walk has reached a table, or there is none: then the calls return what they return on failure.
pub data Walk : Type 0 where
  missing : Vm → Walk
  reached : ℕ → Vm → Walk

-- A new table behind the entry at `a`, given what `pmm_alloc_page` returned. The entry is present and
-- writable; the callers pass no flags.
abbrev pub new_table : ℕ → Pmm × ℕ → Vm → Walk
new_table a (pmm, phys) vm =
    let words = update (clear_page phys vm.words) a (table_of phys + 3) in
    if phys == 0
    then missing (record vm { pmm = pmm })
    else reached (table_of (words a)) (record vm { words = words; pmm = pmm })

-- `get_or_create_table`, and the table that its caller goes on with.
pub create_level : ℕ → Walk → Walk
create_level idx (missing vm) = missing vm
create_level idx (reached table vm) =
    let a = entry_at table idx in
    if is_present (vm.words a)
    then reached (table_of (vm.words a)) vm
    else new_table a (alloc_page vm.pmm) vm

-- A level of a walk that creates nothing.
pub find_level : ℕ → Walk → Walk
find_level idx (missing vm) = missing vm
find_level idx (reached table vm) =
    let a = entry_at table idx in
    if is_present (vm.words a) then reached (table_of (vm.words a)) vm else missing vm

-- Bit 63 of a or of b.
abbrev pub either_high : ℕ → ℕ → ℕ
either_high a b = if (a / 2 ^ 63 % 2 == 1) || (b / 2 ^ 63 % 2 == 1) then 2 ^ 63 else 0

-- (phys & ~0xFFF) | PTE_PRESENT | (flags & (PTE_WRITABLE | PTE_USER | PTE_NX)), on u64
abbrev pub leaf : ℕ → ℕ → ℕ
leaf phys flags =
    table_of phys % 2 ^ 63 + 1 + 2 * (flags / 2 % 2) + 4 * (flags / 4 % 2) + either_high phys flags

abbrev pub set_word : ℕ → ℕ → Vm → Vm
set_word a v vm = record vm { words = update vm.words a v }

abbrev pub mapped_at : ℕ → ℕ → Walk → Bool × Vm
mapped_at idx value (missing vm) = (false, vm)
mapped_at idx value (reached table vm) = (true, set_word (entry_at table idx) value vm)

-- The three levels above a page table.
abbrev pub create_path : ℕ → ℕ → Vm → Walk
unfolding create_level
create_path pml4 virt vm =
    create_level (pd_index virt)
      (create_level (pdpt_index virt) (create_level (pml4_index virt) (reached pml4 vm)))

pub map_page : ℕ → ℕ → ℕ → Vm → Bool × Vm
unfolding create_path
map_page virt phys flags vm =
    mapped_at (pt_index virt) (leaf phys flags) (create_path vm.cr3 virt vm)

-- The page directory of an address.
abbrev pub find_directory : ℕ → ℕ → Vm → Walk
unfolding find_level
find_directory pml4 virt vm =
    find_level (pdpt_index virt) (find_level (pml4_index virt) (reached pml4 vm))

-- pde is present, and no page of its own
abbrev pub is_table : ℕ → Bool
is_table pde = is_present pde && not (is_large pde)

abbrev pub unmap_in : ℕ → Walk → Vm
unmap_in virt (missing vm) = vm
unmap_in virt (reached pd vm) =
    let pde = vm.words (entry_at pd (pd_index virt)) in
    if is_table pde then set_word (entry_at (table_of pde) (pt_index virt)) 0 vm else vm

pub unmap_page : ℕ → Vm → Vm
unfolding find_directory
unmap_page virt vm = unmap_in virt (find_directory vm.cr3 virt vm)

-- pte & 0x000FFFFFFFFFF000
abbrev pub page_of : ℕ → ℕ
page_of pte = pte % 2 ^ 52 / page_size * page_size

abbrev pub phys_in : ℕ → Walk → ℕ
phys_in virt (missing vm) = 0
phys_in virt (reached pd vm) =
    let pde = vm.words (entry_at pd (pd_index virt)) in
    let pte = vm.words (entry_at (table_of pde) (pt_index virt)) in
    if not (is_present pde)
    then 0
    else if is_large pde
    then pde / 2 ^ 21 * 2 ^ 21 + virt % 2 ^ 21
    else if not (is_present pte)
    then 0
    else page_of pte + virt % page_size

pub get_phys : ℕ → Vm → ℕ
unfolding find_directory
get_phys virt vm = phys_in virt (find_directory vm.cr3 virt vm)

-- pdpte & (1 << 7), at a table that a walk has reached
abbrev pub large_end : Walk → ℕ → Bool
large_end (missing vm) idx = true
large_end (reached table vm) idx = is_large (vm.words (entry_at table idx))

abbrev pub unmap_leaf : ℕ → Vm → ℕ × Vm
unmap_leaf a vm =
    if is_present (vm.words a) then (page_of (vm.words a), set_word a 0 vm) else (0, vm)

abbrev pub unmap_pml4_in : ℕ → Walk → Vm → ℕ × Vm
unmap_pml4_in virt (missing m) vm = (0, vm)
unmap_pml4_in virt (reached pd m) vm =
    let pde = vm.words (entry_at pd (pd_index virt)) in
    let taken = unmap_leaf (entry_at (table_of pde) (pt_index virt)) vm in
    if is_table pde then taken else (0, vm)

-- `vmm_unmap_page_pml4` of tables that are not NULL: the page, and the memory.
pub unmap_page_pml4 : ℕ → ℕ → Vm → ℕ × Vm
unfolding find_level find_directory
unmap_page_pml4 pml4 virt vm =
    let upper = find_level (pml4_index virt) (reached pml4 vm) in
    if large_end upper (pdpt_index virt)
    then (0, vm)
    else unmap_pml4_in virt (find_level (pdpt_index virt) upper) vm

abbrev pub leaf_in : ℕ → Walk → Option ℕ × Vm
leaf_in virt (missing vm) = (none, vm)
leaf_in virt (reached pt vm) = (some (entry_at pt (pt_index virt)), vm)

-- `vmm_walk`: the address of the entry in the page table.
unfoldable pub walk : ℕ → ℕ → Bool → Vm → Option ℕ × Vm
unfolding create_path find_directory find_level
walk pml4 virt create vm = leaf_in virt (
    if create
    then create_path pml4 virt vm
    else find_level (pd_index virt) (find_directory pml4 virt vm))

abbrev pub space_of : Pmm × ℕ → Vm → Option ℕ × Vm
space_of (pmm, phys) vm =
    if phys == 0
    then (none, record vm { pmm = pmm })
    else (some phys, record vm { pmm = pmm; words = clear_page phys vm.words })

pub create_address_space : Vm → Option ℕ × Vm
create_address_space vm = space_of (alloc_page vm.pmm) vm

-- pde & 0x8000000000000FFF & ~(1 << 7)
abbrev pub flags_of : ℕ → ℕ
flags_of pde = pde % 2 ^ 7 + pde / 2 ^ 8 % 16 * 2 ^ 8 + pde / 2 ^ 63 % 2 * 2 ^ 63

-- The words of a page table that maps the pages of a large page one by one.
abbrev pub fill_table : ℕ → ℕ → (ℕ → ℕ) → ℕ → ℕ
fill_table pt pde words a =
    if leb pt a && ltb a (pt + page_size)
    then pde % 2 ^ 52 / 2 ^ 21 * 2 ^ 21 + (a - pt) / 8 * page_size + flags_of pde
    else words a

abbrev pub split_into : ℕ → ℕ → Pmm × ℕ → Vm → Walk
split_into a pde (pmm, phys) vm =
    let words = update (fill_table phys pde vm.words) a (phys + flags_of pde) in
    if phys == 0
    then missing (record vm { pmm = pmm })
    else reached (table_of (words a)) (record vm { words = words; pmm = pmm })

-- The entry at `a` of a page directory: a large page is split.
pub split_large : ℕ → Vm → Walk
split_large a vm =
    if is_large (vm.words a)
    then split_into a (vm.words a) (alloc_page vm.pmm) vm
    else reached (table_of (vm.words a)) vm

-- entry |= PTE_USER
abbrev pub with_user : ℕ → ℕ
with_user entry = if entry / 4 % 2 == 1 then entry else entry + 4

abbrev pub grant_user : ℕ → Vm → Vm
grant_user a vm = set_word a (with_user (vm.words a)) vm

-- The end of `vmm_map_page_pml4`, with the addresses of the three entries above.
abbrev pub map_leaf : ℕ → ℕ → ℕ → ℕ → ℕ → ℕ → Walk → Bool × Vm
map_leaf virt phys flags e1 e2 e3 (missing vm) = (false, vm)
map_leaf virt phys flags e1 e2 e3 (reached pt vm) =
    let granted = grant_user e3 (grant_user e2 (grant_user e1 vm)) in
    let above = if flags / 4 % 2 == 1 then granted else vm in
    (true, set_word (entry_at pt (pt_index virt)) (leaf phys flags) above)

abbrev pub map_below_pd : ℕ → ℕ → ℕ → ℕ → ℕ → ℕ → Walk → Bool × Vm
unfolding split_large
map_below_pd virt phys flags e1 e2 pd (missing vm) = (false, vm)
map_below_pd virt phys flags e1 e2 pd (reached pt vm) =
    let e3 = entry_at pd (pd_index virt) in map_leaf virt phys flags e1 e2 e3 (split_large e3 vm)

abbrev pub map_below_pdpt : ℕ → ℕ → ℕ → ℕ → ℕ → Walk → Bool × Vm
unfolding create_level map_below_pd
map_below_pdpt virt phys flags e1 pdpt (missing vm) = (false, vm)
map_below_pdpt virt phys flags e1 pdpt (reached pd vm) =
    map_below_pd virt phys flags e1 (entry_at pdpt (pdpt_index virt)) pd
      (create_level (pd_index virt) (reached pd vm))

abbrev pub map_below_pml4 : ℕ → ℕ → ℕ → ℕ → Walk → Bool × Vm
unfolding create_level map_below_pdpt
map_below_pml4 virt phys flags pml4 (missing vm) = (false, vm)
map_below_pml4 virt phys flags pml4 (reached pdpt vm) =
    map_below_pdpt virt phys flags (entry_at pml4 (pml4_index virt)) pdpt
      (create_level (pdpt_index virt) (reached pdpt vm))

-- `vmm_map_page_pml4` of tables that are not NULL.
pub map_page_pml4 : ℕ → ℕ → ℕ → ℕ → Vm → Bool × Vm
unfolding create_level map_below_pml4
map_page_pml4 pml4 virt phys flags vm =
    map_below_pml4 virt phys flags pml4 (create_level (pml4_index virt) (reached pml4 vm))
