-- ===== src/Vmm/Path.antt =====
-- Mapping, unmapping and translating an address in kernel/vmm.c, where its page table is there.
use os.Base.{
  ℕ, ◌+◌, ◌*◌, ◌/◌, ◌%◌, ◌^◌, ◌<◌, ◌≡◌, ◌≢◌, ◌⊎◌, refl, sym, ap, ◌∙◌, Bool, true, false, ◌||◌, ◌==◌,
  if◌then◌else◌, update_self, update_ne, Bool-cases, inl, inr, arith,
}
use os.Vmm.{
  Vm, reached, page_size, is_present, is_large, table_of, entry_at, pml4_index, pdpt_index,
  pd_index, pt_index, create_level, find_level, create_path, find_directory, leaf, either_high,
  set_word, mapped_at, map_page, unmap_in, unmap_page, page_of, phys_in, get_phys,
}

-- The page table of an address is there: `x1`, `x2` and `x3` are the entries on the way to it, and the
-- entry for the address is none of them.
pub record HasTable (vm : Vm) (virt x1 x2 x3 : ℕ) : Type 0 where
  pub at1 : vm.words (entry_at vm.cr3 (pml4_index virt)) ≡ x1
  pub at2 : vm.words (entry_at (table_of x1) (pdpt_index virt)) ≡ x2
  pub at3 : vm.words (entry_at (table_of x2) (pd_index virt)) ≡ x3
  pub present1 : is_present x1 ≡ true
  pub present2 : is_present x2 ≡ true
  pub present3 : is_present x3 ≡ true
  pub small : is_large x3 ≡ false
  pub apart1 : entry_at (table_of x3) (pt_index virt) ≢ entry_at vm.cr3 (pml4_index virt)
  pub apart2 : entry_at (table_of x3) (pt_index virt) ≢ entry_at (table_of x1) (pdpt_index virt)
  pub apart3 : entry_at (table_of x3) (pt_index virt) ≢ entry_at (table_of x2) (pd_index virt)

-- The address of the entry for an address.
abbrev pub leaf_at : ℕ → ℕ → ℕ
leaf_at virt x3 = entry_at (table_of x3) (pt_index virt)

-- What a page-table entry translates an address to.
abbrev pub through : ℕ → ℕ → ℕ
through virt pte = if is_present pte then page_of pte + virt % page_size else 0

find_directory_lem :
    (vm : Vm) (virt x1 x2 x3 : ℕ)
    → HasTable vm virt x1 x2 x3
    → find_directory vm.cr3 virt vm ≡ reached (table_of x2) vm
unfolding find_directory find_level
find_directory_lem vm virt x1 x2 x3 t = rw (find_level, t.at1, t.present1, t.at2, t.present2) refl

create_path_lem :
    (vm : Vm) (virt x1 x2 x3 : ℕ)
    → HasTable vm virt x1 x2 x3
    → create_path vm.cr3 virt vm ≡ reached (table_of x3) vm
unfolding create_path create_level
create_path_lem vm virt x1 x2 x3 t =
    rw (create_level, t.at1, t.present1, t.at2, t.present2, t.at3, t.present3) refl

get_phys-through :
    (vm : Vm) (virt x1 x2 x3 : ℕ)
    → HasTable vm virt x1 x2 x3
    → get_phys virt vm ≡ through virt (vm.words (leaf_at virt x3))
unfolding get_phys
get_phys-through vm virt x1 x2 x3 t =
    ap (phys_in virt) (find_directory_lem vm virt x1 x2 x3 t)
    ∙ elim (Bool-cases (is_present (vm.words (leaf_at virt x3)))) [
      | inl e ↦ rw (t.at3, t.present3, t.small, e) refl
      | inr e ↦ rw (t.at3, t.present3, t.small, e) refl
    ]

-- A word that is none of the entries above does not matter to them.
HasTable-set_word :
    (vm : Vm) (virt x1 x2 x3 a v : ℕ)
    → HasTable vm virt x1 x2 x3
    → a ≢ entry_at vm.cr3 (pml4_index virt)
    → a ≢ entry_at (table_of x1) (pdpt_index virt)
    → a ≢ entry_at (table_of x2) (pd_index virt)
    → HasTable (set_word a v vm) virt x1 x2 x3
HasTable-set_word vm virt x1 x2 x3 a v t n1 n2 n3 = record {
  at1 = update_ne vm.words a _ v n1 ∙ t.at1;
  at2 = update_ne vm.words a _ v n2 ∙ t.at2;
  at3 = update_ne vm.words a _ v n3 ∙ t.at3;
  present1 = t.present1;
  present2 = t.present2;
  present3 = t.present3;
  small = t.small;
  apart1 = t.apart1;
  apart2 = t.apart2;
  apart3 = t.apart3;
}

pub set_leaf-get_phys :
    (vm : Vm) (virt x1 x2 x3 v : ℕ)
    → HasTable vm virt x1 x2 x3
    → get_phys virt (set_word (leaf_at virt x3) v vm) ≡ through virt v
set_leaf-get_phys vm virt x1 x2 x3 v t =
    let after =
      HasTable-set_word vm virt x1 x2 x3 (leaf_at virt x3) v t t.apart1 t.apart2 t.apart3 in
    get_phys-through (set_word (leaf_at virt x3) v vm) virt x1 x2 x3 after
    ∙ ap (through virt) (update_self vm.words (leaf_at virt x3) v)

either_high-cases : (a b : ℕ) → (either_high a b ≡ 0) ⊎ (either_high a b ≡ 2 ^ 63)
either_high-cases a b = elim (Bool-cases ((a / 2 ^ 63 % 2 == 1) || (b / 2 ^ 63 % 2 == 1))) [
  | inl e ↦ rw (e) (inr refl)
  | inr e ↦ rw (e) (inl refl)
]

-- The flags of a leaf do not reach the address in it.
leaf_parts :
    (phys flags high : ℕ)
    → phys < 2 ^ 52
    → (high ≡ 0) ⊎ (high ≡ 2 ^ 63)
    → let v = table_of phys % 2 ^ 63 + 1 + 2 * (flags / 2 % 2) + 4 * (flags / 4 % 2) + high in
      (v % 2 ≡ 1) × (page_of v ≡ table_of phys)
leaf_parts phys flags high w (inl e) = (omega (arith, e), omega (arith, e, w))
leaf_parts phys flags high w (inr e) = (omega (arith, e), omega (arith, e, w))

present_odd : (v : ℕ) → v % 2 ≡ 1 → is_present v ≡ true
present_odd v odd = ground (arith, odd)

through_present : (virt v : ℕ) → is_present v ≡ true → through virt v ≡ page_of v + virt % page_size
through_present virt v e = rw (e) refl

pub through-leaf :
    (virt phys flags : ℕ)
    → phys < 2 ^ 52
    → through virt (leaf phys flags) ≡ table_of phys + virt % page_size
through-leaf virt phys flags w =
    let (odd, base) =
      leaf_parts phys flags (either_high phys flags) w (either_high-cases phys flags) in
    let present : is_present (leaf phys flags) ≡ true = present_odd (leaf phys flags) odd in
    through_present virt (leaf phys flags) present ∙ ap (λ n. n + virt % page_size) base

map_page_lem :
    (vm : Vm) (virt phys flags x1 x2 x3 : ℕ)
    → HasTable vm virt x1 x2 x3
    → map_page virt phys flags vm ≡ (true, set_word (leaf_at virt x3) (leaf phys flags) vm)
unfolding map_page
map_page_lem vm virt phys flags x1 x2 x3 t =
    ap (mapped_at (pt_index virt) (leaf phys flags)) (create_path_lem vm virt x1 x2 x3 t)

unmap_page_lem :
    (vm : Vm) (virt x1 x2 x3 : ℕ)
    → HasTable vm virt x1 x2 x3
    → unmap_page virt vm ≡ set_word (leaf_at virt x3) 0 vm
unfolding unmap_page
unmap_page_lem vm virt x1 x2 x3 t =
    ap (unmap_in virt) (find_directory_lem vm virt x1 x2 x3 t)
    ∙ rw (t.at3, t.present3, t.small) refl

-- `vmm_map_page` of an address whose page table is there succeeds, and `vmm_get_phys` then translates
-- it to the page that was given, which has an address of 52 bits.
pub map_page-get_phys :
    (vm : Vm) (virt phys flags x1 x2 x3 : ℕ)
    → HasTable vm virt x1 x2 x3
    → phys < 2 ^ 52
    → let after = map_page virt phys flags vm in
      (after.0 ≡ true) × (get_phys virt after.1 ≡ table_of phys + virt % page_size)
map_page-get_phys vm virt phys flags x1 x2 x3 t w =
    let same = map_page_lem vm virt phys flags x1 x2 x3 t in
    (
      ap (λ (r : Bool × Vm). r.0) same,
      ap (λ (r : Bool × Vm). get_phys virt r.1) same
          ∙ set_leaf-get_phys vm virt x1 x2 x3 (leaf phys flags) t
          ∙ through-leaf virt phys flags w,
    )

-- Take two addresses that have all their tables: their three upper entries are present, the third is
-- not one of a page of 2 MiB, and the entry of the page is none of the upper ones on its way. If the
-- entry of the first is none of the four entries of the second, then after `vmm_map_page` or
-- `vmm_unmap_page` of the first the second is translated as before.
pub map_page-other :
    (vm : Vm) (virt phys flags x1 x2 x3 other y1 y2 y3 : ℕ)
    → HasTable vm virt x1 x2 x3
    → HasTable vm other y1 y2 y3
    → leaf_at virt x3 ≢ entry_at vm.cr3 (pml4_index other)
    → leaf_at virt x3 ≢ entry_at (table_of y1) (pdpt_index other)
    → leaf_at virt x3 ≢ entry_at (table_of y2) (pd_index other)
    → leaf_at virt x3 ≢ leaf_at other y3
    → (get_phys other (map_page virt phys flags vm).1 ≡ get_phys other vm)
      × (get_phys other (unmap_page virt vm) ≡ get_phys other vm)
map_page-other vm virt phys flags x1 x2 x3 other y1 y2 y3 t u n1 n2 n3 n4 = (
  ap (λ (r : Bool × Vm). get_phys other r.1) (map_page_lem vm virt phys flags x1 x2 x3 t)
      ∙ kept (leaf phys flags),
  ap (get_phys other) (unmap_page_lem vm virt x1 x2 x3 t) ∙ kept 0,
)
  where
    kept : (v : ℕ) → get_phys other (set_word (leaf_at virt x3) v vm) ≡ get_phys other vm
    kept v =
        let after = HasTable-set_word vm other y1 y2 y3 (leaf_at virt x3) v u n1 n2 n3 in
        get_phys-through (set_word (leaf_at virt x3) v vm) other y1 y2 y3 after
        ∙ ap (through other) (update_ne vm.words (leaf_at virt x3) (leaf_at other y3) v n4)
        ∙ sym (get_phys-through vm other y1 y2 y3 u)

-- `vmm_unmap_page` of an address whose page table is there: `vmm_get_phys` then says 0.
unmap_page-get_phys :
    (vm : Vm) (virt x1 x2 x3 : ℕ)
    → HasTable vm virt x1 x2 x3
    → get_phys virt (unmap_page virt vm) ≡ 0
unmap_page-get_phys vm virt x1 x2 x3 t =
    ap (get_phys virt) (unmap_page_lem vm virt x1 x2 x3 t) ∙ set_leaf-get_phys vm virt x1 x2 x3 0 t
