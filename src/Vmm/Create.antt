-- ===== src/Vmm/Create.antt =====
-- `vmm_map_page` of kernel/vmm.c with the tables that it creates: the pages of `pmm_alloc_page` are not
-- in use, so a new table does not run over the entries on the way to it.
use os.Base.{
  ℕ, ◌+◌, ◌*◌, ◌/◌, ◌%◌, ◌^◌, ◌<◌, ◌≤◌, ◌≡◌, ◌≢◌, ◌⊎◌, refl, sym, ap, ◌∙◌, subst, Bool, true, false,
  ◌==◌, ltb, update, update_self, update_ne, Bool-cases, inl, inr, arith, List, [], ◌∷◌, ==_ne,
}
use os.Pmm.{Pmm, bitmap_base, bitmap_size, alloc_page}
use os.Pmm.Pages.{used, IsValid}
use os.Pmm.Alloc.{Allocated, alloc_cases}
use os.Vmm.{
  Vm, Walk, missing, reached, page_size, is_present, is_large, table_of, entry_at, pml4_index,
  pdpt_index, pd_index, pt_index, clear_page, create_level, create_path, leaf, mapped_at, map_page,
  get_phys,
}
use os.Vmm.Path.{HasTable, set_leaf-get_phys, through-leaf}

-- No page is left.
abbrev pub IsFull : Pmm → Type 0
IsFull p = (i : ℕ) → i < bitmap_size → p.bitmap i ≡ 255

-- A word in no page that the allocator may hand out.
abbrev pub IsHeld : Vm → ℕ → Type 0
IsHeld vm a =
    (q : ℕ)
    → used vm.pmm q ≡ false
    → (a < bitmap_base + q * page_size) ⊎ (bitmap_base + q * page_size + page_size ≤ a)

abbrev pub IsNew : ℕ → List ℕ → Type 0
IsNew a [] = Unit {0}
IsNew a (b ∷ bs) = (a ≢ b) × IsNew a bs

abbrev pub AllHeld : Vm → List ℕ → Type 0
AllHeld vm [] = Unit {0}
AllHeld vm (a ∷ bs) = IsHeld vm a × AllHeld vm bs

-- The entries on the way down from a table, as far as they are there: no two are the same, none is in a
-- page that may be handed out, and none above the page table is a large page.
abbrev pub IsSound : Vm → List ℕ → ℕ → List ℕ → Type 0
IsSound vm seen table [] = Unit {0}
IsSound vm seen table (i ∷ []) = IsHeld vm (entry_at table i) × IsNew (entry_at table i) seen
IsSound vm seen table (i ∷ j ∷ is) =
    let a = entry_at table i in
    let x = vm.words a in
    IsHeld vm a
    × IsNew a seen
    × (is_present x ≡ true → (is_large x ≡ false) × IsSound vm (a ∷ seen) (table_of x) (j ∷ is))

-- What a level of the walk does, from the entry at `a` to the table `t`.
record Level (vm vm' : Vm) (a t : ℕ) : Type 0 where
  valid : IsValid vm'.pmm
  same_cr3 : vm'.cr3 ≡ vm.cr3
  present : is_present (vm'.words a) ≡ true
  small : is_large (vm'.words a) ≡ false
  table : table_of (vm'.words a) ≡ t
  kept : (b : ℕ) → IsHeld vm b → b ≢ a → vm'.words b ≡ vm.words b
  held : (b : ℕ) → IsHeld vm b → IsHeld vm' b

-- The state behind a new table.
abbrev made : Vm → ℕ → Pmm × ℕ → Vm
made vm a (pmm, phys) = record vm {
  words = update (clear_page phys vm.words) a (table_of phys + 3);
  pmm = pmm;
}

cleared_outside :
    (page : ℕ) (words : ℕ → ℕ) (a : ℕ)
    → (a < page) ⊎ (page + page_size ≤ a)
    → clear_page page words a ≡ words a
cleared_outside page words a (inl lt) = ground (arith, lt)
cleared_outside page words a (inr le) = ground (arith, le)

cleared_inside :
    (page : ℕ) (words : ℕ → ℕ) (a : ℕ)
    → page ≤ a
    → a < page + page_size
    → clear_page page words a ≡ 0
cleared_inside page words a lo hi = ground (arith, lo, hi)

made-Held :
    (vm : Vm) (a page b : ℕ)
    → Allocated vm.pmm page (alloc_page vm.pmm)
    → IsHeld vm b
    → IsHeld (made vm a (alloc_page vm.pmm)) b
made-Held vm a page b k h q free = elim (Bool-cases (q == page)) [
  | inl e ↦ absurd (cc (simp (e) at (k.view q), free))
  | inr e ↦ h q (sym (simp (e) at (k.view q)) ∙ free)
]

made-Level :
    (vm : Vm) (a page : ℕ)
    → Allocated vm.pmm page (alloc_page vm.pmm)
    → IsHeld vm a
    → Level vm (made vm a (alloc_page vm.pmm)) a (alloc_page vm.pmm).1
made-Level vm a page k h =
    let phys = (alloc_page vm.pmm).1 in
    let words = clear_page phys vm.words in
    let aligned : table_of phys ≡ phys = omega (arith, k.addr) in
    let entry : update words a (table_of phys + 3) a ≡ table_of phys + 3 =
      update_self words a (table_of phys + 3) in
    record {
      valid = k.valid;
      same_cr3 = refl;
      present = ap is_present entry ∙ present_aligned (table_of phys) (omega arith);
      small = ap is_large entry ∙ small_aligned (table_of phys) (omega arith);
      table = ap table_of entry ∙ omega (arith, aligned);
      kept = λ b hb n.
          update_ne words a b (table_of phys + 3) (λ e. n (sym e))
          ∙ cleared_outside phys vm.words b (rw (k.addr) (hb page k.was_free));
      held = λ b hb. made-Held vm a page b k hb;
    }
  where
    present_aligned : (n : ℕ) → n % 4096 ≡ 0 → is_present (n + 3) ≡ true
    present_aligned n e = ground (arith, e)

    small_aligned : (n : ℕ) → n % 4096 ≡ 0 → is_large (n + 3) ≡ false
    small_aligned n e = let bit : (n + 3) / 2 ^ 7 % 2 ≡ 0 = omega (arith, e) in ground (arith, bit)

-- The words of a new table are not handed out again, differ from those that were held, and are 0.
fresh-Held :
    (vm : Vm) (a page j : ℕ)
    → Allocated vm.pmm page (alloc_page vm.pmm)
    → j < 512
    → IsHeld (made vm a (alloc_page vm.pmm)) (entry_at (alloc_page vm.pmm).1 j)
fresh-Held vm a page j k w q free = elim (Bool-cases (q == page)) [
  | inl e ↦ absurd (cc (simp (e) at (k.view q), free))
  | inr e ↦
      let apart : q ≢ page = ground (arith, e) in
      rw (k.addr) (elim (Bool-cases (ltb q page)) [
        | inl lt ↦ let below : q < page = ground (arith, lt) in inr (omega (arith, below, w))
        | inr ge ↦ let above : page < q = ground (arith, ge, apart) in inl (omega (arith, above, w))
      ])
]

fresh_ne :
    (vm : Vm) (page j b : ℕ)
    → Allocated vm.pmm page (alloc_page vm.pmm)
    → j < 512
    → IsHeld vm b
    → entry_at (alloc_page vm.pmm).1 j ≢ b
fresh_ne vm page j b k w h e = elim (h page k.was_free) [
  | inl lt ↦ omega (arith, lt, e, k.addr)
  | inr le ↦ omega (arith, le, e, k.addr, w)
]

fresh-New :
    (vm : Vm) (page j : ℕ) (seen : List ℕ)
    → Allocated vm.pmm page (alloc_page vm.pmm)
    → j < 512
    → AllHeld vm seen
    → IsNew (entry_at (alloc_page vm.pmm).1 j) seen
fresh-New vm page j [] k w h = tt
fresh-New vm page j (b ∷ seen) k w h =
    (fresh_ne vm page j b k w h.0, fresh-New vm page j seen k w h.1)

fresh_zero :
    (vm : Vm) (a page j : ℕ)
    → Allocated vm.pmm page (alloc_page vm.pmm)
    → j < 512
    → IsHeld vm a
    → (made vm a (alloc_page vm.pmm)).words (entry_at (alloc_page vm.pmm).1 j) ≡ 0
fresh_zero vm a page j k w h =
    let phys = (alloc_page vm.pmm).1 in
    update_ne (clear_page phys vm.words) a (entry_at phys j) (table_of phys + 3)
      (λ e. fresh_ne vm page j a k w h (sym e))
    ∙ cleared_inside phys vm.words (entry_at phys j) (omega arith) (omega (arith, w))

fresh-Sound :
    (vm : Vm) (a page j : ℕ) (is seen : List ℕ)
    → Allocated vm.pmm page (alloc_page vm.pmm)
    → j < 512
    → IsHeld vm a
    → AllHeld vm seen
    → IsSound (made vm a (alloc_page vm.pmm)) (a ∷ seen) (alloc_page vm.pmm).1 (j ∷ is)
fresh-Sound vm a page j [] seen k w h hs =
    (fresh-Held vm a page j k w, (fresh_ne vm page j a k w h, fresh-New vm page j seen k w hs))
fresh-Sound vm a page j (i ∷ is) seen k w h hs = (
  fresh-Held vm a page j k w,
  (fresh_ne vm page j a k w h, fresh-New vm page j seen k w hs),
  λ p. absurd (cc (ap is_present (fresh_zero vm a page j k w h), p)),
)

-- A level of the walk ends, or it reaches a table that is as sound as the one before.
record Down (vm : Vm) (seen is : List ℕ) (a i table : ℕ) : Type 0 where
  behind : Vm
  t : ℕ
  same : create_level i (reached table vm) ≡ reached t behind
  level : Level vm behind a t
  sound : IsSound behind (a ∷ seen) t is

level-cases :
    (vm : Vm) (seen : List ℕ) (table i j : ℕ) (is : List ℕ)
    → IsValid vm.pmm
    → AllHeld vm seen
    → j < 512
    → IsSound vm seen table (i ∷ j ∷ is)
    → ((v : Vm) × (create_level i (reached table vm) ≡ missing v) × IsFull v.pmm)
      ⊎ Down vm seen (j ∷ is) (entry_at table i) i table
unfolding create_level
level-cases vm seen table i j is v hs w s =
    let a = entry_at table i in
    elim (Bool-cases (is_present (vm.words a))) [
      | inl e ↦
          let (flat, below) = s.2 e in
          inr (record {
            behind = vm;
            t = table_of (vm.words a);
            same = rw (create_level, e) refl;
            level = record {
              valid = v;
              same_cr3 = refl;
              present = e;
              small = flat;
              table = refl;
              kept = λ b hb n. refl;
              held = λ b hb. hb;
            };
            sound = below;
          })
      | inr e ↦ elim (alloc_cases vm.pmm v) [
        | inl (page, k) ↦
            let phys = (alloc_page vm.pmm).1 in
            let given : (phys == 0) ≡ false = ==_ne phys 0 (omega (arith, k.addr)) in
            let m = made-Level vm a page k s.0 in
            inr (record {
              behind = made vm a (alloc_page vm.pmm);
              t = phys;
              same =
                  rw (create_level, e, given)
                    (ap (λ n. reached n (made vm a (alloc_page vm.pmm))) m.table);
              level = m;
              sound = fresh-Sound vm a page j is seen k w s.0 hs;
            })
        | inr (full, bytes) ↦
            let none_left : (alloc_page vm.pmm).1 ≡ 0 = ap (λ (r : Pmm × ℕ). r.1) full in
            let unchanged : (alloc_page vm.pmm).0 ≡ vm.pmm = ap (λ (r : Pmm × ℕ). r.0) full in
            inl (
              record vm { pmm = (alloc_page vm.pmm).0 },
              rw (create_level, e, none_left) refl,
              subst IsFull (sym unchanged) bytes,
            )
      ]
    ]

-- The way through the tables that is there after the walk has created what was missing.
record Created (vm : Vm) (virt : ℕ) : Type 0 where
  behind : Vm
  x1 : ℕ
  x2 : ℕ
  x3 : ℕ
  same : create_path vm.cr3 virt vm ≡ reached (table_of x3) behind
  way : HasTable behind virt x1 x2 x3

-- The four indices of an address.
abbrev pub indices : ℕ → List ℕ
indices virt = pml4_index virt ∷ pdpt_index virt ∷ pd_index virt ∷ pt_index virt ∷ []

-- The three levels put together.
created :
    (vm : Vm) (virt : ℕ) (held1 : IsHeld vm (entry_at vm.cr3 (pml4_index virt)))
    → (d1 : Down vm []
        (pdpt_index virt ∷ pd_index virt ∷ pt_index virt ∷ [])
        (entry_at vm.cr3 (pml4_index virt))
        (pml4_index virt)
        vm.cr3)
    → (d2 : Down d1.behind
        (entry_at vm.cr3 (pml4_index virt) ∷ [])
        (pd_index virt ∷ pt_index virt ∷ [])
        (entry_at d1.t (pdpt_index virt))
        (pdpt_index virt)
        d1.t)
    → (d3 : Down d2.behind
        (entry_at d1.t (pdpt_index virt) ∷ entry_at vm.cr3 (pml4_index virt) ∷ [])
        (pt_index virt ∷ [])
        (entry_at d2.t (pd_index virt))
        (pd_index virt)
        d2.t)
    → Created vm virt
unfolding create_path
created vm virt held1 d1 d2 d3 =
    let e1 = entry_at vm.cr3 (pml4_index virt) in
    let e2 = entry_at d1.t (pdpt_index virt) in
    let e3 = entry_at d2.t (pd_index virt) in
    let x1 = d1.behind.words e1 in
    let x2 = d2.behind.words e2 in
    let x3 = d3.behind.words e3 in
    let held1' = d1.level.held e1 held1 in
    let same_cr3 = d3.level.same_cr3 ∙ d2.level.same_cr3 ∙ d1.level.same_cr3 in
    let kept1 : d3.behind.words e1 ≡ x1 =
      d3.level.kept e1 (d2.level.held e1 held1') (λ q. d2.sound.1.1.0 (sym q))
      ∙ d2.level.kept e1 held1' (λ q. d1.sound.1.0 (sym q)) in
    let kept2 : d3.behind.words e2 ≡ x2 =
      d3.level.kept e2 (d2.level.held e2 d1.sound.0) (λ q. d2.sound.1.0 (sym q)) in
    record {
      behind = d3.behind;
      x1 = x1;
      x2 = x2;
      x3 = x3;
      same =
          ap (λ w. create_level (pd_index virt) (create_level (pdpt_index virt) w)) d1.same
          ∙ ap (create_level (pd_index virt)) d2.same
          ∙ d3.same
          ∙ ap (λ n. reached n d3.behind) (sym d3.level.table);
      way = record {
        at1 = rw (same_cr3) kept1;
        at2 = rw (d1.level.table) kept2;
        at3 = rw (d2.level.table) refl;
        present1 = d1.level.present;
        present2 = d2.level.present;
        present3 = d3.level.present;
        small = d3.level.small;
        apart1 = rw (d3.level.table, same_cr3) d3.sound.1.1.1.0;
        apart2 = rw (d3.level.table, d1.level.table) d3.sound.1.1.0;
        apart3 = rw (d3.level.table, d2.level.table) d3.sound.1.0;
      };
    }

create_path-cases :
    (vm : Vm) (virt : ℕ)
    → IsValid vm.pmm
    → IsSound vm [] vm.cr3 (indices virt)
    → ((v : Vm) × (create_path vm.cr3 virt vm ≡ missing v) × IsFull v.pmm) ⊎ Created vm virt
unfolding create_path create_level
create_path-cases vm virt valid sound =
    let i1 = pml4_index virt in
    let i2 = pdpt_index virt in
    let i3 = pd_index virt in
    let i4 = pt_index virt in
    let e1 = entry_at vm.cr3 i1 in
    let stop : (w : Walk) → Walk = λ w. create_level i3 (create_level i2 w) in
    elim (level-cases vm [] vm.cr3 i1 i2 (i3 ∷ i4 ∷ []) valid tt (omega arith) sound) [
      | inl (v, e, f) ↦ inl (v, ap stop e, f)
      | inr d1 ↦
          let vm1 = d1.behind in
          let h1 : AllHeld vm1 (e1 ∷ []) = (d1.level.held e1 sound.0, tt) in
          elim (level-cases vm1 (e1 ∷ []) d1.t i2 i3 (i4 ∷ []) d1.level.valid h1 (omega arith)
            d1.sound) [
              | inl (v, e, f) ↦ inl (v, ap stop d1.same ∙ ap (create_level i3) e, f)
              | inr d2 ↦
                  let e2 = entry_at d1.t i2 in
                  let vm2 = d2.behind in
                  let h2 : AllHeld vm2 (e2 ∷ e1 ∷ []) =
                    (d2.level.held e2 d1.sound.0, (d2.level.held e1 h1.0, tt)) in
                  elim (level-cases vm2 (e2 ∷ e1 ∷ []) d2.t i3 i4 [] d2.level.valid h2 (omega arith)
                    d2.sound) [
                      | inl (v, e, f) ↦
                          inl (v, ap stop d1.same ∙ ap (create_level i3) d2.same ∙ e, f)
                      | inr d3 ↦ inr (created vm virt sound.0 d1 d2 d3)
                    ]
            ]
    ]

-- `vmm_map_page` from tables that do not run over each other on the way to the address, with no large
-- page there and a valid allocator. Either the result is false and the allocator has no page left, or the result is true, and `vmm_get_phys` then translates the address to the page that was
-- given, which has an address of 52 bits.
pub map_page-cases :
    (vm : Vm) (virt phys flags : ℕ)
    → IsValid vm.pmm
    → IsSound vm [] vm.cr3 (indices virt)
    → phys < 2 ^ 52
    → let after = map_page virt phys flags vm in
      ((after.0 ≡ false) × IsFull after.1.pmm)
      ⊎ ((after.0 ≡ true) × (get_phys virt after.1 ≡ table_of phys + virt % page_size))
unfolding map_page
map_page-cases vm virt phys flags valid sound w =
    let end : Walk → Bool × Vm = mapped_at (pt_index virt) (leaf phys flags) in
    elim (create_path-cases vm virt valid sound) [
      | inl (v, e, f) ↦
          inl (ap (λ u. (end u).0) e, subst IsFull (sym (ap (λ u. (end u).1.pmm) e)) f)
      | inr c ↦ inr (
        ap (λ u. (end u).0) c.same,
        ap (λ u. get_phys virt (end u).1) c.same
            ∙ set_leaf-get_phys c.behind virt c.x1 c.x2 c.x3 (leaf phys flags) c.way
            ∙ through-leaf virt phys flags w,
      )
    ]
