-- ===== src/Vmm/Within.antt =====
-- What a walk of kernel/vmm.c depends on.
use os.Base.{ℕ, ◌/◌, ◌≡◌, ap, false, some, refl, arith}
use os.Vmm.{
  Vm, Walk, pml4_index, pdpt_index, pd_index, pt_index, reached, missing, entry_at, find_level,
  find_directory, leaf_in, walk,
}

leaf_in-index : (a b : ℕ) (w : Walk) → pt_index a ≡ pt_index b → (leaf_in a w).0 ≡ (leaf_in b w).0
leaf_in-index a b (missing vm) e = refl
leaf_in-index a b (reached pt vm) e = ap (λ i. some (entry_at pt i)) e

-- Addresses in the same page have the same entry.
pub walk-page :
    (pml4 a b : ℕ) (vm : Vm)
    → a / 4096 ≡ b / 4096
    → (walk pml4 a false vm).0 ≡ (walk pml4 b false vm).0
unfolding walk
walk-page pml4 a b vm same =
    let e1 : pml4_index a ≡ pml4_index b = omega (arith, same) in
    let e2 : pdpt_index a ≡ pdpt_index b = omega (arith, same) in
    let e3 : pd_index a ≡ pd_index b = omega (arith, same) in
    let e4 : pt_index a ≡ pt_index b = omega (arith, same) in
    rw (walk, e1, e2, e3)
      (leaf_in-index a b (find_level (pd_index b) (find_directory pml4 b vm)) e4)
