-- ===== src/User/Writes.antt =====
-- What `syscall_copy_to_user_data` of kernel/syscall.c may write.
use os.Base.{
  ℕ, ◌+◌, ◌/◌, ◌%◌, ◌^◌, ◌<◌, ◌≡◌, ◌≢◌, refl, true, false, Option, some, List, ◌==◌, length, arith,
  Bool-cases, inl, inr,
}
use os.Vmm.{Vm}
use os.User.{pte_of, phys_of, translate, may_write, bad_range, copy_to_user_data}

-- An entry of a page that is present, for users and writable.
pub record Writable (pte : ℕ) : Type 0 where
  pub present : pte % 2 ≡ 1
  pub user : pte / 4 % 2 ≡ 1
  pub writable : pte / 2 % 2 ≡ 1

-- Byte `p` of memory belongs to no such page that the tables have for an address of a range.
abbrev pub Outside : ℕ → ℕ → ℕ → ℕ → Vm → Type 0
Outside p n a pml4 vm =
    (k pte : ℕ) → k < n → pte_of pml4 (a + k) vm ≡ some pte → Writable pte → phys_of pte (a + k) ≢ p

-- So no address of the range is written there.
abbrev Unreached : ℕ → ℕ → ℕ → ℕ → Vm → Type 0
Unreached p n a pml4 vm = (k : ℕ) → k < n → translate may_write pml4 (a + k) vm ≢ some p

-- A range that is not empty and goes beyond the user addresses is refused, with nothing written.
copy_to_user_data-beyond :
    (a pml4 : ℕ) (source : List ℕ) (vm : Vm) (bytes : ℕ → ℕ)
    → 0 < length source
    → 2 ^ 47 < a + length source
    → copy_to_user_data pml4 a source vm bytes ≡ (false, bytes)
unfolding copy_to_user_data
copy_to_user_data-beyond a pml4 source vm bytes p beyond =
    let e : (length source == 0) ≡ false = ground (arith, p) in
    let b : bad_range a (length source) ≡ true = ground (arith, beyond, p) in
    elim (Bool-cases (pml4 == 0)) [
      | inl t ↦ rw (copy_to_user_data, t) refl
      | inr t ↦ rw (copy_to_user_data, t, e, b) refl
    ]
