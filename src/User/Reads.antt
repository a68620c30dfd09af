-- ===== src/User/Reads.antt =====
-- What `syscall_copy_user_data` of kernel/syscall.c copies.
use os.Base.{
  ℕ, zero, suc, ◌+◌, ◌%◌, ◌^◌, ◌<◌, ◌≡◌, refl, ◌*◌, ◌/◌, ◌&&◌, if◌then◌else◌, true, false, Option,
  none, some, List, [], ◌∷◌, ◌==◌, arith, Bool-cases, inl, inr,
}
use os.Vmm.{Vm}
use os.User.{pte_of, translate, may_read, bad_range, copy_user_data}

abbrev pub with_byte : (ℕ → ℕ) → Option (List ℕ) → Option ℕ → Option (List ℕ)
with_byte bytes rest none = none
with_byte bytes none (some p) = none
with_byte bytes (some rest) (some p) = some (bytes p ∷ rest)

-- The bytes at `n` user addresses, each through the tables: none when one of them may not be read.
translated_bytes : ℕ → ℕ → ℕ → Vm → (ℕ → ℕ) → Option (List ℕ)
translated_bytes zero a pml4 vm bytes = some []
translated_bytes (suc n) a pml4 vm bytes =
    with_byte bytes (translated_bytes n (a + 1) pml4 vm bytes) (translate may_read pml4 a vm)

-- Where a user address lies in memory: its entry in the tables must be present (bit 0) and for users
-- (bit 2), and has the number of the page in its bits 12 to 51.
abbrev pub user_address : ℕ → Option ℕ → Option ℕ
user_address a none = none
user_address a (some pte) =
    if (pte % 2 == 1) && (pte / 4 % 2 == 1)
    then some (pte / 4096 % 2 ^ 40 * 4096 + a % 4096)
    else none

-- The bytes at `n` user addresses: none when one of them has no such place.
unfoldable pub user_bytes : ℕ → ℕ → ℕ → Vm → (ℕ → ℕ) → Option (List ℕ)
user_bytes zero a pml4 vm bytes = some []
user_bytes (suc n) a pml4 vm bytes =
    with_byte bytes (user_bytes n (a + 1) pml4 vm bytes) (user_address a (pte_of pml4 a vm))

-- A range that is not empty and goes beyond the user addresses is refused.
copy_user_data-none :
    (pml4 a size : ℕ) (vm : Vm) (bytes : ℕ → ℕ)
    → 0 < size
    → 2 ^ 47 < a + size
    → copy_user_data pml4 a size vm bytes ≡ none
unfolding copy_user_data
copy_user_data-none pml4 a size vm bytes p beyond =
    let e : (size == 0) ≡ false = ground (arith, p) in
    let bad : bad_range a size ≡ true = ground (arith, beyond, p) in
    elim (Bool-cases (pml4 == 0)) [
      | inl t ↦ rw (copy_user_data, t) refl
      | inr t ↦ rw (copy_user_data, t, e, bad) refl
    ]
