-- ===== src/User/Pages.antt =====
-- The translation of user addresses of kernel/syscall.c inside a page.
use os.Base.{
  ℕ, ◌+◌, ◌/◌, ◌%◌, ◌<◌, ◌≡◌, refl, ◌∙◌, ap, Bool, Option, none, some, arith, Bool-cases, inl, inr,
}
use os.Vmm.{Vm}
use os.Vmm.Within.{walk-page}
use os.User.{pte_of, word_of, phys_of, allowed, translate}

abbrev pub shift : ℕ → Option ℕ → Option ℕ
shift k none = none
shift k (some p) = some (p + k)

allowed-shift :
    (may : ℕ → Bool) (a k : ℕ) (o : Option ℕ)
    → a % 4096 + k < 4096
    → allowed may (a + k) o ≡ shift k (allowed may a o)
allowed-shift may a k none inside = refl
allowed-shift may a k (some pte) inside = elim (Bool-cases (may pte)) [
  | inl granted ↦
      let moved : phys_of pte (a + k) ≡ phys_of pte a + k = omega (arith, inside) in
      rw (granted) (ap some moved)
  | inr refused ↦ rw (refused) refl
]

-- `k` bytes further on in the same page is `k` bytes further on in memory.
pub translate-shift :
    (may : ℕ → Bool) (pml4 a k : ℕ) (vm : Vm)
    → a % 4096 + k < 4096
    → translate may pml4 (a + k) vm ≡ shift k (translate may pml4 a vm)
translate-shift may pml4 a k vm inside =
    let same_page : (a + k) / 4096 ≡ a / 4096 = omega (arith, inside) in
    ap (λ o. allowed may (a + k) (word_of vm o)) (walk-page pml4 (a + k) a vm same_page)
    ∙ allowed-shift may a k (pte_of pml4 a vm) inside
