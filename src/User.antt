-- ===== src/User.antt =====
-- Copies between the kernel and the memory of a user task in kernel/syscall.c. The tables are those of
-- Vmm; the other memory is the bytes at its physical addresses, and a write to it is taken not to
-- change the tables. A buffer of the kernel is the list of its bytes.
pub mod Pages
pub mod Reads
pub mod Writes
mod Tests
use os.Base.{
  ℕ, zero, suc, ◌+◌, ◌-◌, ◌*◌, ◌/◌, ◌%◌, ◌^◌, Bool, true, false, ◌&&◌, ◌||◌, Option, none, some,
  List, [], ◌∷◌, ◌++◌, ◌==◌, ltb, leb, if◌then◌else◌, min, slice, drop, get_or, length,
}
use os.Vmm.{Vm, page_size, is_present, walk}

-- Where user addresses end.
abbrev pub user_end : ℕ
user_end = 2 ^ 47

-- *vmm_walk(pml4, address, false)
abbrev pub word_of : Vm → Option ℕ → Option ℕ
word_of vm none = none
word_of vm (some a) = some (vm.words a)

abbrev pub pte_of : ℕ → ℕ → Vm → Option ℕ
pte_of pml4 address vm = word_of vm (walk pml4 address false vm).0

-- The checks of the flags for a read and for a write.
abbrev pub may_read : ℕ → Bool
may_read pte = is_present pte && (pte / 4 % 2 == 1)

abbrev pub may_write : ℕ → Bool
may_write pte = is_present pte && (pte / 4 % 2 == 1) && (pte / 2 % 2 == 1)

-- (pte & 0x000FFFFFFFFFF000) | (address & 0xFFF)
abbrev pub phys_of : ℕ → ℕ → ℕ
phys_of pte address = pte / page_size % 2 ^ 40 * page_size + address % page_size

abbrev pub allowed : (ℕ → Bool) → ℕ → Option ℕ → Option ℕ
allowed may address none = none
allowed may address (some pte) = if may pte then some (phys_of pte address) else none

-- The physical address of a user address that may be read, or written.
abbrev pub translate : (ℕ → Bool) → ℕ → ℕ → Vm → Option ℕ
translate may pml4 address vm = allowed may address (pte_of pml4 address vm)

abbrev pub next_char : ℕ → Option (List ℕ) → Option (List ℕ)
next_char c none = none
next_char c (some rest) = if c == 0 then some [] else some (c ∷ rest)

-- The loop of `syscall_copy_user_string`, with room for `n` bytes: the string without its NUL.
unfoldable pub string_loop : ℕ → ℕ → ℕ → Vm → (ℕ → ℕ) → Option (List ℕ)
string_loop zero address pml4 vm bytes = none
string_loop (suc n) address pml4 vm bytes =
    let rest = string_loop n (address + 1) pml4 vm bytes in
    if leb user_end address then none else elim (translate may_read pml4 address vm) [
      | none ↦ none
      | some p ↦ if bytes p == 0 then some [] else next_char (bytes p) rest
    ]

-- `syscall_copy_user_string` for a task that has tables, into a buffer.
unfoldable pub copy_user_string : ℕ → ℕ → ℕ → Vm → (ℕ → ℕ) → Option (List ℕ)
copy_user_string pml4 address capacity vm bytes =
    if (pml4 == 0) || (address == 0) || (capacity == 0) || leb user_end address
    then none
    else string_loop capacity address pml4 vm bytes

-- What is copied in one round: up to the end of the page.
abbrev pub page_chunk : ℕ → ℕ → ℕ
page_chunk left address = min left (page_size - address % page_size)

abbrev pub then_bytes : List ℕ → Option (List ℕ) → Option (List ℕ)
then_bytes front none = none
then_bytes front (some rest) = some (front ++ rest)

abbrev pub from_page : ℕ → (ℕ → ℕ) → Option (List ℕ) → Option ℕ → Option (List ℕ)
from_page n bytes rest none = none
from_page n bytes rest (some p) = then_bytes (slice bytes p n) rest

-- The loop of `syscall_copy_user_data`; a round copies at least one byte.
unfoldable pub read_loop : ℕ → ℕ → ℕ → ℕ → Vm → (ℕ → ℕ) → Option (List ℕ)
read_loop zero address left pml4 vm bytes = some []
read_loop (suc f) address left pml4 vm bytes =
    let n = page_chunk left address in
    let rest = read_loop f (address + n) (left - n) pml4 vm bytes in
    if left == 0 then some [] else from_page n bytes rest (translate may_read pml4 address vm)

-- The checks of a range of user addresses.
abbrev pub bad_range : ℕ → ℕ → Bool
bad_range address size = leb user_end address || ltb (user_end - address) size

-- `syscall_copy_user_data` into a buffer that is not NULL: the bytes.
unfoldable pub copy_user_data : ℕ → ℕ → ℕ → Vm → (ℕ → ℕ) → Option (List ℕ)
copy_user_data pml4 address size vm bytes =
    if pml4 == 0
    then none
    else if size == 0
    then some []
    else if bad_range address size
    then none
    else read_loop size address size pml4 vm bytes

-- kmemcpy(phys, source, n)
abbrev pub write_bytes : ℕ → ℕ → List ℕ → (ℕ → ℕ) → ℕ → ℕ
write_bytes p n source bytes i =
    if leb p i && ltb i (p + n) then get_or source (i - p) 0 else bytes i

-- The loop of `syscall_copy_to_user_data` with the bytes that are left.
unfoldable pub write_loop : ℕ → ℕ → List ℕ → ℕ → Vm → (ℕ → ℕ) → Bool × (ℕ → ℕ)
write_loop zero address source pml4 vm bytes = (true, bytes)
write_loop (suc f) address source pml4 vm bytes =
    let n = page_chunk (length source) address in
    if length source == 0 then (true, bytes) else elim (translate may_write pml4 address vm) [
      | none ↦ (false, bytes)
      | some p ↦ write_loop f (address + n) (drop n source) pml4 vm (write_bytes p n source bytes)
    ]

-- `syscall_copy_to_user_data` from a buffer that is not NULL.
unfoldable pub copy_to_user_data : ℕ → ℕ → List ℕ → Vm → (ℕ → ℕ) → Bool × (ℕ → ℕ)
copy_to_user_data pml4 address source vm bytes =
    if pml4 == 0
    then (false, bytes)
    else if length source == 0
    then (true, bytes)
    else if bad_range address (length source)
    then (false, bytes)
    else write_loop (length source) address source pml4 vm bytes
