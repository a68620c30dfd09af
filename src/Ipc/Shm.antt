-- ===== src/Ipc/Shm.antt =====
-- The shared blocks of kernel/ipc.c, as which of them are in use.
use os.Base.{
  ℕ, zero, suc, ◌+◌, Bool, true, false, Option, none, some, ltb, if◌then◌else◌, update, ℤ, pos,
  negsuc, minus_one,
}

-- SHM_MAX_BLOCKS
abbrev pub max_blocks : ℕ
max_blocks = 16

-- The loop of `shm_alloc` with `n` blocks left from `i` on.
pub shm_from : ℕ → ℕ → (ℕ → Bool) → (ℕ → Bool) × ℤ
shm_from zero i shm_used = (shm_used, minus_one)
shm_from (suc n) i shm_used =
    let rest = shm_from n (i + 1) shm_used in
    if shm_used i then rest else (update shm_used i true, pos i)

pub shm_alloc : (ℕ → Bool) → (ℕ → Bool) × ℤ
shm_alloc shm_used = shm_from max_blocks 0 shm_used

-- The block's number, none for NULL.
pub shm_get : ℤ → (ℕ → Bool) → Option ℕ
shm_get (negsuc n) shm_used = none
shm_get (pos n) shm_used = if ltb n max_blocks then (if shm_used n then some n else none) else none

pub shm_free : ℤ → (ℕ → Bool) → ℕ → Bool
shm_free (negsuc n) shm_used = shm_used
shm_free (pos n) shm_used = if ltb n max_blocks then update shm_used n false else shm_used
