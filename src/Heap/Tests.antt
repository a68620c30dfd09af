-- ===== src/Heap/Tests.antt =====
-- Runs of kernel/heap.c on a small heap, and the theorems at them.
use os.Base.{
  ℕ, ◌+◌, ◌-◌, ◌^◌, ◌≡◌, ◌∷◌, [], List, Option, some, none, true, false, refl, arith, update,
}
use os.Heap.{
  Heap, init, kmalloc, kfree, header_size, find_block, malloc_found, malloc_at, split_block,
}
use os.Heap.Tiles.{Cell, IsHeap, onto}
use os.Heap.Malloc.{Outcome, kmalloc-Cuts}
use os.Heap.Free.{join, attach, kfree-Joins}

abbrev no_blocks : Heap
no_blocks = record {
  head = none;
  blocks = λ a. record { size = 0; next = none; prev = none; free = false };
}

-- A heap of 1024 bytes at 4096.
abbrev fresh : Heap
unfolding init
fresh = init 4096 1024 no_blocks

abbrev one_free : List Cell
one_free = (992, true) ∷ []

fresh-IsHeap : IsHeap fresh 4096 5120 one_free
unfolding init
fresh-IsHeap = record {
  head = refl;
  blocks = (refl, refl);
  nonempty = λ e. cc e;
  in_memory = omega arith;
  not_null = omega arith;
}

-- Two blocks behind it, the first in use.
abbrev in_use : Heap
in_use = record {
  head = some 4096;
  blocks =
      update
        (update (λ a. record { size = 0; next = none; prev = none; free = false }) 4096
          (record { size = 112; next = some 4240; prev = none; free = false }))
        4240 (record { size = 848; next = none; prev = some 4096; free = true });
}

in_use-IsHeap : IsHeap in_use 4096 5120 ((112, false) ∷ (848, true) ∷ [])
in_use-IsHeap = record {
  head = refl;
  blocks = (refl, (refl, refl));
  nonempty = λ e. cc e;
  in_memory = omega arith;
  not_null = omega arith;
}

abbrev address : Option (Heap × ℕ) → ℕ
address none = 0
address (some (h, p)) = p

kmalloc-fresh : address (kmalloc 2 100 fresh) ≡ 4128
unfolding kmalloc malloc_at malloc_found find_block split_block init
kmalloc-fresh = refl

-- The size is rounded up modulo 2 ^ 64: a caller that asks for all of memory gets a block.
kmalloc_wraps : address (kmalloc 2 (2 ^ 64 - 1) fresh) ≡ 4128
unfolding kmalloc malloc_at malloc_found find_block split_block init
kmalloc_wraps = refl

kmalloc-Cuts_example : Outcome 2 100 112 4096 5120 fresh one_free
kmalloc-Cuts_example =
    kmalloc-Cuts 2 100 112 4096 5120 fresh one_free fresh-IsHeap (omega arith) (omega arith) refl
      (omega arith) (omega arith) (omega arith)

kfree-Joins_example :
    IsHeap
      (kfree (4096 + 0 + header_size) in_use)
      4096
      5120
      (attach (onto [] []) (join 112 ((848, true) ∷ [])))
kfree-Joins_example = kfree-Joins 4096 5120 112 false in_use [] ((848, true) ∷ []) in_use-IsHeap
