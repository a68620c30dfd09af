-- ===== src/Task/Fd.antt =====
-- The descriptor tables of kernel/vfs.c: `fd_alloc`, `fd_close`, `fd_get` and `fd_table_close_all`.
use os.Base.{
  ℕ, zero, suc, ◌+◌, ◌-◌, false, Option, none, some, List, ◌∷◌, ltb, if◌then◌else◌, update, is_some,
  ℤ, pos, negsuc, minus_one,
}
use os.Kernel.{Kernel, Node, FdEntry, set_task}

-- MAX_FDS
abbrev pub max_fds : ℕ
max_fds = 64

abbrev pub closed_entry : FdEntry
closed_entry = record { node = none; offset = 0; flags = 0 }

-- `dev_kbd` and `dev_vga`, by their inode numbers; they have no `close`.
abbrev pub dev_kbd : Node
dev_kbd = record { id = 3; has_close = false }

abbrev pub dev_vga : Node
dev_vga = record { id = 4; has_close = false }

-- if (node && node->close) node->close(node);
abbrev pub close_node : Option Node → List ℕ → List ℕ
close_node none log = log
close_node (some n) log = if n.has_close then n.id ∷ log else log

-- The loop of `fd_alloc` with `n` descriptors left from `i` on.
unfoldable pub first_closed : (ℕ → FdEntry) → ℕ → ℕ → Option ℕ
first_closed table zero i = none
first_closed table (suc n) i =
    let rest = first_closed table n (i + 1) in if is_some (table i).node then rest else some i

abbrev pub set_table : ℕ → (ℕ → FdEntry) → Kernel → Kernel
set_table c table k = set_task c (record (k.tasks c) { fd_table = table }) k

unfoldable pub alloc_at : ℕ → Option Node → ℕ → Kernel → Option ℕ → Kernel × ℤ
alloc_at c _ _ k none = (k, minus_one)
alloc_at c node flags k (some i) = (
  set_table c (update (k.tasks c).fd_table i (record { node = node; offset = 0; flags = flags })) k,
  pos i,
)

unfoldable pub fd_alloc : Option Node → ℕ → Kernel → Kernel × ℤ
unfolding first_closed alloc_at
fd_alloc node flags k = elim k.current [
  | none ↦ (k, minus_one)
  | some c ↦ alloc_at c node flags k (first_closed (k.tasks c).fd_table (max_fds - 3) 3)
]

-- The slot is cleared before `close` is called.
unfoldable pub close_at : ℕ → ℕ → Kernel → Kernel
close_at c i k =
    let node = ((k.tasks c).fd_table i).node in
    let cleared = set_table c (update (k.tasks c).fd_table i closed_entry) k in
    record cleared { closed = close_node node k.closed }

unfoldable pub fd_close : ℤ → Kernel → Kernel
unfolding close_at
fd_close (negsuc n) k = k
fd_close (pos i) k = elim k.current [
  | none ↦ k
  | some c ↦ if ltb i max_fds then close_at c i k else k
]

-- The loop of `fd_table_close_all` with `n` descriptors left from `i` on.
unfoldable pub close_from : ℕ → ℕ → ℕ → Kernel → Kernel
unfolding close_at
close_from c zero i k = k
close_from c (suc n) i k = close_from c n (i + 1) (close_at c i k)

abbrev pub standard : (ℕ → FdEntry) → ℕ → FdEntry
standard table =
    update
      (update (update table 0 (record closed_entry { node = some dev_kbd })) 1
        (record closed_entry { node = some dev_vga }))
      2 (record closed_entry { node = some dev_vga })

-- `fd_table_close_all` on the table of task `c`.
unfoldable pub close_all : ℕ → Kernel → Kernel
close_all c k =
    let k' = close_from c (max_fds - 3) 3 k in set_table c (standard (k'.tasks c).fd_table) k'

pub fd_get : ℤ → Kernel → Option FdEntry
fd_get (negsuc n) k = none
fd_get (pos i) k = elim k.current [
  | none ↦ none
  | some c ↦ if ltb i max_fds then some ((k.tasks c).fd_table i) else none
]
