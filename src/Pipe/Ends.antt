-- ===== src/Pipe/Ends.antt =====
-- Descriptors, slots and results of kernel/pipe.c.
use os.Base.{
  ℕ, zero, suc, ◌+◌, ◌-◌, ◌*◌, ◌/◌, ◌≤◌, ◌<◌, ◌≡◌, refl, ◌∙◌, sym, ap, min, Bool, true, false, none,
  some, List, [], ◌∷◌, arith, length, update, leb, ◌==◌, ℤ, pos, negsuc, minus_one, eq_ℤ,
  Bool-cases, inl, inr, half_ℤ, pred_ℤ, lt→ltb, ==_self,
}
use os.Kernel.{Kernel}
use os.Sched.Block.{unblock_task}
use os.Pipe.{
  Pipe, Pipes, result, max_pipes, buffer_size, index_of, read_index, write_index, finish_read,
  finish_write, read_of, write_of, read_at, read, write_at, write, fresh, create_from, create,
  can_write,
}
use os.Pipe.Ring.{IsValid, take_bytes-Took, put_bytes-Put}
use os.Pipe.Fifo.{got, accepted, pipes_of}

module _ (call : ℕ → ℕ → Kernel → Kernel) (i : ℕ) (ps : Pipes) (k : Kernel)
    (v : IsValid (ps i)) where
  -- A read from a slot whose ring is valid and holds bytes does not wait: it returns as many as
  -- are asked for and there, with that many bytes, and wakes the task that waits to write.
  pub read-available :
      (fd : ℤ) (n : ℕ)
      → read_index fd ≡ some i
      → 0 < (ps i).count
      → let r = read call fd true n ps k in
        (r ≡ result (pipes_of r) (unblock_task (ps i).writer k) (pos (min n (ps i).count)) (got r))
        × (length (got r) ≡ min n (ps i).count)
        × ((pipes_of r i).writer ≡ none)
  unfolding read read_at finish_read
  read-available fd n e h =
      let t = take_bytes-Took n (ps i) v in
      let full : ((ps i).count == 0) ≡ false = ground arith in
      rw (e, read, full, read_at) (rw (← t.count), t.moved ∙ t.count, rw (==_self i))

  -- A write to a slot whose ring is valid and has room does not wait: it takes as many bytes as
  -- are given and fit, and wakes the task that waits to read.
  pub write-room :
      (fd : ℤ) (src : List ℕ)
      → write_index fd ≡ some i
      → (ps i).count < buffer_size
      → let r = write call fd (some src) ps k in
        (r
          ≡ result
              (pipes_of r)
              (unblock_task (ps i).reader k)
              (pos (min (length src) (buffer_size - (ps i).count)))
              [])
        × ((pipes_of r i).reader ≡ none)
  unfolding write write_at finish_write
  write-room fd src e h =
      let t = put_bytes-Put src (ps i) v in
      let room : leb buffer_size (ps i).count ≡ false = ground arith in
      rw (e, write, room, write_at) (rw (← t.count), rw (==_self i))

module _ (call : ℕ → ℕ → Kernel → Kernel) where
  -- The descriptor is not checked to be the right end of its pipe, and a quotient rounds towards
  -- zero. A read from the write end of slot `i` is a read from slot `i`; a write to the read end of
  -- slot `i + 1` is a write to slot `i`, and a write to descriptor 0 one to slot 0; a read from -1 is
  -- a read from slot 0.
  pub wrong_ends :
      (i : ℕ)
      → (read call (pos (i * 2 + 1)) ≡ read call (pos (i * 2)))
        × (write call (pos (i * 2 + 2)) ≡ write call (pos (i * 2 + 1)))
        × (write call (pos 0) ≡ write call (pos 1))
        × (read call (negsuc 0) ≡ read call (pos 0))
  unfolding read write
  wrong_ends i = (
    ap (λ n. read_of call (index_of (pos n))) odd_read,
    ap (λ fd. write_of call (index_of fd)) even_write,
    refl,
    refl,
  )
    where
      odd_read : (i * 2 + 1) / 2 ≡ i * 2 / 2
      odd_read = omega arith

      low : i * 2 + 2 ≡ suc (i * 2 + 1)
      low = omega arith

      high : i * 2 + 1 ≡ suc (i * 2)
      high = omega arith

      even_write : half_ℤ (pred_ℤ (pos (i * 2 + 2))) ≡ half_ℤ (pred_ℤ (pos (i * 2 + 1)))
      even_write = rw low (ap (λ n. pos n) odd_read ∙ sym (ap (λ n. half_ℤ (pred_ℤ (pos n))) high))

abbrev is_closed : Pipe → Bool
is_closed p = eq_ℤ p.read_fd minus_one

create_from_lem :
    (n i j : ℕ) (ps : Pipes)
    → i ≤ j
    → j < i + n
    → is_closed (ps j) ≡ true
    → ((m : ℕ) → i ≤ m → m < j → is_closed (ps m) ≡ false)
    → create_from n i ps ≡ (update ps j (fresh j (ps j)), pos j)
unfolding create_from
create_from_lem zero i j ps lo hi c before = absurd (omega arith)
create_from_lem (suc n) i j ps lo hi c before = elim (Bool-cases (i == j)) [
  | inl here ↦ let same : i ≡ j = ground arith in rw (same, c, create_from)
  | inr later ↦
      let lt : i < j = ground arith in
      rw (before i (omega arith) lt, create_from)
        (create_from_lem n (i + 1) j ps (omega arith) (omega arith) c
          (λ m a b. before m (omega arith) b))
]

-- `pipe_create` resets and returns the first slot whose read end is closed, whether or not its write
-- end is still open; the other slots stay.
create-first :
    (ps : Pipes) (j : ℕ)
    → j < max_pipes
    → eq_ℤ (ps j).read_fd minus_one ≡ true
    → ((m : ℕ) → m < j → eq_ℤ (ps m).read_fd minus_one ≡ false)
    → create ps ≡ (update ps j (fresh j (ps j)), pos j)
unfolding create
create-first ps j h c before =
    create_from_lem max_pipes 0 j ps (omega arith) h c (λ m a b. before m b)

-- On a valid ring with one byte of room `pipe_can_write` says no, though a write of one byte takes
-- it.
can_write-strict :
    (call : ℕ → ℕ → Kernel → Kernel) (i b : ℕ) (ps : Pipes) (k : Kernel)
    → IsValid (ps i)
    → i < max_pipes
    → (ps i).count ≡ buffer_size - 1
    → (can_write (pos (i * 2 + 1)) ps ≡ false)
      × (accepted (write call (pos (i * 2 + 1)) (some (b ∷ [])) ps k) (b ∷ []) ≡ b ∷ [])
unfolding can_write
can_write-strict call i b ps k v h c =
    (rw (index, can_write) (rw c), ap (λ r. accepted r (b ∷ [])) room.0 ∙ rw c)
  where
    index : write_index (pos (i * 2 + 1)) ≡ some i
    index =
        let e : i * 2 + 1 ≡ suc (i * 2) = omega arith in
        let half : i * 2 / 2 ≡ i = omega arith in rw e (rw half (rw (lt→ltb i max_pipes h)))

    room :
        (let r = write call (pos (i * 2 + 1)) (some (b ∷ [])) ps k in
          (r
            ≡ result
                (pipes_of r)
                (unblock_task (ps i).reader k)
                (pos (min (length (b ∷ [])) (buffer_size - (ps i).count)))
                [])
          × ((pipes_of r i).reader ≡ none))
    room = write-room call i ps k v (pos (i * 2 + 1)) (b ∷ []) index (omega arith)
