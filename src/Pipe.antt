-- ===== src/Pipe.antt =====
-- kernel/pipe.c: a table of byte rings, with the tasks that wait for them.
pub mod Ring
pub mod Fifo
pub mod Ends
mod Tests
use os.Base.{
  ℕ, zero, suc, ◌+◌, ◌-◌, ◌%◌, ◌*◌, ◌^◌, Bool, false, ◌&&◌, Option, none, some, List, [], ◌∷◌, ltb,
  leb, ◌==◌, if◌then◌else◌, update, length, take, ℤ, pos, negsuc, minus_one, minus_two, half_ℤ,
  pred_ℤ, even_ℤ, eq_ℤ,
}
use os.Kernel.{Kernel}
use os.Signal.{Outcome, returns, exits}
use os.Sched.Block.{block_task, unblock_task}

-- PIPE_MAX_PIPES and PIPE_BUFFER_SIZE
abbrev pub max_pipes : ℕ
max_pipes = 32

abbrev pub buffer_size : ℕ
buffer_size = 4096

-- `pipe_t`
pub record Pipe : Type 0 where
  pub buffer : ℕ → ℕ
  pub read_pos : ℕ
  pub write_pos : ℕ
  pub count : ℕ
  pub reader : Option ℕ
  pub writer : Option ℕ
  pub read_fd : ℤ
  pub write_fd : ℤ

abbrev pub Pipes : Type 0
Pipes = ℕ → Pipe

-- The positions, the count, the waiting tasks and the descriptors are reset; the bytes stay.
pub init : Pipes → Pipes
init ps i =
    if ltb i max_pipes
    then record (ps i) {
      read_pos = 0;
      write_pos = 0;
      count = 0;
      reader = none;
      writer = none;
      read_fd = minus_one;
      write_fd = minus_one;
    }
    else ps i

-- What `pipe_create` makes of slot `i`.
abbrev pub fresh : ℕ → Pipe → Pipe
fresh i p = record p {
  count = 0;
  read_pos = 0;
  write_pos = 0;
  read_fd = pos (i * 2);
  write_fd = pos (i * 2 + 1);
  reader = none;
  writer = none;
}

-- The loop of `pipe_create` with `n` slots left from slot `i` on.
pub create_from : ℕ → ℕ → Pipes → Pipes × ℤ
create_from zero i ps = (ps, minus_one)
create_from (suc n) i ps =
    let rest = create_from n (i + 1) ps in
    if eq_ℤ (ps i).read_fd minus_one then (update ps i (fresh i (ps i)), pos i) else rest

pub create : Pipes → Pipes × ℤ
unfolding create_from
create ps = create_from max_pipes 0 ps

-- An index that the guards let through.
abbrev pub index_of : ℤ → Option ℕ
index_of (negsuc n) = none
index_of (pos n) = if ltb n max_pipes then some n else none

-- fd / 2, and (fd - 1) / 2
abbrev pub read_index : ℤ → Option ℕ
read_index fd = index_of (half_ℤ fd)

abbrev pub write_index : ℤ → Option ℕ
write_index fd = index_of (half_ℤ (pred_ℤ fd))

-- How a call ends: it returns a number and, from a read, bytes; or the task has exited while it
-- was put to wait.
pub data Result : Type 0 where
  result : Pipes → Kernel → ℤ → List ℕ → Result
  gone : Pipes → Kernel → Result

-- The loop that copies `n` bytes out of the ring, from its `i`-th on.
pub copy_out : (ℕ → ℕ) → ℕ → ℕ → ℕ → List ℕ
copy_out buffer read_pos zero i = []
copy_out buffer read_pos (suc n) i =
    buffer ((read_pos + i) % buffer_size) ∷ copy_out buffer read_pos n (i + 1)

-- The loop that copies bytes into the ring, the first of them at offset `i`.
pub copy_in : (ℕ → ℕ) → ℕ → List ℕ → ℕ → ℕ → ℕ
copy_in buffer write_pos [] i = buffer
copy_in buffer write_pos (b ∷ bs) i =
    copy_in (update buffer ((write_pos + i) % buffer_size) b) write_pos bs (i + 1)

-- The part of `pipe_read` that moves bytes: the ring after it, how many, and the bytes.
pub take_bytes : ℕ → Pipe → Pipe × ℕ × List ℕ
take_bytes n p =
    let to_read = if ltb p.count n then p.count else n in
    (
      record p { read_pos = (p.read_pos + to_read) % buffer_size; count = p.count - to_read },
      to_read,
      copy_out p.buffer p.read_pos to_read 0,
    )

-- The part of `pipe_write` that moves bytes: the ring after it, and how many. The space is a u32.
pub put_bytes : List ℕ → Pipe → Pipe × ℕ
put_bytes src p =
    let space = (2 ^ 32 + buffer_size - p.count) % 2 ^ 32 in
    let to_write = if ltb space (length src) then space else length src in
    (
      record p {
        buffer = copy_in p.buffer p.write_pos (take to_write src) 0;
        write_pos = (p.write_pos + to_write) % buffer_size;
        count = p.count + to_write;
      },
      to_write,
    )

-- The end of `pipe_read`: the bytes are moved and a blocked writer is woken.
pub finish_read : ℕ → ℕ → Pipes → Kernel → Result
unfolding take_bytes
finish_read i n ps k =
    let (p, to_read, bytes) = take_bytes n (ps i) in
    result (update ps i (record p { writer = none })) (unblock_task p.writer k) (pos to_read) bytes

pub finish_write : ℕ → List ℕ → Pipes → Kernel → Result
unfolding put_bytes
finish_write i src ps k =
    let (p, n) = put_bytes src (ps i) in
    result (update ps i (record p { reader = none })) (unblock_task p.reader k) (pos n) []

-- What the caller sees of being put to wait.
pub waited : Pipes → Outcome → Result
waited ps (returns k) = result ps k minus_two []
waited ps (exits k) = gone ps k

module _ (call : ℕ → ℕ → Kernel → Kernel) where
  -- `pipe_read` on slot `i`, with the test for an empty ring.
  pub read_at : ℕ → ℕ → Pipes → Kernel → Result
  unfolding finish_read waited
  read_at i n ps k =
      let p = ps i in
      let wait : Result = elim k.current [
        | none ↦ finish_read i n ps k
        | some t ↦ waited (update ps i (record p { reader = some t })) (block_task call (some t) k)
      ] in
      if p.count == 0 && eq_ℤ p.write_fd minus_one
      then result ps k (pos 0) []
      else if p.count == 0
      then wait
      else finish_read i n ps k

  read_of : Option ℕ → Bool → ℕ → Pipes → Kernel → Result
  unfolding read_at
  read_of none buffer n ps k = result ps k minus_one []
  read_of (some i) buffer n ps k = if buffer then read_at i n ps k else result ps k minus_one []

  -- `buffer` says whether the caller's buffer is not NULL.
  pub read : ℤ → Bool → ℕ → Pipes → Kernel → Result
  unfolding read_of
  read fd = read_of (read_index fd)

  pub write_at : ℕ → List ℕ → Pipes → Kernel → Result
  unfolding finish_write waited
  write_at i src ps k =
      let p = ps i in
      let wait : Result = elim k.current [
        | none ↦ finish_write i src ps k
        | some t ↦ waited (update ps i (record p { writer = some t })) (block_task call (some t) k)
      ] in
      if leb buffer_size p.count then wait else finish_write i src ps k

  write_of : Option ℕ → Option (List ℕ) → Pipes → Kernel → Result
  unfolding write_at
  write_of none src ps k = result ps k minus_one []
  write_of (some i) none ps k = result ps k minus_one []
  write_of (some i) (some bytes) ps k = write_at i bytes ps k

  -- `src` holds the caller's `count` bytes; none is NULL.
  pub write : ℤ → Option (List ℕ) → Pipes → Kernel → Result
  unfolding write_of
  write fd = write_of (write_index fd)

-- `pipe_close`
pub close : ℤ → Pipes → Kernel → Pipes × Kernel
close fd ps k =
    let read_end : Pipes × Kernel = elim (read_index fd) [
      | none ↦ (ps, k)
      | some i ↦ (
        update ps i (record (ps i) { read_fd = minus_one; writer = none }),
        unblock_task (ps i).writer k,
      )
    ] in
    let write_end : Pipes × Kernel = elim (write_index fd) [
      | none ↦ (ps, k)
      | some i ↦ (
        update ps i (record (ps i) { write_fd = minus_one; reader = none }),
        unblock_task (ps i).reader k,
      )
    ] in
    if even_ℤ fd then read_end else write_end

pub can_read : ℤ → Pipes → Bool
can_read fd ps = elim (read_index fd) [ none ↦ false | some i ↦ ltb 0 (ps i).count ]

pub can_write : ℤ → Pipes → Bool
can_write fd ps = elim (write_index fd) [
  | none ↦ false
  | some i ↦ ltb (ps i).count (buffer_size - 1)
]
