-- ===== src/Ipc.antt =====
-- kernel/ipc.c: channels of messages with the tasks that wait for them, and the shared blocks.
pub mod Queue
pub mod Close
pub mod Shm
mod Tests
use os.Base.{
  ℕ, zero, suc, ◌+◌, ◌-◌, ◌%◌, ◌^◌, Bool, true, false, not, Option, none, some, List, [], ltb, leb,
  ◌==◌, if◌then◌else◌, update, length, take, ℤ, pos, negsuc, minus_one,
}
use os.Kernel.{Kernel, running, is_blocked, max_tasks, set_task, set_state}
use os.Signal.{Outcome, returns, exits}
use os.Sched.{yield}
use os.Sched.Block.{block_task, unblock_task}

-- IPC_MAX_CHANNELS, IPC_MAX_MSG_SIZE and IPC_MAX_MESSAGES
abbrev pub max_channels : ℕ
max_channels = 32

abbrev pub max_msg_size : ℕ
max_msg_size = 512

abbrev pub max_messages : ℕ
max_messages = 16

-- `ipc_message_t`: the first `size` bytes, which are all that is read.
pub record Message : Type 0 where
  pub sender_pid : ℕ
  pub data_bytes : List ℕ

-- `ipc_channel_t`. The head is where the next message is written, the tail where one is read.
pub record Channel : Type 0 where
  pub messages : ℕ → Message
  pub head : ℕ
  pub tail : ℕ
  pub count : ℕ
  pub generation : ℕ
  pub in_use : Bool
  pub wait_head : Option ℕ

abbrev pub Channels : Type 0
Channels = ℕ → Channel

pub init : Channels → Channels
init cs i =
    if ltb i max_channels
    then record (cs i) {
      in_use = false;
      head = 0;
      tail = 0;
      count = 0;
      generation = 1;
      wait_head = none;
    }
    else cs i

-- The loop of `ipc_create` with `n` channels left from `i` on.
pub create_from : ℕ → ℕ → Channels → Channels × ℤ
create_from zero i cs = (cs, minus_one)
create_from (suc n) i cs =
    let rest = create_from n (i + 1) cs in
    let taken : Channel = record (cs i) {
      in_use = true;
      head = 0;
      tail = 0;
      count = 0;
      wait_head = none;
    } in
    if (cs i).in_use then rest else (update cs i taken, pos i)

pub create : Channels → Channels × ℤ
create cs = create_from max_channels 0 cs

-- A channel number that the guards let through: in the table, and the channel in use.
abbrev pub channel_of : ℤ → Channels → Option ℕ
channel_of (negsuc n) cs = none
channel_of (pos n) cs =
    if ltb n max_channels then (if (cs n).in_use then some n else none) else none

abbrev pub set_wait_next : ℕ → Option ℕ → Kernel → Kernel
set_wait_next i w k = set_task i (record (k.tasks i) { ipc_wait_next = w }) k

-- The loop of `ipc_remove_waiter`, at `current` with `previous` before it: the list's head and the
-- state after it. A list of waiting tasks has at most `max_tasks` of them.
pub remove_loop : ℕ → ℕ → Option ℕ → Option ℕ → Option ℕ → Kernel → Option ℕ × Kernel
remove_loop zero target head previous current k = (head, k)
remove_loop (suc f) target head previous none k = (head, k)
remove_loop (suc f) target head previous (some c) k =
    let after = (k.tasks c).ipc_wait_next in
    let rest = remove_loop f target head (some c) after k in
    let unlinked : Option ℕ × Kernel = elim previous [
      | some p ↦ (head, set_wait_next p after k)
      | none ↦ (after, k)
    ] in
    if c == target then (unlinked.0, set_wait_next c none unlinked.1) else rest

pub remove_waiter : ℕ → ℕ → Channels → Kernel → Channels × Kernel
remove_waiter i target cs k =
    let (head, k') = remove_loop max_tasks target (cs i).wait_head none (cs i).wait_head k in
    (update cs i (record (cs i) { wait_head = head }), k')

-- The message is written at the head of the ring.
pub put_message : Message → Channel → Channel
put_message m ch = record ch {
  messages = update ch.messages ch.head m;
  head = (ch.head + 1) % max_messages;
  count = ch.count + 1;
}

-- The first task that waits is taken off the list and made ready.
pub wake_one : Channel → Kernel → Channel × Kernel
wake_one ch k = elim ch.wait_head [
  | none ↦ (ch, k)
  | some w ↦ (
    record ch { wait_head = (k.tasks w).ipc_wait_next },
    unblock_task (some w) (set_wait_next w none k),
  )
]

abbrev pub sender_of : Kernel → ℕ
sender_of k = elim k.current [ none ↦ 0 | some c ↦ (k.tasks c).pid ]

-- `ipc_send` on channel `i`.
pub send_at : ℕ → List ℕ → Channels → Kernel → Channels × Kernel × ℤ
unfolding put_message wake_one
send_at i bytes cs k =
    let m : Message = record {
      sender_pid = sender_of k;
      data_bytes =
          take (if ltb max_msg_size (length bytes) then max_msg_size else length bytes) bytes;
    } in
    let (ch, k') = wake_one (put_message m (cs i)) k in
    if leb max_messages (cs i).count then (cs, k, minus_one) else (update cs i ch, k', pos 0)

pub send_of : Option ℕ → Option (List ℕ) → Channels → Kernel → Channels × Kernel × ℤ
unfolding send_at
send_of none src cs k = (cs, k, minus_one)
send_of (some i) none cs k = (cs, k, minus_one)
send_of (some i) (some bytes) cs k = send_at i bytes cs k

-- The caller's bytes; none is NULL.
pub send : ℤ → Option (List ℕ) → Channels → Kernel → Channels × Kernel × ℤ
unfolding send_of
send channel src cs k = send_of (channel_of channel cs) src cs k

-- The end of `ipc_recv`: the message at the tail is handed out, cut at the caller's size.
pub take_message : ℕ → Channel → Channel × List ℕ
take_message max_size ch =
    let bytes = (ch.messages ch.tail).data_bytes in
    let copy_size = if ltb (length bytes) max_size then length bytes else max_size in
    (record ch { tail = (ch.tail + 1) % max_messages; count = ch.count - 1 }, take copy_size bytes)

-- How `ipc_recv` goes on: it returns a number and bytes; it waits, on channel `i` since its
-- `generation`, as task `c`, until the scheduler comes back to it; or the task has exited.
pub data Receive : Type 0 where
  received : Channels → Kernel → ℤ → List ℕ → Receive
  waits : ℕ → ℕ → ℕ → Channels → Kernel → Receive
  gone : Channels → Kernel → Receive

-- The yield of the waiting task, after `scheduler_block_task`.
pub wait_on : ℕ → ℕ → ℕ → Channels → Outcome → Receive
wait_on i generation c cs (returns k) = waits i generation c cs (yield k)
wait_on i generation c cs (exits k) = gone cs k

module _ (call : ℕ → ℕ → Kernel → Kernel) where
  -- The loop of `ipc_recv` on channel `i` from its head: the ring is looked at again each time.
  pub recv_loop : ℕ → ℕ → Channels → Kernel → Receive
  unfolding take_message wait_on remove_waiter
  recv_loop i max_size cs k =
      let (ch, bytes) = take_message max_size (cs i) in
      let wait : Receive = elim k.current [
        | none ↦ received cs k minus_one []
        | some c ↦
            let (cs1, k1) = remove_waiter i c cs k in
            let k2 = set_wait_next c (cs1 i).wait_head k1 in
            let cs2 = update cs1 i (record (cs1 i) { wait_head = some c }) in
            wait_on i (cs i).generation c cs2 (block_task call (some c) k2)
      ] in
      if (cs i).count == 0 then wait else received (update cs i ch) k (pos (length bytes)) bytes

  recv_of : Option ℕ → Bool → ℕ → Channels → Kernel → Receive
  unfolding recv_loop
  recv_of none buffer max_size cs k = received cs k minus_one []
  recv_of (some i) buffer max_size cs k =
      let go = recv_loop i max_size cs k in
      if max_size == 0
      then received cs k (pos 0) []
      else if buffer
      then go
      else received cs k minus_one []

  -- `buffer` says whether the caller's buffer is not NULL.
  pub recv : ℤ → Bool → ℕ → Channels → Kernel → Receive
  unfolding recv_of
  recv channel buffer max_size cs k = recv_of (channel_of channel cs) buffer max_size cs k

  -- Task `c` comes back from its yield.
  pub resume : ℕ → ℕ → ℕ → ℕ → Channels → Kernel → Receive
  unfolding recv_loop remove_waiter
  resume i generation c max_size cs k =
      let (cs1, k1) = remove_waiter i c cs k in
      let again = recv_loop i max_size cs k in
      if is_blocked (k.tasks c).state
      then received cs1 (set_state c running k1) minus_one []
      else if not (cs i).in_use
      then received cs k minus_one []
      else if (cs i).generation == generation
      then again
      else received cs k minus_one []

-- ch->generation++, on u32, and never 0
abbrev pub next_generation : ℕ → ℕ
next_generation g = let n = (g + 1) % 2 ^ 32 in if n == 0 then 1 else n

-- The loop of `ipc_close` over the tasks that wait.
pub wake_all : ℕ → Option ℕ → Kernel → Kernel
wake_all zero w k = k
wake_all (suc f) none k = k
wake_all (suc f) (some w) k =
    wake_all f (k.tasks w).ipc_wait_next (unblock_task (some w) (set_wait_next w none k))

pub close_at : Option ℕ → Channels → Kernel → Channels × Kernel
close_at none cs k = (cs, k)
close_at (some i) cs k = (
  update cs i (record (cs i) {
    generation = next_generation (cs i).generation;
    wait_head = none;
    in_use = false;
    head = 0;
    tail = 0;
    count = 0;
  }),
  wake_all max_tasks (cs i).wait_head k,
)

pub close : ℤ → Channels → Kernel → Channels × Kernel
unfolding close_at
close channel cs k = close_at (channel_of channel cs) cs k
