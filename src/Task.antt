-- ===== src/Task.antt =====
-- kernel/task.c over the shared state: allocation and lookup in the table, exit, sleep; and the
-- descriptor functions of kernel/vfs.c that work on a task's table.
pub mod Fd
pub mod Exit
pub mod Sleep
mod Tests
use os.Base.{
  ℕ, zero, suc, ◌+◌, ◌%◌, ◌^◌, not, ◌&&◌, ◌||◌, Option, none, some, ltb, leb, ◌==◌, if◌then◌else◌,
  update,
}
use os.Kernel.{
  Kernel, Task, ready, blocked, zombie, unused, is_unused, is_blocked, max_tasks, set_task,
}
use os.Sched.{yield}
use Fd.{max_fds, closed_entry, standard, close_all}

-- What `task_init` makes of a slot.
abbrev pub fresh_task : Task → Task
fresh_task t = record t {
  stack_base = 0;
  state = unused;
  pid = 0;
  exit_code = 0;
  next = none;
  prev = none;
  runtime_ticks = 0;
  guard_page_addr = 0;
  event_data = 0;
  waiting_event = 0;
  fd_table = standard (λ j. if ltb j max_fds then closed_entry else t.fd_table j);
}

pub init : Kernel → Kernel
init k = record k { tasks = λ i. if ltb i max_tasks then fresh_task (k.tasks i) else k.tasks i }

-- The loop of `task_allocate` with `n` slots left from slot `i` on.
pub first_unused : (ℕ → Task) → ℕ → ℕ → Option ℕ
first_unused t zero i = none
first_unused t (suc n) i =
    let rest = first_unused t n (i + 1) in if is_unused (t i).state then some i else rest

pub allocate : Kernel → Option ℕ
unfolding first_unused
allocate k = first_unused k.tasks max_tasks 0

-- The loop of `task_find_by_pid`.
pub pid_from : (ℕ → Task) → ℕ → ℕ → ℕ → Option ℕ
pid_from t pid zero i = none
pid_from t pid (suc n) i =
    let rest = pid_from t pid n (i + 1) in
    if not (is_unused (t i).state) && (t i).pid == pid then some i else rest

pub find_by_pid : ℕ → Kernel → Option ℕ
unfolding pid_from
find_by_pid pid k = if pid == 0 then none else pid_from k.tasks pid max_tasks 0

-- `task_defer_release`
pub defer_release : Option ℕ → Kernel → Kernel
defer_release none k = k
defer_release (some i) k =
    let t = k.tasks i in
    let stack = if t.guard_page_addr == 0 then t.stack_base else t.guard_page_addr in
    let parked = record k {
      tasks =
          update k.tasks i
            (record t { stack_base = 0; guard_page_addr = 0; state = zombie; runtime_ticks = 0 });
      pending_stack = stack;
      pending_task = some i;
    } in
    let bare = set_task i (record t { state = zombie; runtime_ticks = 0 }) k in
    if not (t.stack_base == 0) || not (t.guard_page_addr == 0) then parked else bare

-- `task_exit_with_status` before it gives up the stack: the status is recorded and the descriptors
-- are closed.
pub begin_exit : Option ℕ → ℕ → Kernel → Kernel
begin_exit none status k = k
begin_exit (some c) status k =
    close_all c (set_task c (record (k.tasks c) { exit_code = status }) k)

-- `task_exit_with_status` up to its last loop, which never returns.
pub exit_with_status : ℕ → Kernel → Kernel
exit_with_status status k = yield (defer_release k.current (begin_exit k.current status k))

pub exit : Kernel → Kernel
unfolding exit_with_status
exit k = exit_with_status 0 k

-- TASK_WAITING_SLEEP
abbrev pub waiting_sleep : ℕ
waiting_sleep = 0x534C4550

-- `task_sleep_ms` where there is a current task, up to the point where it is resumed. `now` is
-- `timer_get_ms()`.
pub sleep_ms : ℕ → ℕ → Kernel → Kernel
sleep_ms ms now k =
    let parked : Kernel = elim k.current [
      | none ↦ k
      | some c ↦ yield (
          set_task c
            (record (k.tasks c) {
              event_data = (now + ms) % 2 ^ 64;
              waiting_event = waiting_sleep;
              state = blocked;
            })
            k)
    ] in
    if ms == 0 then k else parked

-- The body of `task_wake_sleepers` at one task.
pub wake_task : ℕ → Task → Task
wake_task now t =
    if not (is_blocked t.state) || not (t.waiting_event == waiting_sleep)
    then t
    else if leb t.event_data now
    then record t { waiting_event = 0; event_data = 0; state = ready }
    else t

pub wake_from : ℕ → ℕ → ℕ → (ℕ → Task) → ℕ → Task
unfolding wake_task
wake_from now zero i t = t
wake_from now (suc n) i t = wake_from now n (i + 1) (update t i (wake_task now (t i)))

pub wake_sleepers : ℕ → Kernel → Kernel
wake_sleepers now k = record k { tasks = wake_from now max_tasks 0 k.tasks }
