-- ===== src/Input.antt =====
-- kernel/input.c: the ring of input events. Each operation runs with interrupts off, so it is one
-- step.
pub mod Queue
mod Tests
use os.Base.{
  ℕ, ◌+◌, ◌-◌, ◌%◌, ◌^◌, Bool, true, false, Option, none, some, leb, ◌==◌, if◌then◌else◌, update, ℤ,
}

-- INPUT_QUEUE_SIZE
abbrev pub queue_size : ℕ
queue_size = 256

-- `input_event_type_t`
pub data EventKind : Type 0 where
  key_down key_up mouse_move mouse_down mouse_up mouse_scroll : EventKind

-- The union of `input_event_t`.
pub data Payload : Type 0 where
  key : ℤ → ℤ → Payload
  mouse : ℤ → ℤ → ℤ → ℤ → ℤ → Payload

-- `input_event_t`
pub record Event : Type 0 where
  pub kind : EventKind
  pub payload : Payload
  pub timestamp : ℕ

pub record Input : Type 0 where
  pub events : ℕ → Event
  pub head : ℕ
  pub tail : ℕ
  pub dropped : ℕ

pub init : Input → Input
init s = record s { head = 0; tail = 0; dropped = 0 }

-- `input_push_event` of an event that is not NULL; the count of dropped events is a u32.
pub push_event : Event → Input → Input × Bool
push_event e s =
    let next_head = (s.head + 1) % queue_size in
    if next_head == s.tail
    then (record s { dropped = (s.dropped + 1) % 2 ^ 32 }, false)
    else (record s { events = update s.events s.head e; head = next_head }, true)

-- `input_pop_event`: none is its result false.
pub pop_event : Input → Input × Option Event
pop_event s =
    if s.tail == s.head
    then (s, none)
    else (record s { tail = (s.tail + 1) % queue_size }, some (s.events s.tail))

pub queue_depth : Input → ℕ
queue_depth s = if leb s.tail s.head then s.head - s.tail else queue_size - (s.tail - s.head)
