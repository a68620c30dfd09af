-- ===== src/Input/Tests.antt =====
-- kernel/input.c at a ring whose events wrap around.
use os.Base.{arith, pos}
use os.Input.{Event, Input, key_down, key}
use os.Input.Queue.{InRing}

abbrev letter : Event
letter = record { kind = key_down; payload = key (pos 97) (pos 0); timestamp = 7 }

abbrev two_events : Input
two_events = record { events = λ i. letter; head = 1; tail = 255; dropped = 0 }

two-InRing : InRing two_events
two-InRing = record { head_in = omega arith; tail_in = omega arith }
