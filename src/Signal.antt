-- ===== src/Signal.antt =====
-- kernel/signal.c: pending bits, handlers and default actions of each task slot.
pub mod Laws
pub mod Dispatch
mod Tests
use os.Base.{
  ℕ, zero, suc, ◌+◌, Bool, true, false, not, ◌&&◌, Option, none, some, ltb, ◌==◌, if◌then◌else◌,
  update, is_some, ℤ, pos, negsuc, minus_one,
}
use os.Kernel.{Kernel, Signals, SignalAction, sig_default, sig_ignored, sig_handler, max_tasks}
use os.Task.{exit}

-- SIG_MAX
abbrev pub sig_max : ℕ
sig_max = 32

-- SIGKILL
abbrev pub sig_kill : ℕ
sig_kill = 9

-- `signal_slot`; `none` is -1.
abbrev pub signal_slot : Option ℕ → Option ℕ
signal_slot none = none
signal_slot (some i) = if ltb i max_tasks then some i else none

abbrev pub is_ignored : SignalAction → Bool
is_ignored sig_default = false
is_ignored sig_ignored = true
is_ignored sig_handler = false

-- A signal number that the guards `sig < 0 || sig >= SIG_MAX` let through.
abbrev pub sig_of : ℤ → Option ℕ
sig_of (negsuc n) = none
sig_of (pos n) = if ltb n sig_max then some n else none

-- handlers[slot][sig] = h
abbrev pub set_handler : ℕ → ℕ → Option ℕ → Signals → Signals
set_handler slot sig h s = record s {
  handlers = update s.handlers slot (update (s.handlers slot) sig h);
}

-- pending_signals[slot] |= (1U << sig), or &= ~(1U << sig)
abbrev pub set_pending : ℕ → ℕ → Bool → Signals → Signals
set_pending slot sig b s = record s {
  pending = update s.pending slot (update (s.pending slot) sig b);
}

abbrev pub with_signals : Kernel → Signals → Kernel
with_signals k s = record k { signals = s }

-- `signal_init`; a default action that it does not set stays as it was.
pub init : Kernel → Kernel
init k = with_signals k (record {
  handlers = λ t s. none;
  pending = λ t s. false;
  defaults =
      update
        (update
          (update (update (update k.signals.defaults 2 sig_default) 15 sig_default) 11 sig_default)
          17 sig_ignored)
        9 sig_default;
})

-- `signal_reset_task`
pub reset_task : Option ℕ → Kernel → Kernel
reset_task task k = elim (signal_slot task) [
  | none ↦ k
  | some slot ↦ with_signals k (record k.signals {
    handlers = update k.signals.handlers slot (λ sig. none);
    pending = update k.signals.pending slot (λ sig. false);
  })
]

-- `signal_register`; a handler of `none` is NULL.
pub register : ℤ → Option ℕ → Kernel → Kernel × ℤ
register sig handler k = elim (signal_slot k.current) [
  | none ↦ (k, minus_one)
  | some slot ↦ elim (sig_of sig) [
    | none ↦ (k, minus_one)
    | some s ↦ elim handler [
      | none ↦ (k, minus_one)
      | some h ↦ (with_signals k (set_handler slot s (some h) k.signals), pos 0)
    ]
  ]
]

pub unregister : ℤ → Kernel → Kernel × ℤ
unregister sig k = elim (signal_slot k.current) [
  | none ↦ (k, minus_one)
  | some slot ↦ elim (sig_of sig) [
    | none ↦ (k, minus_one)
    | some s ↦ (with_signals k (set_handler slot s none k.signals), pos 0)
  ]
]

-- The signal is dropped: no handler, and ignored by default.
abbrev pub is_dropped : Signals → ℕ → ℕ → Bool
is_dropped s slot sig =
    not (sig == sig_kill) && (not (is_some (s.handlers slot sig)) && is_ignored (s.defaults sig))

-- `signal_send`
pub send : Option ℕ → ℤ → Kernel → Kernel × ℤ
send task sig k = elim (signal_slot task) [
  | none ↦ (k, minus_one)
  | some slot ↦ elim (sig_of sig) [
    | none ↦ (k, minus_one)
    | some s ↦ (
      if is_dropped k.signals slot s then k else with_signals k (set_pending slot s true k.signals),
      pos 0,
    )
  ]
]

pub has_pending : ℤ → Kernel → Bool
has_pending sig k = elim (signal_slot k.current) [
  | none ↦ false
  | some slot ↦ elim (sig_of sig) [ none ↦ false | some s ↦ k.signals.pending slot s ]
]

pub clear_pending : ℤ → Kernel → Kernel
clear_pending sig k = elim (signal_slot k.current) [
  | none ↦ k
  | some slot ↦ elim (sig_of sig) [
    | none ↦ k
    | some s ↦ with_signals k (set_pending slot s false k.signals)
  ]
]

-- The loop of `signal_check_pending_for_task`: the first of `n` bits from `sig` on that is set.
pub first_pending : (ℕ → Bool) → ℕ → ℕ → Option ℕ
first_pending bits zero sig = none
first_pending bits (suc n) sig =
    let rest = first_pending bits n (sig + 1) in if bits sig then some sig else rest

-- `none` is -1.
pub check_pending : Option ℕ → Kernel → Option ℕ
unfolding first_pending
check_pending task k = elim (signal_slot task) [
  | none ↦ none
  | some slot ↦ first_pending (k.signals.pending slot) sig_max 0
]

-- How a call ends: it returns to its caller, or the calling task has exited and never returns.
pub data Outcome : Type 0 where
  returns : Kernel → Outcome
  exits : Kernel → Outcome

-- The default action of a signal without a handler.
pub default_action : SignalAction → ℕ → ℕ → Kernel → Outcome
default_action sig_default slot sig k = exits (exit k)
default_action sig_ignored slot sig k =
    returns (with_signals k (set_pending slot sig false k.signals))
default_action sig_handler slot sig k =
    returns (with_signals k (set_pending slot sig false k.signals))

-- `call h sig` is what handler `h` does when it is called with `sig`: code that tasks register.
module _ (call : ℕ → ℕ → Kernel → Kernel) where
  pub dispatch : Option ℕ → Kernel → Outcome
  unfolding default_action
  dispatch task k = elim (signal_slot task) [
    | none ↦ returns k
    | some slot ↦ elim (check_pending task k) [
      | none ↦ returns k
      | some sig ↦ elim (k.signals.handlers slot sig) [
        | none ↦ default_action (k.signals.defaults sig) slot sig k
        | some h ↦
            let k' = call h sig k in
            returns (with_signals k' (set_pending slot sig false k'.signals))
      ]
    ]
  ]

pub set_default : ℤ → SignalAction → Kernel → Kernel
set_default sig action k = elim (sig_of sig) [
  | none ↦ k
  | some s ↦ with_signals k (record k.signals { defaults = update k.signals.defaults s action })
]
