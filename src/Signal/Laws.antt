-- ===== src/Signal/Laws.antt =====
-- What the senders and the query functions of kernel/signal.c do.
use os.Base.{
  ℕ, zero, suc, ◌+◌, ◌≤◌, ◌<◌, ◌≡◌, refl, Bool, true, false, not, ◌&&◌, Option, none, some, arith,
  if◌then◌else◌, ◌==◌, lt→ltb, Bool-cases, inl, inr, pos,
}
use os.Kernel.{Kernel, max_tasks}
use os.Signal.{sig_max, is_dropped, with_signals, send, first_pending, check_pending}

-- `signal_send` to a task of the table with a valid number returns 0. It sets that bit of that task
-- and no other, and SIGKILL always, unless the task has no handler for the signal and the default
-- is to ignore it. Nothing else changes.
send_lem :
    (k : Kernel) (slot sig : ℕ)
    → slot < max_tasks
    → sig < sig_max
    → let (k', r) = send (some slot) (pos sig) k in
      (r ≡ pos 0)
      × (k' ≡ with_signals k (record k.signals { pending = k'.signals.pending }))
      × ((t s : ℕ)
          → k'.signals.pending t s ≡ (
              if slot == t && (sig == s && not (is_dropped k.signals slot sig))
              then true
              else k.signals.pending t s))
unfolding send
send_lem k slot sig ht hs =
    rw (lt→ltb slot max_tasks ht, lt→ltb sig sig_max hs, send)
      (
        refl,
        (elim (Bool-cases (is_dropped k.signals slot sig)) [ inl d ↦ rw d | inr d ↦ rw d ]),
        λ t s. elim (Bool-cases (is_dropped k.signals slot sig)) [
          | inl d ↦ rw d (ground arith)
          | inr d ↦ rw d (ground arith)
        ],
      )

-- The answer of a search for the lowest set bit from `lo` on and below `hi`.
abbrev pub Lowest : (ℕ → Bool) → ℕ → ℕ → Option ℕ → Type 0
Lowest bits lo hi none = (j : ℕ) → lo ≤ j → j < hi → bits j ≡ false
Lowest bits lo hi (some r) =
    (lo ≤ r) × (r < hi) × (bits r ≡ true) × ((j : ℕ) → lo ≤ j → j < r → bits j ≡ false)

Lowest-step :
    (bits : ℕ → Bool) (lo hi : ℕ) (o : Option ℕ)
    → bits lo ≡ false
    → Lowest bits (lo + 1) hi o
    → Lowest bits lo hi o
Lowest-step bits lo hi none z h =
    λ j a b. elim (Bool-cases (lo == j)) [ inl e ↦ ground arith | inr e ↦ h j (ground arith) b ]
Lowest-step bits lo hi (some r) z h = (
  omega (arith, h.0),
  h.1,
  h.2,
  λ j a b. elim (Bool-cases (lo == j)) [ inl e ↦ ground arith | inr e ↦ h.3 j (ground arith) b ],
)

first_pending-Lowest :
    (bits : ℕ → Bool) (n lo hi : ℕ) → hi ≡ lo + n → Lowest bits lo hi (first_pending bits n lo)
unfolding first_pending
first_pending-Lowest bits zero lo hi e = λ j a b. absurd (omega arith)
first_pending-Lowest bits (suc n) lo hi e = elim (Bool-cases (bits lo)) [
  | inl set ↦ rw (set, first_pending) (omega arith, omega arith, set, λ j a b. absurd (omega arith))
  | inr clear ↦
      rw (clear, first_pending)
        (Lowest-step bits lo hi (first_pending bits n (lo + 1)) clear
          (first_pending-Lowest bits n (lo + 1) hi (omega arith)))
]

-- `signal_check_pending_for_task` returns the lowest pending signal of a task of the table, and -1
-- exactly if none of its 32 bits is set.
check_pending-Lowest :
    (k : Kernel) (slot : ℕ)
    → slot < max_tasks
    → Lowest (k.signals.pending slot) 0 sig_max (check_pending (some slot) k)
unfolding check_pending
check_pending-Lowest k slot h =
    rw (lt→ltb slot max_tasks h, check_pending)
      (first_pending-Lowest (k.signals.pending slot) sig_max 0 sig_max refl)
