-- ===== src/Signal/Tests.antt =====
-- The theorems of kernel/signal.c at a small kernel.
use os.Base.{ℕ, ◌≡◌, refl, true, some, pos}
use os.Kernel.{Kernel}
use os.Kernel.Sample.{sample_kernel}
use os.Signal.{sig_kill, set_pending, with_signals, register, send, check_pending}

-- Signals 5 and 9 are pending for task 0.
abbrev signalled : Kernel
signalled =
    with_signals sample_kernel (set_pending 0 9 true (set_pending 0 5 true sample_kernel.signals))

abbrev ignores : ℕ → ℕ → Kernel → Kernel
ignores h s k = k

lowest_is_5 : check_pending (some 0) signalled ≡ some 5
unfolding check_pending
lowest_is_5 = refl

abbrev caught : Kernel
caught = (send (some 0) (pos sig_kill) (register (pos sig_kill) (some 77) sample_kernel).0).0

caught_lowest : check_pending (some 0) caught ≡ some sig_kill
unfolding check_pending send register
caught_lowest = refl
