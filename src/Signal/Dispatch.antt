-- ===== src/Signal/Dispatch.antt =====
-- `signal_dispatch` of kernel/signal.c.
use os.Base.{ℕ, ◌<◌, ◌≡◌, false, some, arith, lt→ltb, pos}
use os.Kernel.{Kernel, max_tasks}
use os.Signal.{
  sig_kill, set_pending, with_signals, register, send, check_pending, returns, dispatch,
}

module _ (call : ℕ → ℕ → Kernel → Kernel) where
  dispatch-handled :
      (k : Kernel) (slot sig h : ℕ)
      → slot < max_tasks
      → check_pending (some slot) k ≡ some sig
      → k.signals.handlers slot sig ≡ some h
      → dispatch call (some slot) k
        ≡ returns (with_signals (call h sig k) (set_pending slot sig false (call h sig k).signals))
  unfolding dispatch
  dispatch-handled k slot sig h ht o p = rw (lt→ltb slot max_tasks ht, dispatch, o, p)

  -- SIGKILL is caught: once the current task has registered a handler for it, sending SIGKILL to
  -- that task and dispatching runs the handler and returns, whatever handler it is, where no lower
  -- signal is pending.
  pub kill_is_caught :
      (k : Kernel) (c h : ℕ)
      → k.current ≡ some c
      → c < max_tasks
      → let k1 = (register (pos sig_kill) (some h) k).0 in
        let k2 = (send (some c) (pos sig_kill) k1).0 in
        check_pending (some c) k2 ≡ some sig_kill
        → dispatch call (some c) k2
          ≡ returns (
              with_signals
                (call h sig_kill k2)
                (set_pending c sig_kill false (call h sig_kill k2).signals))
  kill_is_caught k c h e hc p = dispatch-handled _ c sig_kill h hc p registered
    where
      registered :
          (send (some c) (pos sig_kill) (register (pos sig_kill) (some h) k).0).0.signals.handlers c
            sig_kill
          ≡ some h
      registered =
          unfold register send in
          rw (lt→ltb c max_tasks hc, send, e, register) (rw (lt→ltb c max_tasks hc) (ground arith))
