-- ===== src/Sched/Tests.antt =====
-- The theorems of kernel/scheduler.c at a small kernel.
use mathlib.Core.List.{Mem, Nodup, Nodup-cons, Nodup-nil}
use os.Base.{ℕ, zero, suc, ◌≡◌, refl, ◌⊎◌, some, List, [], ◌∷◌, arith}
use os.Kernel.{ready, running}
use os.Kernel.Sample.{sample_kernel, sample_tasks}
use os.Sched.{find_next, schedule}
use os.Sched.Ready.{ReadyList, NotIn, NotIn-not-mem}
use os.Sched.Next.{first_ready, find_next_round_robin}
use os.Sched.Switch.{IsSafe, Switched, schedule_cases}
use os.Sched.Space.{IsLoaded, schedule-IsLoaded}

three-Nodup : Nodup {A = ℕ} (0 ∷ 1 ∷ 2 ∷ [])
three-Nodup = Nodup-cons.1 (
  not-in 0 (1 ∷ 2 ∷ []) (omega arith, (omega arith, tt)),
  Nodup-cons.1 (not-in 1 (2 ∷ []) (omega arith, tt), Nodup-cons.1 (not-in 2 [] tt, Nodup-nil)),
)
  where
    not-in : (x : ℕ) (ys : List ℕ) → NotIn x ys → ¬ Mem x ys
    not-in x ys = NotIn-not-mem x ys

sample-ReadyList : ReadyList sample_kernel (0 ∷ 1 ∷ 2 ∷ [])
sample-ReadyList = record {
  head = refl;
  chain = (refl, refl, (refl, refl, (refl, refl, refl)));
  nodup = three-Nodup;
  size = omega arith;
}

pub sample-IsSafe : IsSafe sample_kernel
sample-IsSafe = record { exclusive = only; pending_dead = λ t e. absurd (ground arith) }
  where
    only : (i : ℕ) → (sample_tasks i).state ≡ running → some 0 ≡ some i
    only zero e = refl
    only (suc zero) e = absurd (cc e)
    only (suc (suc zero)) e = absurd (cc e)
    only (suc (suc (suc i))) e = absurd (cc e)

sample-IsLoaded : IsLoaded 7 sample_kernel
sample-IsLoaded = record {
  boot_ne = omega arith;
  remembered = refl;
  loaded = λ c e. let same : 0 ≡ c = ground arith in rw (← same) refl;
}

find_next_round_robin_example : find_next sample_kernel ≡ some (some 1)
unfolding first_ready
find_next_round_robin_example =
    find_next_round_robin sample_kernel [] (1 ∷ 2 ∷ []) 0 sample-ReadyList refl

schedule_cases_example :
    ((schedule sample_kernel ≡ sample_kernel)
      × ((n : ℕ) → find_next sample_kernel ≡ some (some n) → sample_kernel.current ≡ some n))
    ⊎ ((n : ℕ) × (find_next sample_kernel ≡ some (some n))
        × ((sample_kernel.tasks n).state ≡ ready)
        × Switched sample_kernel n (schedule sample_kernel))
schedule_cases_example = schedule_cases sample_kernel sample-IsSafe

schedule-IsLoaded_example : IsLoaded 7 (schedule sample_kernel)
schedule-IsLoaded_example = schedule-IsLoaded 7 sample_kernel 0 sample-IsLoaded refl
