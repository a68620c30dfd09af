-- ===== src/Task/Tests.antt =====
-- The theorems of kernel/task.c at a small kernel.
use os.Base.{refl}
use os.Kernel.Sample.{sample_kernel}
use os.Sched.Tests.{sample-IsSafe}
use os.Task.{exit_with_status}
use os.Task.Exit.{Exited, exit_with_status-Exited}

exit_with_status-Exited_example : Exited 3 0 sample_kernel (exit_with_status 3 sample_kernel)
exit_with_status-Exited_example = exit_with_status-Exited 3 0 sample_kernel sample-IsSafe refl
