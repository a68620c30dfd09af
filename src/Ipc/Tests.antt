-- ===== src/Ipc/Tests.antt =====
-- The theorems of kernel/ipc.c at a small kernel, where task 2 waits on channel 1.
use os.Base.{
  ℕ, ◌≤◌, ◌≡◌, ◌≢◌, refl, ◌++◌, ◌⊎◌, true, false, none, some, List, [], ◌∷◌, take, arith, pos,
  minus_one,
}
use os.Kernel.{Kernel}
use os.Kernel.Sample.{sample_kernel}
use os.Sched.Ready.{NotIn}
use os.Ipc.{Channel, Channels, send, close, sender_of, max_msg_size, max_messages}
use os.Ipc.Queue.{queue, IsValid, send-Queued}
use os.Ipc.Close.{AllWoken, close-Woken}

abbrev hello : List ℕ
hello = 104 ∷ 105 ∷ []

abbrev channel_with : ℕ → ℕ → Channel
channel_with head count = record {
  messages = λ i. record { sender_pid = 1; data_bytes = hello };
  head = head;
  tail = 15;
  count = count;
  generation = 1;
  in_use = true;
  wait_head = some 2;
}

abbrev some_channels : Channels
some_channels i = channel_with 1 2

two-IsValid : IsValid (channel_with 1 2)
two-IsValid = record { in_ring = omega arith; bounded = omega arith; meets = omega arith }

abbrev ignores : ℕ → ℕ → Kernel → Kernel
ignores h s k = k

send-Queued_example :
    let (cs', k', r) = send (pos 1) (some hello) some_channels sample_kernel in
    IsValid (cs' 1)
    × (((r ≡ pos 0)
          × (queue (cs' 1)
              ≡ queue (channel_with 1 2)
                ++ (record {
                  sender_pid = sender_of sample_kernel;
                  data_bytes = take max_msg_size hello;
                }
                    ∷ [])))
        ⊎ ((max_messages ≤ 2) × (cs' ≡ some_channels) × (k' ≡ sample_kernel) × (r ≡ minus_one)))
send-Queued_example = send-Queued (pos 1) 1 hello some_channels sample_kernel two-IsValid refl

close-Woken_example :
    let (cs', k') = close (pos 1) some_channels sample_kernel in
    AllWoken sample_kernel.tasks k'.tasks (2 ∷ [])
    × ((j : ℕ) → NotIn j (2 ∷ []) → k'.tasks j ≡ sample_kernel.tasks j)
    × ((cs' 1).in_use ≡ false)
    × ((cs' 1).wait_head ≡ none)
    × ((cs' 1).generation ≢ 1)
    × ((cs' 1).generation ≢ 0)
close-Woken_example =
    close-Woken (pos 1) 1 (2 ∷ []) some_channels sample_kernel refl (refl, refl) (tt, tt)
      (omega arith) (omega arith)
