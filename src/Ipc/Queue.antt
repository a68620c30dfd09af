-- ===== src/Ipc/Queue.antt =====
-- A channel of kernel/ipc.c is a queue of messages.
use os.Base.{
  ℕ, zero, suc, ◌+◌, ◌-◌, ◌%◌, ◌<◌, ◌≤◌, ◌≡◌, ◌≢◌, refl, sym, ◌∙◌, ap, ap₂, true, false, some, List,
  [], ◌∷◌, ◌++◌, ltb, leb, ◌==◌, ==_self, if◌then◌else◌, update, length, take, arith, ℤ, pos,
  minus_one, Bool-cases, Option-cases, inl, inr, ◌⊎◌,
}
use os.Kernel.{Kernel}
use os.Ipc.{
  max_messages, max_msg_size, Message, Channel, Channels, channel_of, put_message, wake_one,
  sender_of, send_at, send_of, send, take_message, received, recv_loop, recv_of, recv,
}

-- The messages from a position of the ring on.
abbrev pub ring : (ℕ → Message) → ℕ → ℕ → List Message
ring ms t zero = []
ring ms t (suc n) = ms (t % max_messages) ∷ ring ms (t + 1) n

unfoldable pub queue : Channel → List Message
queue ch = ring ch.messages ch.tail ch.count

pub record IsValid (ch : Channel) : Type 0 where
  pub in_ring : ch.tail < max_messages
  pub bounded : ch.count ≤ max_messages
  pub meets : ch.head ≡ (ch.tail + ch.count) % max_messages

ring-mod :
    (ms : ℕ → Message) (t u n : ℕ) → t % max_messages ≡ u % max_messages → ring ms t n ≡ ring ms u n
ring-mod ms t u zero e = refl
ring-mod ms t u (suc n) e =
    ap₂ (λ a b. ms a ∷ b) e (ring-mod ms (t + 1) (u + 1) n (omega (arith, e)))

ring-snoc :
    (ms : ℕ → Message) (t n : ℕ)
    → ring ms t (suc n) ≡ ring ms t n ++ (ms ((t + n) % max_messages) ∷ [])
ring-snoc ms t zero = let e : t + 0 ≡ t = omega arith in rw e refl
ring-snoc ms t (suc n) =
    let e : t + suc n ≡ t + 1 + n = omega arith in
    rw e (ap (λ l. ms (t % max_messages) ∷ l) (ring-snoc ms (t + 1) n))

ring-away :
    (ms : ℕ → Message) (m : Message) (h t n : ℕ)
    → ((i : ℕ) → i < n → (t + i) % max_messages ≢ h)
    → ring (update ms h m) t n ≡ ring ms t n
ring-away ms m h t zero away = refl
ring-away ms m h t (suc n) away =
    let first : t % max_messages ≢ h = λ e. away 0 (omega arith) (omega (arith, e)) in
    let other : (h == t % max_messages) ≡ false = ground arith in
    rw other (
      ap (λ l. ms (t % max_messages) ∷ l)
        (ring-away ms m h (t + 1) n (λ i lt e. away (suc i) (omega arith) (omega (arith, e)))))

-- Writing a message to a ring with room puts it at the back.
put_message-queue :
    (m : Message) (ch : Channel)
    → IsValid ch
    → ch.count < max_messages
    → (queue (put_message m ch) ≡ queue ch ++ (m ∷ [])) × IsValid (put_message m ch)
unfolding put_message queue
put_message-queue m ch v room = (
  rw more (
      ring-snoc (update ch.messages ch.head m) ch.tail ch.count
      ∙ ap₂ (λ a b. a ++ (b ∷ []))
          (ring-away ch.messages m ch.head ch.tail ch.count (λ i lt. omega (arith, v.meets)))
          (rw (v.meets, ==_self ((ch.tail + ch.count) % max_messages)) refl)),
  record { in_ring = v.in_ring; bounded = omega arith; meets = omega (arith, v.meets) },
)
  where
    more : ch.count + 1 ≡ suc ch.count
    more = omega arith

take-all : (bytes : List ℕ) (n : ℕ) → length bytes ≤ n → take n bytes ≡ bytes
take-all [] zero h = refl
take-all [] (suc n) h = refl
take-all (b ∷ bytes) zero h = absurd (omega arith)
take-all (b ∷ bytes) (suc n) h = ap (λ l. b ∷ l) (take-all bytes n (omega arith))

-- Cutting at the smaller of two lengths is cutting.
cut :
    (bytes : List ℕ) (n : ℕ)
    → take (if ltb (length bytes) n then length bytes else n) bytes ≡ take n bytes
cut bytes n = elim (Bool-cases (ltb (length bytes) n)) [
  | inl less ↦
      rw less (take-all bytes (length bytes) (omega arith) ∙ sym (take-all bytes n (ground arith)))
  | inr more ↦ rw more refl
]

cut-below :
    (bytes : List ℕ) (n : ℕ)
    → take (if ltb n (length bytes) then n else length bytes) bytes ≡ take n bytes
cut-below bytes n = elim (Bool-cases (ltb n (length bytes))) [
  | inl more ↦ rw more refl
  | inr less ↦
      rw less (take-all bytes (length bytes) (omega arith) ∙ sym (take-all bytes n (ground arith)))
]

take_message-queue :
    (n : ℕ) (ch : Channel)
    → IsValid ch
    → 0 < ch.count
    → let (ch', bytes) = take_message n ch in
      (m : Message) × (queue ch ≡ m ∷ queue ch') × (bytes ≡ take n m.data_bytes) × IsValid ch'
unfolding take_message queue
take_message-queue n ch v h = (
  ch.messages (ch.tail % max_messages),
  ap (λ k. ring ch.messages ch.tail k) less
      ∙ ap (λ l. ch.messages (ch.tail % max_messages) ∷ l)
          (ring-mod ch.messages (ch.tail + 1) ((ch.tail + 1) % max_messages) (ch.count - 1)
            (omega arith)),
  cut (ch.messages ch.tail).data_bytes n
      ∙ ap (λ t. take n (ch.messages t).data_bytes) (sym at_tail),
  record {
    in_ring = omega arith;
    bounded = omega (arith, v.bounded);
    meets = omega (arith, v.meets);
  },
)
  where
    at_tail : ch.tail % max_messages ≡ ch.tail
    at_tail = omega (arith, v.in_ring)

    less : ch.count ≡ suc (ch.count - 1)
    less = omega arith

wake_one-channel :
    (ch : Channel) (k : Kernel)
    → (queue (wake_one ch k).0 ≡ queue ch) × (IsValid ch → IsValid (wake_one ch k).0)
unfolding wake_one queue
wake_one-channel ch k = elim (Option-cases ch.wait_head) [
  | inl e ↦
      rw (e, wake_one)
        (refl, λ v. record { in_ring = v.in_ring; bounded = v.bounded; meets = v.meets })
  | inr (w, e) ↦
      rw (e, wake_one)
        (refl, λ v. record { in_ring = v.in_ring; bounded = v.bounded; meets = v.meets })
]

send_at-Queued :
    (i : ℕ) (bytes : List ℕ) (cs : Channels) (k : Kernel)
    → IsValid (cs i)
    → let (cs', k', r) = send_at i bytes cs k in
      IsValid (cs' i)
      × (((r ≡ pos 0)
            × (queue (cs' i)
                ≡ queue (cs i)
                  ++ (record { sender_pid = sender_of k; data_bytes = take max_msg_size bytes }
                      ∷ [])))
          ⊎ ((max_messages ≤ (cs i).count) × (cs' ≡ cs) × (k' ≡ k) × (r ≡ minus_one)))
unfolding send_at
send_at-Queued i bytes cs k v = elim (Bool-cases (leb max_messages (cs i).count)) [
  | inl full ↦ rw full (v, inr (ground arith, refl, refl, refl))
  | inr room ↦
      let (q, w) = put_message-queue message (cs i) v (ground arith) in
      let (same, keeps) = wake_one-channel (put_message message (cs i)) k in
      rw (room, ==_self i)
        (
          keeps w,
          inl (
            refl,
            same
                ∙ q
                ∙ ap
                    (λ d.
                      queue (cs i) ++ (record { sender_pid = sender_of k; data_bytes = d } ∷ []))
                    (cut-below bytes max_msg_size),
          ),
        )
]
  where
    message : Message
    message = record {
      sender_pid = sender_of k;
      data_bytes =
          take (if ltb max_msg_size (length bytes) then max_msg_size else length bytes) bytes;
    }

-- `ipc_send` of bytes that are not NULL to a channel in use whose ring is valid either returns 0 and
-- puts one message at the back of the queue, with the pid of the sender and the bytes, cut at 512;
-- or the ring was full, -1 is returned, and nothing changed. The ring stays valid.
pub send-Queued :
    (channel : ℤ) (i : ℕ) (bytes : List ℕ) (cs : Channels) (k : Kernel)
    → IsValid (cs i)
    → channel_of channel cs ≡ some i
    → let (cs', k', r) = send channel (some bytes) cs k in
      IsValid (cs' i)
      × (((r ≡ pos 0)
            × (queue (cs' i)
                ≡ queue (cs i)
                  ++ (record { sender_pid = sender_of k; data_bytes = take max_msg_size bytes }
                      ∷ [])))
          ⊎ ((max_messages ≤ (cs i).count) × (cs' ≡ cs) × (k' ≡ k) × (r ≡ minus_one)))
unfolding send send_of
send-Queued channel i bytes cs k v e = rw (e, send) (send_at-Queued i bytes cs k v)

-- `ipc_recv` from a channel in use that holds messages does not wait: it takes the message at the
-- front of the queue and returns its bytes, cut at the caller's size, and their number; the rest of
-- the message is lost.
recv-Front :
    (call : ℕ → ℕ → Kernel → Kernel) (channel : ℤ) (i n : ℕ) (cs : Channels) (k : Kernel)
    → IsValid (cs i)
    → channel_of channel cs ≡ some i
    → 0 < n
    → 0 < (cs i).count
    → (cs' : Channels) × (m : Message) × (recv call channel true n cs k
        ≡ received cs' k (pos (length (take n m.data_bytes))) (take n m.data_bytes))
      × (queue (cs i) ≡ m ∷ queue (cs' i))
      × IsValid (cs' i)
unfolding recv recv_of recv_loop
recv-Front call channel i n cs k v e np h =
    let (m, front, bytes, w) = take_message-queue n (cs i) v h in
    let some_left : ((cs i).count == 0) ≡ false = ground arith in
    let some_room : (n == 0) ≡ false = ground arith in
    (
      update cs i (take_message n (cs i)).0,
      m,
      rw (e, recv, some_room, some_left, bytes) refl,
      rw (==_self i) front,
      rw (==_self i) w,
    )
