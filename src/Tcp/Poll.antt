-- ===== src/Tcp/Poll.antt =====
-- `net_tcp_poll` of kernel/tcp.c: it gives up after a number of calls.
use os.Base.{
  ℕ, zero, suc, ◌+◌, ◌-◌, ◌*◌, ◌^◌, ◌<◌, ◌≤◌, ◌≡◌, ◌⊎◌, refl, sym, ◌∙◌, ap, subst, true, false,
  ◌&&◌, not, List, [], length, ltb, leb, arith, Bool-cases, inl, inr, ℤ, pos, minus_two, eq_ℤ,
  leb_ℤ, Option, none, some, is_some,
}
use os.Tcp.{
  State, closed, syn_sent, established, fin_wait, is_closed, is_syn_sent, is_fin_wait, Tcp, Call,
  Interface, emit, clear_connection, notify, failed, syn_sent_with, data_sent_with, retransmit,
  count_retry, poll, poll_interval, max_retries, segment_cap, flag_syn, flag_psh_ack, flag_fin_ack,
  u32, on_connect, on_close,
}

-- What sending does not touch, and a result that is not -2.
record Sent (t : Tcp) (r : ℤ × Tcp) : Type 0 where
  state : r.1.state ≡ t.state
  initialized : r.1.initialized ≡ t.initialized
  poll_ticks : r.1.poll_ticks ≡ t.poll_ticks
  retries : r.1.retries ≡ t.retries
  answered : eq_ℤ r.0 minus_two ≡ false

is_closed-closed : (s : State) → is_closed s ≡ true → s ≡ closed
is_closed-closed closed e = refl
is_closed-closed syn_sent e = absurd (cc e)
is_closed-closed established e = absurd (cc e)
is_closed-closed fin_wait e = absurd (cc e)

-- `n` calls of `net_tcp_poll` in a row.
abbrev pub polls : ℕ → Interface → (Call → Tcp → Tcp) → Tcp → Tcp
polls zero net call t = t
polls (suc n) net call t = polls n net call (poll net call t)

module _ (net : Interface) (answers : (n : ℕ) → eq_ℤ (net.answer n) minus_two ≡ false) where
  emit-Sent :
      (flags sequence acknowledgement : ℕ) (payload : List ℕ) (t : Tcp)
      → Sent t (emit net flags sequence acknowledgement payload t)
  unfolding emit
  emit-Sent flags sequence acknowledgement payload t =
      elim (Bool-cases (ltb segment_cap (length payload))) [
        | inl long ↦
            rw (emit, long)
              (record {
                state = refl;
                initialized = refl;
                poll_ticks = refl;
                retries = refl;
                answered = refl;
              })
        | inr short ↦
            rw (emit, short)
              (record {
                state = refl;
                initialized = refl;
                poll_ticks = refl;
                retries = refl;
                answered = answers (length t.output);
              })
      ]

  syn_sent_with-Sent : (t : Tcp) (r : ℤ × Tcp) → Sent t r → Sent t (syn_sent_with r)
  syn_sent_with-Sent t (result, u) k =
      elim (Bool-cases (leb_ℤ (pos 0) result && not u.syn_transmitted)) [
        | inl first ↦ rw (first) (record {
          state = k.state;
          initialized = k.initialized;
          poll_ticks = k.poll_ticks;
          retries = k.retries;
          answered = k.answered;
        })
        | inr again ↦ rw (again) k
      ]

  data_sent_with-Sent : (t : Tcp) (r : ℤ × Tcp) → Sent t r → Sent t (data_sent_with r)
  data_sent_with-Sent t (result, u) k = elim (Bool-cases (leb_ℤ (pos 0) result)) [
    | inl taken ↦ rw (taken) (record {
      state = k.state;
      initialized = k.initialized;
      poll_ticks = k.poll_ticks;
      retries = k.retries;
      answered = k.answered;
    })
    | inr refused ↦ rw (refused) k
  ]

  retransmit-Sent : (t : Tcp) → Sent t (retransmit net t)
  unfolding retransmit
  retransmit-Sent t = elim (Bool-cases (is_syn_sent t.state)) [
    | inl a ↦ rw (retransmit, a) (syn_sent_with-Sent t _ (emit-Sent flag_syn t.initial_seq 0 [] t))
    | inr a ↦ elim (Bool-cases (t.tx_pending && not t.tx_transmitted)) [
      | inl b ↦
          rw (retransmit, a, b)
            (data_sent_with-Sent t _
              (emit-Sent flag_psh_ack t.tx_sequence t.remote_seq t.tx_payload t))
      | inr b ↦ elim (Bool-cases (t.tx_pending && t.tx_transmitted)) [
        | inl c ↦
            rw (retransmit, a, b, c)
              (emit-Sent flag_psh_ack t.tx_sequence t.remote_seq t.tx_payload t)
        | inr c ↦ elim (Bool-cases (is_fin_wait t.state)) [
          | inl d ↦
              rw (retransmit, a, b, c, d)
                (emit-Sent flag_fin_ack (u32 (t.local_seq + 2 ^ 32 - 1)) t.remote_seq [] t)
          | inr d ↦
              rw (retransmit, a, b, c, d)
                (record {
                  state = refl;
                  initialized = refl;
                  poll_ticks = refl;
                  retries = refl;
                  answered = refl;
                })
        ]
      ]
    ]
  ]

  module _ (call : Call → Tcp → Tcp)
      (stays : (k : Call) (t : Tcp) → t.state ≡ closed → (call k t).state ≡ closed) where
    notify-closed :
        (o : Option ℕ) (with_args : ℕ → Call) (t : Tcp)
        → t.state ≡ closed
        → (notify call o with_args t).state ≡ closed
    notify-closed none with_args t e = e
    notify-closed (some f) with_args t e = stays (with_args f) t e

    failed-closed : (t : Tcp) → (failed call t).state ≡ closed
    unfolding failed clear_connection
    failed-closed t = elim (Bool-cases (is_syn_sent t.state && is_some t.connect_callback)) [
      | inl e ↦
          rw (failed, e)
            (notify-closed t.connect_callback (λ f. on_connect f false t.callback_context)
              (clear_connection t) refl)
      | inr e ↦
          rw (failed, e)
            (notify-closed t.close_callback (λ f. on_close f false t.callback_context)
              (clear_connection t) refl)
    ]

    -- Either the connection is closed, or at most `n` calls are left.
    record Waits (n : ℕ) (t : Tcp) : Type 0 where
      initialized : t.initialized ≡ true
      ticks : t.poll_ticks < poll_interval
      retries : t.retries ≤ max_retries
      left : poll_interval * (max_retries - t.retries) + (poll_interval - t.poll_ticks) ≤ n

    abbrev IsClosed : Tcp → Type 0
    IsClosed t = t.state ≡ closed

    poll_idle : (t : Tcp) → is_closed t.state ≡ true → poll net call t ≡ t
    unfolding poll
    poll_idle t shut = elim (Bool-cases t.initialized) [
      | inl e ↦ rw (poll, e, shut) refl
      | inr e ↦ rw (poll, e) refl
    ]

    -- A round that sent something counts as a try.
    counted-Waits :
        (n : ℕ) (due : Tcp) (r : ℤ × Tcp)
        → due.initialized ≡ true
        → due.poll_ticks ≡ 0
        → due.retries < max_retries
        → poll_interval * (max_retries - due.retries) + 1 ≤ suc n
        → Sent due r
        → Waits n (count_retry r)
    counted-Waits n due (result, u) i z few left k = rw (k.answered) (record {
      initialized = k.initialized ∙ i;
      ticks = omega (arith, k.poll_ticks, z);
      retries = omega (arith, k.retries, few);
      left = omega (arith, k.retries, k.poll_ticks, few, left, z);
    })

    poll-Waits :
        (n : ℕ) (t : Tcp)
        → Waits (suc n) t
        → ((poll net call t).state ≡ closed) ⊎ Waits n (poll net call t)
    unfolding poll
    poll-Waits n t w = elim (Bool-cases (is_closed t.state)) [
      | inl e ↦ inl (subst IsClosed (sym (poll_idle t e)) (is_closed-closed t.state e))
      | inr e ↦ elim (Bool-cases (ltb (u32 (t.poll_ticks + 1)) poll_interval)) [
        | inl f ↦
            let ticked = record t { poll_ticks = u32 (t.poll_ticks + 1) } in
            let same : poll net call t ≡ ticked = rw (poll, w.initialized, e, f) refl in
            let one : u32 (t.poll_ticks + 1) ≡ t.poll_ticks + 1 = omega (arith, w.ticks) in
            inr (
              subst (Waits n) (sym same) (record {
                initialized = w.initialized;
                ticks = ground (arith, f);
                retries = w.retries;
                left = omega (arith, w.left, w.ticks, one);
              }))
        | inr f ↦
            let due = record t { poll_ticks = 0 } in
            let last : t.poll_ticks ≡ poll_interval - 1 = ground (arith, f, w.ticks) in
            elim (Bool-cases (leb max_retries t.retries)) [
              | inl g ↦
                  let same : poll net call t ≡ failed call due =
                    rw (poll, w.initialized, e, f, g) refl in
                  inl (subst IsClosed (sym same) (failed-closed due))
              | inr g ↦
                  let same : poll net call t ≡ count_retry (retransmit net due) =
                    rw (poll, w.initialized, e, f, g) refl in
                  let few : t.retries < max_retries = ground (arith, g) in
                  inr (
                    subst (Waits n) (sym same) (
                      counted-Waits n due (retransmit net due) w.initialized refl few
                        (omega (arith, w.left, last)) (retransmit-Sent due)))
            ]
      ]
    ]

    polls_closed : (n : ℕ) (t : Tcp) → t.state ≡ closed → (polls n net call t).state ≡ closed
    unfolding poll
    polls_closed zero t e = e
    polls_closed (suc n) t e =
        let same = poll_idle t (ap is_closed e) in
        subst (λ u. (polls n net call u).state ≡ closed) (sym same) (polls_closed n t e)

    polls-Waits :
        (n : ℕ) (t : Tcp) → ((t.state ≡ closed) ⊎ Waits n t) → (polls n net call t).state ≡ closed
    polls-Waits n t (inl e) = polls_closed n t e
    polls-Waits zero t (inr w) = absurd (omega (arith, w.left, w.ticks))
    polls-Waits (suc n) t (inr w) = polls-Waits n (poll net call t) (poll-Waits n t w)

    -- Where `net_ipv4_send` never returns -2 and no callback opens a connection, the connection is
    -- closed after 6 * 4096 calls of `net_tcp_poll` without a segment from the peer, from every state
    -- after `net_tcp_init` in which the counters are within their limits.
    pub polls-closed :
        (t : Tcp)
        → t.initialized ≡ true
        → t.poll_ticks < poll_interval
        → t.retries ≤ max_retries
        → (polls (6 * poll_interval) net call t).state ≡ closed
    polls-closed t i ticks few = polls-Waits (6 * poll_interval) t (
        inr (record {
          initialized = i;
          ticks = ticks;
          retries = few;
          left = omega (arith, ticks, few);
        }))
