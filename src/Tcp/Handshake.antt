-- ===== src/Tcp/Handshake.antt =====
-- The handshake of kernel/tcp.c, from `net_tcp_connect` over the SYN that `net_tcp_poll` sends to the
-- answer of the peer.
use os.Base.{
  ℕ, ◌+◌, ◌-◌, ◌≡◌, refl, ◌∙◌, ap, true, false, ◌||◌, not, List, [], ◌==◌, length, ltb, leb, arith,
  Bool-cases, inl, inr, ℤ, pos, negsuc, minus_two, eq_ℤ, leb_ℤ, Option, none, some, is_some,
  ==_self,
}
use os.Tcp.{
  closed, syn_sent, established, is_closed, is_syn_sent, Tcp, Call, Interface, emit, emit_ack,
  notify, connect, init, all_zero, deliver, handshake, dispatch, poll, retransmit, syn_sent_with,
  count_retry, u32, on_connect, flag_syn, poll_interval, max_retries,
}

-- A client after `net_tcp_connect`, with the next poll due.
pub record Dialing (t : Tcp) : Type 0 where
  pub initialized : t.initialized ≡ true
  pub state : t.state ≡ syn_sent
  pub due : t.poll_ticks ≡ poll_interval - 1
  pub retries : t.retries ≡ 0
  pub first_try : t.syn_transmitted ≡ false
  pub pending : t.tx_pending ≡ false
  pub callback : is_some t.connect_callback ≡ true

init_fresh :
    (t : Tcp) → t.initialized ≡ false → init t ≡ record t { state = closed; initialized = true }
unfolding init
init_fresh t e = rw (init, e) refl

init-initialized : (t : Tcp) → (init t).initialized ≡ true
unfolding init
init-initialized t = elim (Bool-cases t.initialized) [
  | inl e ↦ let same : init t ≡ t = rw (init, e) refl in ap (λ (u : Tcp). u.initialized) same ∙ e
  | inr e ↦ ap (λ (u : Tcp). u.initialized) (init_fresh t e)
]

pub connect-Dialing :
    (net : Interface) (ip : List ℕ) (port call : ℕ) (data_call close_call : Option ℕ) (context : ℕ)
    (t : Tcp)
    → (connect net ip port (some call) data_call close_call context t).0 ≡ true
    → Dialing (connect net ip port (some call) data_call close_call context t).1
unfolding connect init
connect-Dialing net ip port call data_call close_call context t ok =
    elim (Bool-cases (port == 0 || not (is_closed (init t).state))) [
      | inl e ↦ absurd (cc (simp (connect, e) at ok))
      | inr e ↦ elim (Bool-cases (not net.initialized || all_zero net.ip_addr)) [
        | inl f ↦ absurd (cc (simp (connect, e, f) at ok))
        | inr f ↦
            rw (connect, e, f)
              (record {
                initialized = init-initialized t;
                state = refl;
                due = refl;
                retries = refl;
                first_try = refl;
                pending = refl;
                callback = refl;
              })
      ]
    ]

-- The client after its SYN.
abbrev dialed : Interface → Tcp → Tcp
unfolding emit
dialed net t = record (emit net flag_syn t.initial_seq 0 [] t).1 {
  poll_ticks = 0;
  syn_transmitted = true;
  local_seq = u32 (t.initial_seq + 1);
  retries = 1;
}

not_minus_two : (result : ℤ) → leb_ℤ (pos 0) result ≡ true → eq_ℤ result minus_two ≡ false
not_minus_two (pos n) e = refl
not_minus_two (negsuc n) e = absurd (cc e)

poll-due :
    (net : Interface) (call : Call → Tcp → Tcp) (t : Tcp)
    → Dialing t
    → poll net call t ≡ count_retry (retransmit net (record t { poll_ticks = 0 }))
unfolding poll
poll-due net call t d =
    let not_closed : is_closed t.state ≡ false = rw (d.state) refl in
    let ticks : ltb (u32 (t.poll_ticks + 1)) poll_interval ≡ false = ground (arith, d.due) in
    let few : leb max_retries t.retries ≡ false = ground (arith, d.retries) in
    rw (poll, d.initialized, not_closed, ticks, few) refl

retransmit-syn :
    (net : Interface) (t : Tcp)
    → t.state ≡ syn_sent
    → retransmit net t ≡ syn_sent_with (emit net flag_syn t.initial_seq 0 [] t)
unfolding retransmit
retransmit-syn net t e =
    let dialing : is_syn_sent t.state ≡ true = rw e refl in rw (retransmit, dialing) refl

poll-dialed :
    (net : Interface) (call : Call → Tcp → Tcp) (t : Tcp)
    → Dialing t
    → leb_ℤ (pos 0) (net.answer (length t.output)) ≡ true
    → poll net call t ≡ dialed net t
unfolding emit dialed
poll-dialed net call t d taken =
    let due = record t { poll_ticks = 0 } in
    let other = not_minus_two (net.answer (length t.output)) taken in
    let counted : count_retry (syn_sent_with (emit net flag_syn due.initial_seq 0 [] due))
        ≡ dialed net t =
      rw (taken, d.first_try) (rw (other, d.retries) refl) in
    poll-due net call t d ∙ ap count_retry (retransmit-syn net due d.state) ∙ counted

-- After `net_tcp_connect`, the next `net_tcp_poll` sends a SYN with the initial sequence number, which
-- is taken by the network. A SYN and ACK without data that acknowledges it, past the checks of
-- `net_tcp_input`, then opens the connection, and the connect callback runs. The next byte is to be
-- sent under the initial sequence number plus 2.
pub dispatch-established_after :
    (net : Interface) (call : Call → Tcp → Tcp) (sequence : ℕ) (t : Tcp)
    → Dialing t
    → leb_ℤ (pos 0) (net.answer (length t.output)) ≡ true
    → (up : Tcp) × ((poll net call t).output ≡ (emit net flag_syn t.initial_seq 0 [] t).1.output)
      × (dispatch net call sequence (u32 (t.initial_seq + 1)) 18 [] (poll net call t)
          ≡ notify call t.connect_callback (λ f. on_connect f true t.callback_context) up)
      × (up.state ≡ established)
      × (up.remote_seq ≡ u32 (sequence + 1))
      × (up.local_seq ≡ u32 (t.initial_seq + 2))
unfolding dispatch handshake deliver emit_ack emit dialed
dispatch-established_after net call sequence t d taken =
    let dialing = dialed net t in
    let up =
      record (emit_ack net (record dialing {
        remote_seq = u32 (sequence + 1);
        local_seq = u32 (u32 (t.initial_seq + 1) + 1);
        state = established;
      })) { connect_callback = none } in
    let same = poll-dialed net call t d taken in
    let self = ==_self (u32 (t.initial_seq + 1)) in
    (
      up,
      ap (λ (u : Tcp). u.output) same,
      ap (dispatch net call sequence (u32 (t.initial_seq + 1)) 18 []) same
          ∙ rw (dispatch, d.state, handshake, self) refl,
      refl,
      refl,
      omega arith,
    )
