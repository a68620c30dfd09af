-- ===== src/Tcp/Reading.antt =====
-- `net_tcp_input` of kernel/tcp.c on the segments that `emit_segment` sends.
use os.Base.{
  ℕ, ◌+◌, ◌^◌, ◌<◌, ◌≡◌, ◌≢◌, ◌⊎◌, refl, ◌∙◌, ap, true, false, ◌&&◌, List, ◌==◌, length, leb, drop,
  arith, Bool-cases, inl, inr, Option, none, some, ==_self,
}
use os.Tcp.Segment.{
  byte_at, read_be16, read_be32, ip_equal, with_checksum, segment, checksum_value, Fields, has_flag,
}
use os.Tcp.Checksum.{AllBytes, checksum_valid-segment}
use os.Tcp.{
  flag_psh_ack, established, is_closed, is_syn_sent, Tcp, Call, Interface, emit, emit_ack, notify,
  deliver, acknowledged, finish, header_length, acceptable, dispatch, input, u32, on_data,
}

-- Ports, sequence numbers and flags within their widths.
pub record InRange (h : Fields) : Type 0 where
  pub local_port : h.local_port < 2 ^ 16
  pub remote_port : h.remote_port < 2 ^ 16
  pub sequence : h.sequence < 2 ^ 32
  pub acknowledgement : h.acknowledgement < 2 ^ 32
  pub flags : h.flags < 256

-- A connection that waits for segments with this header from `src` at `dst`.
pub record Expects (net : Interface) (src dst : List ℕ) (h : Fields) (t : Tcp) : Type 0 where
  pub initialized : t.initialized ≡ true
  pub not_closed : is_closed t.state ≡ false
  pub remote_ip : t.remote_ip ≡ src
  pub own_ip : net.ip_addr ≡ dst
  pub remote_port : t.remote_port ≡ h.local_port
  pub local_port : t.local_port ≡ h.remote_port

-- What the reader finds in a segment.
record Read (h : Fields) (payload bytes : List ℕ) : Type 0 where
  source_port : read_be16 bytes 0 ≡ h.local_port
  destination_port : read_be16 bytes 2 ≡ h.remote_port
  sequence : read_be32 bytes 4 ≡ h.sequence
  acknowledgement : read_be32 bytes 8 ≡ h.acknowledgement
  flags : byte_at bytes 13 ≡ h.flags
  header : header_length bytes ≡ 20
  body : drop 20 bytes ≡ payload
  size : length bytes ≡ length payload + 20

with_checksum-Read :
    (h : Fields) (payload : List ℕ) (c : ℕ) → InRange h → Read h payload (with_checksum h payload c)
with_checksum-Read h payload c r = record {
  source_port = omega (arith, r.local_port);
  destination_port = omega (arith, r.remote_port);
  sequence = omega (arith, r.sequence);
  acknowledgement = omega (arith, r.acknowledgement);
  flags = refl;
  header = refl;
  body = refl;
  size = omega arith;
}

segment-Read :
    (src dst : List ℕ) (h : Fields) (payload : List ℕ)
    → InRange h
    → Read h payload (segment src dst h payload)
unfolding segment
segment-Read src dst h payload r =
    with_checksum-Read h payload (checksum_value src dst (with_checksum h payload 0)) r

ip_equal_self : (a : List ℕ) → ip_equal a a ≡ true
ip_equal_self a =
    rw (==_self (byte_at a 0), ==_self (byte_at a 1), ==_self (byte_at a 2), ==_self (byte_at a 3))
      refl

segment-acceptable :
    (net : Interface) (src dst : List ℕ) (h : Fields) (payload : List ℕ) (t : Tcp)
    → AllBytes src
    → AllBytes dst
    → InRange h
    → AllBytes payload
    → length payload + 20 < 2 ^ 16
    → Expects net src dst h t
    → acceptable net src dst (segment src dst h payload) t ≡ true
unfolding acceptable
segment-acceptable net src dst h payload t a b r p w x =
    let bytes = segment src dst h payload in
    let k = segment-Read src dst h payload r in
    let valid = checksum_valid-segment src dst h payload a b r.flags p w in
    let long : leb 20 (length bytes) ≡ true = ground (arith, k.size) in
    rw
      (
        x.initialized,
        x.not_closed,
        x.remote_ip,
        ip_equal_self src,
        long,
        x.own_ip,
        ip_equal_self dst,
        k.header,
        valid,
        k.source_port,
        k.destination_port,
        x.remote_port,
        x.local_port,
        ==_self h.local_port,
        ==_self h.remote_port,
        long,
      )
      refl

-- What the acknowledgement of our own data leaves alone.
record Same (t u : Tcp) : Type 0 where
  state : u.state ≡ t.state
  remote_seq : u.remote_seq ≡ t.remote_seq

acknowledged-Same : (a f : ℕ) (t : Tcp) → Same t (acknowledged a f t)
unfolding acknowledged
acknowledged-Same a f t =
    elim (Bool-cases (has_flag f 4 && t.tx_pending && t.tx_transmitted && leb t.local_seq a)) [
      | inl e ↦ rw (acknowledged, e) (record { state = refl; remote_seq = refl })
      | inr e ↦ rw (acknowledged, e) (record { state = refl; remote_seq = refl })
    ]

notify-state :
    (call : Call → Tcp → Tcp) (o : Option ℕ) (with_args : ℕ → Call) (t : Tcp)
    → ((k : Call) (u : Tcp) → u.state ≡ established → (call k u).state ≡ established)
    → t.state ≡ established
    → (notify call o with_args t).state ≡ established
notify-state call none with_args t stays e = e
notify-state call (some f) with_args t stays e = stays (with_args f) t e

-- The bytes are handed to the data callback, then acknowledged.
abbrev pub delivered : Interface → (Call → Tcp → Tcp) → List ℕ → Tcp → Tcp
unfolding emit_ack
delivered net call payload t = emit_ack net (
    notify call t.data_callback (λ f. on_data f payload t.callback_context)
      (record t { remote_seq = u32 (t.remote_seq + length payload) }))

delivered-state :
    (net : Interface) (call : Call → Tcp → Tcp) (payload : List ℕ) (t : Tcp)
    → ((k : Call) (u : Tcp) → u.state ≡ established → (call k u).state ≡ established)
    → t.state ≡ established
    → (delivered net call payload t).state ≡ established
unfolding delivered emit_ack emit
delivered-state net call payload t stays e =
    notify-state call t.data_callback (λ g. on_data g payload t.callback_context)
      (record t { remote_seq = u32 (t.remote_seq + length payload) }) stays e

finish_open :
    (net : Interface) (call : Call → Tcp → Tcp) (s a n : ℕ) (t : Tcp)
    → t.state ≡ established
    → finish net call s a flag_psh_ack n t ≡ t
unfolding finish
finish_open net call s a n t e = rw (finish, e) refl

-- The fields that `net_tcp_input` goes on with.
input-dispatch :
    (net : Interface) (call : Call → Tcp → Tcp) (src dst bytes payload : List ℕ) (h : Fields)
    (t : Tcp)
    → acceptable net src dst bytes t ≡ true
    → Read h payload bytes
    → input net call src dst bytes t
      ≡ dispatch net call h.sequence h.acknowledgement h.flags payload t
unfolding input
input-dispatch net call src dst bytes payload h t ok k =
    rw (input, ok) (rw (k.sequence, k.acknowledgement, k.flags, k.header, k.body) refl)

dispatch-established :
    (net : Interface) (call : Call → Tcp → Tcp) (s a : ℕ) (payload : List ℕ) (t : Tcp)
    → t.state ≡ established
    → dispatch net call s a flag_psh_ack payload t
      ≡ finish net call s a flag_psh_ack
          (length payload)
          (deliver net call s payload (acknowledged a flag_psh_ack t))
unfolding dispatch
dispatch-established net call s a payload t e =
    let other : is_syn_sent t.state ≡ false = rw e refl in rw (dispatch, other) refl

-- A data segment with PSH and ACK that the peer's `emit_segment` sends to an established connection
-- which expects it, whose callbacks leave the connection established. If it is next in order, its
-- bytes are handed to the data callback and then acknowledged. If it is not, nothing is handed over or
-- sent. In both cases its acknowledgement is taken note of first.
pub input-segment :
    (net : Interface) (call : Call → Tcp → Tcp) (src dst : List ℕ) (h : Fields) (payload : List ℕ)
    (t : Tcp)
    → ((k : Call) (u : Tcp) → u.state ≡ established → (call k u).state ≡ established)
    → AllBytes src
    → AllBytes dst
    → InRange h
    → AllBytes payload
    → length payload + 20 < 2 ^ 16
    → 0 < length payload
    → Expects net src dst h t
    → h.flags ≡ flag_psh_ack
    → t.state ≡ established
    → let noted = acknowledged h.acknowledgement flag_psh_ack t in
      let after = input net call src dst (segment src dst h payload) t in
      ((h.sequence ≡ t.remote_seq) × (after ≡ delivered net call payload noted))
      ⊎ ((h.sequence ≢ t.remote_seq) × (after ≡ noted))
unfolding deliver delivered
input-segment net call src dst h payload t stays a b r p w nonempty x f e =
    let ok = segment-acceptable net src dst h payload t a b r p w x in
    let k = segment-Read src dst h payload r in
    let noted = acknowledged h.acknowledgement flag_psh_ack t in
    let n = acknowledged-Same h.acknowledgement flag_psh_ack t in
    let start =
      input-dispatch net call src dst (segment src dst h payload) payload h t ok k
      ∙ ap (λ g. dispatch net call h.sequence h.acknowledgement g payload t) f
      ∙ dispatch-established net call h.sequence h.acknowledgement payload t e in
    let some_bytes : (length payload == 0) ≡ false = ground arith in
    let open_noted : noted.state ≡ established = n.state ∙ e in
    elim (Bool-cases (h.sequence == noted.remote_seq)) [
      | inl next ↦
          let in_order : deliver net call h.sequence payload noted
              ≡ delivered net call payload noted =
            rw (deliver, some_bytes, next) refl in
          let up = delivered-state net call payload noted stays open_noted in
          inl (
            ground (arith, next, n.remote_seq),
            start
                ∙ ap (finish net call h.sequence h.acknowledgement flag_psh_ack (length payload))
                    in_order
                ∙ finish_open net call h.sequence h.acknowledgement (length payload)
                    (delivered net call payload noted) up,
          )
      | inr other ↦
          let kept : deliver net call h.sequence payload noted ≡ noted =
            rw (deliver, some_bytes, other) refl in
          inr (
            ground (arith, other, n.remote_seq),
            start
                ∙ ap (finish net call h.sequence h.acknowledgement flag_psh_ack (length payload))
                    kept
                ∙ finish_open net call h.sequence h.acknowledgement (length payload) noted
                    open_noted,
          )
    ]
