-- ===== src/Tcp.antt =====
-- kernel/tcp.c: the client with one connection, its segments, and its timer. The network interface
-- is a parameter: its address, and what `net_ipv4_send` returns for the n-th segment it is given.
pub mod Segment
pub mod Checksum
pub mod Reading
pub mod Poll
pub mod Handshake
mod Tests
use os.Base.{
  ℕ, ◌+◌, ◌-◌, ◌*◌, ◌/◌, ◌%◌, ◌^◌, Bool, true, false, not, ◌&&◌, ◌||◌, Option, none, some, is_some,
  List, [], ◌∷◌, ◌++◌, ◌==◌, ltb, leb, if◌then◌else◌, ℤ, pos, minus_one, minus_two, eq_ℤ, leb_ℤ,
  length, drop,
}
use os.Tcp.Segment.{
  segment, read_be16, read_be32, byte_at, checksum_valid, ip_equal, has_flag, xor_bits,
}

-- `tcp_state_t`
pub data State : Type 0 where
  closed : State
  syn_sent : State
  established : State
  fin_wait : State

abbrev pub is_closed : State → Bool
is_closed closed = true
is_closed syn_sent = false
is_closed established = false
is_closed fin_wait = false

abbrev pub is_syn_sent : State → Bool
is_syn_sent closed = false
is_syn_sent syn_sent = true
is_syn_sent established = false
is_syn_sent fin_wait = false

abbrev pub is_established : State → Bool
is_established closed = false
is_established syn_sent = false
is_established established = true
is_established fin_wait = false

abbrev pub is_fin_wait : State → Bool
is_fin_wait closed = false
is_fin_wait syn_sent = false
is_fin_wait established = false
is_fin_wait fin_wait = true

-- The variables of the file. `tx_payload` is the `tx_length` bytes in use, `output` what was passed to
-- `net_ipv4_send`.
pub record Tcp : Type 0 where
  pub state : State
  pub remote_ip : List ℕ
  pub remote_port : ℕ
  pub local_port : ℕ
  pub local_seq : ℕ
  pub remote_seq : ℕ
  pub initial_seq : ℕ
  pub poll_ticks : ℕ
  pub retries : ℕ
  pub syn_transmitted : Bool
  pub tx_pending : Bool
  pub tx_transmitted : Bool
  pub initialized : Bool
  pub tx_sequence : ℕ
  pub tx_payload : List ℕ
  pub connect_callback : Option ℕ
  pub data_callback : Option ℕ
  pub close_callback : Option ℕ
  pub callback_context : ℕ
  pub next_local_port : ℕ
  pub output : List (List ℕ)

-- A call of a callback: the function, its arguments and the context.
pub data Call : Type 0 where
  on_connect : ℕ → Bool → ℕ → Call
  on_data : ℕ → List ℕ → ℕ → Call
  on_close : ℕ → Bool → ℕ → Call

-- `net_interface_t`, as far as the file reads it.
pub record Interface : Type 0 where
  pub initialized : Bool
  pub ip_addr : List ℕ
  pub answer : ℕ → ℤ

abbrev pub segment_cap : ℕ
segment_cap = 1460

abbrev pub poll_interval : ℕ
poll_interval = 4096

abbrev pub max_retries : ℕ
max_retries = 5

abbrev pub u32 : ℕ → ℕ
u32 n = n % 2 ^ 32

-- FIN, SYN, RST, PSH and ACK are bits 0 to 4.
abbrev pub flag_fin : ℕ
flag_fin = 1

abbrev pub flag_syn : ℕ
flag_syn = 2

abbrev pub flag_ack : ℕ
flag_ack = 16

abbrev pub flag_psh_ack : ℕ
flag_psh_ack = 24

abbrev pub flag_fin_ack : ℕ
flag_fin_ack = 17

-- `emit_segment`: the result, and the state with the segment passed on.
pub emit : Interface → ℕ → ℕ → ℕ → List ℕ → Tcp → ℤ × Tcp
emit net flags sequence acknowledgement payload t =
    let bytes =
      segment net.ip_addr t.remote_ip
        (record {
          local_port = t.local_port;
          remote_port = t.remote_port;
          sequence = sequence;
          acknowledgement = acknowledgement;
          flags = flags;
        })
        payload in
    if ltb segment_cap (length payload)
    then (minus_one, t)
    else (net.answer (length t.output), record t { output = t.output ++ (bytes ∷ []) })

pub clear_connection : Tcp → Tcp
clear_connection t = record t {
  state = closed;
  tx_pending = false;
  tx_transmitted = false;
  syn_transmitted = false;
  tx_payload = [];
  connect_callback = none;
  data_callback = none;
  close_callback = none;
  callback_context = 0;
}

pub init : Tcp → Tcp
init t = if t.initialized then t else record t { state = closed; initialized = true }

-- next_local_port++ on u16, which stays in the dynamic range
abbrev pub bump_port : ℕ → ℕ
bump_port p = let next = (p + 1) % 2 ^ 16 in if ltb next 49152 then 49152 else next

-- 0xC4A21503 ^ (local_port << 16) ^ (destination_port << 1), on u32
abbrev pub initial_of : ℕ → ℕ → ℕ
initial_of local_port destination_port =
    xor_bits 32 (xor_bits 32 3298956547 (u32 (local_port * 2 ^ 16))) (destination_port * 2)

abbrev pub opened : List ℕ → ℕ → ℕ → Option ℕ → Option ℕ → ℕ → Tcp → Tcp
opened ip port connect data_call close_call context t =
    let first = initial_of t.next_local_port port in
    record t {
      remote_ip = ip;
      remote_port = port;
      local_port = t.next_local_port;
      next_local_port = bump_port t.next_local_port;
      initial_seq = first;
      local_seq = first;
      remote_seq = 0;
      retries = 0;
      poll_ticks = poll_interval - 1;
      syn_transmitted = false;
      tx_pending = false;
      connect_callback = some connect;
      data_callback = data_call;
      close_callback = close_call;
      callback_context = context;
      state = syn_sent;
    }

-- The address 0.0.0.0
abbrev pub all_zero : List ℕ → Bool
all_zero [] = true
all_zero (b ∷ bs) = (b == 0) && all_zero bs

-- The pointer to the address is not NULL, and the interface is there.
pub connect : Interface → List ℕ → ℕ → Option ℕ → Option ℕ → Option ℕ → ℕ → Tcp → Bool × Tcp
unfolding init
connect net ip port none data_call close_call context t = (false, init t)
connect net ip port (some call) data_call close_call context t =
    if port == 0 || not (is_closed (init t).state)
    then (false, init t)
    else if not net.initialized || all_zero net.ip_addr
    then (false, init t)
    else (true, opened ip port call data_call close_call context (init t))

-- What `net_tcp_send` does with the result of `emit_segment`.
pub sent : ℕ → ℤ × Tcp → ℤ × Tcp
sent n (result, t) =
    if leb_ℤ (pos 0) result
    then (pos n, record t { tx_transmitted = true; local_seq = u32 (t.local_seq + n) })
    else if eq_ℤ result minus_two
    then (minus_two, t)
    else (minus_one, record t { tx_pending = false; tx_payload = [] })

pub send : Interface → List ℕ → Tcp → ℤ × Tcp
unfolding emit sent
send net bytes t =
    let n = length bytes in
    let queued = record t {
      tx_payload = bytes;
      tx_sequence = t.local_seq;
      tx_pending = true;
      tx_transmitted = false;
      retries = 0;
      poll_ticks = poll_interval - 1;
    } in
    if not (is_established t.state) || n == 0 || ltb segment_cap n
    then (minus_one, t)
    else if t.tx_pending
    then (minus_two, t)
    else sent n (emit net flag_psh_ack t.local_seq t.remote_seq bytes queued)

pub closing : ℤ × Tcp → Tcp
unfolding clear_connection
closing (result, t) =
    if leb_ℤ (pos 0) result
    then record t {
      local_seq = u32 (t.local_seq + 1);
      state = fin_wait;
      retries = 0;
      poll_ticks = 0;
    }
    else clear_connection t

pub close : Interface → Tcp → Tcp
unfolding closing emit
close net t =
    if is_established t.state
    then closing (emit net flag_fin_ack t.local_seq t.remote_seq [] t)
    else clear_connection t

-- A callback that is not NULL is called.
abbrev pub notify : (Call → Tcp → Tcp) → Option ℕ → (ℕ → Call) → Tcp → Tcp
notify call none with_args t = t
notify call (some f) with_args t = call (with_args f) t

-- The end of a connection that failed: the callback for it is read first, then called.
pub failed : (Call → Tcp → Tcp) → Tcp → Tcp
unfolding clear_connection
failed call t =
    let refused : ℕ → Call = λ f. on_connect f false t.callback_context in
    let lost : ℕ → Call = λ f. on_close f false t.callback_context in
    if is_syn_sent t.state && is_some t.connect_callback
    then notify call t.connect_callback refused (clear_connection t)
    else notify call t.close_callback lost (clear_connection t)

-- The acknowledgement of all that has arrived.
abbrev pub emit_ack : Interface → Tcp → Tcp
unfolding emit
emit_ack net t = (emit net flag_ack t.local_seq t.remote_seq [] t).1

-- The bytes that are next in order are passed on and acknowledged.
pub deliver : Interface → (Call → Tcp → Tcp) → ℕ → List ℕ → Tcp → Tcp
unfolding emit_ack
deliver net call sequence payload t =
    let n = length payload in
    let received = record t { remote_seq = u32 (t.remote_seq + n) } in
    if not (n == 0) && (sequence == t.remote_seq)
    then emit_ack net
        (notify call t.data_callback (λ f. on_data f payload t.callback_context) received)
    else t

-- The answer to a SYN.
pub handshake : Interface → (Call → Tcp → Tcp) → ℕ → ℕ → ℕ → List ℕ → Tcp → Tcp
unfolding deliver emit_ack
handshake net call sequence acknowledgement flags payload t =
    let up = emit_ack net (record t {
      remote_seq = u32 (sequence + 1);
      local_seq = u32 (t.local_seq + 1);
      state = established;
    }) in
    if not (has_flag flags 1 && has_flag flags 4) || not (acknowledgement == t.local_seq)
    then t
    else deliver net call (u32 (sequence + 1)) payload (
        notify call t.connect_callback (λ f. on_connect f true t.callback_context)
          (record up { connect_callback = none }))

-- An acknowledgement of what was sent.
pub acknowledged : ℕ → ℕ → Tcp → Tcp
acknowledged acknowledgement flags t =
    if has_flag flags 4 && t.tx_pending && t.tx_transmitted && leb t.local_seq acknowledgement
    then record t { tx_pending = false; tx_transmitted = false; tx_payload = [] }
    else t

-- The FIN of the peer, or the acknowledgement of our own.
pub finish : Interface → (Call → Tcp → Tcp) → ℕ → ℕ → ℕ → ℕ → Tcp → Tcp
unfolding emit_ack clear_connection
finish net call sequence acknowledgement flags n t =
    let counted =
      if u32 (sequence + n) == t.remote_seq
      then record t { remote_seq = u32 (t.remote_seq + 1) }
      else t in
    if has_flag flags 0
    then notify call t.close_callback (λ f. on_close f true t.callback_context)
        (clear_connection (emit_ack net counted))
    else if is_fin_wait t.state && has_flag flags 4 && leb t.local_seq acknowledgement
    then clear_connection t
    else t

-- (u8)((segment[12] >> 4) * 4u)
abbrev pub header_length : List ℕ → ℕ
header_length bytes = byte_at bytes 12 / 16 * 4

-- The checks at the head of `net_tcp_input`; no pointer is NULL.
pub acceptable : Interface → List ℕ → List ℕ → List ℕ → Tcp → Bool
acceptable net source destination bytes t =
    t.initialized
    && not (is_closed t.state)
    && ip_equal source t.remote_ip
    && leb 20 (length bytes)
    && ip_equal destination net.ip_addr
    && leb 20 (header_length bytes)
    && leb (header_length bytes) (length bytes)
    && checksum_valid source destination bytes
    && (read_be16 bytes 0 == t.remote_port)
    && (read_be16 bytes 2 == t.local_port)

-- The rest of `net_tcp_input`, on the fields of the segment.
pub dispatch : Interface → (Call → Tcp → Tcp) → ℕ → ℕ → ℕ → List ℕ → Tcp → Tcp
unfolding failed handshake acknowledged deliver finish
dispatch net call sequence acknowledgement flags payload t =
    if has_flag flags 2
    then failed call t
    else if is_syn_sent t.state
    then handshake net call sequence acknowledgement flags payload t
    else finish net call sequence acknowledgement flags (length payload)
        (deliver net call sequence payload (acknowledged acknowledgement flags t))

pub input : Interface → (Call → Tcp → Tcp) → List ℕ → List ℕ → List ℕ → Tcp → Tcp
unfolding acceptable dispatch
input net call source destination bytes t =
    let payload = drop (header_length bytes) bytes in
    if acceptable net source destination bytes t
    then dispatch net call (read_be32 bytes 4) (read_be32 bytes 8) (byte_at bytes 13) payload t
    else t

-- What `net_tcp_poll` does with the result of sending a SYN, and of sending data again.
abbrev pub syn_sent_with : ℤ × Tcp → ℤ × Tcp
syn_sent_with (result, t) =
    if leb_ℤ (pos 0) result && not t.syn_transmitted
    then (result, record t { syn_transmitted = true; local_seq = u32 (t.initial_seq + 1) })
    else (result, t)

abbrev pub data_sent_with : ℤ × Tcp → ℤ × Tcp
data_sent_with (result, t) =
    if leb_ℤ (pos 0) result
    then (
      result,
      record t { tx_transmitted = true; local_seq = u32 (t.tx_sequence + length t.tx_payload) },
    )
    else (result, t)

pub retransmit : Interface → Tcp → ℤ × Tcp
unfolding emit
retransmit net t =
    if is_syn_sent t.state
    then syn_sent_with (emit net flag_syn t.initial_seq 0 [] t)
    else if t.tx_pending && not t.tx_transmitted
    then data_sent_with (emit net flag_psh_ack t.tx_sequence t.remote_seq t.tx_payload t)
    else if t.tx_pending && t.tx_transmitted
    then emit net flag_psh_ack t.tx_sequence t.remote_seq t.tx_payload t
    else if is_fin_wait t.state
    then emit net flag_fin_ack (u32 (t.local_seq + 2 ^ 32 - 1)) t.remote_seq [] t
    else (minus_one, t)

-- if (result != -2) retries++, on u8
abbrev pub count_retry : ℤ × Tcp → Tcp
count_retry (result, t) =
    if eq_ℤ result minus_two then t else record t { retries = (t.retries + 1) % 256 }

-- Every 4096th call does something.
pub poll : Interface → (Call → Tcp → Tcp) → Tcp → Tcp
unfolding failed retransmit
poll net call t =
    let ticks = u32 (t.poll_ticks + 1) in
    let due = record t { poll_ticks = 0 } in
    if not t.initialized || is_closed t.state
    then t
    else if ltb ticks poll_interval
    then record t { poll_ticks = ticks }
    else if leb max_retries t.retries
    then failed call due
    else count_retry (retransmit net due)
