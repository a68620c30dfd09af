-- ===== src/Tcp/Tests.antt =====
-- Runs of kernel/tcp.c on a small connection, and the theorems at them.
use os.Base.{ℕ, ◌+◌, ◌*◌, ◌≡◌, ◌≢◌, ◌⊎◌, refl, true, false, List, [], ◌∷◌, some, none, pos, arith}
use os.Tcp.Segment.{Fields, segment, checksum_valid, xor_bits}
use os.Tcp.{
  closed, established, Tcp, Call, Interface, connect, init, poll, poll_interval, input, dispatch,
  emit, notify, on_connect, flag_syn, flag_psh_ack, u32, acknowledged,
}
use os.Tcp.Checksum.{checksum_valid-segment}
use os.Tcp.Poll.{polls, polls-closed}
use os.Tcp.Reading.{InRange, Expects, delivered, input-segment}
use os.Tcp.Handshake.{Dialing, connect-Dialing, dispatch-established_after}

abbrev client_ip : List ℕ
client_ip = 10 ∷ 0 ∷ 2 ∷ 15 ∷ []

abbrev server_ip : List ℕ
server_ip = 10 ∷ 0 ∷ 2 ∷ 2 ∷ []

-- Every segment is sent.
abbrev sending : Interface
sending = record { initialized = true; ip_addr = client_ip; answer = λ n. pos 20 }

abbrev ignore : Call → Tcp → Tcp
ignore k t = t

abbrev off : Tcp
off = record {
  state = closed;
  remote_ip = [];
  remote_port = 0;
  local_port = 0;
  local_seq = 0;
  remote_seq = 0;
  initial_seq = 0;
  poll_ticks = 0;
  retries = 0;
  syn_transmitted = false;
  tx_pending = false;
  tx_transmitted = false;
  initialized = false;
  tx_sequence = 0;
  tx_payload = [];
  connect_callback = none;
  data_callback = none;
  close_callback = none;
  callback_context = 0;
  next_local_port = 49152;
  output = [];
}

abbrev dialing : Tcp
dialing = (connect sending server_ip 80 (some 1) (some 2) none 0 off).1

-- 0xC4A21503 ^ 49152 << 16 ^ 80 << 1
first_seq : dialing.initial_seq ≡ 77731235
unfolding connect init xor_bits
first_seq = refl

dialing-connect : (connect sending server_ip 80 (some 1) (some 2) none 0 off).0 ≡ true
unfolding connect init
dialing-connect = refl

dialing-Dialing : Dialing dialing
dialing-Dialing = connect-Dialing sending server_ip 80 1 (some 2) none 0 off dialing-connect

-- A connection that has received nothing so far.
abbrev up : Tcp
up = record off {
  state = established;
  remote_ip = server_ip;
  remote_port = 80;
  local_port = 49152;
  local_seq = 5;
  remote_seq = 100;
  initialized = true;
  data_callback = some 2;
}

abbrev greeting : Fields
greeting = record {
  local_port = 80;
  remote_port = 49152;
  sequence = 100;
  acknowledgement = 5;
  flags = flag_psh_ack;
}

greeting-InRange : InRange greeting
greeting-InRange = record {
  local_port = omega arith;
  remote_port = omega arith;
  sequence = omega arith;
  acknowledgement = omega arith;
  flags = omega arith;
}

up-Expects : Expects sending server_ip client_ip greeting up
up-Expects = record {
  initialized = refl;
  not_closed = refl;
  remote_ip = refl;
  own_ip = refl;
  remote_port = refl;
  local_port = refl;
}

checksum_valid-segment_example :
    checksum_valid server_ip client_ip (segment server_ip client_ip greeting (72 ∷ 105 ∷ 33 ∷ []))
    ≡ true
checksum_valid-segment_example =
    checksum_valid-segment server_ip client_ip greeting (72 ∷ 105 ∷ 33 ∷ [])
      (omega arith, (omega arith, (omega arith, (omega arith, tt))))
      (omega arith, (omega arith, (omega arith, (omega arith, tt)))) (omega arith)
      (omega arith, (omega arith, (omega arith, tt))) (omega arith)

input-segment_example :
    ((greeting.sequence ≡ up.remote_seq)
      × (input sending ignore server_ip client_ip
            (segment server_ip client_ip greeting (72 ∷ 105 ∷ []))
            up
          ≡ delivered sending ignore (72 ∷ 105 ∷ []) (acknowledged 5 flag_psh_ack up)))
    ⊎ ((greeting.sequence ≢ up.remote_seq)
        × (input sending ignore server_ip client_ip
              (segment server_ip client_ip greeting (72 ∷ 105 ∷ []))
              up
            ≡ acknowledged 5 flag_psh_ack up))
input-segment_example =
    input-segment sending ignore server_ip client_ip greeting (72 ∷ 105 ∷ []) up (λ k u e. e)
      (omega arith, (omega arith, (omega arith, (omega arith, tt))))
      (omega arith, (omega arith, (omega arith, (omega arith, tt)))) greeting-InRange
      (omega arith, (omega arith, tt)) (omega arith) (omega arith) up-Expects refl refl

polls-closed_example : (polls (6 * poll_interval) sending ignore up).state ≡ closed
polls-closed_example =
    polls-closed sending (λ n. refl) ignore (λ k t e. e) up refl (omega arith) (omega arith)

dispatch-established_after_example :
    (u : Tcp) × ((poll sending ignore dialing).output
      ≡ (emit sending flag_syn dialing.initial_seq 0 [] dialing).1.output)
    × (dispatch sending ignore 700
          (u32 (dialing.initial_seq + 1))
          18
          []
          (poll sending ignore dialing)
        ≡ notify ignore dialing.connect_callback
            (λ f. on_connect f true dialing.callback_context)
            u)
    × (u.state ≡ established)
    × (u.remote_seq ≡ u32 (700 + 1))
    × (u.local_seq ≡ u32 (dialing.initial_seq + 2))
dispatch-established_after_example =
    dispatch-established_after sending ignore 700 dialing dialing-Dialing refl
