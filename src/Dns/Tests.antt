-- ===== src/Dns/Tests.antt =====
-- A lookup of example.com by kernel/dns.c, and the theorems about it there.
use os.Base.{ℕ, ◌*◌, ◌≡◌, refl, true, false, none, some, List, [], ◌∷◌, ◌++◌, length, pos, arith}
use os.Net.{max_handlers, Net, Ip, Binding, zero_ip, zero_mac}
use os.Net.Setup.{no_entry, parse_ipv4}
use os.Net.Udp.{bind, handler_of, handle_udp}
use os.Net.Udp.Bindings.{IsValid}
use os.Net.Ipv4.{udp_send}
use os.Dns.{
  Dns, response_handler, poll, init, query, handle_response, encode_hostname, encode_labels,
  skip_name, skip_labels, skip_questions, find_answer,
}
use os.Dns.Names.{skip_name-encode_hostname}
use os.Dns.Poll.{polls, polls-Over}
use os.Dns.Port.{handle_udp-init}

abbrev one_one : List ℕ
one_one = 49 ∷ 46 ∷ 49 ∷ 46 ∷ 49 ∷ 46 ∷ 49 ∷ []

abbrev server : Ip
server = record { a = 1; b = 1; c = 1; d = 1 }

abbrev no_bindings : ℕ → Binding
no_bindings i = record { port = 0; handler = none }

abbrev net : Net
net = record {
  local_ip = record { a = 10; b = 0; c = 2; d = 15 };
  local_mask = record { a = 255; b = 255; c = 255; d = 0 };
  default_gateway = record { a = 10; b = 0; c = 2; d = 2 };
  stack_ready = true;
  arp_cache = λ i. no_entry;
  arp_cache_next = 0;
  udp_bindings = no_bindings;
  iface = record {
    mac_addr = zero_mac;
    ip_addr = zero_ip;
    initialized = true;
    result = λ frame. pos (length frame);
  };
  settings = record { net_ip = []; net_mask = []; net_gateway = [] };
  sent = [];
}

no_bindings-IsValid : IsValid no_bindings
no_bindings-IsValid = record {
  unique = λ i j l m p e. absurd (p refl);
  bound = λ i l p. absurd (p refl);
}

abbrev at_start : Dns
at_start = record {
  dns_server = zero_ip;
  query_packet = [];
  pending_host = [];
  next_id = 19761;
  pending_id = 0;
  poll_ticks = 0;
  attempts = 0;
  ready = false;
  active = false;
  pending_callback = none;
  pending_context = 0;
}

-- a.io, and its encoding
abbrev a_io : List ℕ
a_io = 97 ∷ 46 ∷ 105 ∷ 111 ∷ []

abbrev a_io_bytes : List ℕ
a_io_bytes = 1 ∷ 97 ∷ 2 ∷ 105 ∷ 111 ∷ 0 ∷ []

a_io_encoded : encode_hostname a_io 496 ≡ some a_io_bytes
unfolding encode_hostname encode_labels
a_io_encoded = refl

skip_name-encode_hostname_example : skip_name (7 ∷ 7 ∷ (a_io_bytes ++ (0 ∷ 1 ∷ []))) 2 ≡ some 8
skip_name-encode_hostname_example =
    skip_name-encode_hostname a_io 496 a_io_bytes (7 ∷ 7 ∷ []) (0 ∷ 1 ∷ []) a_io_encoded

-- A name that ends in a dot is refused.
trailing_dot : encode_hostname (97 ∷ 46 ∷ []) 496 ≡ none
unfolding encode_hostname encode_labels
trailing_dot = refl

abbrev ready : Dns
ready = record at_start { dns_server = server; ready = true }

abbrev asking : Dns
asking = (query a_io 3 9 ready).1

-- The answer of the server: the question, and a record with the address 93.184.216.34.
abbrev response : List ℕ
response =
    77
    ∷ 49
    ∷ 129
    ∷ 128
    ∷ 0
    ∷ 1
    ∷ 0
    ∷ 1
    ∷ 0
    ∷ 0
    ∷ 0
    ∷ 0
    ∷ (a_io_bytes
        ++ (0 ∷ 1 ∷ 0 ∷ 1 ∷ 192 ∷ 12 ∷ 0 ∷ 1 ∷ 0 ∷ 1 ∷ 0 ∷ 0 ∷ 1 ∷ 44 ∷ 0 ∷ 4 ∷ 93 ∷ 184 ∷ 216 ∷ 34
            ∷ []))

answered :
    (handle_response 53 server response asking).0
    ≡ some (record {
      callback = 3;
      host = a_io;
      ip = record { a = 93; b = 184; c = 216; d = 34 };
      success = true;
      context = 9;
    })
unfolding handle_response query encode_hostname encode_labels skip_questions skip_labels find_answer
answered = refl

polls-Over_example : (polls (6 * 4096) asking net).0.active ≡ false
unfolding query encode_hostname encode_labels
polls-Over_example = polls-Over (6 * 4096) asking net (omega arith) (omega arith) (omega arith)

-- A datagram from port 53 of the server to port 53000.
abbrev stray_packet : List ℕ
stray_packet =
    69 ∷ 0 ∷ 0 ∷ 28 ∷ 0 ∷ 0 ∷ 64 ∷ 0 ∷ 64 ∷ 17 ∷ 0 ∷ 0 ∷ 1 ∷ 1 ∷ 1 ∷ 1 ∷ 10 ∷ 0 ∷ 2 ∷ 15 ∷ 0 ∷ 53
    ∷ 207 ∷ 8 ∷ 0 ∷ 8 ∷ 0 ∷ 0 ∷ []

-- A lookup whose first request is due.
abbrev due : Dns
due = record at_start {
  dns_server = server;
  query_packet = a_io_bytes;
  ready = true;
  active = true;
  poll_ticks = 4095;
}

handle_udp-init_example :
    let after = (init one_one at_start net).2 in
    (handler_of max_handlers 0 53 after.udp_bindings ≡ some response_handler)
    × (poll due after ≡ (
      none,
      record due { poll_ticks = 0; attempts = 1 },
      (udp_send server 53 53000 a_io_bytes after).1,
    ))
    × (handle_udp stray_packet 20 after ≡ none)
unfolding handler_of init parse_ipv4 bind
handle_udp-init_example =
    handle_udp-init one_one at_start net stray_packet 20 due no_bindings-IsValid refl refl refl refl
      refl (omega arith) refl
