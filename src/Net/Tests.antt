-- ===== src/Net/Tests.antt =====
-- Two hosts running kernel/net_stack.c, and the theorems about it at them.
use os.Base.{ℕ, ◌<◌, ◌≡◌, ◌≢◌, refl, ◌⊎◌, true, false, none, some, [], ◌∷◌, length, pos, arith}
use os.Net.{Net, Ip, Mac, Binding}
use os.Net.Setup.{parse_ipv4, no_entry, ensure_ready, part, digits}
use os.Net.Setup.Address.{dotted}
use os.Net.Arp.{learn, resolve, resolve_in, find_ip, route, on_link}
use os.Net.Udp.{bind, handler_of, find_port}
use os.Net.Udp.Bindings.{IsValid, Rebound, bind-Rebound}
use os.Net.Ipv4.Delivery.{Delivered, udp_send-Delivered}
use os.Fs.{and_bits}

abbrev here : Ip
here = record { a = 10; b = 0; c = 2; d = 15 }

abbrev there : Ip
there = record { a = 10; b = 0; c = 2; d = 2 }

abbrev gateway : Ip
gateway = record { a = 10; b = 0; c = 2; d = 1 }

abbrev here_mac : Mac
here_mac = record { a = 82; b = 84; c = 0; d = 18; e = 52; f = 86 }

abbrev there_mac : Mac
there_mac = record { a = 82; b = 85; c = 10; d = 0; e = 2; f = 2 }

abbrev no_bindings : ℕ → Binding
no_bindings i = record { port = 0; handler = none }

abbrev host : Ip → Mac → Net
host ip mac = record {
  local_ip = ip;
  local_mask = record { a = 255; b = 255; c = 255; d = 0 };
  default_gateway = gateway;
  stack_ready = true;
  arp_cache = λ i. no_entry;
  arp_cache_next = 0;
  udp_bindings = no_bindings;
  iface = record {
    mac_addr = mac;
    ip_addr = ip;
    initialized = true;
    result = λ frame. pos (length frame);
  };
  settings = record { net_ip = dotted ip; net_mask = []; net_gateway = dotted gateway };
  sent = [];
}

-- An address with a leading sign, and one with too large a part.
parse_bad :
    (parse_ipv4 (45 ∷ 49 ∷ 46 ∷ 48 ∷ 46 ∷ 50 ∷ 46 ∷ 49 ∷ []) ≡ none)
    × (parse_ipv4 (50 ∷ 53 ∷ 54 ∷ 46 ∷ 48 ∷ 46 ∷ 50 ∷ 46 ∷ 49 ∷ []) ≡ none)
unfolding parse_ipv4 part digits
parse_bad = (refl, refl)

abbrev sender : Net
sender = learn there there_mac (host here here_mac)

no_bindings-IsValid : IsValid no_bindings
no_bindings-IsValid = record {
  unique = λ i j l m p e. absurd (p refl);
  bound = λ i l p. absurd (p refl);
}

bind-Rebound_example :
    (((bind 53 (some 7) (host there there_mac)).0 ≡ true)
      × Rebound 53 (some 7) no_bindings (bind 53 (some 7) (host there there_mac)).1.udp_bindings)
    ⊎ ((bind 53 (some 7) (host there there_mac) ≡ (false, host there there_mac))
        × ((j : ℕ) → j < 8 → (◌≢◌ {A = ℕ} 0 53) × (◌≢◌ {A = ℕ} 0 0)))
bind-Rebound_example =
    bind-Rebound 53 7 (host there there_mac) no_bindings-IsValid (λ e. absurd (omega (arith, e)))

-- The answer of the cache, the receiver with handler 7 at port 53, and the route.
abbrev receiver : Net
receiver = (bind 53 (some 7) (host there there_mac)).1

udp_send-Delivered_example : Delivered here there 4096 53 (104 ∷ 105 ∷ []) sender receiver 7
unfolding learn find_ip bind find_port handler_of route on_link and_bits resolve resolve_in
    ensure_ready
udp_send-Delivered_example =
    udp_send-Delivered there there there_mac 4096 53 (104 ∷ 105 ∷ []) sender receiver 7 refl refl
      refl (λ e. absurd (omega (arith, e))) (λ e. absurd (omega (arith, e))) (omega arith)
      (omega arith) (omega arith) (omega arith, (omega arith, tt))
      (omega arith, omega arith, omega arith, omega arith)
      (omega arith, omega arith, omega arith, omega arith) refl refl refl refl refl refl
