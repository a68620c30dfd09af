-- ===== src/Net.antt =====
-- kernel/net_stack.c: Ethernet, ARP, IPv4, ICMP and UDP. A packet is the list of its bytes. What the
-- driver `net_send_packet` returns for a frame, and the configured strings, are parameters, held by
-- the state; the frames that were sent are kept, the newest first. An address is a record of its
-- bytes, and a handler is its number.
pub mod Setup
pub mod Arp
pub mod Udp
pub mod Ipv4
mod Tests
use os.Base.{
  ℕ, ◌+◌, ◌-◌, ◌^◌, Bool, not, ◌&&◌, Option, List, ◌∷◌, ◌==◌, if◌then◌else◌, ℤ, minus_one,
}
use os.Tcp.Segment.{byte_at, write_be16, sum_bytes}

-- u8[4] and u8[6]
pub record Ip : Type 0 where
  pub a : ℕ
  pub b : ℕ
  pub c : ℕ
  pub d : ℕ

pub record Mac : Type 0 where
  pub a : ℕ
  pub b : ℕ
  pub c : ℕ
  pub d : ℕ
  pub e : ℕ
  pub f : ℕ

-- `arp_cache_entry_t`
pub record Entry : Type 0 where
  pub ip : Ip
  pub mac : Mac
  pub valid : Bool

-- `udp_binding_t`; port 0 is no binding.
pub record Binding : Type 0 where
  pub port : ℕ
  pub handler : Option ℕ

-- `net_interface_t`, with what the driver returns for a frame.
pub record Interface : Type 0 where
  pub mac_addr : Mac
  pub ip_addr : Ip
  pub initialized : Bool
  pub result : List ℕ → ℤ

-- The strings that `config_get_string` returns.
pub record Settings : Type 0 where
  pub net_ip : List ℕ
  pub net_mask : List ℕ
  pub net_gateway : List ℕ

pub record Net : Type 0 where
  pub local_ip : Ip
  pub local_mask : Ip
  pub default_gateway : Ip
  pub stack_ready : Bool
  pub arp_cache : ℕ → Entry
  pub arp_cache_next : ℕ
  pub udp_bindings : ℕ → Binding
  pub iface : Interface
  pub settings : Settings
  pub sent : List (List ℕ)

abbrev pub cache_entries : ℕ
cache_entries = 16

abbrev pub max_handlers : ℕ
max_handlers = 8

-- NET_FRAME_CAP
abbrev pub frame_cap : ℕ
frame_cap = 1536

abbrev pub zero_ip : Ip
zero_ip = record { a = 0; b = 0; c = 0; d = 0 }

abbrev pub zero_mac : Mac
zero_mac = record { a = 0; b = 0; c = 0; d = 0; e = 0; f = 0 }

abbrev pub broadcast : Mac
broadcast = record { a = 255; b = 255; c = 255; d = 255; e = 255; f = 255 }

-- `same_bytes` of two addresses, which is all it is called with.
abbrev pub same_ip : Ip → Ip → Bool
same_ip x y = (x.a == y.a) && (x.b == y.b) && (x.c == y.c) && (x.d == y.d)

abbrev pub ip_is_zero : Ip → Bool
ip_is_zero x = same_ip x zero_ip

abbrev pub mac_is_zero : Mac → Bool
mac_is_zero m = (m.a == 0) && (m.b == 0) && (m.c == 0) && (m.d == 0) && (m.e == 0) && (m.f == 0)

abbrev pub ip_is_configured : Net → Bool
ip_is_configured net = not (ip_is_zero net.local_ip)

-- The address at byte `i`.
abbrev pub ip_at : List ℕ → ℕ → Ip
ip_at p i = record {
  a = byte_at p i;
  b = byte_at p (i + 1);
  c = byte_at p (i + 2);
  d = byte_at p (i + 3);
}

abbrev pub mac_at : List ℕ → ℕ → Mac
mac_at p i = record {
  a = byte_at p i;
  b = byte_at p (i + 1);
  c = byte_at p (i + 2);
  d = byte_at p (i + 3);
  e = byte_at p (i + 4);
  f = byte_at p (i + 5);
}

-- The bytes of an address in front of others.
abbrev pub ip_then : Ip → List ℕ → List ℕ
ip_then x rest = x.a ∷ x.b ∷ x.c ∷ x.d ∷ rest

abbrev pub mac_then : Mac → List ℕ → List ℕ
mac_then m rest = m.a ∷ m.b ∷ m.c ∷ m.d ∷ m.e ∷ m.f ∷ rest

-- An Ethernet frame.
abbrev pub ethernet : Mac → Mac → ℕ → List ℕ → List ℕ
ethernet dest src type payload = mac_then dest (mac_then src (write_be16 type payload))

-- (u16)~sum
unfoldable pub checksum : List ℕ → ℕ
unfolding sum_bytes
checksum bytes = 2 ^ 16 - 1 - sum_bytes 0 bytes

abbrev pub send_packet : List ℕ → Net → ℤ × Net
send_packet frame net =
    if net.iface.initialized
    then (net.iface.result frame, record net { sent = frame ∷ net.sent })
    else (minus_one, net)
