-- ===== src/Net/Udp.antt =====
-- UDP in kernel/net_stack.c: the table of handlers, and datagrams.
pub mod Bindings
use os.Base.{
  ℕ, zero, suc, ◌+◌, ◌-◌, ◌*◌, ◌%◌, ◌^◌, Bool, true, false, not, ◌&&◌, ◌||◌, Option, none, some,
  List, ◌==◌, ltb, if◌then◌else◌, update, take, drop, length, is_some,
}
use os.Tcp.Segment.{read_be16, write_be16, sum_bytes}
use os.Net.{Net, Ip, Binding, max_handlers, same_ip, ip_is_configured, ip_at}

-- The first binding with a port, among `n` from binding `i` on.
unfoldable pub find_port : ℕ → ℕ → ℕ → (ℕ → Binding) → Option ℕ
find_port zero i port table = none
find_port (suc n) i port table =
    let rest = find_port n (suc i) port table in if (table i).port == port then some i else rest

abbrev pub set_binding : ℕ → ℕ → Option ℕ → Net → Net
set_binding i port handler net = record net {
  udp_bindings = update net.udp_bindings i (record { port = port; handler = handler });
}

abbrev pub bind_free : ℕ → Option ℕ → Net → Option ℕ → Bool × Net
bind_free port handler net (some i) = (true, set_binding i port handler net)
bind_free port handler net none = (false, net)

abbrev pub bind_at : ℕ → Option ℕ → Net → Option ℕ → Bool × Net
bind_at port handler net (some i) =
    let old : Binding = net.udp_bindings i in
    (
      true,
      record net { udp_bindings = update net.udp_bindings i (record old { handler = handler }) },
    )
bind_at port handler net none =
    bind_free port handler net (find_port max_handlers 0 0 net.udp_bindings)

-- `net_udp_bind`
unfoldable pub bind : ℕ → Option ℕ → Net → Bool × Net
unfolding find_port
bind port handler net =
    if (port == 0) || not (is_some handler)
    then (false, net)
    else bind_at port handler net (find_port max_handlers 0 port net.udp_bindings)

abbrev pub unbind_at : Net → Option ℕ → Net
unbind_at net (some i) = set_binding i 0 none net
unbind_at net none = net

-- `net_udp_unbind`
unfoldable pub unbind : ℕ → Net → Net
unfolding find_port
unbind port net =
    if port == 0 then net else unbind_at net (find_port max_handlers 0 port net.udp_bindings)

-- The sum over the addresses, the protocol and the length, without overflow.
abbrev pub pseudo_sum : Ip → Ip → ℕ → ℕ
pseudo_sum src dst len =
    (src.a * 256
      + src.b
      + (dst.a * 256 + dst.b)
      + (src.c * 256 + src.d)
      + (dst.c * 256 + dst.d)
      + 17
      + len % 2 ^ 32)
    % 2 ^ 32

-- `udp_checksum_value`
unfoldable pub udp_checksum_value : Ip → Ip → List ℕ → ℕ
unfolding sum_bytes
udp_checksum_value src dst udp = 2 ^ 16 - 1 - sum_bytes (pseudo_sum src dst (length udp)) udp

abbrev pub udp_checksum_valid : Ip → Ip → List ℕ → Bool
udp_checksum_valid src dst udp = udp_checksum_value src dst udp == 0

-- A datagram with a checksum in place.
abbrev pub datagram_with : ℕ → ℕ → List ℕ → ℕ → List ℕ
datagram_with source_port destination_port payload sum =
    write_be16 source_port
      (write_be16 destination_port (write_be16 (8 + length payload) (write_be16 sum payload)))

-- The datagram that `net_udp_send` builds. A checksum of zero is sent as 0xFFFF.
unfoldable pub datagram : Ip → Ip → ℕ → ℕ → List ℕ → List ℕ
unfolding udp_checksum_value
datagram src dst source_port destination_port payload =
    let sum = udp_checksum_value src dst (datagram_with source_port destination_port payload 0) in
    datagram_with source_port destination_port payload (if sum == 0 then 65535 else sum)

-- A call of a handler.
pub record Call : Type 0 where
  pub handler : ℕ
  pub source_port : ℕ
  pub source_ip : Ip
  pub payload : List ℕ

-- The loop of `handle_udp` over the bindings: the handler of a port.
unfoldable pub handler_of : ℕ → ℕ → ℕ → (ℕ → Binding) → Option ℕ
handler_of zero i port table = none
handler_of (suc n) i port table =
    let rest = handler_of n (suc i) port table in
    if ((table i).port == port) && is_some (table i).handler then (table i).handler else rest

abbrev pub call_of : List ℕ → Ip → Option ℕ → Option Call
call_of udp src none = none
call_of udp src (some h) =
    some
      (record { handler = h; source_port = read_be16 udp 0; source_ip = src; payload = drop 8 udp })

-- `handle_udp` of an IPv4 packet of its total length, with the length of its header: the call it
-- makes.
unfoldable pub handle_udp : List ℕ → ℕ → Net → Option Call
handle_udp ip ihl net =
    let udp_len = read_be16 (drop ihl ip) 4 in
    let udp = take udp_len (drop ihl ip) in
    if not (ip_is_configured net)
      || not (same_ip (ip_at ip 16) net.local_ip)
      || ltb (length ip) (ihl + 8)
    then none
    else if ltb udp_len 8 || ltb (length ip - ihl) udp_len
    then none
    else if not (read_be16 udp 6 == 0) && not (udp_checksum_valid (ip_at ip 12) (ip_at ip 16) udp)
    then none
    else call_of udp (ip_at ip 12) (handler_of max_handlers 0 (read_be16 udp 2) net.udp_bindings)
