-- ===== src/Net/Arp.antt =====
-- ARP in kernel/net_stack.c: the cache, resolving, routing, and the answers.
pub mod Cache
use os.Base.{
  ℕ, zero, suc, ◌+◌, ◌%◌, Bool, true, not, ◌&&◌, ◌||◌, Option, none, some, List, [], ◌∷◌, ◌==◌, ltb,
  if◌then◌else◌, update, drop, length,
}
use os.Fs.{and_bits}
use os.Tcp.Segment.{byte_at, read_be16}
use os.Net.{
  Net, Ip, Mac, Entry, cache_entries, same_ip, ip_is_zero, mac_is_zero, ip_is_configured, zero_mac,
  broadcast, ip_at, mac_at, ip_then, mac_then, ethernet, send_packet,
}
use os.Net.Setup.{ensure_ready}

-- The first valid entry of an address, among `n` entries from entry `i` on.
unfoldable pub find_ip : ℕ → ℕ → Ip → (ℕ → Entry) → Option ℕ
find_ip zero i ip cache = none
find_ip (suc n) i ip cache =
    let rest = find_ip n (suc i) ip cache in
    if (cache i).valid && same_ip (cache i).ip ip then some i else rest

-- A known address gets its new MAC; another one takes the next entry.
abbrev pub put_mac : Ip → Mac → Net → Option ℕ → Net
put_mac ip mac net (some i) =
    let old : Entry = net.arp_cache i in
    record net { arp_cache = update net.arp_cache i (record old { mac = mac }) }
put_mac ip mac net none = record net {
  arp_cache = update net.arp_cache net.arp_cache_next (record { ip = ip; mac = mac; valid = true });
  arp_cache_next = (net.arp_cache_next + 1) % cache_entries;
}

-- `arp_cache_learn`
unfoldable pub learn : Ip → Mac → Net → Net
unfolding find_ip
learn ip mac net =
    if ip_is_zero ip || mac_is_zero mac || (mac.a % 2 == 1)
    then net
    else put_mac ip mac net (find_ip cache_entries 0 ip net.arp_cache)

-- An ARP packet in its frame.
abbrev pub arp_frame : Mac → Mac → ℕ → Mac → Ip → Mac → Ip → List ℕ
arp_frame dest src operation sha spa tha tpa = ethernet dest src 2054 (
    0
    ∷ 1
    ∷ 8
    ∷ 0
    ∷ 6
    ∷ 4
    ∷ 0
    ∷ operation
    ∷ mac_then sha (ip_then spa (mac_then tha (ip_then tpa []))))

abbrev pub ask : Ip → Net → Option Mac × Net
ask ip net =
    if net.iface.initialized
    then (
      none,
      (send_packet
          (arp_frame broadcast net.iface.mac_addr 1 net.iface.mac_addr net.local_ip zero_mac ip)
          net).1,
    )
    else (none, net)

abbrev pub resolved : Ip → Net → Option ℕ → Option Mac × Net
resolved ip net (some i) = (some (net.arp_cache i).mac, net)
resolved ip net none = ask ip net

unfoldable pub resolve_in : Ip → Net → Option Mac × Net
unfolding find_ip
resolve_in ip net =
    if not (ip_is_configured net) || ip_is_zero ip
    then (none, net)
    else resolved ip net (find_ip cache_entries 0 ip net.arp_cache)

-- `net_stack_resolve_ipv4`
unfoldable pub resolve : Ip → Net → Option Mac × Net
unfolding ensure_ready resolve_in
resolve ip net = resolve_in ip (ensure_ready net)

-- (destination[i] & local_mask[i]) != (local_ip[i] & local_mask[i]) for no i
unfoldable pub on_link : Ip → Net → Bool
unfolding and_bits
on_link x net =
    let m = net.local_mask in
    let own = net.local_ip in
    (and_bits 8 x.a m.a == and_bits 8 own.a m.a)
    && (and_bits 8 x.b m.b == and_bits 8 own.b m.b)
    && (and_bits 8 x.c m.c == and_bits 8 own.c m.c)
    && (and_bits 8 x.d m.d == and_bits 8 own.d m.d)

-- `route_ipv4`
unfoldable pub route : Ip → Net → Option Ip
unfolding on_link
route destination net =
    if not (ip_is_configured net)
    then none
    else if on_link destination net
    then some destination
    else if ip_is_zero net.default_gateway
    then none
    else some net.default_gateway

-- The answer to a request for the own address.
abbrev pub answer : List ℕ → Net → Net
answer arp net =
    if net.iface.initialized
    then (send_packet
        (arp_frame (mac_at arp 8) net.iface.mac_addr 2 net.iface.mac_addr net.local_ip
          (mac_at arp 8) (ip_at arp 14))
        net).1
    else net

-- The packet of a frame, and whether it is one.
abbrev pub good_arp : List ℕ → Bool
good_arp arp =
    (read_be16 arp 0 == 1)
    && (read_be16 arp 2 == 2048)
    && (byte_at arp 4 == 6)
    && (byte_at arp 5 == 4)
    && ((read_be16 arp 6 == 1) || (read_be16 arp 6 == 2))

-- `handle_arp` of a frame
unfoldable pub handle_arp : List ℕ → Net → Net
unfolding learn
handle_arp frame net =
    let arp = drop 14 frame in
    let net' = learn (ip_at arp 14) (mac_at arp 8) net in
    if ltb (length frame) 42 || not (ip_is_configured net)
    then net
    else if not (good_arp arp)
    then net
    else if not (read_be16 arp 6 == 1) || not (same_ip (ip_at arp 24) net'.local_ip)
    then net'
    else answer arp net'
