-- ===== src/Net/Ipv4.antt =====
-- IPv4 in kernel/net_stack.c: sending packets, the ICMP echo, and what is done with a frame.
pub mod Checksums
pub mod Delivery
use os.Base.{
  ℕ, ◌+◌, ◌-◌, ◌*◌, ◌/◌, ◌%◌, ◌^◌, not, ◌||◌, Option, none, some, List, [], ◌∷◌, ◌++◌, ◌==◌, ltb,
  if◌then◌else◌, take, drop, length, ℤ, minus_one, minus_two,
}
use os.Tcp.Segment.{byte_at, read_be16, write_be16}
use os.Net.{
  Net, Ip, Mac, frame_cap, same_ip, ip_is_configured, ip_at, mac_at, ip_then, ethernet, checksum,
  send_packet,
}
use os.Net.Setup.{ensure_ready}
use os.Net.Arp.{resolve, route, handle_arp}
use os.Net.Udp.{Call, datagram, handle_udp}

-- The header of a packet, with a checksum in place, in front of its payload.
abbrev pub header_with : Ip → Ip → ℕ → ℕ → ℕ → List ℕ → List ℕ
header_with src dst protocol total sum payload =
    69
    ∷ 0
    ∷ write_be16 total (
        write_be16 0
          (write_be16 16384 (64 ∷ protocol ∷ write_be16 sum (ip_then src (ip_then dst payload)))))

-- The packet that `net_ipv4_send` and `net_udp_send` build.
unfoldable pub packet : Ip → Ip → ℕ → List ℕ → List ℕ
unfolding checksum
packet src dst protocol payload =
    let total = 20 + length payload in
    header_with src dst protocol total (checksum (header_with src dst protocol total 0 [])) payload

abbrev pub transmit : Ip → ℕ → List ℕ → Option Mac × Net → ℤ × Net
transmit dst protocol payload (none, net) = (minus_two, net)
transmit dst protocol payload (some mac, net) =
    send_packet (ethernet mac net.iface.mac_addr 2048 (packet net.local_ip dst protocol payload))
      net

abbrev pub neighbour : Ip → Ip → Net → Option Mac × Net
neighbour dst next_hop net =
    if same_ip dst net.local_ip then (some net.iface.mac_addr, net) else resolve next_hop net

abbrev pub send_to : Ip → ℕ → List ℕ → Net → Option Ip → ℤ × Net
send_to dst protocol payload net none = (minus_one, net)
send_to dst protocol payload net (some next_hop) =
    transmit dst protocol payload (neighbour dst next_hop net)

unfoldable pub ipv4_send_in : Ip → ℕ → List ℕ → Net → ℤ × Net
ipv4_send_in dst protocol payload net =
    if ltb (frame_cap - 34) (length payload) || not (ip_is_configured net)
    then (minus_one, net)
    else if not net.iface.initialized
    then (minus_one, net)
    else send_to dst protocol payload net (route dst net)

-- `net_ipv4_send` of a payload and addresses that are not NULL.
unfoldable pub ipv4_send : Ip → ℕ → List ℕ → Net → ℤ × Net
ipv4_send dst protocol payload net = ipv4_send_in dst protocol payload (ensure_ready net)

abbrev pub udp_transmit : Ip → ℕ → ℕ → List ℕ → Option Mac × Net → ℤ × Net
udp_transmit dst destination_port source_port payload (none, net) = (minus_two, net)
udp_transmit dst destination_port source_port payload (some mac, net) =
    send_packet
      (ethernet mac net.iface.mac_addr 2048 (
        packet net.local_ip dst 17
          (datagram net.local_ip dst source_port destination_port payload)))
      net

abbrev pub udp_send_to : Ip → ℕ → ℕ → List ℕ → Net → Option Ip → ℤ × Net
udp_send_to dst destination_port source_port payload net none = (minus_one, net)
udp_send_to dst destination_port source_port payload net (some next_hop) =
    udp_transmit dst destination_port source_port payload (resolve next_hop net)

unfoldable pub udp_send_in : Ip → ℕ → ℕ → List ℕ → Net → ℤ × Net
udp_send_in dst destination_port source_port payload net =
    if (destination_port == 0)
      || (source_port == 0)
      || ltb (frame_cap - 42) (length payload)
      || not (ip_is_configured net)
    then (minus_one, net)
    else if not net.iface.initialized
    then (minus_one, net)
    else udp_send_to dst destination_port source_port payload net (route dst net)

-- `net_udp_send` of a payload and addresses that are not NULL.
unfoldable pub udp_send : Ip → ℕ → ℕ → List ℕ → Net → ℤ × Net
udp_send dst destination_port source_port payload net =
    udp_send_in dst destination_port source_port payload (ensure_ready net)

-- kmemcpy(bytes + i, new, n)
abbrev pub write_at : List ℕ → ℕ → List ℕ → List ℕ
write_at bytes i new = take i bytes ++ new ++ drop (i + length new) bytes

-- (ip[0] & 0x0F) * 4
abbrev pub header_length : List ℕ → ℕ
header_length ip = byte_at ip 0 % 16 * 4

-- The header of the answer to an echo request, and the answer.
unfoldable pub reply_header : List ℕ → ℕ → List ℕ
unfolding checksum
reply_header ip ihl =
    let ttl = if ltb 1 (byte_at ip 8) then byte_at ip 8 - 1 else 1 in
    let swapped = write_at (take ihl ip) 12 (ip_then (ip_at ip 16) (ip_then (ip_at ip 12) [])) in
    let cleared = write_at (write_at swapped 8 (ttl ∷ [])) 10 (0 ∷ 0 ∷ []) in
    write_at cleared 10 (write_be16 (checksum cleared) [])

unfoldable pub reply_icmp : List ℕ → List ℕ
unfolding checksum
reply_icmp icmp =
    let cleared = write_at (write_at icmp 0 (0 ∷ [])) 2 (0 ∷ 0 ∷ []) in
    write_at cleared 2 (write_be16 (checksum cleared) [])

-- `handle_icmp` of a frame with an IPv4 packet of its total length.
unfoldable pub handle_icmp : List ℕ → List ℕ → Net → Net
unfolding checksum reply_header reply_icmp
handle_icmp frame ip net =
    let ihl = header_length ip in
    let total = read_be16 ip 2 in
    let icmp = take (total - ihl) (drop ihl ip) in
    if ltb (length ip) 20 || ltb ihl 20 || ltb (length ip) ihl || not (byte_at ip 9 == 1)
    then net
    else if ltb total (ihl + 8) || ltb (length ip) total
    then net
    else if not (ip_is_configured net) || not (same_ip (ip_at ip 16) net.local_ip)
    then net
    else if not (checksum (take ihl ip) == 0)
    then net
    else if not (byte_at icmp 0 == 8) || not (byte_at icmp 1 == 0) || not (checksum icmp == 0)
    then net
    else (send_packet
        (ethernet (mac_at frame 6) (mac_at frame 0) 2048 (reply_header ip ihl ++ reply_icmp icmp))
        net).1

-- What a frame is handed to, besides the answers that are sent.
pub data Event : Type 0 where
  nothing : Event
  udp_call : Call → Event
  tcp_input : Ip → Ip → List ℕ → Event

abbrev pub event_of : Option Call → Event
event_of none = nothing
event_of (some call) = udp_call call

unfoldable pub by_protocol : List ℕ → List ℕ → Net → Event × Net
by_protocol frame ip net =
    let ihl = header_length ip in
    if byte_at ip 9 == 1
    then (nothing, handle_icmp frame ip net)
    else if byte_at ip 9 == 17
    then (event_of (handle_udp ip ihl net), net)
    else if byte_at ip 9 == 6
    then (tcp_input (ip_at ip 12) (ip_at ip 16) (drop ihl ip), net)
    else (nothing, net)

-- `handle_ipv4` of a frame: the rest of the frame behind the packet is padding.
unfoldable pub handle_ipv4 : List ℕ → Net → Event × Net
handle_ipv4 frame net =
    let ip = drop 14 frame in
    let ihl = header_length ip in
    let total = read_be16 ip 2 in
    if ltb (length frame) 34 || not (byte_at ip 0 / 16 == 4)
    then (nothing, net)
    else if ltb ihl 20 || ltb (length ip) ihl || ltb total ihl || ltb (length ip) total
    then (nothing, net)
    else if not (read_be16 ip 6 % 2 ^ 14 == 0) || not (checksum (take ihl ip) == 0)
    then (nothing, net)
    else by_protocol frame (take total ip) net

unfoldable pub handle_frame : List ℕ → Net → Event × Net
handle_frame frame net =
    if ltb (length frame) 14
    then (nothing, net)
    else if read_be16 frame 12 == 2054
    then (nothing, handle_arp frame net)
    else if read_be16 frame 12 == 2048
    then handle_ipv4 frame net
    else (nothing, net)

-- `net_handle_tcpip`, with the frame that `net_recv_packet` returns, empty when there is none.
unfoldable pub handle_tcpip : List ℕ → Net → Event × Net
handle_tcpip frame net = handle_frame frame (ensure_ready net)
