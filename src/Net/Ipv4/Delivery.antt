-- ===== src/Net/Ipv4/Delivery.antt =====
-- A datagram of kernel/net_stack.c on its way from `net_udp_send` to the handler at its destination.
use os.Base.{
  ℕ, zero, suc, ◌+◌, ◌-◌, ◌*◌, ◌/◌, ◌%◌, ◌^◌, ◌<◌, ◌≤◌, ◌≡◌, ◌≢◌, refl, ◌∙◌, ap, subst, Bool, true,
  false, not, ◌&&◌, some, List, [], ◌∷◌, ◌==◌, ltb, if◌then◌else◌, take, drop, length, arith,
}
use os.Tcp.Segment.{byte_at, read_be16}
use os.Tcp.Checksum.{AllBytes}
use os.Net.{Net, Ip, Mac, max_handlers, same_ip, ip_is_configured, ip_at, ethernet, checksum}
use os.Net.Setup.{ensure_ready}
use os.Net.Arp.{resolve, route}
use os.Net.Udp.{
  Call, call_of, handler_of, handle_udp, udp_checksum_valid, datagram_with, datagram,
  udp_checksum_value,
}
use os.Net.Ipv4.{
  header_with, packet, by_protocol, event_of, udp_call, handle_ipv4, handle_frame, handle_tcpip,
  udp_send, udp_send_in, udp_transmit,
}
use os.Net.Ipv4.Checksums.{IsBytes, checksum-header, udp_checksum_valid-datagram}

take-all : {A : Type 0} (n : ℕ) (xs : List A) → length xs ≤ n → take n xs ≡ xs
take-all zero [] h = refl
take-all zero (x ∷ xs) h = absurd (omega (arith, h))
take-all (suc n) [] h = refl
take-all (suc n) (x ∷ xs) h = ap (λ l. x ∷ l) (take-all n xs (omega (arith, h)))

-- A datagram that passes the checks of `handle_udp`.
handle_udp-passes :
    (ip : List ℕ) (ihl : ℕ) (net : Net) (udp_len : ℕ) (udp : List ℕ)
    → read_be16 (drop ihl ip) 4 ≡ udp_len
    → take udp_len (drop ihl ip) ≡ udp
    → ip_is_configured net ≡ true
    → same_ip (ip_at ip 16) net.local_ip ≡ true
    → ihl + 8 ≤ length ip
    → 8 ≤ udp_len
    → udp_len ≤ length ip - ihl
    → udp_checksum_valid (ip_at ip 12) (ip_at ip 16) udp ≡ true
    → handle_udp ip ihl net
      ≡ call_of udp (ip_at ip 12) (handler_of max_handlers 0 (read_be16 udp 2) net.udp_bindings)
unfolding handle_udp
handle_udp-passes ip ihl net udp_len udp len whole configured own room least most valid =
    let e1 : ltb (length ip) (ihl + 8) ≡ false = ground (arith, room) in
    let e2 : ltb udp_len 8 ≡ false = ground (arith, least) in
    let e3 : ltb (length ip - ihl) udp_len ≡ false = ground (arith, most) in
    let e4 : (not (read_be16 udp 6 == 0)
          && not (udp_checksum_valid (ip_at ip 12) (ip_at ip 16) udp))
        ≡ false =
      and_false (not (read_be16 udp 6 == 0)) (udp_checksum_valid (ip_at ip 12) (ip_at ip 16) udp)
        valid in
    rw (handle_udp, len, whole, configured, own, e1, e2, e3, e4) refl
  where
    and_false : (a b : Bool) → b ≡ true → (a && not b) ≡ false
    and_false a b h = ground arith

-- A packet without options that passes the checks of `handle_ipv4`.
handle_ipv4-passes :
    (frame ip : List ℕ) (total : ℕ) (net : Net)
    → drop 14 frame ≡ ip
    → 34 ≤ length frame
    → byte_at ip 0 ≡ 69
    → read_be16 ip 2 ≡ total
    → 20 ≤ total
    → total ≡ length ip
    → read_be16 ip 6 ≡ 16384
    → checksum (take 20 ip) ≡ 0
    → handle_ipv4 frame net ≡ by_protocol frame ip net
unfolding handle_ipv4
handle_ipv4-passes frame ip total net at long first len least whole flags sum =
    let e1 : ltb (length frame) 34 ≡ false = ground (arith, long) in
    let e2 : ltb (length ip) 20 ≡ false = ground (arith, least, whole) in
    let e3 : ltb total 20 ≡ false = ground (arith, least) in
    let e4 : ltb (length ip) total ≡ false = ground (arith, whole) in
    let all : take total ip ≡ ip = take-all total ip (omega (arith, whole)) in
    rw (handle_ipv4, at, e1, first, len, e2, e3, e4, flags, sum, all) refl

-- The call that a datagram makes.
abbrev pub call : ℕ → Ip → ℕ → List ℕ → Call
call h src source_port payload = record {
  handler = h;
  source_port = source_port;
  source_ip = src;
  payload = payload;
}

two_bytes : (n : ℕ) → n < 2 ^ 16 → n / 256 % 256 * 256 + n % 256 ≡ n
two_bytes n h = omega (arith, h)

handle_udp-datagram :
    (src dst : Ip) (source_port destination_port v total c : ℕ) (payload : List ℕ) (net : Net)
    (h : ℕ)
    → source_port < 2 ^ 16
    → destination_port < 2 ^ 16
    → length payload + 28 < 2 ^ 16
    → udp_checksum_valid src dst (datagram_with source_port destination_port payload v) ≡ true
    → ip_is_configured net ≡ true
    → same_ip dst net.local_ip ≡ true
    → handler_of max_handlers 0 destination_port net.udp_bindings ≡ some h
    → handle_udp
        (header_with src dst 17 total c (datagram_with source_port destination_port payload v))
        20
        net
      ≡ some (call h src source_port payload)
handle_udp-datagram src dst sp dp v total c payload net h s d w valid configured own bound =
    let dg = datagram_with sp dp payload v in
    let ip = header_with src dst 17 total c dg in
    let passed =
      handle_udp-passes ip 20 net (8 + length payload) dg
        (two_bytes (8 + length payload) (omega (arith, w)))
        (take-all (8 + length payload) dg (omega arith)) configured own (omega arith) (omega arith)
        (omega arith) valid in
    let port : read_be16 dg 2 ≡ dp = two_bytes dp d in
    let found : handler_of max_handlers 0 (read_be16 dg 2) net.udp_bindings ≡ some h =
      ap (λ p. handler_of max_handlers 0 p net.udp_bindings) port ∙ bound in
    passed
    ∙ ap (λ o. call_of dg src o) found
    ∙ ap (λ p. some (call h src p payload)) (two_bytes sp s)

handle_frame-datagram :
    (to from : Mac) (src dst : Ip) (source_port destination_port v : ℕ) (payload : List ℕ)
    (net : Net) (h : ℕ)
    → IsBytes src
    → IsBytes dst
    → source_port < 2 ^ 16
    → destination_port < 2 ^ 16
    → length payload + 28 < 2 ^ 16
    → udp_checksum_valid src dst (datagram_with source_port destination_port payload v) ≡ true
    → ip_is_configured net ≡ true
    → same_ip dst net.local_ip ≡ true
    → handler_of max_handlers 0 destination_port net.udp_bindings ≡ some h
    → handle_frame
        (ethernet to from 2048
          (packet src dst 17 (datagram_with source_port destination_port payload v)))
        net
      ≡ (udp_call (call h src source_port payload), net)
unfolding handle_frame packet by_protocol
handle_frame-datagram to from src dst sp dp v payload net h s d sp_fits dp_fits w valid configured
      own bound =
    let dg = datagram_with sp dp payload v in
    let total = 20 + length dg in
    let c = checksum (header_with src dst 17 total 0 []) in
    let ip = header_with src dst 17 total c dg in
    let frame = ethernet to from 2048 ip in
    let long : ltb (length frame) 14 ≡ false = ground arith in
    let summed = checksum-header src dst 17 total s d (omega arith) (omega (arith, w)) in
    let passed =
      handle_ipv4-passes frame ip total net refl (omega arith) refl
        (two_bytes total (omega (arith, w))) (omega arith) (omega arith) refl summed in
    let called =
      handle_udp-datagram src dst sp dp v total c payload net h sp_fits dp_fits w valid configured
        own bound in
    rw (long) (passed ∙ ap (λ o. (event_of o, net)) called)

-- A datagram from `net_udp_send` as a frame that was put on the wire, and as what `handle_tcpip` makes
-- of the frame at a receiver.
pub record Delivered (src dst : Ip) (source_port destination_port : ℕ) (payload : List ℕ)
    (net receiver : Net) (h : ℕ) : Type 0 where
  pub frame : List ℕ
  pub was_sent : (udp_send dst destination_port source_port payload net).1.sent ≡ frame ∷ net.sent
  pub arrives : handle_tcpip frame receiver ≡ (udp_call (call h src source_port payload), receiver)

ensure_ready-same : (net : Net) → net.stack_ready ≡ true → ensure_ready net ≡ net
unfolding ensure_ready
ensure_ready-same net ready = rw (ensure_ready, ready) refl

udp_send-transmit :
    (dst next_hop : Ip) (mac : Mac) (source_port destination_port : ℕ) (payload : List ℕ)
    (net : Net)
    → net.stack_ready ≡ true
    → ip_is_configured net ≡ true
    → net.iface.initialized ≡ true
    → source_port ≢ 0
    → destination_port ≢ 0
    → length payload ≤ 1494
    → route dst net ≡ some next_hop
    → resolve next_hop net ≡ (some mac, net)
    → udp_send dst destination_port source_port payload net
      ≡ udp_transmit dst destination_port source_port payload (some mac, net)
unfolding udp_send udp_send_in
udp_send-transmit dst next_hop mac sp dp payload net ready configured up sp_some dp_some short
      routed known =
    let e1 : (dp == 0) ≡ false = ground (arith, dp_some) in
    let e2 : (sp == 0) ≡ false = ground (arith, sp_some) in
    let e3 : ltb 1494 (length payload) ≡ false = ground (arith, short) in
    let same = ensure_ready-same net ready in
    rw (udp_send, same, udp_send_in, e1, e2, e3, routed, known, configured, up) refl

sent-transmit :
    (dst : Ip) (mac : Mac) (source_port destination_port : ℕ) (payload : List ℕ) (net : Net)
    → net.iface.initialized ≡ true
    → (udp_transmit dst destination_port source_port payload (some mac, net)).1.sent
      ≡ ethernet mac net.iface.mac_addr 2048 (
          packet net.local_ip dst 17
            (datagram net.local_ip dst source_port destination_port payload))
        ∷ net.sent
sent-transmit dst mac sp dp payload net up = rw (up) refl

-- The field of the checksum.
datagram-field :
    (src dst : Ip) (source_port destination_port : ℕ) (payload : List ℕ)
    → (v : ℕ) × (datagram src dst source_port destination_port payload
        ≡ datagram_with source_port destination_port payload v)
unfolding datagram
datagram-field src dst sp dp payload =
    let sum = udp_checksum_value src dst (datagram_with sp dp payload 0) in
    (if sum == 0 then 65535 else sum, refl)

-- `net_udp_send` with ports that are not zero, to a destination whose next hop is in the cache, of at
-- most 1494 bytes: the frame it sends makes `net_handle_tcpip` of the destination call the handler
-- that is bound to the port there, with the port and the address of the sender and with the payload,
-- and changes nothing else there. Both sides are initialised and have an address, and ports,
-- addresses and the payload are in the range of their types.
pub udp_send-Delivered :
    (dst next_hop : Ip) (mac : Mac) (source_port destination_port : ℕ) (payload : List ℕ)
    (net receiver : Net) (h : ℕ)
    → net.stack_ready ≡ true
    → ip_is_configured net ≡ true
    → net.iface.initialized ≡ true
    → source_port ≢ 0
    → destination_port ≢ 0
    → source_port < 2 ^ 16
    → destination_port < 2 ^ 16
    → length payload ≤ 1494
    → AllBytes payload
    → IsBytes net.local_ip
    → IsBytes dst
    → route dst net ≡ some next_hop
    → resolve next_hop net ≡ (some mac, net)
    → receiver.stack_ready ≡ true
    → ip_is_configured receiver ≡ true
    → same_ip dst receiver.local_ip ≡ true
    → handler_of max_handlers 0 destination_port receiver.udp_bindings ≡ some h
    → Delivered net.local_ip dst source_port destination_port payload net receiver h
unfolding handle_tcpip
udp_send-Delivered dst hop mac sp dp payload net receiver h ready configured up sp_some dp_some
      sp_fits dp_fits short bytes own_bytes dst_bytes routed known ready' configured' own bound =
    let src = net.local_ip in
    let (v, field) = datagram-field src dst sp dp payload in
    let valid : udp_checksum_valid src dst (datagram_with sp dp payload v) ≡ true =
      subst (λ x. udp_checksum_valid src dst x ≡ true) field
        (udp_checksum_valid-datagram src dst sp dp payload own_bytes dst_bytes bytes
          (omega (arith, short))) in
    let frame =
      ethernet mac net.iface.mac_addr 2048 (packet src dst 17 (datagram_with sp dp payload v)) in
    let sent =
      udp_send-transmit dst hop mac sp dp payload net ready configured up sp_some dp_some short
        routed known in
    record {
      frame = frame;
      was_sent =
          ap (λ r. r.1.sent) sent
          ∙ sent-transmit dst mac sp dp payload net up
          ∙ ap (λ dg. ethernet mac net.iface.mac_addr 2048 (packet src dst 17 dg) ∷ net.sent) field;
      arrives =
          ap (λ n. handle_frame frame n) (ensure_ready-same receiver ready')
          ∙ handle_frame-datagram mac net.iface.mac_addr src dst sp dp v payload receiver h
              own_bytes dst_bytes sp_fits dp_fits (omega (arith, short)) valid configured' own
              bound;
    }
