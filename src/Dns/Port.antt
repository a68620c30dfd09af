-- ===== src/Dns/Port.antt =====
-- The port of the answers to the requests of kernel/dns.c.
use os.Base.{
  ℕ, zero, suc, ◌+◌, ◌-◌, ◌*◌, ◌<◌, ◌≤◌, ◌≡◌, ◌≢◌, refl, sym, ◌∙◌, ap, Bool, true, false, not, ◌&&◌,
  ◌||◌, Option, none, some, List, [], ◌∷◌, ◌==◌, ltb, take, drop, length, arith, Bool-cases, inl,
  inr,
}
use os.Tcp.Segment.{byte_at, read_be16}
use os.Net.{Net, Ip, max_handlers, ip_is_configured, same_ip, ip_at, ip_is_zero}
use os.Net.Setup.{parse_ipv4}
use os.Net.Udp.{call_of, udp_checksum_valid, handle_udp, handler_of, bind}
use os.Net.Udp.Bindings.{IsValid, bind-Rebound}
use os.Net.Ipv4.{udp_send}
use os.Dns.{Dns, bound, init, init_at, dns_port, response_handler, poll}
use os.Dns.Poll.{poll-asks}

byte_at-take : (n i : ℕ) (xs : List ℕ) → i < n → byte_at (take n xs) i ≡ byte_at xs i
byte_at-take zero i xs h = absurd (omega (arith, h))
byte_at-take (suc n) i [] h = refl
byte_at-take (suc n) zero (x ∷ xs) h = refl
byte_at-take (suc n) (suc i) (x ∷ xs) h = byte_at-take n i xs (omega (arith, h))

-- `handle_udp` calls nothing when no handler stands at the destination port.
handle_udp-unbound :
    (ip : List ℕ) (ihl port : ℕ) (net : Net)
    → read_be16 (drop ihl ip) 2 ≡ port
    → handler_of max_handlers 0 port net.udp_bindings ≡ none
    → handle_udp ip ihl net ≡ none
unfolding handle_udp
handle_udp-unbound ip ihl port net to unbound =
    let udp_len = read_be16 (drop ihl ip) 4 in
    let udp = take udp_len (drop ihl ip) in
    elim (Bool-cases (
      not (ip_is_configured net)
      || not (same_ip (ip_at ip 16) net.local_ip)
      || ltb (length ip) (ihl + 8))) [
        | inl g ↦ rw (handle_udp, g) refl
        | inr g ↦ elim (Bool-cases (ltb udp_len 8 || ltb (length ip - ihl) udp_len)) [
          | inl g2 ↦ rw (handle_udp, g, g2) refl
          | inr g2 ↦
              elim (Bool-cases (
                not (read_be16 udp 6 == 0)
                && not (udp_checksum_valid (ip_at ip 12) (ip_at ip 16) udp))) [
                  | inl g3 ↦ rw (handle_udp, g, g2, g3) refl
                  | inr g3 ↦
                      let long : 8 ≤ udp_len = long_enough udp_len (length ip - ihl) g2 in
                      let same : read_be16 udp 2 ≡ port =
                        ap (λ b. b * 256 + byte_at udp 3)
                          (byte_at-take udp_len 2 (drop ihl ip) (omega (arith, long)))
                        ∙ ap (λ b. byte_at (drop ihl ip) 2 * 256 + b)
                            (byte_at-take udp_len 3 (drop ihl ip) (omega (arith, long)))
                        ∙ to in
                      let none_there : handler_of max_handlers 0 (read_be16 udp 2) net.udp_bindings
                          ≡ none =
                        ap (λ p. handler_of max_handlers 0 p net.udp_bindings) same ∙ unbound in
                      rw (handle_udp, g, g2, g3) (ap (λ o. call_of udp (ip_at ip 12) o) none_there)
                ]
        ]
      ]
  where
    long_enough : (n m : ℕ) → (ltb n 8 || ltb m n) ≡ false → 8 ≤ n
    long_enough n m h = ground (arith, h)

bound-net : (server : Ip) (dns : Dns) (r : Bool × Net) → (bound server dns r).2 ≡ r.1
bound-net server dns (true, net) = refl
bound-net server dns (false, net) = refl

init_at-others :
    (server : Option Ip) (dns : Dns) (net : Net) (port : ℕ)
    → IsValid net.udp_bindings
    → port ≢ 53
    → port ≢ 0
    → handler_of max_handlers 0 port (init_at server dns net).2.udp_bindings
      ≡ handler_of max_handlers 0 port net.udp_bindings
init_at-others none dns net port v other p = refl
init_at-others (some server) dns net port v other p = elim (Bool-cases (ip_is_zero server)) [
  | inl z ↦ rw (z) refl
  | inr z ↦
      let result = bind dns_port (some response_handler) net in
      let kept : handler_of max_handlers 0 port result.1.udp_bindings
          ≡ handler_of max_handlers 0 port net.udp_bindings =
        elim (bind-Rebound 53 response_handler net v (λ e. absurd (omega (arith, e)))) [
          | inl (ok, b) ↦ b.others port other p
          | inr (same, full) ↦ ap (λ r. handler_of max_handlers 0 port r.1.udp_bindings) same
        ] in
      rw (z) (
        ap (λ n. handler_of max_handlers 0 port n.udp_bindings) (bound-net server dns result)
        ∙ kept)
]

bound-ok : (server : Ip) (dns : Dns) (r : Bool × Net) → (bound server dns r).0 ≡ r.0
bound-ok server dns (true, net) = refl
bound-ok server dns (false, net) = refl

init_at-here :
    (server : Option Ip) (dns : Dns) (net : Net)
    → IsValid net.udp_bindings
    → (init_at server dns net).0 ≡ true
    → handler_of max_handlers 0 53 (init_at server dns net).2.udp_bindings ≡ some response_handler
init_at-here none dns net v ok = absurd (cc ok)
init_at-here (some server) dns net v ok = elim (Bool-cases (ip_is_zero server)) [
  | inl z ↦ absurd (cc (simp (z) at ok))
  | inr z ↦
      let result = bind dns_port (some response_handler) net in
      let done : result.0 ≡ true = sym (bound-ok server dns result) ∙ (rw (z) at ok) in
      let stands : handler_of max_handlers 0 53 result.1.udp_bindings ≡ some response_handler =
        elim (bind-Rebound 53 response_handler net v (λ e. absurd (omega (arith, e)))) [
          | inl (_, b) ↦ b.here
          | inr (same, full) ↦ absurd (cc (sym done ∙ ap (λ r. r.0) same))
        ] in
      rw (z) (
        ap (λ n. handler_of max_handlers 0 53 n.udp_bindings) (bound-net server dns result)
        ∙ stands)
]

-- After a first call of `net_dns_init` that returns true, on a stack where nothing listened on port
-- 53000, the handler of the answers stands at port 53; a request that is due in `net_dns_poll` is
-- sent to port 53 of the server from port 53000, where the answer goes; and a packet for port 53000
-- calls no handler.
pub handle_udp-init :
    (configured : List ℕ) (dns : Dns) (net : Net) (ip : List ℕ) (ihl : ℕ) (asking : Dns)
    → IsValid net.udp_bindings
    → dns.ready ≡ false
    → (init configured dns net).0 ≡ true
    → handler_of max_handlers 0 53000 net.udp_bindings ≡ none
    → asking.active ≡ true
    → asking.poll_ticks ≡ 4095
    → asking.attempts < 5
    → read_be16 (drop ihl ip) 2 ≡ 53000
    → let after = (init configured dns net).2 in
      (handler_of max_handlers 0 53 after.udp_bindings ≡ some response_handler)
      × (poll asking after ≡ (
        none,
        record asking { poll_ticks = 0; attempts = asking.attempts + 1 },
        (udp_send asking.dns_server 53 53000 asking.query_packet after).1,
      ))
      × (handle_udp ip ihl after ≡ none)
unfolding init
handle_udp-init configured dns net ip ihl asking v first ok silent active now more to =
    let server = parse_ipv4 configured in
    let started : init configured dns net ≡ init_at server dns net = rw (init, first) refl in
    let none_there : handler_of max_handlers 0 53000 (init configured dns net).2.udp_bindings
        ≡ none =
      ap (λ r. handler_of max_handlers 0 53000 r.2.udp_bindings) started
      ∙ init_at-others server dns net 53000 v (λ e. absurd (omega (arith, e)))
          (λ e. absurd (omega (arith, e)))
      ∙ silent in
    (
      ap (λ r. handler_of max_handlers 0 53 r.2.udp_bindings) started
          ∙ init_at-here server dns net v (sym (ap (λ r. r.0) started) ∙ ok),
      poll-asks asking (init configured dns net).2 active now more,
      handle_udp-unbound ip ihl 53000 (init configured dns net).2 to none_there,
    )
