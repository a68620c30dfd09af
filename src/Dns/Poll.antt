-- ===== src/Dns/Poll.antt =====
-- A lookup of kernel/dns.c that gets no answer.
use os.Base.{
  ℕ, zero, suc, ◌+◌, ◌-◌, ◌*◌, ◌%◌, ◌^◌, ◌<◌, ◌≤◌, ◌≡◌, refl, sym, subst, true, false, none, ltb,
  leb, arith, Bool-cases, inl, inr,
}
use os.Net.{Net}
use os.Net.Ipv4.{udp_send}
use os.Dns.{Dns, poll, dns_port, source_port}

-- The answers, the lookup and the network after a number of polls.
unfoldable pub polls : ℕ → Dns → Net → Dns × Net
polls zero dns net = (dns, net)
polls (suc n) dns net = polls n (poll dns net).1 (poll dns net).2

poll-idle : (dns : Dns) (net : Net) → dns.active ≡ false → poll dns net ≡ (none, dns, net)
unfolding poll
poll-idle dns net idle = simp (poll, idle) refl

polls-idle :
    (n : ℕ) (dns : Dns) (net : Net) → dns.active ≡ false → (polls n dns net).0.active ≡ false
unfolding polls
polls-idle zero dns net idle = idle
polls-idle (suc n) dns net idle =
    subst (λ r. (polls n r.1 r.2).0.active ≡ false) (sym (poll-idle dns net idle))
      (polls-idle n dns net idle)

poll-waits :
    (dns : Dns) (net : Net)
    → dns.active ≡ true
    → dns.poll_ticks + 1 < 4096
    → poll dns net ≡ (none, record dns { poll_ticks = dns.poll_ticks + 1 }, net)
unfolding poll
poll-waits dns net active few =
    let e1 : (dns.poll_ticks + 1) % 2 ^ 32 ≡ dns.poll_ticks + 1 = omega (arith, few) in
    let e2 : ltb (dns.poll_ticks + 1) 4096 ≡ true = ground (arith, few) in
    rw (poll, e1, e2, active) refl

pub poll-asks :
    (dns : Dns) (net : Net)
    → dns.active ≡ true
    → dns.poll_ticks ≡ 4095
    → dns.attempts < 5
    → poll dns net ≡ (
      none,
      record dns { poll_ticks = 0; attempts = dns.attempts + 1 },
      (udp_send dns.dns_server dns_port source_port dns.query_packet net).1,
    )
unfolding poll
poll-asks dns net active now more =
    let e1 : ltb ((dns.poll_ticks + 1) % 2 ^ 32) 4096 ≡ false = ground (arith, now) in
    let e2 : leb 5 dns.attempts ≡ false = ground (arith, more) in rw (poll, e1, e2, active) refl

poll-gives_up :
    (dns : Dns) (net : Net)
    → dns.active ≡ true
    → dns.poll_ticks ≡ 4095
    → 5 ≤ dns.attempts
    → (poll dns net).1.active ≡ false
unfolding poll
poll-gives_up dns net active now enough =
    let e1 : ltb ((dns.poll_ticks + 1) % 2 ^ 32) 4096 ≡ false = ground (arith, now) in
    let e2 : leb 5 dns.attempts ≡ true = ground (arith, enough) in rw (poll, e1, e2, active) refl

-- A lookup that was started is over after 6 * 4096 polls less those since the last request, whatever
-- happens to the requests: it does not wait for ever.
pub polls-Over :
    (n : ℕ) (dns : Dns) (net : Net)
    → dns.poll_ticks < 4096
    → dns.attempts ≤ 5
    → (6 - dns.attempts) * 4096 ≤ n + dns.poll_ticks
    → (polls n dns net).0.active ≡ false
unfolding polls
polls-Over zero dns net low few enough = absurd (omega (arith, low, few, enough))
polls-Over (suc n) dns net low few enough = elim (Bool-cases dns.active) [
  | inr idle ↦ polls-idle (suc n) dns net idle
  | inl active ↦ elim (Bool-cases (ltb (dns.poll_ticks + 1) 4096)) [
    | inl t ↦
        let early : dns.poll_ticks + 1 < 4096 = ground (arith, t) in
        subst (λ r. (polls n r.1 r.2).0.active ≡ false) (sym (poll-waits dns net active early))
          (polls-Over n (record dns { poll_ticks = dns.poll_ticks + 1 }) net early few
            (omega (arith, enough)))
    | inr t ↦
        let now : dns.poll_ticks ≡ 4095 = ground (arith, t, low) in
        elim (Bool-cases (ltb dns.attempts 5)) [
          | inl m ↦
              let more : dns.attempts < 5 = ground (arith, m) in
              subst (λ r. (polls n r.1 r.2).0.active ≡ false)
                (sym (poll-asks dns net active now more))
                (polls-Over n (record dns { poll_ticks = 0; attempts = dns.attempts + 1 })
                  (udp_send dns.dns_server dns_port source_port dns.query_packet net).1
                  (omega arith) (omega (arith, more)) (omega (arith, enough, now, more)))
          | inr m ↦
              polls-idle n (poll dns net).1 (poll dns net).2
                (poll-gives_up dns net active now (ground (arith, m)))
        ]
  ]
]
