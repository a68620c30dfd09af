-- ===== src/Net/Arp/Cache.antt =====
-- The ARP cache of kernel/net_stack.c: what is learned is resolved.
use os.Base.{
  ℕ, zero, suc, ◌+◌, ◌%◌, ◌<◌, ◌≤◌, ◌≡◌, refl, sym, ◌∙◌, ap, subst, Bool, true, false, ◌&&◌, ◌⊎◌,
  Option, none, some, ◌==◌, update, update_self, arith, Bool-cases, inl, inr,
}
use os.Net.{Net, Ip, Mac, Entry, cache_entries, same_ip, ip_is_zero, mac_is_zero, ip_is_configured}
use os.Net.Arp.{find_ip, put_mac, learn, resolve_in}

-- Whether an entry is the one of an address.
abbrev pub matches : (ℕ → Entry) → Ip → ℕ → Bool
matches cache ip j = (cache j).valid && same_ip (cache j).ip ip

eq-of : (a b : ℕ) → (a == b) ≡ true → a ≡ b
eq-of a b h = ground (arith, h)

step : (i j : ℕ) → i ≤ j → (i ≡ j) ⊎ (suc i ≤ j)
step i j low = ground (arith, low)

-- Entry `k` is the first one of an address from entry `i` on.
pub record FirstMatch (n i : ℕ) (ip : Ip) (k : ℕ) (cache : ℕ → Entry) : Type 0 where
  pub from : i ≤ k
  pub below : k < i + n
  pub here : matches cache ip k ≡ true
  pub first : (j : ℕ) → i ≤ j → j < k → matches cache ip j ≡ false

find_ip-cases :
    (n i : ℕ) (ip : Ip) (cache : ℕ → Entry)
    → ((k : ℕ) × (find_ip n i ip cache ≡ some k) × FirstMatch n i ip k cache)
      ⊎ ((find_ip n i ip cache ≡ none) × ((j : ℕ) → i ≤ j → j < i + n → matches cache ip j ≡ false))
unfolding find_ip
find_ip-cases zero i ip cache = inr (refl, λ j low high. absurd (omega (arith, low, high)))
find_ip-cases (suc n) i ip cache = elim (Bool-cases (matches cache ip i)) [
  | inl e ↦ inl (
    i,
    rw (find_ip, e) refl,
    record {
      from = omega arith;
      below = omega arith;
      here = e;
      first = λ j low high. absurd (omega (arith, low, high));
    },
  )
  | inr e ↦
      let here : (j : ℕ) → i ≡ j → matches cache ip j ≡ false =
        λ j same. subst (λ j. matches cache ip j ≡ false) same e in
      elim (find_ip-cases n (suc i) ip cache) [
        | inl (k, found, f) ↦ inl (
          k,
          rw (find_ip, e) found,
          record {
            from = omega (arith, f.from);
            below = omega (arith, f.below);
            here = f.here;
            first = λ j low high. elim (step i j low) [
              | inl same ↦ here j same
              | inr later ↦ f.first j later high
            ];
          },
        )
        | inr (missing, a) ↦ inr (
          rw (find_ip, e) missing,
          λ j low high. elim (step i j low) [
            | inl same ↦ here j same
            | inr later ↦ a j later (omega (arith, high))
          ],
        )
      ]
]

find_ip-first :
    (n i : ℕ) (ip : Ip) (k : ℕ) (cache : ℕ → Entry)
    → FirstMatch n i ip k cache
    → find_ip n i ip cache ≡ some k
unfolding find_ip
find_ip-first zero i ip k cache f = absurd (omega (arith, f.from, f.below))
find_ip-first (suc n) i ip k cache f = elim (step i k f.from) [
  | inl same ↦
      let here : matches cache ip i ≡ true =
        subst (λ x. matches cache ip x ≡ true) (sym same) f.here in
      rw (find_ip, here) (ap some same)
  | inr later ↦
      let other = f.first i (omega arith) (omega (arith, later)) in
      rw (find_ip, other)
        (find_ip-first n (suc i) ip k cache (record {
          from = later;
          below = omega (arith, f.below);
          here = f.here;
          first = λ j low high. f.first j (omega (arith, low)) high;
        }))
]

same_ip_self : (ip : Ip) → same_ip ip ip ≡ true
same_ip_self ip = ground arith

-- A change of the MAC of an entry does not change what it matches.
matches-mac :
    (cache : ℕ → Entry) (k : ℕ) (mac : Mac) (ip : Ip) (j : ℕ)
    → matches
        (update cache k (record { ip = (cache k).ip; mac = mac; valid = (cache k).valid }))
        ip
        j
      ≡ matches cache ip j
matches-mac cache k mac ip j = elim (Bool-cases (k == j)) [
  | inr e ↦ rw (e) refl
  | inl e ↦ rw (e) (ap (λ x. matches cache ip x) (eq-of k j e))
]

-- The cache holds an address: `resolve` finds this MAC without a request.
abbrev pub Known : Ip → Mac → Net → Type 0
Known ip mac net = resolve_in ip net ≡ (some mac, net)

known :
    (ip : Ip) (net : Net) (k : ℕ)
    → ip_is_configured net ≡ true
    → ip_is_zero ip ≡ false
    → find_ip cache_entries 0 ip net.arp_cache ≡ some k
    → Known ip (net.arp_cache k).mac net
unfolding resolve_in
known ip net k configured some_ip found = rw (resolve_in, found, some_ip, configured) refl

learn-put_mac :
    (ip : Ip) (mac : Mac) (net : Net) (o : Option ℕ)
    → ip_is_zero ip ≡ false
    → mac_is_zero mac ≡ false
    → (mac.a % 2 == 1) ≡ false
    → find_ip cache_entries 0 ip net.arp_cache ≡ o
    → learn ip mac net ≡ put_mac ip mac net o
unfolding learn
learn-put_mac ip mac net o some_ip some_mac unicast found =
    rw (learn, found, some_ip, some_mac, unicast) refl

-- After the cache learned a unicast MAC of an address, neither of them zero, the address is resolved
-- to it at once, on a configured stack, also when the address was known with another MAC or the cache
-- was full.
resolve_in-learn :
    (ip : Ip) (mac : Mac) (net : Net)
    → net.arp_cache_next < 16
    → ip_is_configured net ≡ true
    → ip_is_zero ip ≡ false
    → mac_is_zero mac ≡ false
    → (mac.a % 2 == 1) ≡ false
    → resolve_in ip (learn ip mac net) ≡ (some mac, learn ip mac net)
resolve_in-learn ip mac net next configured some_ip some_mac unicast =
    let cache = net.arp_cache in
    elim (find_ip-cases 16 0 ip cache) [
      | inl (k, found, f) ↦
          let same = learn-put_mac ip mac net (some k) some_ip some_mac unicast found in
          let now = put_mac ip mac net (some k) in
          let still : find_ip 16 0 ip now.arp_cache ≡ some k =
            find_ip-first 16 0 ip k now.arp_cache (record {
              from = f.from;
              below = f.below;
              here = matches-mac cache k mac ip k ∙ f.here;
              first = λ j low high. matches-mac cache k mac ip j ∙ f.first j low high;
            }) in
          let e : Entry = cache k in
          let entry = update_self cache k (record e { mac = mac }) in
          subst (λ n. Known ip mac n) (sym same)
            (subst (λ m. Known ip m now) (ap (λ x. x.mac) entry)
              (known ip now k configured some_ip still))
      | inr (missing, absent) ↦
          let same = learn-put_mac ip mac net none some_ip some_mac unicast missing in
          let now = put_mac ip mac net none in
          let k = net.arp_cache_next in
          let e : Entry = record { ip = ip; mac = mac; valid = true } in
          let entry = update_self cache k e in
          let other : (j : ℕ) → j < k → matches (update cache k e) ip j ≡ false = λ j lower.
            let ne : (k == j) ≡ false = ground (arith, lower) in
            rw (ne) (absent j (omega arith) (omega (arith, lower, next))) in
          let found : find_ip 16 0 ip now.arp_cache ≡ some k =
            find_ip-first 16 0 ip k now.arp_cache (record {
              from = omega arith;
              below = omega (arith, next);
              here = ap (λ x. x.valid && same_ip x.ip ip) entry ∙ same_ip_self ip;
              first = λ j low lower. other j lower;
            }) in
          subst (λ n. Known ip mac n) (sym same)
            (subst (λ m. Known ip m now) (ap (λ x. x.mac) entry)
              (known ip now k configured some_ip found))
    ]
