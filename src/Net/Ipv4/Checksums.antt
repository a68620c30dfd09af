-- ===== src/Net/Ipv4/Checksums.antt =====
-- The checksums of the packets that kernel/net_stack.c builds.
use os.Base.{
  ℕ, ◌+◌, ◌-◌, ◌*◌, ◌^◌, ◌<◌, ◌≤◌, ◌≡◌, refl, ap, subst, true, List, [], ◌==◌, if◌then◌else◌,
  length, arith, Bool-cases, inl, inr,
}
use os.Tcp.Segment.{sum_bytes}
use os.Tcp.Checksum.{words, AllBytes, words-bound, Folded, sum_bytes-Folded, complement_lem}
use os.Net.{Ip, checksum}
use os.Net.Udp.{pseudo_sum, udp_checksum_value, udp_checksum_valid, datagram_with, datagram}
use os.Net.Ipv4.{header_with}

abbrev pub IsBytes : Ip → Type 0
IsBytes x = (x.a < 256) × (x.b < 256) × (x.c < 256) × (x.d < 256)

-- A sum whose complement was filled in where there were zeros.
filled :
    (start c : ℕ) (before after : List ℕ)
    → 0 < start + words before
    → start + words after < 2 ^ 32
    → words after ≡ words before + c
    → c ≡ 2 ^ 16 - 1 - sum_bytes start before
    → sum_bytes start after ≡ 2 ^ 16 - 1
filled start c before after p w grown e =
    let m = sum_bytes start before in
    let first = sum_bytes-Folded start before p (omega (arith, w, grown)) in
    let sum : start + words after ≡ start + words before + (2 ^ 16 - 1 - m) =
      omega (arith, grown, e) in
    let second : Folded (start + words before + (2 ^ 16 - 1 - m)) (sum_bytes start after) =
      subst (λ s. Folded s (sum_bytes start after)) sum
        (sum_bytes-Folded start after (omega (arith, p, grown)) w) in
    complement_lem (start + words before) m (sum_bytes start after) first second

-- The header of a packet that is sent passes the check of its receiver.
pub checksum-header :
    (src dst : Ip) (protocol total : ℕ)
    → IsBytes src
    → IsBytes dst
    → protocol < 256
    → total < 2 ^ 16
    → checksum
        (header_with src dst protocol total (checksum (header_with src dst protocol total 0 [])) [])
      ≡ 0
unfolding checksum
checksum-header src dst protocol total s d p t =
    let zeroed = header_with src dst protocol total 0 [] in
    let c = 2 ^ 16 - 1 - sum_bytes 0 zeroed in
    let done = header_with src dst protocol total c [] in
    let grown : words done ≡ words zeroed + c = omega arith in
    let bounded : words done < 2 ^ 32 =
      omega (arith, t, p, s.0, s.1, s.2, s.3, d.0, d.1, d.2, d.3) in
    let full : sum_bytes 0 done ≡ 2 ^ 16 - 1 =
      filled 0 c zeroed done (omega arith) (omega (arith, bounded)) grown refl in
    omega (arith, full)

-- A checksum of zero is sent as 0xFFFF, which changes no sum.
same_or_full :
    (s m n : ℕ) → Folded s m → m ≡ 2 ^ 16 - 1 → Folded (s + (2 ^ 16 - 1)) n → n ≡ 2 ^ 16 - 1
same_or_full s m n a e b =
    let i = a.quotient in
    let j = b.quotient in omega (arith, e, a.same, a.small, a.positive, b.same, b.small, b.positive)

pseudo_sum-small :
    (src dst : Ip) (len : ℕ)
    → IsBytes src
    → IsBytes dst
    → len < 2 ^ 16
    → (0 < pseudo_sum src dst len) × (pseudo_sum src dst len < 2 ^ 20)
pseudo_sum-small src dst len s d w = (
  omega (arith, s.0, s.1, s.2, s.3, d.0, d.1, d.2, d.3, w),
  omega (arith, s.0, s.1, s.2, s.3, d.0, d.1, d.2, d.3, w),
)

words-datagram_with :
    (source_port destination_port : ℕ) (payload : List ℕ) (c : ℕ)
    → c < 2 ^ 16
    → words (datagram_with source_port destination_port payload c)
      ≡ words (datagram_with source_port destination_port payload 0) + c
words-datagram_with source_port destination_port payload c w = omega (arith, w)

-- The sum over a datagram, whichever of the two stands for the complement.
datagram-full :
    (src dst : Ip) (source_port destination_port : ℕ) (payload : List ℕ)
    → IsBytes src
    → IsBytes dst
    → AllBytes payload
    → length payload + 8 < 2 ^ 16
    → (start c : ℕ) → start ≡ pseudo_sum src dst (8 + length payload)
    → c ≡ 2 ^ 16 - 1 - sum_bytes start (datagram_with source_port destination_port payload 0)
    → sum_bytes start
        (datagram_with source_port destination_port payload (if c == 0 then 65535 else c))
      ≡ 2 ^ 16 - 1
datagram-full src dst sp dp payload s d b w start c at same =
    let zeroed = datagram_with sp dp payload 0 in
    let head = pseudo_sum-small src dst (8 + length payload) s d (omega (arith, w)) in
    let low : start < 2 ^ 20 = omega (arith, at, head.1) in
    let positive : 0 < start = omega (arith, at, head.0) in
    let bounded : words zeroed ≤ 2 ^ 31 + 20 * 65535 = omega (arith, w, words-bound payload b) in
    let grown = words-datagram_with sp dp payload c (omega (arith, same)) in
    let room : start + words (datagram_with sp dp payload c) < 2 ^ 32 =
      omega (arith, grown, bounded, low, same) in
    let some : 0 < start + words zeroed = omega (arith, positive) in
    elim (Bool-cases (c == 0)) [
      | inr e ↦ rw (e) (filled start c zeroed (datagram_with sp dp payload c) some room grown same)
      | inl e ↦
          let first = sum_bytes-Folded start zeroed some (omega (arith, low, bounded)) in
          let more = words-datagram_with sp dp payload 65535 (omega arith) in
          let full = datagram_with sp dp payload 65535 in
          let sum : start + words full ≡ start + words zeroed + (2 ^ 16 - 1) =
            omega (arith, more) in
          let second : Folded (start + words zeroed + (2 ^ 16 - 1)) (sum_bytes start full) =
            subst (λ s. Folded s (sum_bytes start full)) sum
              (sum_bytes-Folded start full (omega (arith, positive))
                (omega (arith, more, bounded, low))) in
          let whole : sum_bytes start zeroed ≡ 2 ^ 16 - 1 =
            complete c (sum_bytes start zeroed) e same first.small in
          rw (e) (
            same_or_full (start + words zeroed) (sum_bytes start zeroed) (sum_bytes start full)
              first whole second)
    ]
  where
    complete : (c m : ℕ) → (c == 0) ≡ true → c ≡ 2 ^ 16 - 1 - m → m < 2 ^ 16 → m ≡ 2 ^ 16 - 1
    complete c m e same low = ground arith

full_valid : (n : ℕ) → n ≡ 2 ^ 16 - 1 → ((2 ^ 16 - 1 - n) == 0) ≡ true
full_valid n e = ground arith

-- So does a datagram, also when its checksum would be zero.
pub udp_checksum_valid-datagram :
    (src dst : Ip) (source_port destination_port : ℕ) (payload : List ℕ)
    → IsBytes src
    → IsBytes dst
    → AllBytes payload
    → length payload + 8 < 2 ^ 16
    → udp_checksum_valid src dst (datagram src dst source_port destination_port payload) ≡ true
unfolding udp_checksum_value datagram
udp_checksum_valid-datagram src dst sp dp payload s d b w =
    let start = pseudo_sum src dst (length (datagram_with sp dp payload 0)) in
    let c = 2 ^ 16 - 1 - sum_bytes start (datagram_with sp dp payload 0) in
    let eight : start ≡ pseudo_sum src dst (8 + length payload) =
      ap (λ n. pseudo_sum src dst n) (omega arith) in
    full_valid (sum_bytes start (datagram_with sp dp payload (if c == 0 then 65535 else c)))
      (datagram-full src dst sp dp payload s d b w start c eight refl)
