-- ===== src/Tcp/Checksum.antt =====
-- The checksum of kernel/tcp.c: what `emit_segment` writes is what `net_tcp_input` accepts.
use os.Base.{
  ℕ, zero, suc, ◌+◌, ◌-◌, ◌*◌, ◌/◌, ◌%◌, ◌^◌, ◌<◌, ◌≤◌, ◌≡◌, true, List, [], ◌∷◌, ◌==◌, length,
  arith, Bool-cases, inl, inr,
}
use os.Tcp.Segment.{
  byte_at, add_words, fold_carries, sum_bytes, pseudo_header, checksum_value, checksum_valid,
  Fields, with_checksum, segment,
}

-- The sum of the 16-bit words, without a bound.
abbrev pub words : List ℕ → ℕ
words [] = 0
words (x ∷ []) = x * 256
words (x ∷ y ∷ rest) = x * 256 + y + words rest

abbrev pub AllBytes : List ℕ → Type 0
AllBytes [] = Unit {0}
AllBytes (x ∷ xs) = (x < 256) × AllBytes xs

pub words-bound : (xs : List ℕ) → AllBytes xs → 2 * words xs ≤ 65535 * (length xs + 1)
words-bound [] b = omega arith
words-bound (x ∷ []) b = omega (arith, b.0)
words-bound (x ∷ y ∷ rest) b = omega (arith, b.0, b.1.0, words-bound rest b.1.1)

add_words-words :
    (sum : ℕ) (xs : List ℕ) → sum < 2 ^ 32 → add_words sum xs ≡ (sum + words xs) % 2 ^ 32
unfolding add_words
add_words-words sum [] h = omega arith
add_words-words sum (x ∷ []) h = omega arith
add_words-words sum (x ∷ y ∷ rest) h =
    let s = (sum + (x * 256 + y)) % 2 ^ 32 in omega (arith, add_words-words s rest (omega arith))

-- A sum after its carries are folded in: 16 bits, and the same modulo 65535.
pub record Folded (s n : ℕ) : Type 0 where
  pub quotient : ℕ
  pub same : s ≡ n + 65535 * quotient
  pub small : n < 2 ^ 16
  pub positive : 0 < n

fold_carries-Folded : (s : ℕ) → 0 < s → s < 2 ^ 32 → Folded s (fold_carries 2 s % 2 ^ 16)
unfolding fold_carries
fold_carries-Folded s p w = elim (Bool-cases (s / 2 ^ 16 == 0)) [
  | inl e ↦
      let low : s < 2 ^ 16 = ground (arith, e) in
      let at : s % 2 ^ 16 ≡ s = omega (arith, low) in
      rw (fold_carries, e, at)
        (record { quotient = 0; same = omega arith; small = low; positive = p })
  | inr e ↦
      let high : 2 ^ 16 ≤ s = ground (arith, e) in
      let r = s % 2 ^ 16 + s / 2 ^ 16 in
      elim (Bool-cases (r / 2 ^ 16 == 0)) [
        | inl f ↦
            let low : r < 2 ^ 16 = ground (arith, f) in
            let at : r % 2 ^ 16 ≡ r = omega (arith, low) in
            rw (fold_carries, e, f, at)
              (record {
                quotient = s / 2 ^ 16;
                same = omega arith;
                small = low;
                positive = omega (arith, high);
              })
        | inr f ↦
            let big : 2 ^ 16 ≤ r = ground (arith, f) in
            let at : (r % 2 ^ 16 + r / 2 ^ 16) % 2 ^ 16 ≡ r - 65535 = omega (arith, big, w) in
            rw (fold_carries, e, f, at)
              (record {
                quotient = s / 2 ^ 16 + 1;
                same = omega (arith, big);
                small = omega (arith, big, w);
                positive = omega (arith, big);
              })
      ]
]

pub sum_bytes-Folded :
    (sum : ℕ) (xs : List ℕ)
    → 0 < sum + words xs
    → sum + words xs < 2 ^ 32
    → Folded (sum + words xs) (sum_bytes sum xs)
unfolding sum_bytes
sum_bytes-Folded sum xs p w =
    let same : add_words sum xs ≡ sum + words xs =
      omega (arith, add_words-words sum xs (omega (arith, w))) in
    rw (sum_bytes, same) (fold_carries-Folded (sum + words xs) p w)

-- The checksum stands at an even place.
words-with_checksum :
    (h : Fields) (payload : List ℕ) (c : ℕ)
    → c < 2 ^ 16
    → words (with_checksum h payload c) ≡ words (with_checksum h payload 0) + c
words-with_checksum h payload c w = omega (arith, w)

-- Two sums that differ by the complement of the first.
pub complement_lem : (s m n : ℕ) → Folded s m → Folded (s + (2 ^ 16 - 1 - m)) n → n ≡ 2 ^ 16 - 1
complement_lem s m n a b =
    let i = a.quotient in
    let j = b.quotient in omega (arith, a.same, a.small, a.positive, b.same, b.small, b.positive)

AllBytes-at : (xs : List ℕ) (i : ℕ) → AllBytes xs → byte_at xs i < 256
AllBytes-at [] i b = omega arith
AllBytes-at (x ∷ xs) zero b = b.0
AllBytes-at (x ∷ xs) (suc i) b = AllBytes-at xs i b.1

pseudo_header-small :
    (src dst : List ℕ) (len : ℕ)
    → AllBytes src
    → AllBytes dst
    → len < 2 ^ 16
    → (0 < pseudo_header src dst len) × (pseudo_header src dst len < 2 ^ 20)
pseudo_header-small src dst len a b w =
    let (a0, a1, a2, a3) : (byte_at src 0 < 256)
        × (byte_at src 1 < 256)
        × (byte_at src 2 < 256)
        × (byte_at src 3 < 256) =
      (AllBytes-at src 0 a, AllBytes-at src 1 a, AllBytes-at src 2 a, AllBytes-at src 3 a) in
    let (b0, b1, b2, b3) : (byte_at dst 0 < 256)
        × (byte_at dst 1 < 256)
        × (byte_at dst 2 < 256)
        × (byte_at dst 3 < 256) =
      (AllBytes-at dst 0 b, AllBytes-at dst 1 b, AllBytes-at dst 2 b, AllBytes-at dst 3 b) in
    (
      omega (arith, a0, a1, a2, a3, b0, b1, b2, b3, w),
      omega (arith, a0, a1, a2, a3, b0, b1, b2, b3, w),
    )

-- A segment that `emit_segment` sends, with a flags byte and payload bytes and no longer than an IP
-- packet, carries the checksum that `net_tcp_input` asks for: the sum over the addresses and the
-- segment is 0xFFFF.
pub checksum_valid-segment :
    (src dst : List ℕ) (h : Fields) (payload : List ℕ)
    → AllBytes src
    → AllBytes dst
    → h.flags < 256
    → AllBytes payload
    → length payload + 20 < 2 ^ 16
    → checksum_valid src dst (segment src dst h payload) ≡ true
unfolding checksum_valid segment checksum_value
checksum_valid-segment src dst h payload a b f p w =
    let zeroed = with_checksum h payload 0 in
    let len = length zeroed in
    let start = pseudo_header src dst len in
    let m = sum_bytes start zeroed in
    let head = pseudo_header-small src dst len a b (omega (arith, w)) in
    let bounded : words zeroed ≤ 2 ^ 31 + 20 * 65535 = omega (arith, f, w, words-bound payload p) in
    let first =
      sum_bytes-Folded start zeroed (omega (arith, head.0)) (omega (arith, head.1, bounded)) in
    let c = 2 ^ 16 - 1 - m in
    let done = with_checksum h payload c in
    let grown : words done ≡ words zeroed + c = words-with_checksum h payload c (omega arith) in
    let sum : start + words done ≡ start + words zeroed + c = omega (arith, grown) in
    let second : Folded (start + words zeroed + c) (sum_bytes start done) = rw (sum) at (
      sum_bytes-Folded start done (omega (arith, head.0))
        (omega (arith, head.1, bounded, grown))) in
    let full : sum_bytes start done ≡ 2 ^ 16 - 1 =
      complement_lem (start + words zeroed) m (sum_bytes start done) first second in
    ground (arith, full)
