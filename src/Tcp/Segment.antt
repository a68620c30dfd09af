-- ===== src/Tcp/Segment.antt =====
-- The bytes of a segment in kernel/tcp.c: the header that `emit_segment` writes, the fields that
-- `net_tcp_input` reads, and the checksum.
use os.Base.{
  ℕ, zero, suc, ◌+◌, ◌-◌, ◌*◌, ◌/◌, ◌%◌, ◌^◌, Bool, ◌&&◌, List, [], ◌∷◌, ◌==◌, length, get_or,
  if◌then◌else◌,
}

-- p[i]
abbrev pub byte_at : List ℕ → ℕ → ℕ
byte_at bytes i = get_or bytes i 0

abbrev pub read_be16 : List ℕ → ℕ → ℕ
read_be16 p i = byte_at p i * 256 + byte_at p (i + 1)

abbrev pub read_be32 : List ℕ → ℕ → ℕ
read_be32 p i =
    byte_at p i * 2 ^ 24
    + byte_at p (i + 1) * 2 ^ 16
    + byte_at p (i + 2) * 2 ^ 8
    + byte_at p (i + 3)

-- The bytes that `write_be16` and `write_be32` put in front of the others.
abbrev pub write_be16 : ℕ → List ℕ → List ℕ
write_be16 value rest = value / 256 % 256 ∷ value % 256 ∷ rest

abbrev pub write_be32 : ℕ → List ℕ → List ℕ
write_be32 value rest =
    value / 2 ^ 24 % 256 ∷ value / 2 ^ 16 % 256 ∷ value / 2 ^ 8 % 256 ∷ value % 256 ∷ rest

abbrev pub ip_equal : List ℕ → List ℕ → Bool
ip_equal a b =
    (byte_at a 0 == byte_at b 0)
    && (byte_at a 1 == byte_at b 1)
    && (byte_at a 2 == byte_at b 2)
    && (byte_at a 3 == byte_at b 3)

-- The first loop of `sum_bytes`, and the odd byte at the end; the sum is a u32.
unfoldable pub add_words : ℕ → List ℕ → ℕ
add_words sum [] = sum
add_words sum (x ∷ []) = (sum + x * 256) % 2 ^ 32
add_words sum (x ∷ y ∷ rest) = add_words ((sum + (x * 256 + y)) % 2 ^ 32) rest

-- The second loop: while (sum >> 16) sum = (sum & 0xFFFF) + (sum >> 16). Two rounds are enough.
unfoldable pub fold_carries : ℕ → ℕ → ℕ
fold_carries zero sum = sum
fold_carries (suc f) sum =
    let rest = fold_carries f (sum % 2 ^ 16 + sum / 2 ^ 16) in
    if sum / 2 ^ 16 == 0 then sum else rest

unfoldable pub sum_bytes : ℕ → List ℕ → ℕ
unfolding add_words fold_carries
sum_bytes sum bytes = fold_carries 2 (add_words sum bytes) % 2 ^ 16

-- What stands in for the IP header: the addresses, the protocol and the length.
abbrev pub pseudo_header : List ℕ → List ℕ → ℕ → ℕ
pseudo_header src dst len =
    (read_be16 src 0 + read_be16 dst 0 + read_be16 src 2 + read_be16 dst 2 + 6 + len) % 2 ^ 32

unfoldable pub checksum_value : List ℕ → List ℕ → List ℕ → ℕ
unfolding sum_bytes
checksum_value src dst bytes = 2 ^ 16 - 1 - sum_bytes (pseudo_header src dst (length bytes)) bytes

unfoldable pub checksum_valid : List ℕ → List ℕ → List ℕ → Bool
unfolding sum_bytes
checksum_valid src dst bytes = sum_bytes (pseudo_header src dst (length bytes)) bytes == 2 ^ 16 - 1

-- What `emit_segment` puts in the header.
pub record Fields : Type 0 where
  pub local_port : ℕ
  pub remote_port : ℕ
  pub sequence : ℕ
  pub acknowledgement : ℕ
  pub flags : ℕ

-- `out_segment` with a checksum in place. The window is 4096, and 0x50 says that the header takes 20
-- bytes.
abbrev pub with_checksum : Fields → List ℕ → ℕ → List ℕ
with_checksum h payload checksum = write_be16 h.local_port (
    write_be16 h.remote_port (
      write_be32 h.sequence (
        write_be32 h.acknowledgement
          (80 ∷ h.flags ∷ write_be16 4096 (write_be16 checksum (0 ∷ 0 ∷ payload))))))

-- The segment that `emit_segment` sends from `src` to `dst`.
unfoldable pub segment : List ℕ → List ℕ → Fields → List ℕ → List ℕ
unfolding checksum_value
segment src dst h payload =
    with_checksum h payload (checksum_value src dst (with_checksum h payload 0))

-- flags & (1 << bit)
abbrev pub has_flag : ℕ → ℕ → Bool
has_flag flags bit = flags / 2 ^ bit % 2 == 1

-- The exclusive or of the lowest bits.
unfoldable pub xor_bits : ℕ → ℕ → ℕ → ℕ
xor_bits zero a b = 0
xor_bits (suc n) a b = (a % 2 + b % 2) % 2 + 2 * xor_bits n (a / 2) (b / 2)
