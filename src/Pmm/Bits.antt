-- ===== src/Pmm/Bits.antt =====
-- The bit operations of kernel/pmm.c on one byte of the bitmap, and their laws, checked at all
-- bytes and bits.
use Prim.Native.Nat.{bit_and, bit_or}
use os.Base.{
  ℕ, zero, suc, ◌+◌, ◌-◌, ◌^◌, ◌<◌, ◌≡◌, refl, sym, Bool, true, false, not, ◌&&◌, Option, none,
  some, arith, ltb, ◌==◌, if◌then◌else◌, holds_below, holds_below-at,
}

-- b & (1 << k)
abbrev pub test_bit : ℕ → ℕ → Bool
test_bit b k = not (bit_and b (2 ^ k) == 0)

-- b | (1 << k)
abbrev pub set_bit : ℕ → ℕ → ℕ
set_bit b k = bit_or b (2 ^ k)

-- b & ~(1 << k), as a u8
abbrev pub clear_bit : ℕ → ℕ → ℕ
clear_bit b k = bit_and b (255 - 2 ^ k)

-- The inner loop of `pmm_alloc_page`: the first bit from `bit` on, of `n`, that is clear.
unfoldable pub first_clear : ℕ → ℕ → ℕ → Option ℕ
first_clear zero bit b = none
first_clear (suc n) bit b =
    let rest = first_clear n (bit + 1) b in if test_bit b bit then rest else some bit

abbrev beq : Bool → Bool → Bool
beq true c = c
beq false c = not c

beq-eq : (b c : Bool) → beq b c ≡ true → b ≡ c
beq-eq true c h = sym h
beq-eq false true h = h
beq-eq false false h = refl

-- A test on a byte and two bits, at all of them.
abbrev all_bits : (ℕ → ℕ → ℕ → Bool) → Bool
all_bits t = holds_below 256 (λ b. holds_below 8 (λ k. holds_below 8 (λ j. t b k j)))

all_bits_sound :
    (t : ℕ → ℕ → ℕ → Bool) (b k j : ℕ)
    → all_bits t ≡ true
    → b < 256
    → k < 8
    → j < 8
    → t b k j ≡ true
all_bits_sound t b k j h hb hk hj =
    holds_below-at 8 _ j
      (holds_below-at 8 _ k
        (holds_below-at 256 (λ b. holds_below 8 (λ k. holds_below 8 (t b k))) b h hb) hk)
      hj

abbrev set_test : ℕ → ℕ → ℕ → Bool
set_test b k j = beq (test_bit (set_bit b k) j) (if k == j then true else test_bit b j)

set_table : all_bits set_test ≡ true
unfolding holds_below
set_table = refl

pub test_bit-set_bit :
    (b k j : ℕ)
    → b < 256
    → k < 8
    → j < 8
    → test_bit (set_bit b k) j ≡ (if k == j then true else test_bit b j)
test_bit-set_bit b k j hb hk hj = beq-eq _ _ (all_bits_sound set_test b k j set_table hb hk hj)

abbrev clear_test : ℕ → ℕ → ℕ → Bool
clear_test b k j = beq (test_bit (clear_bit b k) j) (if k == j then false else test_bit b j)

clear_table : all_bits clear_test ≡ true
unfolding holds_below
clear_table = refl

pub test_bit-clear_bit :
    (b k j : ℕ)
    → b < 256
    → k < 8
    → j < 8
    → test_bit (clear_bit b k) j ≡ (if k == j then false else test_bit b j)
test_bit-clear_bit b k j hb hk hj =
    beq-eq _ _ (all_bits_sound clear_test b k j clear_table hb hk hj)

abbrev range_test : ℕ → ℕ → ℕ → Bool
range_test b k j = ltb (set_bit b k) 256 && ltb (clear_bit b k) 256

range_table : all_bits range_test ≡ true
unfolding holds_below
range_table = refl

pub bits_in_range : (b k : ℕ) → b < 256 → k < 8 → (set_bit b k < 256) × (clear_bit b k < 256)
bits_in_range b k hb hk =
    ground (arith, all_bits_sound range_test b k 0 range_table hb hk (omega arith))

-- Whether the answer of `first_clear` is right for a byte.
abbrev first_test : ℕ → Option ℕ → Bool
first_test b none = b == 255
first_test b (some k) = ltb k 8 && not (test_bit b k)

first_table : holds_below 256 (λ b. first_test b (first_clear 8 0 b)) ≡ true
unfolding holds_below first_clear
first_table = refl

-- A byte has no clear bit only if it is 0xFF.
pub first_clear-none : (b : ℕ) → b < 256 → first_clear 8 0 b ≡ none → b ≡ 255
first_clear-none b hb e =
    ground (arith, holds_below-at 256 (λ b. first_test b (first_clear 8 0 b)) b first_table hb)

pub first_clear-some :
    (b k : ℕ) → b < 256 → first_clear 8 0 b ≡ some k → (k < 8) × (test_bit b k ≡ false)
first_clear-some b k hb e =
    ground (arith, holds_below-at 256 (λ b. first_test b (first_clear 8 0 b)) b first_table hb)

full_table : holds_below 8 (λ k. test_bit 255 k) ≡ true
unfolding holds_below
full_table = refl

pub full_byte : (k : ℕ) → k < 8 → test_bit 255 k ≡ true
full_byte k hk = holds_below-at 8 (λ k. test_bit 255 k) k full_table hk

zero_table : holds_below 8 (λ k. not (test_bit 0 k)) ≡ true
unfolding holds_below
zero_table = refl

pub zero_byte : (k : ℕ) → k < 8 → test_bit 0 k ≡ false
zero_byte k hk = ground (arith, holds_below-at 8 (λ k. not (test_bit 0 k)) k zero_table hk)
