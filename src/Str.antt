-- ===== src/Str.antt =====
-- kernel/string.c: numbers to text and back, and the moves of bytes in memory. A character is its
-- code; a string is the list of its characters before the NUL.
pub mod Digits
pub mod Move
pub mod Search
pub mod Signed
mod Tests
use os.Base.{
  ℕ, zero, suc, ◌+◌, ◌-◌, ◌*◌, ◌/◌, ◌%◌, ◌^◌, ◌&&◌, ◌||◌, Option, none, some, List, [], ◌∷◌, ltb,
  leb, ◌==◌, if◌then◌else◌, update,
}

-- The value of a digit or letter.
abbrev pub digit_value : ℕ → Option ℕ
digit_value c =
    if leb 48 c && leb c 57
    then some (c - 48)
    else if leb 97 c && leb c 122
    then some (c - 97 + 10)
    else if leb 65 c && leb c 90
    then some (c - 65 + 10)
    else none

-- The loop of `katoi`, on u64.
pub katoi_loop : ℕ → ℕ → List ℕ → ℕ
katoi_loop base result [] = result
katoi_loop base result (c ∷ s) =
    let rest : ℕ → ℕ = λ r. katoi_loop base r s in
    elim (digit_value c) [
      | none ↦ result
      | some val ↦ if leb base val then result else rest ((result * base + val) % 2 ^ 64)
    ]

-- `s` is none for NULL.
pub katoi : Option (List ℕ) → ℕ → ℕ
katoi none base = 0
katoi (some s) base = if ltb base 2 || ltb 36 base then 0 else katoi_loop base 0 s

-- (rem < 10) ? '0' + rem : 'A' + rem - 10
abbrev pub digit : ℕ → ℕ
digit rem = if ltb rem 10 then 48 + rem else 65 + rem - 10

-- The digits of a value that is not 0, the last one first into `tmp`, which is then read backwards:
-- each goes in front of those before it. A u64 has at most 64 digits.
pub push_digits : ℕ → ℕ → ℕ → List ℕ → List ℕ
push_digits zero val base out = out
push_digits (suc f) val base out =
    let rest = push_digits f (val / base) base (digit (val % base) ∷ out) in
    if val == 0 then out else rest

pub kutoa : ℕ → ℕ → List ℕ
kutoa val base =
    if ltb base 2 || ltb 36 base
    then []
    else if val == 0
    then 48 ∷ []
    else push_digits 64 val base []

-- Memory is a function of the address. The loop of `kmemset`, `n` bytes from `d` on.
pub kmemset : ℕ → ℕ → ℕ → (ℕ → ℕ) → ℕ → ℕ
kmemset d val zero mem = mem
kmemset d val (suc n) mem = kmemset (d + 1) val n (update mem d val)

-- d[i] = s[i] for `n` more values of i, upwards from `i`.
pub copy_up : ℕ → ℕ → ℕ → ℕ → (ℕ → ℕ) → ℕ → ℕ
copy_up d s i zero mem = mem
copy_up d s i (suc n) mem = copy_up d s (i + 1) n (update mem (d + i) (mem (s + i)))

-- d[i - 1] = s[i - 1] for i downwards from `n`.
pub copy_down : ℕ → ℕ → ℕ → (ℕ → ℕ) → ℕ → ℕ
copy_down d s zero mem = mem
copy_down d s (suc n) mem = copy_down d s n (update mem (d + n) (mem (s + n)))

-- 0 is NULL.
pub kmemcpy : ℕ → ℕ → ℕ → (ℕ → ℕ) → ℕ → ℕ
kmemcpy d s n mem =
    let copied = copy_up d s 0 n mem in
    if d == 0 || s == 0 then mem else if n == 0 || d == s then mem else copied

pub kmemmove : ℕ → ℕ → ℕ → (ℕ → ℕ) → ℕ → ℕ
kmemmove d s n mem =
    let up = copy_up d s 0 n mem in
    let down = copy_down d s n mem in
    if d == 0 || s == 0 then mem else if n == 0 || d == s then mem else if ltb d s then up else down

-- The NULs with which `kstrncpy` fills up its buffer.
abbrev pub zeros : ℕ → List ℕ
zeros zero = []
zeros (suc n) = 0 ∷ zeros n

-- The `n` bytes that `kstrncpy` writes, from a string that is not NULL.
pub kstrncpy : List ℕ → ℕ → List ℕ
kstrncpy src zero = []
kstrncpy [] (suc n) = 0 ∷ zeros n
kstrncpy (c ∷ src) (suc n) = c ∷ kstrncpy src n

-- `kstrncmp` on two strings: the sign of the result is that of the first difference within `n`
-- characters, with the NUL at the end of a string. Both numbers are given.
pub kstrncmp : List ℕ → List ℕ → ℕ → ℕ × ℕ
kstrncmp a b zero = (0, 0)
kstrncmp [] [] (suc n) = (0, 0)
kstrncmp [] (d ∷ b) (suc n) = (0, d)
kstrncmp (c ∷ a) [] (suc n) = (c, 0)
kstrncmp (c ∷ a) (d ∷ b) (suc n) = let rest = kstrncmp a b n in if c == d then rest else (c, d)
