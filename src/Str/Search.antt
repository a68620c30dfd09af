-- ===== src/Str/Search.antt =====
-- The searches and comparisons of kernel/string.c, and its signed numbers.
use os.Base.{
  ℕ, suc, ◌≡◌, refl, ap, Bool, true, false, Option, none, some, List, [], ◌∷◌, ◌==◌, if◌then◌else◌,
  length, arith, Bool-cases, inl, inr,
}

-- The rest of a string from the first character `c` on, as `kstrchr` points at it; a search for NUL
-- finds the end.
pub kstrchr : List ℕ → ℕ → Option (List ℕ)
kstrchr [] c = if c == 0 then some [] else none
kstrchr (d ∷ s) c = let rest = kstrchr s c in if d == c then some (d ∷ s) else rest

-- The loop of `kstrrchr`, with the last find so far, and its end.
pub last_found : List ℕ → ℕ → Option (List ℕ) → Option (List ℕ)
last_found [] c last = if c == 0 then some [] else last
last_found (d ∷ s) c last = last_found s c (if d == c then some (d ∷ s) else last)

pub kstrrchr : List ℕ → ℕ → Option (List ℕ)
kstrrchr s c = last_found s c none

-- Two strings that are at different addresses and not NULL: the two characters whose difference is
-- the result.
pub kstrcmp : List ℕ → List ℕ → ℕ × ℕ
kstrcmp [] [] = (0, 0)
kstrcmp [] (d ∷ b) = (0, d)
kstrcmp (c ∷ a) [] = (c, 0)
kstrcmp (c ∷ a) (d ∷ b) = let rest = kstrcmp a b in if c == d then rest else (c, d)

-- The inner loop of `kstrstr`: whether the needle stands at the front.
pub stands_at : List ℕ → List ℕ → Bool
stands_at [] s = true
stands_at (x ∷ needle) [] = false
stands_at (x ∷ needle) (c ∷ s) = let rest = stands_at needle s in if c == x then rest else false

-- The outer loop, for a needle that is not empty.
pub search : List ℕ → List ℕ → Option (List ℕ)
unfolding stands_at
search needle [] = none
search needle (c ∷ s) =
    let rest = search needle s in if stands_at needle (c ∷ s) then some (c ∷ s) else rest

pub kstrstr : List ℕ → List ℕ → Option (List ℕ)
kstrstr haystack [] = some haystack
kstrstr haystack (x ∷ needle) = search (x ∷ needle) haystack

-- `kstrlen` of a string that is not NULL.
abbrev pub kstrlen : List ℕ → ℕ
kstrlen s = length s

-- The bytes that `kstrcpy` writes: the string, none for NULL, and the NUL.
pub kstrcpy : Option (List ℕ) → List ℕ
kstrcpy none = 0 ∷ []
kstrcpy (some []) = 0 ∷ []
kstrcpy (some (c ∷ s)) = c ∷ kstrcpy (some s)

-- `kstrcpy` writes one byte more than the string has.
pub length-kstrcpy : (s : List ℕ) → length (kstrcpy (some s)) ≡ suc (length s)
unfolding kstrcpy
length-kstrcpy [] = refl
length-kstrcpy (c ∷ s) = ap suc (length-kstrcpy s)

-- A find of `kstrstr` begins with the needle.
pub search-stands :
    (needle s found : List ℕ) → search needle s ≡ some found → stands_at needle found ≡ true
unfolding search
search-stands needle [] found e = absurd (cc e)
search-stands needle (c ∷ s) found e = elim (Bool-cases (stands_at needle (c ∷ s))) [
  | inl here ↦ let same : c ∷ s ≡ found = ground (arith, e, here) in rw (← same) here
  | inr later ↦ search-stands needle s found (rw later at e)
]
