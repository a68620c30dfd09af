-- ===== src/Fs/Names/Laws.antt =====
-- The name that `fs_create` of kernel/fs.c writes is found again, for paths that fit 8.3.
use os.Base.{
  ℕ, zero, suc, ◌+◌, ◌-◌, ◌<◌, ◌≤◌, ◌≡◌, ◌≢◌, refl, sym, ◌∙◌, ap, subst, true, false, not, ◌&&◌,
  some, List, [], ◌∷◌, ◌++◌, ◌==◌, length, get_or, arith, ==_self, ==_ne,
}
use os.Fs.Names.{
  fat_upper, match_base, match_extension, all_spaces, padded_extension, match_rest, name_matches,
  base_chars, extension_chars, extension_part, pad, new_name,
}

abbrev pub upper : List ℕ → List ℕ
upper [] = []
upper (c ∷ path) = fat_upper c ∷ upper path

abbrev pub NoDot : List ℕ → Type 0
NoDot [] = Unit {0}
NoDot (c ∷ path) = (c ≢ 46) × NoDot path

-- What may follow the base name: nothing, or a dot and at most three characters.
pub data Extension : List ℕ → List ℕ → Type 0 where
  no_extension : Extension [] []
  extension : (e : List ℕ) → length e ≤ 3 → Extension (46 ∷ e) e

length-upper : (xs : List ℕ) → length (upper xs) ≡ length xs
length-upper [] = refl
length-upper (x ∷ xs) = ap suc (length-upper xs)

length-pad : (n : ℕ) (xs : List ℕ) → length (pad n xs) ≡ n
unfolding pad
length-pad zero xs = refl
length-pad (suc n) [] = ap suc (length-pad n [])
length-pad (suc n) (x ∷ xs) = ap suc (length-pad n xs)

get_or-pad : (n i : ℕ) (xs : List ℕ) → i < n → get_or (pad n xs) i 0 ≡ get_or xs i 32
unfolding pad
get_or-pad zero i xs h = absurd (omega (arith, h))
get_or-pad (suc n) zero [] h = refl
get_or-pad (suc n) (suc i) [] h = get_or-pad n i [] (omega (arith, h))
get_or-pad (suc n) zero (x ∷ xs) h = refl
get_or-pad (suc n) (suc i) (x ∷ xs) h = get_or-pad n i xs (omega (arith, h))

get_or-front : (i d : ℕ) (xs ys : List ℕ) → i < length xs → get_or (xs ++ ys) i d ≡ get_or xs i d
get_or-front i d [] ys h = absurd (omega (arith, h))
get_or-front zero d (x ∷ xs) ys h = refl
get_or-front (suc i) d (x ∷ xs) ys h = get_or-front i d xs ys (omega (arith, h))

get_or-behind :
    (i k d : ℕ) (xs ys : List ℕ) → k ≡ length xs + i → get_or (xs ++ ys) k d ≡ get_or ys i d
get_or-behind i k d [] ys e = ap (λ n. get_or ys n d) (omega (arith, e))
get_or-behind i zero d (x ∷ xs) ys e = absurd (omega (arith, e))
get_or-behind i (suc k) d (x ∷ xs) ys e = get_or-behind i k d xs ys (omega (arith, e))

get_or-past : (i d : ℕ) (xs : List ℕ) → length xs ≤ i → get_or xs i d ≡ d
get_or-past i d [] h = refl
get_or-past zero d (x ∷ xs) h = absurd (omega (arith, h))
get_or-past (suc i) d (x ∷ xs) h = get_or-past i d xs (omega (arith, h))

base_chars-rest : (n : ℕ) (rest e : List ℕ) → Extension rest e → base_chars n rest ≡ ([], rest)
unfolding base_chars
base_chars-rest zero _ _ x = refl
base_chars-rest (suc n) _ _ no_extension = refl
base_chars-rest (suc n) _ _ (extension e low) = refl

base_chars-base :
    (n : ℕ) (base rest e : List ℕ)
    → NoDot base
    → length base ≤ n
    → Extension rest e
    → base_chars n (base ++ rest) ≡ (upper base, rest)
unfolding base_chars
base_chars-base n [] rest e f h x = base_chars-rest n rest e x
base_chars-base zero (c ∷ base) rest e f h x = absurd (omega (arith, h))
base_chars-base (suc n) (c ∷ base) rest e f h x =
    let other : (c == 46) ≡ false = ==_ne c 46 f.0 in
    rw (other)
      (ap (λ p. (fat_upper c ∷ p.0, p.1)) (base_chars-base n base rest e f.1 (omega (arith, h)) x))

extension_chars-upper : (n : ℕ) (e : List ℕ) → length e ≤ n → extension_chars n e ≡ upper e
unfolding extension_chars
extension_chars-upper zero [] h = refl
extension_chars-upper (suc n) [] h = refl
extension_chars-upper zero (c ∷ e) h = absurd (omega (arith, h))
extension_chars-upper (suc n) (c ∷ e) h =
    ap (λ t. fat_upper c ∷ t) (extension_chars-upper n e (omega (arith, h)))

extension_part-upper : (rest e : List ℕ) → Extension rest e → extension_part rest ≡ upper e
unfolding extension_part
extension_part-upper _ _ no_extension = refl
extension_part-upper _ _ (extension e low) = extension_chars-upper 3 e low

match_base-rest :
    (k : ℕ) (raw : ℕ → ℕ) (rest e : List ℕ)
    → Extension rest e
    → match_base rest k raw ≡ some (rest, k)
unfolding match_base
match_base-rest k raw _ _ no_extension = refl
match_base-rest k raw _ _ (extension e low) = refl

match_base-base :
    (base rest e : List ℕ) (k : ℕ) (raw : ℕ → ℕ)
    → NoDot base
    → k + length base ≤ 8
    → Extension rest e
    → ((i : ℕ) → i < length base → raw (k + i) ≡ get_or (upper base) i 32)
    → match_base (base ++ rest) k raw ≡ some (rest, k + length base)
unfolding match_base
match_base-base [] rest e k raw f h x m =
    match_base-rest k raw rest e x ∙ ap (λ n. some (rest, n)) (omega (arith))
match_base-base (c ∷ base) rest e k raw f h x m =
    let other : (c == 46) ≡ false = ==_ne c 46 f.0 in
    let room : (k == 8) ≡ false = ==_ne k 8 (λ t. absurd (omega (arith, h, t))) in
    let here : raw k ≡ fat_upper c = ap raw (omega (arith)) ∙ m 0 (omega (arith)) in
    let rest_of =
      match_base-base base rest e (suc k) raw f.1 (omega (arith, h)) x
        (λ i l. ap raw (omega (arith)) ∙ m (suc i) (omega (arith, l))) in
    rw (other, room, here, ==_self (fat_upper c))
      (rest_of ∙ ap (λ n. some (rest, n)) (omega (arith)))

match_extension-upper :
    (e : List ℕ) (k : ℕ) (raw : ℕ → ℕ)
    → k + length e ≤ 3
    → ((i : ℕ) → i < length e → raw (8 + (k + i)) ≡ get_or (upper e) i 32)
    → match_extension e k raw ≡ some (k + length e)
unfolding match_extension
match_extension-upper [] k raw h m = ap some (omega (arith))
match_extension-upper (c ∷ e) k raw h m =
    let room : (k == 3) ≡ false = ==_ne k 3 (λ t. absurd (omega (arith, h, t))) in
    let here : raw (8 + k) ≡ fat_upper c = ap raw (omega (arith)) ∙ m 0 (omega (arith)) in
    let rest_of =
      match_extension-upper e (suc k) raw (omega (arith, h))
        (λ i l. ap raw (omega (arith)) ∙ m (suc i) (omega (arith, l))) in
    rw (room, here, ==_self (fat_upper c)) (rest_of ∙ ap some (omega (arith)))

all_spaces-true :
    (n at : ℕ) (raw : ℕ → ℕ) → ((i : ℕ) → i < n → raw (at + i) ≡ 32) → all_spaces n at raw ≡ true
unfolding all_spaces
all_spaces-true zero at raw m = refl
all_spaces-true (suc n) at raw m =
    let here : raw at ≡ 32 = ap raw (omega (arith)) ∙ m 0 (omega (arith)) in
    rw (here) (
      all_spaces-true n (suc at) raw (λ i l. ap raw (omega (arith)) ∙ m (suc i) (omega (arith, l))))

match_rest-Extension :
    (raw : ℕ → ℕ) (k : ℕ) (rest e : List ℕ)
    → Extension rest e
    → match_rest raw (some (rest, k))
      ≡ (not (k == 0) && all_spaces (8 - k) k raw && padded_extension raw (match_extension e 0 raw))
unfolding match_rest
match_rest-Extension raw k _ _ no_extension = refl
match_rest-Extension raw k _ _ (extension e low) = refl

padded_extension-upper :
    (e : List ℕ) (raw : ℕ → ℕ)
    → length e ≤ 3
    → ((i : ℕ) → i < 3 → raw (8 + i) ≡ get_or (upper e) i 32)
    → padded_extension raw (match_extension e 0 raw) ≡ true
unfolding padded_extension
padded_extension-upper e raw h m =
    let matched =
      match_extension-upper e 0 raw (omega (arith, h))
        (λ i l. ap raw (omega (arith)) ∙ m i (omega (arith, l, h))) in
    ap (padded_extension raw) (matched ∙ ap some (omega (arith)))
    ∙ all_spaces-true (3 - length e) (8 + length e) raw (λ i l.
      ap raw (omega (arith))
      ∙ m (length e + i) (omega (arith, l, h))
      ∙ get_or-past (length e + i) 32 (upper e)
          (subst (λ n. n ≤ length e + i) (sym (length-upper e)) (omega (arith))))

new_name-upper :
    (base rest e : List ℕ)
    → NoDot base
    → length base ≤ 8
    → Extension rest e
    → new_name (base ++ rest) ≡ pad 8 (upper base) ++ pad 3 (upper e)
unfolding new_name
new_name-upper base rest e f h x =
    rw (base_chars-base 8 base rest e f h x)
      (ap (λ t. pad 8 (upper base) ++ pad 3 t) (extension_part-upper rest e x))

length-Extension : {rest e : List ℕ} → Extension rest e → length e ≤ 3
length-Extension no_extension = omega (arith)
length-Extension (extension e low) = low

-- The directory entry that `fs_create` writes for a path of one to eight characters without a dot,
-- and then nothing or a dot and at most three characters, is one that `fat32_name_matches` accepts
-- for this path.
pub name_matches-new_name :
    (base rest e : List ℕ)
    → NoDot base
    → 0 < length base
    → length base ≤ 8
    → Extension rest e
    → name_matches (base ++ rest) (λ i. get_or (new_name (base ++ rest)) i 0) ≡ true
unfolding name_matches
name_matches-new_name base rest e f p h x =
    let raw : ℕ → ℕ = λ i. get_or (new_name (base ++ rest)) i 0 in
    let name = new_name-upper base rest e f h x in
    let front : ((i : ℕ) → i < 8 → raw i ≡ get_or (upper base) i 32) = λ i l.
      ap (λ t. get_or t i 0) name
      ∙ get_or-front i 0 (pad 8 (upper base)) (pad 3 (upper e))
          (subst (λ n. i < n) (sym (length-pad 8 (upper base))) l)
      ∙ get_or-pad 8 i (upper base) l in
    let back : ((i : ℕ) → i < 3 → raw (8 + i) ≡ get_or (upper e) i 32) = λ i l.
      ap (λ t. get_or t (8 + i) 0) name
      ∙ get_or-behind i (8 + i) 0 (pad 8 (upper base)) (pad 3 (upper e))
          (ap (λ n. n + i) (sym (length-pad 8 (upper base))))
      ∙ get_or-pad 3 i (upper e) l in
    let matched =
      match_base-base base rest e 0 raw f (omega (arith, h)) x
        (λ i l. ap raw (omega (arith)) ∙ front i (omega (arith, l, h))) in
    let filled : all_spaces (8 - length base) (length base) raw ≡ true =
      all_spaces-true (8 - length base) (length base) raw (λ i l.
        front (length base + i) (omega (arith, l, h))
        ∙ get_or-past (length base + i) 32 (upper base)
            (subst (λ n. n ≤ length base + i) (sym (length-upper base)) (omega (arith)))) in
    let some_base : (length base == 0) ≡ false =
      ==_ne (length base) 0 (λ t. absurd (omega (arith, p, t))) in
    ap (match_rest raw) (matched ∙ ap (λ n. some (rest, n)) (omega (arith)))
    ∙ match_rest-Extension raw (length base) rest e x
    ∙ rw (some_base, filled) (padded_extension-upper e raw (length-Extension x) back)
