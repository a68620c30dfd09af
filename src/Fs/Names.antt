-- ===== src/Fs/Names.antt =====
-- The 8.3 names of kernel/fs.c: a path of one component against the 11 bytes in a directory entry. A
-- path is the list of its characters.
pub mod Laws
use os.Base.{
  ℕ, zero, suc, ◌+◌, ◌-◌, Bool, true, false, not, ◌&&◌, ◌||◌, Option, none, some, List, [], ◌∷◌,
  ◌++◌, ◌==◌, leb, if◌then◌else◌,
}

abbrev pub dot : ℕ
dot = 46

abbrev pub space : ℕ
space = 32

abbrev pub fat_upper : ℕ → ℕ
fat_upper c = if leb 97 c && leb c 122 then c - 32 else c

-- The loop over the base name: the rest of the path and the characters seen, none on a mismatch.
unfoldable pub match_base : List ℕ → ℕ → (ℕ → ℕ) → Option (List ℕ × ℕ)
match_base [] k raw = some ([], k)
match_base (c ∷ path) k raw =
    let rest = match_base path (suc k) raw in
    if c == dot
    then some (c ∷ path, k)
    else if k == 8 || not (fat_upper c == raw k)
    then none
    else rest

-- The loop over the extension.
unfoldable pub match_extension : List ℕ → ℕ → (ℕ → ℕ) → Option ℕ
match_extension [] k raw = some k
match_extension (c ∷ path) k raw =
    let rest = match_extension path (suc k) raw in
    if k == 3 || not (fat_upper c == raw (8 + k)) then none else rest

-- Whether the `n` bytes from `at` on are spaces.
unfoldable pub all_spaces : ℕ → ℕ → (ℕ → ℕ) → Bool
all_spaces zero at raw = true
all_spaces (suc n) at raw = (raw at == space) && all_spaces n (suc at) raw

unfoldable pub padded_extension : (ℕ → ℕ) → Option ℕ → Bool
unfolding all_spaces
padded_extension raw none = false
padded_extension raw (some k) = all_spaces (3 - k) (8 + k) raw

unfoldable pub match_rest : (ℕ → ℕ) → Option (List ℕ × ℕ) → Bool
unfolding match_extension all_spaces
match_rest raw none = false
match_rest raw (some ([], k)) =
    not (k == 0) && all_spaces (8 - k) k raw && padded_extension raw (match_extension [] 0 raw)
match_rest raw (some (c ∷ rest, k)) =
    not (k == 0) && all_spaces (8 - k) k raw && padded_extension raw (match_extension rest 0 raw)

-- `fat32_name_matches` of a path that is not NULL.
unfoldable pub name_matches : List ℕ → (ℕ → ℕ) → Bool
unfolding match_base match_rest
name_matches path raw = match_rest raw (match_base path 0 raw)

-- The base name that `fs_create` writes, at most `n` characters, and the rest of the path.
unfoldable pub base_chars : ℕ → List ℕ → List ℕ × List ℕ
base_chars zero path = ([], path)
base_chars (suc n) [] = ([], [])
base_chars (suc n) (c ∷ path) =
    let rest = base_chars n path in
    if c == dot then ([], c ∷ path) else (fat_upper c ∷ rest.0, rest.1)

unfoldable pub extension_chars : ℕ → List ℕ → List ℕ
extension_chars zero path = []
extension_chars (suc n) [] = []
extension_chars (suc n) (c ∷ path) = fat_upper c ∷ extension_chars n path

unfoldable pub extension_part : List ℕ → List ℕ
unfolding extension_chars
extension_part [] = []
extension_part (c ∷ path) = if c == dot then extension_chars 3 path else []

-- Spaces up to `n` characters.
unfoldable pub pad : ℕ → List ℕ → List ℕ
pad zero xs = []
pad (suc n) [] = space ∷ pad n []
pad (suc n) (x ∷ xs) = x ∷ pad n xs

-- The 11 bytes that `fs_create` writes.
unfoldable pub new_name : List ℕ → List ℕ
unfolding base_chars extension_part pad
new_name path = let parts = base_chars 8 path in pad 8 parts.0 ++ pad 3 (extension_part parts.1)
