-- ===== src/Config/Tests.antt =====
-- Runs of kernel/config.c on a small table, and the theorems at them.
use os.Base.{ℕ, ℤ, Bool, zero, suc, ◌≡◌, inr, refl, List, [], ◌∷◌, pos, arith, take}
use os.Config.{
  Entry, int_value, set, set_int, set_string, set_bool, get, get_int, get_string, get_bool, replace,
  same_string,
}
use os.Config.Laws.{get-set}

-- "volume" and "theme"
abbrev volume : List ℕ
volume = 118 ∷ 111 ∷ 108 ∷ 117 ∷ 109 ∷ 101 ∷ []

abbrev theme : List ℕ
theme = 116 ∷ 104 ∷ 101 ∷ 109 ∷ 101 ∷ []

abbrev repeat : ℕ → List ℕ
repeat zero = []
repeat (suc n) = 97 ∷ repeat n

-- A key of 32 characters.
abbrev long_key : List ℕ
long_key = repeat 32

abbrev table : List Entry
table = record { key = volume; value = int_value (pos 50) } ∷ []

volume_set : get_int volume (pos 0) (set_int volume (pos 70) table) ≡ pos 70
unfolding get_int get set_int set replace same_string
volume_set = refl

get-set_example :
    ((n d : ℤ) → get_int theme d (set_int theme n table) ≡ n)
    × ((s d : List ℕ) → get_string theme d (set_string theme s table) ≡ take 255 s)
    × ((b d : Bool) → get_bool theme d (set_bool theme b table) ≡ b)
get-set_example = get-set theme table (omega arith) (inr (omega arith))
