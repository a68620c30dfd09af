-- ===== src/Config.antt =====
-- kernel/config.c: the table of settings, without the file that it is loaded from. A string is the
-- list of its characters.
pub mod Laws
mod Tests
use os.Base.{
  ℕ, ◌+◌, Bool, true, false, ◌&&◌, List, [], ◌∷◌, ◌++◌, ◌==◌, ltb, if◌then◌else◌, length, take,
  Option, none, some, ℤ,
}

-- CONFIG_MAX_ENTRIES
abbrev pub max_entries : ℕ
max_entries = 64

-- `config_type_t` and the bytes of the value that the type says.
pub data Value : Type 0 where
  int_value : ℤ → Value
  string_value : List ℕ → Value
  bool_value : Bool → Value

-- `config_entry_t`
pub record Entry : Type 0 where
  pub key : List ℕ
  pub value : Value

-- kstrcmp(a, b) == 0
pub same_string : List ℕ → List ℕ → Bool
same_string [] [] = true
same_string [] (d ∷ b) = false
same_string (c ∷ a) [] = false
same_string (c ∷ a) (d ∷ b) = (c == d) && same_string a b

-- kstrncpy(entry.key, key, CONFIG_KEY_MAX - 1)
abbrev pub stored_key : List ℕ → List ℕ
stored_key key = take 31 key

abbrev pub replace_behind : Entry → Option (List Entry) → Option (List Entry)
replace_behind e none = none
replace_behind e (some es) = some (e ∷ es)

-- The first entry with the key gets the value; none if there is no such entry.
pub replace : List ℕ → Value → List Entry → Option (List Entry)
unfolding same_string
replace key v [] = none
replace key v (e ∷ es) =
    let rest = replace_behind e (replace key v es) in
    if same_string e.key key then some (record e { value = v } ∷ es) else rest

-- The entries of `config_entries` that are in use after a setting.
abbrev pub set_in : List ℕ → Value → List Entry → Option (List Entry) → List Entry
set_in key v es (some changed) = changed
set_in key v es none =
    if ltb (length es) max_entries
    then es ++ (record { key = stored_key key; value = v } ∷ [])
    else es

pub set : List ℕ → Value → List Entry → List Entry
unfolding replace
set key v es = set_in key v es (replace key v es)

pub set_int : List ℕ → ℤ → List Entry → List Entry
unfolding set
set_int key n es = set key (int_value n) es

-- kstrncpy(entry.value, value, CONFIG_VALUE_MAX - 1)
pub set_string : List ℕ → List ℕ → List Entry → List Entry
unfolding set
set_string key s es = set key (string_value (take 255 s)) es

pub set_bool : List ℕ → Bool → List Entry → List Entry
unfolding set
set_bool key b es = set key (bool_value b) es

abbrev pub int_of : Value → Option ℤ
int_of (int_value n) = some n
int_of (string_value s) = none
int_of (bool_value b) = none

abbrev pub string_of : Value → Option (List ℕ)
string_of (int_value n) = none
string_of (string_value s) = some s
string_of (bool_value b) = none

abbrev pub bool_of : Value → Option Bool
bool_of (int_value n) = none
bool_of (string_value s) = none
bool_of (bool_value b) = some b

abbrev pub or_else {ℓ} : {A : Type ℓ} → Option A → A → A
or_else none d = d
or_else (some a) d = a

-- The loops of the getters: the first entry with the key and the type.
pub get {ℓ} : {A : Type ℓ} → (Value → Option A) → List ℕ → A → List Entry → A
unfolding same_string
get typed key d [] = d
get typed key d (e ∷ es) =
    let rest = get typed key d es in
    if same_string e.key key then or_else (typed e.value) rest else rest

pub get_int : List ℕ → ℤ → List Entry → ℤ
unfolding get
get_int key d es = get int_of key d es

pub get_string : List ℕ → List ℕ → List Entry → List ℕ
unfolding get
get_string key d es = get string_of key d es

pub get_bool : List ℕ → Bool → List Entry → Bool
unfolding get
get_bool key d es = get bool_of key d es
