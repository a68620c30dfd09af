-- ===== src/Config/Laws.antt =====
-- What the getters of kernel/config.c find after a setting.
use mathlib.Core.Option.{some-injective}
use os.Base.{
  ℕ, ℤ, Bool, zero, suc, ◌<◌, ◌≤◌, ◌≡◌, ◌≢◌, ◌⊎◌, refl, sym, ap, ap₂, ◌∙◌, subst, true, false, List,
  [], ◌∷◌, ◌++◌, ◌==◌, ltb, length, take, Option, none, some, Option-cases, Bool-cases, inl, inr,
  arith, ==_self,
}
use os.Config.{
  int_value, string_value, bool_value, int_of, string_of, bool_of, get_int, get_string, get_bool,
  set_int, set_string, set_bool, max_entries, Value, Entry, same_string, stored_key, replace, set,
  get,
}

same_string_self : (a : List ℕ) → same_string a a ≡ true
unfolding same_string
same_string_self [] = refl
same_string_self (c ∷ a) = rw (same_string, ==_self c, same_string_self a) refl

same_string_eq : (a b : List ℕ) → same_string a b ≡ true → a ≡ b
unfolding same_string
same_string_eq [] [] e = refl
same_string_eq [] (d ∷ b) e = absurd (cc e)
same_string_eq (c ∷ a) [] e = absurd (cc e)
same_string_eq (c ∷ a) (d ∷ b) e = elim (Bool-cases (c == d)) [
  | inl f ↦
      let tail : same_string a b ≡ true = rw (same_string, f) at e in
      ap₂ (λ x l. x ∷ l) (ground (arith, f)) (same_string_eq a b tail)
  | inr f ↦ absurd (cc (simp (same_string, f) at e))
]

same_string_ne : (a b : List ℕ) → a ≢ b → same_string a b ≡ false
same_string_ne a b n = elim (Bool-cases (same_string a b)) [
  | inl e ↦ absurd (n (same_string_eq a b e))
  | inr e ↦ e
]

take_short : (n : ℕ) (xs : List ℕ) → length xs ≤ n → take n xs ≡ xs
take_short zero [] h = refl
take_short zero (x ∷ xs) h = absurd (omega (arith, h))
take_short (suc n) [] h = refl
take_short (suc n) (x ∷ xs) h = ap (λ l. x ∷ l) (take_short n xs (omega (arith, h)))

module _ {ℓ} {A : Type ℓ} (typed : Value → Option A) where
  -- An entry behind the others is found where no other has the key.
  get-append :
      (key other : List ℕ) (v : Value) (d : A) (es : List Entry)
      → replace key v es ≡ none
      → get typed key d (es ++ (record { key = other; value = v } ∷ []))
        ≡ get typed key d (record { key = other; value = v } ∷ [])
  unfolding get replace
  get-append key other v d [] e = refl
  get-append key other v d (x ∷ es) e = elim (Bool-cases (same_string x.key key)) [
    | inl f ↦ absurd (cc (simp (replace, f) at e))
    | inr f ↦ elim (Option-cases (replace key v es)) [
      | inl g ↦ rw (get, f) (get-append key other v d es g)
      | inr (changed, g) ↦ absurd (cc (simp (replace, f, g) at e))
    ]
  ]

  get-replace :
      (key : List ℕ) (v : Value) (a d : A) (es changed : List Entry)
      → typed v ≡ some a
      → replace key v es ≡ some changed
      → get typed key d changed ≡ a
  unfolding get replace
  get-replace key v a d [] changed t e = absurd (cc e)
  get-replace key v a d (x ∷ es) changed t e = elim (Bool-cases (same_string x.key key)) [
    | inl f ↦
        let same : record x { value = v } ∷ es ≡ changed =
          some-injective _ _ (simp (replace, f) at e) in
        subst (λ l. get typed key d l ≡ a) same (rw (get, f, t) refl)
    | inr f ↦ elim (Option-cases (replace key v es)) [
      | inl g ↦ absurd (cc (simp (replace, f, g) at e))
      | inr (rest, g) ↦
          let same : x ∷ rest ≡ changed = some-injective _ _ (simp (replace, f, g) at e) in
          subst (λ l. get typed key d l ≡ a) same (rw (get, f) (get-replace key v a d es rest t g))
    ]
  ]

  -- What is set is found.
  get-set_value :
      (key : List ℕ) (v : Value) (a d : A) (es : List Entry)
      → length key ≤ 31
      → (replace key v es ≢ none) ⊎ (length es < max_entries)
      → typed v ≡ some a
      → get typed key d (set key v es) ≡ a
  unfolding set get
  get-set_value key v a d es short room t = elim (Option-cases (replace key v es)) [
    | inr (changed, e) ↦ rw (set, e) (get-replace key v a d es changed t e)
    | inl e ↦ elim room [
      | inl listed ↦ absurd (listed e)
      | inr free ↦
          let fits : ltb (length es) max_entries ≡ true = ground (arith, free) in
          let whole : take 31 key ≡ key = take_short 31 key short in
          rw (set, e, fits, whole)
            (get-append key key v d es e ∙ rw (get, same_string_self key, t) refl)
    ]
  ]

  get-replace_other :
      (key other : List ℕ) (v : Value) (d : A) (es changed : List Entry)
      → key ≢ other
      → replace key v es ≡ some changed
      → get typed other d changed ≡ get typed other d es
  unfolding get replace
  get-replace_other key other v d [] changed n e = absurd (cc e)
  get-replace_other key other v d (x ∷ es) changed n e = elim (Bool-cases (same_string x.key key)) [
    | inl f ↦
        let same : record x { value = v } ∷ es ≡ changed =
          some-injective _ _ (simp (replace, f) at e) in
        let at : x.key ≡ key = same_string_eq x.key key f in
        let apart = same_string_ne x.key other (λ q. n (sym at ∙ q)) in
        subst (λ l. get typed other d l ≡ get typed other d (x ∷ es)) same (rw (get, apart) refl)
    | inr f ↦ elim (Option-cases (replace key v es)) [
      | inl g ↦ absurd (cc (simp (replace, f, g) at e))
      | inr (rest, g) ↦
          let same : x ∷ rest ≡ changed = some-injective _ _ (simp (replace, f, g) at e) in
          let behind = get-replace_other key other v d es rest n g in
          subst (λ l. get typed other d l ≡ get typed other d (x ∷ es)) same (rw (get, behind) refl)
    ]
  ]

  get-append_other :
      (other : List ℕ) (d : A) (es : List Entry) (x : Entry)
      → x.key ≢ other
      → get typed other d (es ++ (x ∷ [])) ≡ get typed other d es
  unfolding get
  get-append_other other d [] x n = rw (get, same_string_ne x.key other n) refl
  get-append_other other d (y ∷ es) x n = rw (get, get-append_other other d es x n) refl

  -- A setting changes what the getters return for no key but its own and its first 31 characters.
  get-set_other :
      (key other : List ℕ) (v : Value) (d : A) (es : List Entry)
      → key ≢ other
      → stored_key key ≢ other
      → get typed other d (set key v es) ≡ get typed other d es
  unfolding set
  get-set_other key other v d es n m = elim (Option-cases (replace key v es)) [
    | inr (changed, e) ↦ rw (set, e) (get-replace_other key other v d es changed n e)
    | inl e ↦ elim (Bool-cases (ltb (length es) max_entries)) [
      | inl room ↦
          rw (set, e, room)
            (get-append_other other d es (record { key = stored_key key; value = v }) m)
      | inr full ↦ rw (set, e, full) refl
    ]
  ]

-- The key is in the table.
abbrev pub Listed : List ℕ → List Entry → Type 0
Listed key [] = ⊥
Listed key (x ∷ es) = (x.key ≡ key) ⊎ Listed key es

replace-Listed :
    (key : List ℕ) (v : Value) (es : List Entry) → Listed key es → replace key v es ≢ none
unfolding replace
replace-Listed key v [] h e = h
replace-Listed key v (x ∷ es) (inl here) e =
    let same : same_string x.key key ≡ true = rw (here) (same_string_self key) in
    absurd (cc (simp (replace, same) at e))
replace-Listed key v (x ∷ es) (inr later) e = elim (Bool-cases (same_string x.key key)) [
  | inl f ↦ absurd (cc (simp (replace, f) at e))
  | inr f ↦ elim (Option-cases (replace key v es)) [
    | inl g ↦ replace-Listed key v es later g
    | inr (changed, g) ↦ absurd (cc (simp (replace, f, g) at e))
  ]
]

kept :
    (key : List ℕ) (v : Value) (es : List Entry)
    → Listed key es ⊎ (length es < max_entries)
    → (replace key v es ≢ none) ⊎ (length es < max_entries)
kept key v es (inl h) = inl (replace-Listed key v es h)
kept key v es (inr h) = inr h

-- For a key of at most 31 characters that is in the table already, with a value of any type, or for
-- which there is room: after `config_set_int` and `config_set_bool` the getter of the type returns
-- the value for the key, and after `config_set_string` the first 255 characters of the string.
pub get-set :
    (key : List ℕ) (es : List Entry)
    → length key ≤ 31
    → Listed key es ⊎ (length es < max_entries)
    → ((n d : ℤ) → get_int key d (set_int key n es) ≡ n)
      × ((s d : List ℕ) → get_string key d (set_string key s es) ≡ take 255 s)
      × ((b d : Bool) → get_bool key d (set_bool key b es) ≡ b)
unfolding get_int set_int get_string set_string get_bool set_bool
get-set key es short room = (
  λ n d. get-set_value int_of key (int_value n) n d es short (kept key (int_value n) es room) refl,
  λ s d.
      get-set_value string_of key (string_value (take 255 s)) (take 255 s) d es short
        (kept key (string_value (take 255 s)) es room) refl,
  λ b d.
      get-set_value bool_of key (bool_value b) b d es short (kept key (bool_value b) es room) refl,
)

-- The keys in the table.
abbrev pub AllStored : List Entry → Type 0
AllStored [] = Unit {0}
AllStored (x ∷ es) = (length x.key ≤ 31) × AllStored es

long_apart :
    (stored key : List ℕ) → length stored ≤ 31 → 31 < length key → same_string stored key ≡ false
long_apart stored key short long =
    same_string_ne stored key (λ e. omega (arith, short, long, ap length e))

get-long :
    {A : Type 0} (typed : Value → Option A) (key : List ℕ) (d : A) (es : List Entry)
    → 31 < length key
    → AllStored es
    → get typed key d es ≡ d
unfolding get
get-long typed key d [] long k = refl
get-long typed key d (x ∷ es) long k =
    rw (get, long_apart x.key key k.0 long, get-long typed key d es long k.1) refl

replace-long :
    (key : List ℕ) (v : Value) (es : List Entry)
    → 31 < length key
    → AllStored es
    → replace key v es ≡ none
unfolding replace
replace-long key v [] long k = refl
replace-long key v (x ∷ es) long k =
    rw (replace, long_apart x.key key k.0 long, replace-long key v es long k.1) refl

length-take_le : (n : ℕ) (xs : List ℕ) → length (take n xs) ≤ n
length-take_le zero xs = omega arith
length-take_le (suc n) [] = omega arith
length-take_le (suc n) (x ∷ xs) = omega (arith, length-take_le n xs)

AllStored-append :
    (es : List Entry) (x : Entry) → AllStored es → length x.key ≤ 31 → AllStored (es ++ (x ∷ []))
AllStored-append [] x k h = (h, tt)
AllStored-append (y ∷ es) x k h = (k.0, AllStored-append es x k.1 h)

set-AllStored-long :
    (key : List ℕ) (v : Value) (es : List Entry)
    → 31 < length key
    → AllStored es
    → AllStored (set key v es)
unfolding set
set-AllStored-long key v es long k =
    let missing = replace-long key v es long k in
    elim (Bool-cases (ltb (length es) max_entries)) [
      | inl room ↦
          rw (set, missing, room)
            (AllStored-append es (record { key = stored_key key; value = v }) k
              (length-take_le 31 key))
      | inr full ↦ rw (set, missing, full) k
    ]

-- A setting whose key has 32 characters or more, in a table of keys of at most 31 characters, is not
-- found again: the getters return the default for its key.
get-set_long :
    {A : Type 0} (typed : Value → Option A) (key : List ℕ) (v : Value) (d : A) (es : List Entry)
    → 31 < length key
    → AllStored es
    → get typed key d (set key v es) ≡ d
get-set_long typed key v d es long k =
    get-long typed key d (set key v es) long (set-AllStored-long key v es long k)
