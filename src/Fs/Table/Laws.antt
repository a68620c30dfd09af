-- ===== src/Fs/Table/Laws.antt =====
-- Setting and getting an entry of the file allocation table of kernel/fs.c.
use os.Base.{
  ℕ, ◌+◌, ◌*◌, ◌/◌, ◌%◌, ◌^◌, ◌≤◌, ◌<◌, ◌≡◌, ◌≢◌, refl, sym, ◌∙◌, ap, subst, ◌⊎◌, Bool, true, false,
  not, ◌||◌, none, some, ◌==◌, ltb, leb, if◌then◌else◌, arith, Bool-cases, inl, inr, update,
  update_self, update_ne,
}
use os.Fs.{Fs, Disk, le32, put32, end_of_chain, cluster_valid}
use os.Fs.Table.{
  fat_index, fat_offset, fat_sector, entry_in, fat_get, set_word, set_mirror, bad_link, fat_set,
}
use os.Fs.Geometry.{IsValid, fat_sector_lem, mul_mono}

-- The volume with word `v` at byte `a` of sector `sec`.
abbrev pub stored : ℕ → ℕ → ℕ → Fs → Fs
stored sec a v fs =
    let old : Disk = fs.disk in
    record fs {
      disk = record old { sectors = update old.sectors sec (put32 (old.sectors sec) a v) };
    }

set_word-stored :
    (sec a v : ℕ) (fs fs' : Fs)
    → set_word sec a v fs ≡ (true, fs')
    → (fs' ≡ stored sec a v fs) × (fs.disk.readable sec ≡ true)
unfolding set_word
set_word-stored sec a v fs fs' e = elim (Bool-cases (fs.disk.readable sec)) [
  | inl r ↦ elim (Bool-cases (fs.disk.writable sec)) [
    | inl w ↦ (sym (ap (λ p. p.1) (simp (set_word, r, w) at e)), r)
    | inr n ↦ absurd (cc (ap (λ p. p.0) (simp (set_word, r, n) at e)))
  ]
  | inr n ↦ absurd (cc (ap (λ p. p.0) (simp (set_word, n) at e)))
]

put32-at : (buf : ℕ → ℕ) (a v : ℕ) → v < 2 ^ 32 → le32 (put32 buf a v) a ≡ v
put32-at buf a v h =
    omega (arith, byte_0 buf a v, byte_1 buf a v, byte_2 buf a v, byte_3 buf a v, h)
  where
    byte_0 : (buf : ℕ → ℕ) (a v : ℕ) → put32 buf a v a ≡ v % 256
    byte_0 buf a v = ground arith

    byte_1 : (buf : ℕ → ℕ) (a v : ℕ) → put32 buf a v (a + 1) ≡ v / 2 ^ 8 % 256
    byte_1 buf a v = ground arith

    byte_2 : (buf : ℕ → ℕ) (a v : ℕ) → put32 buf a v (a + 2) ≡ v / 2 ^ 16 % 256
    byte_2 buf a v = ground arith

    byte_3 : (buf : ℕ → ℕ) (a v : ℕ) → put32 buf a v (a + 3) ≡ v / 2 ^ 24 % 256
    byte_3 buf a v = ground arith

put32-other : (buf : ℕ → ℕ) (a v i : ℕ) → (i < a) ⊎ (a + 4 ≤ i) → put32 buf a v i ≡ buf i
put32-other buf a v i h = ground (arith, h)

put32-frame :
    (buf : ℕ → ℕ) (a v b : ℕ) → (b + 4 ≤ a) ⊎ (a + 4 ≤ b) → le32 (put32 buf a v) b ≡ le32 buf b
put32-frame buf a v b h =
    let other : (k : ℕ) → k < 4 → put32 buf a v (b + k) ≡ buf (b + k) =
      λ k low. put32-other buf a v (b + k) (ground (arith, h)) in
    let zero_at : put32 buf a v b ≡ buf b = put32-other buf a v b (ground (arith, h)) in
    omega (arith, zero_at, other 1 (omega arith), other 2 (omega arith), other 3 (omega arith))

-- A word that was put in another sector, or beside a word, does not change it.
word-frame :
    (sectors : ℕ → ℕ → ℕ) (sec a v t b : ℕ)
    → (sec ≢ t) ⊎ ((b + 4 ≤ a) ⊎ (a + 4 ≤ b))
    → le32 (update sectors sec (put32 (sectors sec) a v) t) b ≡ le32 (sectors t) b
word-frame sectors sec a v t b apart = elim (Bool-cases (sec == t)) [
  | inr other ↦ rw (other) refl
  | inl here ↦
      let same : sec ≡ t = ground (arith, here) in
      let beside : (b + 4 ≤ a) ⊎ (a + 4 ≤ b) = ground (arith, same, apart) in
      rw (here) (put32-frame (sectors sec) a v b beside ∙ ap (λ x. le32 (sectors x) b) same)
]

entry-same :
    (r : Bool) (x y : ℕ → ℕ) (b : ℕ)
    → le32 x b ≡ le32 y b
    → entry_in b (if r then some x else none) ≡ entry_in b (if r then some y else none)
entry-same true x y b e = ap (λ w. w % 2 ^ 28) e
entry-same false x y b e = refl

-- So an entry stays.
stored-frame :
    (sec a v c : ℕ) (fs : Fs)
    → (sec ≢ fat_sector c fs) ⊎ ((fat_offset c + 4 ≤ a) ⊎ (a + 4 ≤ fat_offset c))
    → fat_get c (stored sec a v fs) ≡ fat_get c fs
unfolding fat_get
stored-frame sec a v c fs apart =
    let t = fat_sector c fs in
    let b = fat_offset c in
    let old = fs.disk.sectors in
    ap
      (λ w.
        if not fs.mounted || not (cluster_valid c fs) || leb fs.fat_size (fat_index c)
        then end_of_chain
        else if leb fs.total_sectors t
        then end_of_chain
        else w)
      (entry-same (fs.disk.readable t) (update old sec (put32 (old sec) a v) t) (old t) b
        (word-frame old sec a v t b apart))

-- The entry of a cluster whose sector can be read.
fat_get_lem :
    (c : ℕ) (fs : Fs)
    → IsValid fs
    → cluster_valid c fs ≡ true
    → fs.disk.readable (fat_sector c fs) ≡ true
    → fat_get c fs ≡ le32 (fs.disk.sectors (fat_sector c fs)) (fat_offset c) % 2 ^ 28
unfolding fat_get
fat_get_lem c fs v h r =
    let (place, index, table, below) = fat_sector_lem c fs v h in
    let is_mounted = v.is_mounted in
    let inside : leb fs.fat_size (fat_index c) ≡ false = ground (arith, index) in
    let in_volume : leb fs.total_sectors (fat_sector c fs) ≡ false =
      ground (arith, table, below, v.clusters_fit) in
    rw (fat_get, is_mounted, h, inside, in_volume, r) refl

IsValid-disk : (fs : Fs) (d : Disk) → IsValid fs → IsValid (record fs { disk = d })
IsValid-disk fs d v = record {
  is_mounted = v.is_mounted;
  sectors_fit = v.sectors_fit;
  cluster_sectors = v.cluster_sectors;
  small_clusters = v.small_clusters;
  some_fats = v.some_fats;
  tables_fit = v.tables_fit;
  clusters_fit = v.clusters_fit;
  entries_fit = v.entries_fit;
  few_clusters = v.few_clusters;
  boot_sector_apart = v.boot_sector_apart;
  root_valid = v.root_valid;
}

-- Storing a word changes only its four bytes.
stored-byte :
    (sec a v n i : ℕ) (fs : Fs)
    → (n ≢ sec) ⊎ ((i < a) ⊎ (a + 4 ≤ i))
    → (stored sec a v fs).disk.sectors n i ≡ fs.disk.sectors n i
stored-byte sec a v n i fs apart = elim (Bool-cases (sec == n)) [
  | inr other ↦ rw (other) refl
  | inl here ↦
      let same : sec ≡ n = ground (arith, here) in
      let beside : (i < a) ⊎ (a + 4 ≤ i) = ground (arith, same, apart) in
      rw (here)
        (put32-other (fs.disk.sectors sec) a v i beside ∙ ap (λ x. fs.disk.sectors x i) same)
]

-- A volume `new` that has value `v` in the entry of cluster `c`, and is otherwise like `old`: the
-- other entries and the sectors of the clusters are the same, and so is every byte of the disk but
-- the four of the entry, in the first table and in the copy behind it.
pub record SetEntry (c v : ℕ) (old new : Fs) : Type 0 where
  pub valid : IsValid new
  pub entry : fat_get c new ≡ v
  pub others : (c' : ℕ) → cluster_valid c' old ≡ true → c' ≢ c → fat_get c' new ≡ fat_get c' old
  pub clusters : (n : ℕ) → old.data_start ≤ n → new.disk.sectors n ≡ old.disk.sectors n
  pub rest :
      (n i : ℕ)
      → ((n ≢ fat_sector c old) × (n ≢ fat_sector c old + old.fat_size))
        ⊎ ((i < fat_offset c) ⊎ (fat_offset c + 4 ≤ i))
      → new.disk.sectors n i ≡ old.disk.sectors n i
  pub same_volume : new ≡ record old { disk = new.disk }

offsets-apart :
    (c c' : ℕ) (fs : Fs)
    → IsValid fs
    → cluster_valid c fs ≡ true
    → cluster_valid c' fs ≡ true
    → c' ≢ c
    → (fat_sector c fs ≢ fat_sector c' fs)
      ⊎ ((fat_offset c' + 4 ≤ fat_offset c) ⊎ (fat_offset c + 4 ≤ fat_offset c'))
offsets-apart c c' fs v h h' ne = elim (Bool-cases (fat_sector c fs == fat_sector c' fs)) [
  | inr other ↦ inl (ground (arith, other))
  | inl here ↦
      let (place, index, table, below) = fat_sector_lem c fs v h in
      let (place', index', table', below') = fat_sector_lem c' fs v h' in
      let few = small c fs v h in
      let few' = small c' fs v h' in
      let same : c * 4 / 512 ≡ c' * 4 / 512 = ground (arith, here, place, place') in
      inr (elim (Bool-cases (ltb c c')) [
        | inl low ↦
            let lt : c < c' = ground (arith, low) in inr (omega (arith, lt, same, few, few'))
        | inr high ↦
            let gt : c' < c = ground (arith, high, ne) in inl (omega (arith, gt, same, few, few'))
      ])
]
  where
    small : (c : ℕ) (fs : Fs) → IsValid fs → cluster_valid c fs ≡ true → c < 2 ^ 28
    small c fs v h = ground (arith, h, v.few_clusters)

first_apart :
    (n i s k a : ℕ)
    → ((n ≢ s) × (n ≢ s + k)) ⊎ ((i < a) ⊎ (a + 4 ≤ i))
    → (n ≢ s) ⊎ ((i < a) ⊎ (a + 4 ≤ i))
first_apart n i s k a (inl (p, q)) = inl p
first_apart n i s k a (inr h) = inr h

second_apart :
    (n i s k a : ℕ)
    → ((n ≢ s) × (n ≢ s + k)) ⊎ ((i < a) ⊎ (a + 4 ≤ i))
    → (n ≢ s + k) ⊎ ((i < a) ⊎ (a + 4 ≤ i))
second_apart n i s k a (inl (p, q)) = inl q
second_apart n i s k a (inr h) = inr h

first-SetEntry :
    (c v : ℕ) (fs : Fs)
    → IsValid fs
    → cluster_valid c fs ≡ true
    → fs.disk.readable (fat_sector c fs) ≡ true
    → v < 2 ^ 28
    → SetEntry c v fs (stored (fat_sector c fs) (fat_offset c) v fs)
first-SetEntry c v fs i h r low =
    let sec = fat_sector c fs in
    let a = fat_offset c in
    let new = stored sec a v fs in
    let (place, index, table, below) = fat_sector_lem c fs i h in
    let old : Disk = fs.disk in
    let new_disk : Disk = record old {
      sectors = update old.sectors sec (put32 (old.sectors sec) a v);
    } in
    let valid = IsValid-disk fs new_disk i in
    record {
      valid = valid;
      entry =
          fat_get_lem c new valid h r
          ∙ ap (λ x. le32 x a % 2 ^ 28) (update_self old.sectors sec (put32 (old.sectors sec) a v))
          ∙ ap (λ w. w % 2 ^ 28) (put32-at (old.sectors sec) a v (omega (arith, low)))
          ∙ omega (arith, low);
      others = λ c' h' ne. stored-frame sec a v c' fs (offsets-apart c c' fs i h h' ne);
      clusters = λ n high.
          update_ne old.sectors sec n (put32 (old.sectors sec) a v)
            (far sec n (omega (arith, table, below, high)));
      rest = λ n i apart. stored-byte sec a v n i fs (first_apart n i sec fs.fat_size a apart);
      same_volume = refl;
    }
  where
    far : (m n : ℕ) → m < n → m ≢ n
    far m n h = ground (arith, h)

-- The second copy stands behind the first table, and its word changes no entry.
mirror-SetEntry :
    (c v : ℕ) (fs : Fs)
    → IsValid fs
    → cluster_valid c fs ≡ true
    → fs.disk.readable (fat_sector c fs) ≡ true
    → v < 2 ^ 28
    → 2 ≤ fs.num_fats
    → SetEntry c v fs (
        stored
          (fat_sector c fs + fs.fat_size)
          (fat_offset c)
          v
          (stored (fat_sector c fs) (fat_offset c) v fs))
mirror-SetEntry c v fs i h r low two =
    let a = fat_offset c in
    let mid = stored (fat_sector c fs) a v fs in
    let sec = fat_sector c fs + fs.fat_size in
    let first = first-SetEntry c v fs i h r low in
    let (place, index, table, below) = fat_sector_lem c fs i h in
    let tables = mul_mono 1 fs.num_fats fs.fat_size (omega (arith, two)) in
    let behind : (c' : ℕ) → cluster_valid c' fs ≡ true → sec ≢ fat_sector c' fs = λ c' h'.
      let (place', index', table', below') = fat_sector_lem c' fs i h' in
      far sec (fat_sector c' fs) (omega (arith, place, table')) in
    let disk : Disk = mid.disk in
    let new_disk : Disk = record disk {
      sectors = update disk.sectors sec (put32 (disk.sectors sec) a v);
    } in
    record {
      valid = IsValid-disk mid new_disk first.valid;
      entry = stored-frame sec a v c mid (inl (behind c h)) ∙ first.entry;
      others = λ c' h' ne. stored-frame sec a v c' mid (inl (behind c' h')) ∙ first.others c' h' ne;
      clusters = λ n high.
          update_ne disk.sectors sec n (put32 (disk.sectors sec) a v)
            (far' sec n (omega (arith, table, tables, i.tables_fit, high)))
          ∙ first.clusters n high;
      rest = λ n i apart.
          stored-byte sec a v n i mid (second_apart n i (fat_sector c fs) fs.fat_size a apart)
          ∙ first.rest n i apart;
      same_volume = refl;
    }
  where
    far : (m n : ℕ) → n < m → m ≢ n
    far m n h = ground (arith, h)

    far' : (m n : ℕ) → m < n → m ≢ n
    far' m n h = ground (arith, h)

-- A write to both copies, or to the only one, that succeeded.
record BothWritten (sec a v : ℕ) (p : Bool × Fs) (fs' : Fs) : Type 0 where
  middle : Fs
  first : p ≡ (true, middle)
  second :
      (fs' ≡ middle)
      ⊎ ((2 ≤ middle.num_fats) × (set_word (sec + middle.fat_size) a v middle ≡ (true, fs')))

set_mirror-true :
    (sec a v : ℕ) (p : Bool × Fs) (fs' : Fs)
    → set_mirror sec a v p ≡ (true, fs')
    → BothWritten sec a v p fs'
unfolding set_mirror
set_mirror-true sec a v (false, g) fs' e = absurd (cc (ap (λ p. p.0) e))
set_mirror-true sec a v (true, g) fs' e = elim (Bool-cases (ltb g.num_fats 2)) [
  | inl one ↦ record {
    middle = g;
    first = refl;
    second = inl (sym (ap (λ p. p.1) (simp (set_mirror, one) at e)));
  }
  | inr two ↦ elim (Bool-cases (leb g.total_sectors (sec + g.fat_size))) [
    | inl out ↦ absurd (cc (ap (λ p. p.0) (simp (set_mirror, two, out) at e)))
    | inr inside ↦ record {
      middle = g;
      first = refl;
      second = inr (ground (arith, two), simp (set_mirror, two, inside) at e);
    }
  ]
]

both-SetEntry :
    (c v : ℕ) (fs fs' : Fs)
    → IsValid fs
    → cluster_valid c fs ≡ true
    → v < 2 ^ 28
    → BothWritten
        (fat_sector c fs)
        (fat_offset c)
        v
        (set_word (fat_sector c fs) (fat_offset c) v fs)
        fs'
    → SetEntry c v fs fs'
both-SetEntry c v fs fs' i h low w =
    let sec = fat_sector c fs in
    let a = fat_offset c in
    let (at, r) = set_word-stored sec a v fs w.middle w.first in
    elim w.second [
      | inl one ↦ subst (λ g. SetEntry c v fs g) (sym (one ∙ at)) (first-SetEntry c v fs i h r low)
      | inr (two, again) ↦
          let two' : 2 ≤ fs.num_fats = subst (λ g. 2 ≤ g.num_fats) at two in
          let again' : set_word (sec + fs.fat_size) a v (stored sec a v fs) ≡ (true, fs') =
            subst (λ g. set_word (sec + g.fat_size) a v g ≡ (true, fs')) at again in
          let (at', r') = set_word-stored (sec + fs.fat_size) a v (stored sec a v fs) fs' again' in
          subst (λ g. SetEntry c v fs g) (sym at') (mirror-SetEntry c v fs i h r low two')
    ]

-- Setting the entry of a valid cluster of a valid volume, when it succeeds, gives that entry the low
-- 28 bits of the value, changes no entry of another cluster, no sector of a cluster and no byte of
-- the disk but those of the entry in the first table and in the copy behind it, and leaves the volume
-- valid.
pub fat_set-SetEntry :
    (c value : ℕ) (fs fs' : Fs)
    → IsValid fs
    → fat_set c value fs ≡ (true, fs')
    → SetEntry c (value % 2 ^ 28) fs fs'
unfolding fat_set set_mirror
fat_set-SetEntry c value fs fs' i e =
    let v = value % 2 ^ 28 in
    let is_mounted = i.is_mounted in
    elim (Bool-cases (cluster_valid c fs)) [
      | inr bad ↦ absurd (cc (ap (λ p. p.0) (simp (fat_set, is_mounted, bad) at e)))
      | inl h ↦
          elim (Bool-cases (
            bad_link v fs
            || leb fs.fat_size (fat_index c)
            || leb fs.total_sectors (fat_sector c fs))) [
              | inl bad ↦ absurd (cc (ap (λ p. p.0) (simp (fat_set, is_mounted, h, bad) at e)))
              | inr good ↦ both-SetEntry c v fs fs' i h (omega arith) (
                  set_mirror-true (fat_sector c fs) (fat_offset c) v
                    (set_word (fat_sector c fs) (fat_offset c) v fs) fs'
                    (simp (fat_set, is_mounted, h, good) at e))
            ]
    ]
