-- ===== src/Bootmem/Parse.antt =====
-- `bootmem_parse_multiboot` of kernel/bootmem.c ends on every structure.
use os.Base.{
  ℕ, zero, suc, ◌+◌, ◌-◌, ◌^◌, ◌≤◌, ◌≡◌, ◌⊎◌, refl, Bool, true, false, ◌&&◌, ◌||◌, ◌==◌, ltb, leb,
  if◌then◌else◌, Bool-cases, inl, inr, arith, List, [], length, Option, some,
}
use os.Bootmem.{
  u32, read_le32, total_size, rounded, walk_from, tags_walk_ok, find_tags, Region, max_regions,
  read_entries, regions_of, read_mmap, Boot, take_tag, parse_from, reset, counted, parse_at,
  parse_multiboot,
}

-- A result that holds no more regions than there are slots.
record Ends (o : Option Boot) : Type 0 where
  out : Boot
  same : o ≡ some out
  few : length out.regions ≤ max_regions

record Reads (o : Option (List Region)) : Type 0 where
  out : List Region
  same : o ≡ some out
  few : length out ≤ max_regions

read_entries-length :
    (n : ℕ) (p : ℕ → ℕ) (t size entry_size at : ℕ)
    → length (read_entries n p t size entry_size at) ≤ n
unfolding read_entries
read_entries-length zero p t size entry_size at = omega arith
read_entries-length (suc n) p t size entry_size at =
    let rest = read_entries-length n p t size entry_size (u32 (at + entry_size)) in
    elim (Bool-cases (leb (u32 (at + entry_size)) size)) [
      | inl e ↦ rw (read_entries, e) (omega (arith, rest))
      | inr e ↦ rw (read_entries, e) (omega arith)
    ]

regions_of-length : (p : ℕ → ℕ) (t : ℕ) → length (regions_of p t) ≤ max_regions
unfolding regions_of
regions_of-length p t = elim (Bool-cases (ltb (read_le32 p (t + 8)) 24)) [
  | inl e ↦ rw (e) (omega arith)
  | inr e ↦
      rw (e) (read_entries-length max_regions p t (read_le32 p (t + 4)) (read_le32 p (t + 8)) 16)
]

-- A tag that the walk accepts is the last one, or the walk goes on behind it.
accepted :
    (n : ℕ) (p : ℕ → ℕ) (off budget used : ℕ)
    → walk_from (suc n) p off budget used ≡ true
    → (read_le32 p (off + used) == 0) ≡ false
    → walk_from n p off budget (u32 (used + rounded (read_le32 p (off + used + 4)))) ≡ true
unfolding walk_from
accepted n p off budget used e f =
    let size = read_le32 p (off + used + 4) in
    elim (Bool-cases (ltb size 8)) [
      | inl g ↦ absurd (cc (simp (walk_from, f, g) at e))
      | inr g ↦ elim (Bool-cases (ltb (u32 (budget + 2 ^ 32 - used)) size)) [
        | inl h ↦ absurd (cc (simp (walk_from, f, g, h) at e))
        | inr h ↦ elim (Bool-cases (leb budget (u32 (used + rounded size)))) [
          | inl i ↦ absurd (cc (simp (walk_from, f, g, h, i) at e))
          | inr i ↦ rw (walk_from, f, g, h, i) at e
        ]
      ]
    ]

read_mmap-Reads :
    (n g : ℕ) (p : ℕ → ℕ) (off budget used : ℕ)
    → n ≤ g
    → walk_from n p off budget used ≡ true
    → Reads (read_mmap g p off budget used)
unfolding walk_from read_mmap
read_mmap-Reads zero g p off budget used le e = absurd (cc e)
read_mmap-Reads (suc n) zero p off budget used le e = absurd (omega (arith, le))
read_mmap-Reads (suc n) (suc g) p off budget used le e =
    let t = off + used in
    let size = read_le32 p (t + 4) in
    elim (Bool-cases (ltb budget (u32 (used + 8)))) [
      | inl f ↦ rw (read_mmap, f) (record { out = []; same = refl; few = omega arith })
      | inr f ↦ elim (Bool-cases (read_le32 p t == 0)) [
        | inl h ↦ rw (read_mmap, f, h) (record { out = []; same = refl; few = omega arith })
        | inr h ↦ elim (Bool-cases ((read_le32 p t == 6) && leb 16 size)) [
          | inl i ↦
              rw (read_mmap, f, h, i)
                (record { out = regions_of p t; same = refl; few = regions_of-length p t })
          | inr i ↦ elim (Bool-cases (ltb size 8)) [
            | inl j ↦
                rw (read_mmap, f, h, i, j) (record { out = []; same = refl; few = omega arith })
            | inr j ↦
                rw (read_mmap, f, h, i, j)
                  (read_mmap-Reads n g p off budget (u32 (used + rounded size)) (omega (arith, le))
                    (accepted n p off budget used e h))
          ]
        ]
      ]
    ]

take_tag-Ends :
    (g : ℕ) (p : ℕ → ℕ) (off budget t : ℕ) (b : Boot)
    → Reads (read_mmap g p off budget 0)
    → length b.regions ≤ max_regions
    → Ends (take_tag g p off budget t b)
unfolding take_tag
take_tag-Ends g p off budget t b r few =
    let kind = read_le32 p t in
    let size = read_le32 p (t + 4) in
    elim (Bool-cases ((kind == 1) && ltb 8 size)) [
      | inl e ↦ rw (take_tag, e) (record { out = _; same = refl; few = few })
      | inr e ↦ elim (Bool-cases ((kind == 2) && ltb 8 size)) [
        | inl f ↦ rw (take_tag, e, f) (record { out = _; same = refl; few = few })
        | inr f ↦ elim (Bool-cases (kind == 6)) [
          | inl h ↦ rw (take_tag, e, f, h, r.same) (record { out = _; same = refl; few = r.few })
          | inr h ↦ elim (Bool-cases ((kind == 8) && leb 32 size)) [
            | inl i ↦ rw (take_tag, e, f, h, i) (record { out = _; same = refl; few = few })
            | inr i ↦ rw (take_tag, e, f, h, i) (record { out = b; same = refl; few = few })
          ]
        ]
      ]
    ]

parse_from-Ends :
    (n f g : ℕ) (p : ℕ → ℕ) (off budget used : ℕ) (b : Boot)
    → n ≤ f
    → Reads (read_mmap g p off budget 0)
    → walk_from n p off budget used ≡ true
    → length b.regions ≤ max_regions
    → Ends (parse_from f g p off budget used b)
unfolding walk_from parse_from
parse_from-Ends zero f g p off budget used b le r e few = absurd (cc e)
parse_from-Ends (suc n) zero g p off budget used b le r e few = absurd (omega (arith, le))
parse_from-Ends (suc n) (suc f) g p off budget used b le r e few =
    let t = off + used in
    let size = read_le32 p (t + 4) in
    let k = take_tag-Ends g p off budget t b r few in
    elim (Bool-cases (ltb budget (u32 (used + 8)))) [
      | inl h ↦ rw (parse_from, h) (record { out = b; same = refl; few = few })
      | inr h ↦ elim (Bool-cases (read_le32 p t == 0)) [
        | inl i ↦ rw (parse_from, h, i) (record { out = b; same = refl; few = few })
        | inr i ↦ elim (Bool-cases (ltb size 8)) [
          | inl j ↦
              rw (parse_from, h, i, k.same, j) (record { out = k.out; same = refl; few = k.few })
          | inr j ↦
              rw (parse_from, h, i, k.same, j)
                (parse_from-Ends n f g p off budget (u32 (used + rounded size)) k.out
                  (omega (arith, le)) r (accepted n p off budget used e i) k.few)
        ]
      ]
    ]

-- What the search returns has been walked.
find_tags-cases :
    (n : ℕ) (p : ℕ → ℕ) (cand : ℕ)
    → (find_tags n p cand ≡ 0) ⊎ (tags_walk_ok p (find_tags n p cand) ≡ true)
unfolding find_tags
find_tags-cases zero p cand = inl refl
find_tags-cases (suc n) p cand = elim (Bool-cases (tags_walk_ok p cand)) [
  | inl e ↦ rw (find_tags, e) (inr e)
  | inr e ↦ rw (find_tags, e) (find_tags-cases n p (cand + 4))
]

walked :
    (p : ℕ → ℕ) (off : ℕ)
    → tags_walk_ok p off ≡ true
    → walk_from 256 p off (total_size p - off) 0 ≡ true
unfolding tags_walk_ok
walked p off e = elim (Bool-cases (ltb off 8 || leb (total_size p) off)) [
  | inl out ↦ absurd (cc (simp (tags_walk_ok, out) at e))
  | inr ok ↦ rw (tags_walk_ok, ok) at e
]

counted-Ends : (o : Option Boot) → Ends o → Ends (counted o)
counted-Ends o k = rw (k.same) (record { out = _; same = refl; few = k.few })

if_Ends :
    (c : Bool) (x y : Option Boot) → Ends x → ((c ≡ true) ⊎ Ends y) → Ends (if c then x else y)
if_Ends true x y k l = k
if_Ends false x y k (inl e) = absurd (cc e)
if_Ends false x y k (inr l) = l

-- The loops on a list of tags that has been walked.
parse_list-Ends :
    (p : ℕ → ℕ) (off : ℕ) (b : Boot)
    → tags_walk_ok p off ≡ true
    → length b.regions ≤ max_regions
    → Ends (parse_from 257 257 p off (total_size p - off) 0 b)
parse_list-Ends p off b e few =
    let budget = total_size p - off in
    let ok = walked p off e in
    parse_from-Ends 256 257 257 p off budget 0 b (omega arith)
      (read_mmap-Reads 256 257 p off budget 0 (omega arith) ok) ok few

parse_at-Ends :
    (p : ℕ → ℕ) (off : ℕ) (b : Boot)
    → (off ≡ 0) ⊎ (tags_walk_ok p off ≡ true)
    → length b.regions ≤ max_regions
    → Ends (parse_at p off b)
unfolding parse_at
parse_at-Ends p off b found few =
    let set = record b { info = record b.info { tags_offset = off } } in
    let o = parse_from 257 257 p off (total_size p - off) 0 set in
    if_Ends (off == 0) (some b) (counted o) (record { out = b; same = refl; few = few })
      (elim found [
        | inl e ↦ inl (ground (arith, e))
        | inr e ↦ inr (counted-Ends o (parse_list-Ends p off set e few))
      ])

-- `bootmem_parse_multiboot` ends on every structure, whatever its bytes are: 257 rounds are enough for
-- both loops that have no bound of their own, and no more than 48 regions are stored.
parse_multiboot-some :
    (p : ℕ → ℕ) (b : Boot)
    → (out : Boot) × (parse_multiboot p b ≡ some out) × (length out.regions ≤ max_regions)
unfolding parse_multiboot
parse_multiboot-some p b =
    let off = find_tags 14 p 8 in
    let k =
      if_Ends (ltb (total_size p) 32) (some (reset b)) (parse_at p off (reset b))
        (record { out = reset b; same = refl; few = omega arith })
        (inr (parse_at-Ends p off (reset b) (find_tags-cases 14 p 8) (omega arith))) in
    (k.out, k.same, k.few)
