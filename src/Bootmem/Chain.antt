-- ===== src/Bootmem/Chain.antt =====
-- The list of tags that the walk of kernel/bootmem.c accepts.
use os.Base.{
  ℕ, zero, suc, ◌+◌, ◌-◌, ◌*◌, ◌/◌, ◌^◌, ◌<◌, ◌≤◌, ◌≡◌, ◌≢◌, subst, true, false, ◌||◌, ◌==◌, ltb,
  leb, Bool-cases, inl, inr, arith,
}
use os.Bootmem.{u32, read_le32, total_size, rounded, walk_from, tags_walk_ok}

-- A list of tags from `t` on: each has at least 8 bytes and ends before `stop`, the next one begins at
-- the next multiple of 8 behind it, and the last one, of type 0, begins before `stop`.
pub data Chain (p : ℕ → ℕ) (stop : ℕ) : ℕ → Type 0 where
  last : (t : ℕ) → t < stop → read_le32 p t ≡ 0 → Chain p stop t
  more :
      (t : ℕ)
      → read_le32 p t ≢ 0
      → 8 ≤ read_le32 p (t + 4)
      → t + read_le32 p (t + 4) ≤ stop
      → Chain p stop (t + (read_le32 p (t + 4) + 7) / 8 * 8)
      → Chain p stop t

walk_from-Chain :
    (n : ℕ) (p : ℕ → ℕ) (off budget used : ℕ)
    → off + budget + 8 ≤ 2 ^ 32
    → used < budget
    → walk_from n p off budget used ≡ true
    → Chain p (off + budget) (off + used)
unfolding walk_from
walk_from-Chain zero p off budget used w lt e = absurd (cc e)
walk_from-Chain (suc n) p off budget used w lt e =
    let t = off + used in
    let size = read_le32 p (t + 4) in
    elim (Bool-cases (read_le32 p t == 0)) [
      | inl f ↦ last t (omega (arith, lt)) (ground (arith, f))
      | inr f ↦ elim (Bool-cases (ltb size 8)) [
        | inl g ↦ absurd (cc (simp (walk_from, f, g) at e))
        | inr g ↦ elim (Bool-cases (ltb (u32 (budget + 2 ^ 32 - used)) size)) [
          | inl h ↦ absurd (cc (simp (walk_from, f, g, h) at e))
          | inr h ↦ elim (Bool-cases (leb budget (u32 (used + rounded size)))) [
            | inl i ↦ absurd (cc (simp (walk_from, f, g, h, i) at e))
            | inr i ↦
                let room : u32 (budget + 2 ^ 32 - used) ≡ budget - used = omega (arith, lt, w) in
                let fits : size ≤ budget - used = ground (arith, h, room) in
                let next : u32 (used + rounded size) ≡ used + (size + 7) / 8 * 8 =
                  omega (arith, fits, lt, w) in
                let inside : used + (size + 7) / 8 * 8 < budget = ground (arith, i, next) in
                let rest : walk_from n p off budget (u32 (used + rounded size)) ≡ true =
                  rw (walk_from, f, g, h, i) at e in
                let at : off + (used + (size + 7) / 8 * 8) ≡ t + (size + 7) / 8 * 8 = omega arith in
                more t (ground (arith, f)) (ground (arith, g)) (omega (arith, fits, lt)) (
                  subst (Chain p (off + budget)) at (
                    walk_from-Chain n p off budget (used + (size + 7) / 8 * 8) w inside
                      (rw (next) at rest)))
          ]
        ]
      ]
    ]

in_structure : (off total : ℕ) → (ltb off 8 || leb total off) ≡ false → off < total
in_structure off total e = ground (arith, e)

-- Where `tags_walk_ok` accepts an offset, in a structure of at most 2 ^ 32 - 8 bytes, every tag from
-- there on up to the first of type 0 has at least 8 bytes and ends within the structure, and there is
-- one of type 0 behind them, which begins within the structure; its own header may lie past the end.
pub tags_walk_ok-Chain :
    (p : ℕ → ℕ) (off : ℕ)
    → total_size p + 8 ≤ 2 ^ 32
    → tags_walk_ok p off ≡ true
    → Chain p (total_size p) off
unfolding tags_walk_ok
tags_walk_ok-Chain p off w e = elim (Bool-cases (ltb off 8 || leb (total_size p) off)) [
  | inl out ↦ absurd (cc (simp (tags_walk_ok, out) at e))
  | inr ok ↦
      let lt : off < total_size p = in_structure off (total_size p) ok in
      let rest : walk_from 256 p off (total_size p - off) 0 ≡ true = rw (tags_walk_ok, ok) at e in
      let stop : off + (total_size p - off) ≡ total_size p = omega (arith, lt) in
      let start : off + 0 ≡ off = omega arith in
      rw (stop, start) at
        (walk_from-Chain 256 p off (total_size p - off) 0 (omega (arith, stop, w))
          (omega (arith, lt)) rest)
]
