-- ===== src/Heap/Free.antt =====
-- `kfree` of kernel/heap.c: the block is free, and one with the free ones beside it.
use os.Base.{
  ℕ, ◌+◌, ◌-◌, ◌%◌, ◌^◌, ◌<◌, ◌≤◌, ◌≡◌, ◌≢◌, refl, sym, ◌∙◌, ap, subst, Bool, true, false, Option,
  none, some, List, [], ◌∷◌, ◌++◌, arith, ◌==◌, ==_self, ==_ne, update, update_ne,
}
use os.Heap.{header_size, Block, Heap, set_prev, merge_next, merge_prev, free_block, free_at, kfree}
use os.Heap.Tiles.{
  Cell, after, link, header, Right, back, Left, IsHeap, onto, Right-frame, Left-frame, Right-stop,
  shift, unzip,
}
use os.Heap.Malloc.{total}

-- The blocks when the one of size `s` in front of `rs` is free: it takes in a free one behind it.
abbrev pub join : ℕ → List Cell → List Cell
join s [] = (s, true) ∷ []
join s ((t, true) ∷ rs) = (s + (header_size + t), true) ∷ rs
join s ((t, false) ∷ rs) = (s, true) ∷ (t, false) ∷ rs

-- The blocks when the one at the front of the second list is free: a free one in front of it, the
-- first of the other list, takes it in.
abbrev pub attach : List Cell → List Cell → List Cell
attach ls [] = onto ls []
attach [] (c ∷ rs) = c ∷ rs
attach ((t, true) ∷ ls) (c ∷ rs) = onto ls ((t + (header_size + c.0), true) ∷ rs)
attach ((t, false) ∷ ls) (c ∷ rs) = onto ls ((t, false) ∷ c ∷ rs)

-- The block at `a`, of size `s`, takes in one of size `t` behind it, which `nxt` follows.
abbrev absorb : ℕ → ℕ → ℕ → Option ℕ → (ℕ → Block) → ℕ → Block
absorb a s t nxt m =
    set_prev nxt a
      (update m a (record (m a) { size = (s + (header_size + t)) % 2 ^ 64; next = nxt }))

-- The headers after that.
record Absorbed (m n : ℕ → Block) (a s t : ℕ) (f : Bool) (nxt prv : Option ℕ) : Type 0 where
  at_block : n a ≡ header (s + (header_size + t), f) nxt prv
  at_next : (x : ℕ) → nxt ≡ some x → n x ≡ record (m x) { prev = some a }
  elsewhere : (x : ℕ) → x ≢ a → nxt ≢ some x → n x ≡ m x

absorb-Absorbed :
    (m : ℕ → Block) (a s t : ℕ) (f : Bool) (old nxt prv : Option ℕ)
    → m a ≡ header (s, f) old prv
    → s + (header_size + t) < 2 ^ 64
    → nxt ≢ some a
    → Absorbed m (absorb a s t nxt m) a s t f nxt prv
absorb-Absorbed m a s t f old none prv e w ne =
    let size : (s + (header_size + t)) % 2 ^ 64 ≡ s + (header_size + t) = omega arith in
    rw (e, size)
      (record {
        at_block = ground arith;
        at_next = λ x q. absurd (cc q);
        elsewhere = λ x d q. ground arith;
      })
absorb-Absorbed m a s t f old (some q) prv e w ne =
    let size : (s + (header_size + t)) % 2 ^ 64 ≡ s + (header_size + t) = omega arith in
    let away : q ≢ a = λ same. ne (ap some same) in
    rw (e, size)
      (record {
        at_block = ground arith;
        at_next = λ x same. ground arith;
        elsewhere = λ x d same. ground arith;
      })

absorb-Right :
    (m : ℕ → Block) (base stop a s t : ℕ) (f g : Bool) (ls rs : List Cell)
    → stop < 2 ^ 64
    → Left m base ls a
    → Right m stop (back ls a) ((s, f) ∷ (t, g) ∷ rs) a
    → let n = absorb a s t (link rs (after (after a (s, f)) (t, g))) m in
      Left n base ls a × Right n stop (back ls a) ((s + (header_size + t), f) ∷ rs) a
absorb-Right m base stop a s t f g ls [] w l r =
    let k =
      absorb-Absorbed m a s t f (some (after a (s, f))) none (back ls a) r.0 (omega (arith, r.1.1))
        (λ q. cc q) in
    (
      Left-frame m (absorb a s t none m) base ls a (λ x lt. k.elsewhere x (omega arith) (λ q. cc q))
          l,
      (k.at_block, omega (arith, r.1.1)),
    )
absorb-Right m base stop a s t f g ls (d ∷ rs) w l r =
    let q = after (after a (s, f)) (t, g) in
    let below : q ≤ stop = Right-stop m stop (some (after a (s, f))) (d ∷ rs) q r.1.1 in
    let k =
      absorb-Absorbed m a s t f (some (after a (s, f))) (some q) (back ls a) r.0
        (omega (arith, below)) (λ same. absurd (ground (arith, same))) in
    let e : after a (s + (header_size + t), f) ≡ q = omega arith in
    (
      Left-frame m (absorb a s t (some q) m) base ls a
          (λ x lt. k.elsewhere x (omega arith) (λ same. absurd (ground (arith, same)))) l,
      rw e (
        k.at_block,
        (
          k.at_next q refl ∙ ap relink r.1.1.0,
          Right-frame m (absorb a s t (some q) m) stop (some q) rs (after q d)
              (λ x le. k.elsewhere x (omega arith) (λ same. absurd (ground (arith, same)))) r.1.1.1,
        ),
      ),
    )
  where
    relink : Block → Block
    relink b = record b { prev = some a }

-- A state of memory in which the blocks are these, around the address `a`.
abbrev Around : ℕ → ℕ → List Cell → List Cell → ℕ → (ℕ → Block) → Type 0
Around base stop ls rs a n = Left n base ls a × Right n stop (back ls a) rs a

merge_next-Right :
    (m : ℕ → Block) (base stop b s : ℕ) (ls rs : List Cell)
    → stop < 2 ^ 64
    → Around base stop ls ((s, true) ∷ rs) b m
    → Around base stop ls (join s rs) b (merge_next b m)
unfolding merge_next
merge_next-Right m base stop b s ls [] w (l, r) =
    let same : merge_next b m ≡ m = rw (r.0, merge_next) refl in
    subst (Around base stop ls ((s, true) ∷ []) b) (sym same) (l, r)
merge_next-Right m base stop b s ls ((t, false) ∷ rs) w (l, r) =
    let same : merge_next b m ≡ m = rw (r.0, merge_next, r.1.0) refl in
    subst (Around base stop ls ((s, true) ∷ (t, false) ∷ rs) b) (sym same) (l, r)
merge_next-Right m base stop b s ls ((t, true) ∷ rs) w (l, r) =
    let nxt = link rs (after (after b (s, true)) (t, true)) in
    let same : merge_next b m ≡ absorb b s t nxt m =
      rw (r.0, merge_next, r.1.0, ==_self b) (rw r.0 refl) in
    subst (Around base stop ls ((s + (header_size + t), true) ∷ rs) b) (sym same)
      (absorb-Right m base stop b s t true true ls rs w l r)

merge_prev-Right :
    (m : ℕ → Block) (base stop b s : ℕ) (ls rs : List Cell)
    → stop < 2 ^ 64
    → Around base stop ls ((s, true) ∷ rs) b m
    → Right (merge_prev b m) stop none (attach ls ((s, true) ∷ rs)) base
unfolding merge_prev
merge_prev-Right m base stop b s [] rs w (l, r) =
    let same : merge_prev b m ≡ m = rw (r.0, merge_prev) refl in
    subst (λ n. Right n stop none ((s, true) ∷ rs) base) (sym same)
      (unzip m base stop [] (s, true) rs b l r)
merge_prev-Right m base stop b s ((t, false) ∷ ls) rs w (l, r) =
    let same : merge_prev b m ≡ m = rw (r.0, merge_prev, l.1) refl in
    subst (λ n. Right n stop none (onto ls ((t, false) ∷ (s, true) ∷ rs)) base) (sym same)
      (unzip m base stop ((t, false) ∷ ls) (s, true) rs b l r)
merge_prev-Right m base stop b s ((t, true) ∷ ls) rs w (l, r) =
    let p = b - header_size - t in
    let e : after p (t, true) ≡ b = omega (arith, l.0) in
    let nxt = link rs (after b (s, true)) in
    let apart : (p == b) ≡ false = ==_ne p b (omega (arith, l.0)) in
    let same : merge_prev b m ≡ absorb p t s nxt m =
      rw (r.0, merge_prev, l.1, apart) (rw r.0 refl) in
    let around : Around base stop ls ((t, true) ∷ (s, true) ∷ rs) p m = (l.2, rw e (l.1, r)) in
    let (l', r') : Around base stop ls ((t + (header_size + s), true) ∷ rs) p (absorb p t s nxt m) =
      subst
        (λ q.
          Around base stop ls ((t + (header_size + s), true) ∷ rs) p
            (absorb p t s (link rs (after q (s, true))) m))
        e (absorb-Right m base stop p t s true true ls rs w around.0 around.1) in
    subst (λ n. Right n stop none (onto ls ((t + (header_size + s), true) ∷ rs)) base) (sym same)
      (unzip (absorb p t s nxt m) base stop ls (t + (header_size + s), true) rs p l' r')

-- Walking to the block behind the blocks `zs`.
walk :
    (m : ℕ → Block) (base stop : ℕ) (ls zs : List Cell) (c : Cell) (rs : List Cell) (a : ℕ)
    → Left m base ls a
    → Right m stop (back ls a) (zs ++ (c ∷ rs)) a
    → Around base stop (onto zs ls) (c ∷ rs) (a + total zs) m
walk m base stop ls [] c rs a l r = let e : a + 0 ≡ a = omega arith in rw e (l, r)
walk m base stop ls (z ∷ []) c rs a l r =
    let e : a + (header_size + z.0 + 0) ≡ after a z = omega arith in
    rw e (shift m base stop ls z c rs a l r)
walk m base stop ls (z ∷ y ∷ zs) c rs a l r =
    let (l', r') = shift m base stop ls z y (zs ++ (c ∷ rs)) a l r in
    let e : a + (header_size + z.0 + (header_size + y.0 + total zs))
        ≡ after a z + (header_size + y.0 + total zs) =
      omega arith in
    rw e (walk m base stop (z ∷ ls) (y ∷ zs) c rs (after a z) l' r')

-- The flag is set first.
free-Around :
    (m : ℕ → Block) (base stop b s : ℕ) (f : Bool) (ls rs : List Cell)
    → Around base stop ls ((s, f) ∷ rs) b m
    → Around base stop ls ((s, true) ∷ rs) b (update m b (record (m b) { free = true }))
free-Around m base stop b s f ls rs (l, r) =
    let n = update m b (record (m b) { free = true }) in
    (
      Left-frame m n base ls b (λ x lt. update_ne m b x _ (omega arith)) l,
      (
        rw (==_self b, r.0) refl,
        Right-frame m n stop (some b) rs (after b (s, true))
            (λ x le. update_ne m b x _ (omega arith)) r.1,
      ),
    )

freed-Right :
    (m : ℕ → Block) (base stop b s : ℕ) (f : Bool) (ls rs : List Cell)
    → stop < 2 ^ 64
    → Around base stop ls ((s, f) ∷ rs) b m
    → Right (free_block b m) stop none (attach ls (join s rs)) base
unfolding free_block
freed-Right m base stop b s f ls [] w k =
    let n = update m b (record (m b) { free = true }) in
    merge_prev-Right (merge_next b n) base stop b s ls [] w
      (merge_next-Right n base stop b s ls [] w (free-Around m base stop b s f ls [] k))
freed-Right m base stop b s f ls ((t, false) ∷ rs) w k =
    let n = update m b (record (m b) { free = true }) in
    merge_prev-Right (merge_next b n) base stop b s ls ((t, false) ∷ rs) w (
      merge_next-Right n base stop b s ls ((t, false) ∷ rs) w
        (free-Around m base stop b s f ls ((t, false) ∷ rs) k))
freed-Right m base stop b s f ls ((t, true) ∷ rs) w k =
    let n = update m b (record (m b) { free = true }) in
    merge_prev-Right (merge_next b n) base stop b (s + (header_size + t)) ls rs w (
      merge_next-Right n base stop b s ls ((t, true) ∷ rs) w
        (free-Around m base stop b s f ls ((t, true) ∷ rs) k))

onto-nonempty : (ls : List Cell) (c : Cell) (rs : List Cell) → onto ls (c ∷ rs) ≢ []
onto-nonempty [] c rs e = cc e
onto-nonempty (d ∷ ls) c rs e = onto-nonempty ls d (c ∷ rs) e

attach_cons-nonempty : (ls : List Cell) (s : ℕ) (rs : List Cell) → attach ls ((s, true) ∷ rs) ≢ []
attach_cons-nonempty [] s rs = onto-nonempty [] (s, true) rs
attach_cons-nonempty ((t, true) ∷ ls) s rs = onto-nonempty ls (t + (header_size + s), true) rs
attach_cons-nonempty ((t, false) ∷ ls) s rs = onto-nonempty ls (t, false) ((s, true) ∷ rs)

attach-nonempty : (ls : List Cell) (s : ℕ) (rs : List Cell) → attach ls (join s rs) ≢ []
attach-nonempty ls s [] = attach_cons-nonempty ls s []
attach-nonempty ls s ((t, true) ∷ rs) = attach_cons-nonempty ls (s + (header_size + t)) rs
attach-nonempty ls s ((t, false) ∷ rs) = attach_cons-nonempty ls s ((t, false) ∷ rs)

-- `kfree` of the address behind the header of a block, in a heap whose blocks tile its memory: that
-- block is free, one with a free block behind it and then with a free block in front of it. The
-- blocks tile the heap as before.
pub kfree-Joins :
    (base stop s : ℕ) (f : Bool) (h : Heap) (before rest : List Cell)
    → IsHeap h base stop (before ++ ((s, f) ∷ rest))
    → IsHeap
        (kfree (base + total before + header_size) h)
        base
        stop
        (attach (onto before []) (join s rest))
unfolding kfree free_at
kfree-Joins base stop s f h before rest t =
    let b = base + total before in
    let k = walk h.blocks base stop [] before (s, f) rest base refl t.blocks in
    let below : b + header_size ≤ stop =
      omega (arith, Right-stop h.blocks stop (some b) rest (after b (s, f)) k.1.1) in
    let at : (b + header_size + 2 ^ 64 - header_size) % 2 ^ 64 ≡ b =
      omega (arith, below, t.in_memory) in
    let given : (b + header_size == 0) ≡ false = ground arith in
    let same : kfree (b + header_size) h ≡ record h { blocks = free_block b h.blocks } =
      rw (kfree, t.head, given, at) refl in
    subst (λ g. IsHeap g base stop (attach (onto before []) (join s rest))) (sym same)
      (record {
        head = t.head;
        blocks = freed-Right h.blocks base stop b s f (onto before []) rest t.in_memory k;
        nonempty = attach-nonempty (onto before []) s rest;
        in_memory = t.in_memory;
        not_null = t.not_null;
      })
