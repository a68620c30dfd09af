-- ===== src/Heap/Malloc.antt =====
-- `kmalloc` of kernel/heap.c: the first free block that is large enough is cut in two.
use mathlib.Core.List.{append-nil}
use os.Base.{
  ℕ, zero, suc, ◌+◌, ◌-◌, ◌%◌, ◌^◌, ◌<◌, ◌≤◌, ◌≡◌, ◌≢◌, ◌⊎◌, refl, ◌∙◌, ap, subst, Bool, true,
  false, ◌&&◌, Option, none, some, List, [], ◌∷◌, ◌++◌, arith, length, leb, ◌==◌, Bool-cases, inl,
  inr,
}
use os.Heap.{
  header_size, Block, Heap, align, fits, find_block, split_block, malloc_found, malloc_at, kmalloc,
}
use os.Heap.Tiles.{
  Cell, after, header, Right, back, Left, IsHeap, onto, Right-frame, Left-frame, Right-stop, shift,
  unzip,
}

-- Whether a block serves a request for `aligned` bytes.
abbrev pub serves : ℕ → Cell → Bool
serves aligned (s, f) = f && leb (aligned + header_size) s

abbrev pub NoneServes : ℕ → List Cell → Type 0
NoneServes aligned [] = Unit {0}
NoneServes aligned (c ∷ cs) = (serves aligned c ≡ false) × NoneServes aligned cs

-- The search has stopped at a block of size `s`, the first one that serves, behind the blocks `zs`.
record Found (m : ℕ → Block) (base stop aligned : ℕ) (ls cs : List Cell) (c : ℕ) : Type 0 where
  before : List Cell
  size : ℕ
  rest : List Cell
  lefts : List Cell
  split : cs ≡ before ++ ((size, true) ∷ rest)
  large : aligned + header_size ≤ size
  small : NoneServes aligned before
  left : Left m base lefts c
  right : Right m stop (back lefts c) ((size, true) ∷ rest) c
  backwards : (xs : List Cell) → onto lefts xs ≡ onto ls (before ++ xs)

fits-serves :
    (aligned : ℕ) (c : Cell) (nxt prv : Option ℕ)
    → aligned + header_size < 2 ^ 64
    → fits aligned (header c nxt prv) ≡ serves aligned c
fits-serves aligned c nxt prv w =
    let e : (aligned + header_size) % 2 ^ 64 ≡ aligned + header_size = omega arith in rw e refl

-- The search stops at once.
Found-here :
    (aligned : ℕ) (m : ℕ → Block) (base stop : ℕ) (ls cs : List Cell) (d : Cell) (a : ℕ)
    → Left m base ls a
    → Right m stop (back ls a) (d ∷ cs) a
    → serves aligned d ≡ true
    → Found m base stop aligned ls (d ∷ cs) a
Found-here aligned m base stop ls cs (s, true) a l r hit = record {
  before = [];
  size = s;
  rest = cs;
  lefts = ls;
  split = refl;
  large = ground arith;
  small = tt;
  left = l;
  right = r;
  backwards = λ xs. refl;
}
Found-here aligned m base stop ls cs (s, false) a l r hit = absurd (cc hit)

-- Or later.
Found-later :
    (aligned : ℕ) (m : ℕ → Block) (base stop : ℕ) (ls cs : List Cell) (d : Cell) (c : ℕ)
    → serves aligned d ≡ false
    → Found m base stop aligned (d ∷ ls) cs c
    → Found m base stop aligned ls (d ∷ cs) c
Found-later aligned m base stop ls cs d c miss f = record {
  before = d ∷ f.before;
  size = f.size;
  rest = f.rest;
  lefts = f.lefts;
  split = ap (λ l. d ∷ l) f.split;
  large = f.large;
  small = (miss, f.small);
  left = f.left;
  right = f.right;
  backwards = f.backwards;
}

abbrev Search : ℕ → ℕ → (ℕ → Block) → ℕ → ℕ → List Cell → List Cell → ℕ → Type 0
Search f aligned m base stop ls cs a =
    ((find_block f aligned m (some a) ≡ some none) × NoneServes aligned cs)
    ⊎ ((c : ℕ) × (find_block f aligned m (some a) ≡ some (some c))
        × Found m base stop aligned ls cs c)

find_block-Found :
    (f aligned : ℕ) (m : ℕ → Block) (base stop : ℕ) (ls cs : List Cell) (d : Cell) (a : ℕ)
    → aligned + header_size < 2 ^ 64
    → Left m base ls a
    → Right m stop (back ls a) (d ∷ cs) a
    → length (d ∷ cs) < f
    → Search f aligned m base stop ls (d ∷ cs) a
unfolding find_block
find_block-Found zero aligned m base stop ls cs d a w l r h = absurd (omega arith)
find_block-Found (suc zero) aligned m base stop ls cs d a w l r h = absurd (omega arith)
find_block-Found (suc (suc f)) aligned m base stop ls [] d a w l r h =
    elim (Bool-cases (serves aligned d)) [
      | inl hit ↦ inr (
        a,
        rw (r.0, find_block, fits-serves aligned d none (back ls a) w, hit) refl,
        Found-here aligned m base stop ls [] d a l r hit,
      )
      | inr miss ↦
          inl
            (rw (r.0, find_block, fits-serves aligned d none (back ls a) w, miss) refl, (miss, tt))
    ]
find_block-Found (suc (suc f)) aligned m base stop ls (e ∷ cs) d a w l r h =
    elim (Bool-cases (serves aligned d)) [
      | inl hit ↦ inr (
        a,
        rw (r.0, find_block, fits-serves aligned d (some (after a d)) (back ls a) w, hit) refl,
        Found-here aligned m base stop ls (e ∷ cs) d a l r hit,
      )
      | inr miss ↦
          let (l', r') = shift m base stop ls d e cs a l r in
          elim (find_block-Found (suc f) aligned m base stop (d ∷ ls) cs e (after a d) w l' r'
            (omega arith)) [
              | inl (e1, none_left) ↦ inl (
                rw (r.0, find_block, fits-serves aligned d (some (after a d)) (back ls a) w, miss)
                    e1,
                (miss, none_left),
              )
              | inr (c, e1, found) ↦ inr (
                c,
                rw (r.0, find_block, fits-serves aligned d (some (after a d)) (back ls a) w, miss)
                    e1,
                Found-later aligned m base stop ls (e ∷ cs) d c miss found,
              )
            ]
    ]

-- The headers after a cut whose new block stands at `fresh`.
record Cut (m n : ℕ → Block) (aligned c fresh s : ℕ) (nxt prv : Option ℕ) : Type 0 where
  at_block : n c ≡ header (aligned, false) (some fresh) prv
  at_fresh : n fresh ≡ header (s - aligned - header_size, true) nxt (some c)
  at_next : (x : ℕ) → nxt ≡ some x → n x ≡ record (m x) { prev = some fresh }
  elsewhere : (x : ℕ) → x ≢ c → x ≢ fresh → nxt ≢ some x → n x ≡ m x

split_block-Cut :
    (m : ℕ → Block) (aligned c s : ℕ) (nxt prv : Option ℕ)
    → m c ≡ header (s, true) nxt prv
    → aligned + header_size ≤ s
    → c + header_size + s < 2 ^ 64
    → ((x : ℕ) → nxt ≡ some x → c + header_size + s ≤ x)
    → Cut m (split_block aligned c m) aligned c (c + header_size + aligned) s nxt prv
unfolding split_block
split_block-Cut m aligned c s none prv e h w far =
    rw (e, split_block, wrapped, rest_size, apart)
      (record {
        at_block = ground arith;
        at_fresh = ground arith;
        at_next = λ x q. ground arith;
        elsewhere = λ x a b q. ground arith;
      })
  where
    wrapped : (c + header_size + aligned) % 2 ^ 64 ≡ c + header_size + aligned
    wrapped = omega arith

    rest_size : (s + 2 ^ 65 - aligned - header_size) % 2 ^ 64 ≡ s - aligned - header_size
    rest_size = omega arith

    apart : (c + header_size + aligned == c) ≡ false
    apart = ground arith
split_block-Cut m aligned c s (some n) prv e h w far =
    rw (e, split_block, wrapped, rest_size, apart)
      (record {
        at_block = ground (arith, far n refl);
        at_fresh = ground (arith, far n refl);
        at_next = λ x q. ground (arith, far n refl);
        elsewhere = λ x a b q. ground (arith, far n refl);
      })
  where
    wrapped : (c + header_size + aligned) % 2 ^ 64 ≡ c + header_size + aligned
    wrapped = omega arith

    rest_size : (s + 2 ^ 65 - aligned - header_size) % 2 ^ 64 ≡ s - aligned - header_size
    rest_size = omega arith

    apart : (c + header_size + aligned == c) ≡ false
    apart = ground arith

-- Cutting the block at `c` leaves the blocks before it, and tiles its place with two.
split_block-Right :
    (aligned c : ℕ) (m : ℕ → Block) (base stop s : ℕ) (ls rs : List Cell)
    → aligned + header_size ≤ s
    → stop < 2 ^ 64
    → Left m base ls c
    → Right m stop (back ls c) ((s, true) ∷ rs) c
    → Left (split_block aligned c m) base ls c
      × Right
          (split_block aligned c m)
          stop
          (back ls c)
          ((aligned, false) ∷ (s - aligned - header_size, true) ∷ rs)
          c
split_block-Right aligned c m base stop s ls [] h w l r =
    let k =
      split_block-Cut m aligned c s none (back ls c) r.0 h (omega (arith, r.1))
        (λ x q. absurd (cc q)) in
    (
      Left-frame m (split_block aligned c m) base ls c
          (λ x lt. k.elsewhere x (omega arith) (omega arith) (λ q. cc q)) l,
      (k.at_block, (k.at_fresh, omega (arith, r.1))),
    )
split_block-Right aligned c m base stop s ls (d ∷ rs) h w l r =
    let q = after c (s, true) in
    let relink : Block → Block = λ b. record b { prev = some (c + header_size + aligned) } in
    let below : q ≤ stop = Right-stop m stop (some c) (d ∷ rs) q r.1 in
    let k =
      split_block-Cut m aligned c s (some q) (back ls c) r.0 h (omega (arith, below))
        (λ x same. ground (arith, same)) in
    let e : after (after c (aligned, false)) (s - aligned - header_size, true) ≡ q = omega arith in
    (
      Left-frame m (split_block aligned c m) base ls c
          (λ x lt.
            k.elsewhere x (omega arith) (omega arith) (λ same. absurd (ground (arith, same))))
          l,
      rw e (
        k.at_block,
        (
          k.at_fresh,
          (
            k.at_next q refl ∙ ap relink r.1.0,
            Right-frame m (split_block aligned c m) stop (some q) rs (after q d)
                (λ x le.
                  k.elsewhere x (omega arith) (omega arith) (λ same. absurd (ground (arith, same))))
                r.1.1,
          ),
        ),
      ),
    )

-- The block that a request finds: the first one that serves, behind `before` and in front of `rest`.
pub record Chosen (aligned : ℕ) (cells : List Cell) : Type 0 where
  pub before : List Cell
  pub size : ℕ
  pub rest : List Cell
  pub split : cells ≡ before ++ ((size, true) ∷ rest)
  pub large : aligned + header_size ≤ size
  pub small : NoneServes aligned before

-- The bytes that a list of blocks takes with its headers.
abbrev pub total : List Cell → ℕ
total [] = 0
total (c ∷ cs) = header_size + c.0 + total cs

Left-total :
    (m : ℕ → Block) (base : ℕ) (ls zs : List Cell) (a : ℕ)
    → Left m base ls a
    → onto ls [] ≡ zs
    → a ≡ base + total zs
Left-total m base ls zs a l e = rw (← e) (omega (arith, go ls a [] l))
  where
    go :
        (ls : List Cell) (a : ℕ) (xs : List Cell)
        → Left m base ls a
        → base + total (onto ls xs) ≡ a + total xs
    go [] a xs l = rw l refl
    go (c ∷ ls) a xs l = omega (arith, go ls (a - header_size - c.0) (c ∷ xs) l.2, l.0)

append-nonempty : (xs : List Cell) (c : Cell) (ys : List Cell) → xs ++ (c ∷ ys) ≢ []
append-nonempty [] c ys e = cc e
append-nonempty (x ∷ xs) c ys e = cc e

-- What `kmalloc` does for a size that is rounded up to `aligned`.
abbrev pub Outcome : ℕ → ℕ → ℕ → ℕ → ℕ → Heap → List Cell → Type 0
Outcome f size aligned base stop h cells =
    ((kmalloc f size h ≡ some (h, 0)) × NoneServes aligned cells)
    ⊎ ((k : Chosen aligned cells) × (h' : Heap) × (kmalloc f size h
          ≡ some (h', base + total k.before + header_size))
        × IsHeap h' base stop
            (k.before ++ ((aligned, false) ∷ (k.size - aligned - header_size, true) ∷ k.rest)))

kmalloc-align :
    (f size base stop : ℕ) (h : Heap) (cells : List Cell)
    → IsHeap h base stop cells
    → 0 < size
    → size ≤ 2 ^ 63
    → length cells < f
    → Outcome f size (align size) base stop h cells
unfolding kmalloc malloc_at malloc_found
kmalloc-align f size base stop h [] t p w l = absurd (t.nonempty refl)
kmalloc-align f size base stop h (d ∷ cs) t p w l =
    let nonzero : (size == 0) ≡ false = ground arith in
    elim (find_block-Found f (align size) h.blocks base stop [] cs d base (omega arith) refl
      t.blocks l) [
        | inl (e, none_left) ↦ inl (rw (t.head, kmalloc, nonzero, e) refl, none_left)
        | inr (c, e, k) ↦
            let (left, right) =
              split_block-Right (align size) c h.blocks base stop k.size k.lefts k.rest k.large
                t.in_memory k.left k.right in
            let at : c ≡ base + total k.before =
              Left-total h.blocks base k.lefts k.before c k.left
                (k.backwards [] ∙ append-nil k.before) in
            let below : c + header_size ≤ stop = omega (
              arith,
              Right-stop h.blocks stop (some c) k.rest (after c (k.size, true)) k.right.1,
            ) in
            let payload : (c + header_size) % 2 ^ 64 ≡ base + total k.before + header_size =
              omega (arith, below, at, t.in_memory) in
            inr (
              record {
                before = k.before;
                size = k.size;
                rest = k.rest;
                split = k.split;
                large = k.large;
                small = k.small;
              },
              record h { blocks = split_block (align size) c h.blocks },
              rw (t.head, kmalloc, nonzero, e, payload) refl,
              record {
                head = t.head;
                blocks =
                    subst (λ xs. Right (split_block (align size) c h.blocks) stop none xs base)
                      (k.backwards _)
                      (unzip (split_block (align size) c h.blocks) base stop k.lefts _ _ c left
                        right);
                nonempty = append-nonempty k.before _ _;
                in_memory = t.in_memory;
                not_null = t.not_null;
              },
            )
      ]

-- `kmalloc` of a size from 1 to 2 ^ 63 in a heap whose blocks tile its memory, with a round of its
-- loop for each block and one more, where `aligned` is the multiple of 16 that is at least the size
-- and less than 16 above it. Either the first block that is free and has room for `aligned` bytes and
-- a header is cut, whether or not another one fits better: the caller gets the address behind its
-- header, it has `aligned` bytes, and the rest of it is a free block of its own. Or there is no such
-- block, the result is NULL and nothing changes. The blocks tile the heap as before.
pub kmalloc-Cuts :
    (f size aligned base stop : ℕ) (h : Heap) (cells : List Cell)
    → IsHeap h base stop cells
    → 0 < size
    → size ≤ 2 ^ 63
    → aligned % 16 ≡ 0
    → size ≤ aligned
    → aligned < size + 16
    → length cells < f
    → Outcome f size aligned base stop h cells
kmalloc-Cuts f size aligned base stop h cells t p w multiple least most l =
    let rounded : align size ≡ aligned = omega (arith, w, multiple, least, most) in
    subst (λ a. Outcome f size a base stop h cells) rounded
      (kmalloc-align f size base stop h cells t p w l)
