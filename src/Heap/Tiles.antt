-- ===== src/Heap/Tiles.antt =====
-- The blocks of kernel/heap.c tile the heap: each begins where the one before ends, and the links
-- run through them in both directions.
use os.Base.{
  ℕ, ◌+◌, ◌-◌, ◌^◌, ◌<◌, ◌≤◌, ◌≡◌, ◌≢◌, ◌∙◌, Bool, Option, none, some, List, [], ◌∷◌, arith,
}
use os.Heap.{header_size, Block, Heap}

-- A block as its owner knows it: its size, and whether it is free.
abbrev pub Cell : Type 0
Cell = ℕ × Bool

-- The address behind a block at `a`.
abbrev pub after : ℕ → Cell → ℕ
after a c = a + header_size + c.0

-- The address of the block at the front of a list that lies at `a`, NULL if there is none.
abbrev pub link : List Cell → ℕ → Option ℕ
link [] a = none
link (c ∷ cs) a = some a

abbrev pub header : Cell → Option ℕ → Option ℕ → Block
header c nxt prv = record { size = c.0; next = nxt; prev = prv; free = c.1 }

-- The blocks from `a` up to `stop`.
abbrev pub Right : (ℕ → Block) → ℕ → Option ℕ → List Cell → ℕ → Type 0
Right m stop prv [] a = a ≡ stop
Right m stop prv (c ∷ cs) a =
    (m a ≡ header c (link cs (after a c)) prv) × Right m stop (some a) cs (after a c)

-- The address of the nearest block before `a`, in a list of those blocks, nearest first.
abbrev pub back : List Cell → ℕ → Option ℕ
back [] a = none
back (c ∷ cs) a = some (a - header_size - c.0)

-- The blocks from `base` up to a block at `a`, nearest first.
abbrev pub Left : (ℕ → Block) → ℕ → List Cell → ℕ → Type 0
Left m base [] a = a ≡ base
Left m base (c ∷ cs) a =
    let b = a - header_size - c.0 in
    (header_size + c.0 ≤ a) × (m b ≡ header c (some a) (back cs b)) × Left m base cs b

-- A heap whose blocks are these, from `base` up to `stop`.
pub record IsHeap (h : Heap) (base stop : ℕ) (cells : List Cell) : Type 0 where
  pub head : h.head ≡ some base
  pub blocks : Right h.blocks stop none cells base
  pub nonempty : cells ≢ []
  pub in_memory : stop < 2 ^ 64
  pub not_null : 0 < base

-- The list `ls`, nearest first, put back in front of `rs`.
abbrev pub onto : List Cell → List Cell → List Cell
onto [] rs = rs
onto (c ∷ ls) rs = onto ls (c ∷ rs)

pub Right-stop :
    (m : ℕ → Block) (stop : ℕ) (prv : Option ℕ) (cs : List Cell) (a : ℕ)
    → Right m stop prv cs a
    → a ≤ stop
Right-stop m stop prv [] a r = omega (arith, r)
Right-stop m stop prv (c ∷ cs) a r = omega (arith, Right-stop m stop (some a) cs (after a c) r.1)

-- Headers that do not change at or above `a`, or below it.
pub Right-frame :
    (m n : ℕ → Block) (stop : ℕ) (prv : Option ℕ) (cs : List Cell) (a : ℕ)
    → ((x : ℕ) → a ≤ x → n x ≡ m x)
    → Right m stop prv cs a
    → Right n stop prv cs a
Right-frame m n stop prv [] a same r = r
Right-frame m n stop prv (c ∷ cs) a same r = (
  same a (omega arith) ∙ r.0,
  Right-frame m n stop (some a) cs (after a c) (λ x le. same x (omega arith)) r.1,
)

pub Left-frame :
    (m n : ℕ → Block) (base : ℕ) (ls : List Cell) (a : ℕ)
    → ((x : ℕ) → x < a → n x ≡ m x)
    → Left m base ls a
    → Left n base ls a
Left-frame m n base [] a same l = l
Left-frame m n base (c ∷ ls) a same l =
    let b = a - header_size - c.0 in
    (
      l.0,
      same b (omega (arith, l.0)) ∙ l.1,
      Left-frame m n base ls b (λ x lt. same x (omega arith)) l.2,
    )

-- Walking right past a block that another follows.
pub shift :
    (m : ℕ → Block) (base stop : ℕ) (ls : List Cell) (c d : Cell) (rs : List Cell) (a : ℕ)
    → Left m base ls a
    → Right m stop (back ls a) (c ∷ d ∷ rs) a
    → Left m base (c ∷ ls) (after a c)
      × Right m stop (back (c ∷ ls) (after a c)) (d ∷ rs) (after a c)
shift m base stop ls c d rs a l r =
    let e : after a c - header_size - c.0 ≡ a = omega arith in
    ((omega arith, rw e r.0, rw e l), rw e r.1)

-- Walking all the way back.
pub unzip :
    (m : ℕ → Block) (base stop : ℕ) (ls : List Cell) (d : Cell) (rs : List Cell) (a : ℕ)
    → Left m base ls a
    → Right m stop (back ls a) (d ∷ rs) a
    → Right m stop none (onto ls (d ∷ rs)) base
unzip m base stop [] d rs a l r = rw (← l) r
unzip m base stop (c ∷ ls) d rs a l r =
    let b = a - header_size - c.0 in
    let e : after b c ≡ a = omega (arith, l.0) in
    unzip m base stop ls c (d ∷ rs) b l.2 (rw e (l.1, r))
