-- ===== src/Pipe/Ring.antt =====
-- The ring of kernel/pipe.c as a queue of bytes: what its two copying loops do.
use os.Base.{
  ℕ, zero, suc, ◌+◌, ◌-◌, ◌%◌, ◌^◌, ◌≤◌, ◌<◌, ◌≡◌, refl, ◌∙◌, sym, ap, ap₂, min, List, [], ◌∷◌,
  ◌++◌, arith, length, take, length-take, update, update_ne, update_self, ltb, if◌then◌else◌,
}
use os.Pipe.{Pipe, buffer_size, copy_out, copy_in, take_bytes, put_bytes}

pub length-copy_out : (b : ℕ → ℕ) (r n i : ℕ) → length (copy_out b r n i) ≡ n
unfolding copy_out
length-copy_out b r zero i = refl
length-copy_out b r (suc n) i = ap suc (length-copy_out b r n (i + 1))

copy_out-add :
    (b : ℕ → ℕ) (r m n i j : ℕ)
    → j ≡ i + m
    → copy_out b r (m + n) i ≡ copy_out b r m i ++ copy_out b r n j
unfolding copy_out
copy_out-add b r zero n i j e = ap₂ (λ m t. copy_out b r m t) (omega arith) (omega arith)
copy_out-add b r (suc m) n i j e =
    ap (λ t. copy_out b r t i) grow
    ∙ ap (λ l. b ((r + i) % buffer_size) ∷ l) (copy_out-add b r m n (i + 1) j (omega arith))
  where
    grow : suc m + n ≡ suc (m + n)
    grow = omega arith

copy_out-shift :
    (b : ℕ → ℕ) (r d n i j : ℕ)
    → j ≡ i + d
    → copy_out b ((r + d) % buffer_size) n i ≡ copy_out b r n j
unfolding copy_out
copy_out-shift b r d zero i j e = refl
copy_out-shift b r d (suc n) i j e =
    let at : ((r + d) % buffer_size + i) % buffer_size ≡ (r + j) % buffer_size = omega arith in
    rw (at, copy_out-shift b r d n (i + 1) (j + 1) (omega arith))

-- Bytes written behind `c` bytes of the ring touch none of those.
copy_in-frame :
    (b : ℕ → ℕ) (r c i : ℕ) (bs : List ℕ) (j : ℕ)
    → i < c + j
    → c + j + length bs ≤ buffer_size + i
    → copy_in b ((r + c) % buffer_size) bs j ((r + i) % buffer_size) ≡ b ((r + i) % buffer_size)
unfolding copy_in
copy_in-frame b r c i [] j lo hi = refl
copy_in-frame b r c i (x ∷ bs) j lo hi =
    copy_in-frame (update b (((r + c) % buffer_size + j) % buffer_size) x) r c i bs (j + 1)
      (omega arith) (omega arith)
    ∙ update_ne b _ _ x (omega arith)

copy_out-copy_in_frame :
    (b : ℕ → ℕ) (r c n i : ℕ) (bs : List ℕ)
    → i + n ≤ c
    → c + length bs ≤ buffer_size
    → copy_out (copy_in b ((r + c) % buffer_size) bs 0) r n i ≡ copy_out b r n i
unfolding copy_out
copy_out-copy_in_frame b r c zero i bs lo hi = refl
copy_out-copy_in_frame b r c (suc n) i bs lo hi = rw (
  copy_in-frame b r c i bs 0 (omega arith) (omega arith),
  copy_out-copy_in_frame b r c n (i + 1) bs (omega arith) hi,
)

-- What is written is read back.
copy_out-copy_in :
    (b : ℕ → ℕ) (w : ℕ) (bs : List ℕ) (j : ℕ)
    → w < buffer_size
    → j + length bs ≤ buffer_size
    → copy_out (copy_in b w bs j) w (length bs) j ≡ bs
unfolding copy_out copy_in
copy_out-copy_in b w [] j hw hi = refl
copy_out-copy_in b w (x ∷ bs) j hw hi =
    ap₂ ◌∷◌ head
      (copy_out-copy_in (update b ((w + j) % buffer_size) x) w bs (j + 1) hw (omega arith))
  where
    start : (w + 0) % buffer_size ≡ w
    start = omega arith

    head : copy_in (update b ((w + j) % buffer_size) x) w bs (j + 1) ((w + j) % buffer_size) ≡ x
    head =
        rw start at (
          copy_in-frame (update b ((w + j) % buffer_size) x) w 0 j bs (j + 1) (omega arith)
            (omega arith))
        ∙ update_self b ((w + j) % buffer_size) x

-- The bytes in the ring, oldest first.
unfoldable pub contents : Pipe → List ℕ
contents p = copy_out p.buffer p.read_pos p.count 0

pub record IsValid (p : Pipe) : Type 0 where
  pub in_ring : p.read_pos < buffer_size
  pub bounded : p.count ≤ buffer_size
  pub meets : p.write_pos ≡ (p.read_pos + p.count) % buffer_size

pub record Took (n : ℕ) (p : Pipe) (out : Pipe × ℕ × List ℕ) : Type 0 where
  pub count : out.1 ≡ min n p.count
  pub moved : length out.2 ≡ out.1
  pub queue : out.2 ++ contents out.0 ≡ contents p
  pub valid : IsValid out.0

-- The copying part of `pipe_read` on a valid ring returns as many bytes as are asked for and there,
-- takes them from the front of the queue, and keeps the ring valid.
pub take_bytes-Took : (n : ℕ) (p : Pipe) → IsValid p → Took n p (take_bytes n p)
unfolding take_bytes contents
take_bytes-Took n p v = record {
  count = ground arith;
  moved = length-copy_out p.buffer p.read_pos m 0;
  queue = rw (copy_out-shift p.buffer p.read_pos m (p.count - m) 0 m (omega arith)) (
      sym (copy_out-add p.buffer p.read_pos m (p.count - m) 0 m (omega arith))
      ∙ ap (λ t. copy_out p.buffer p.read_pos t 0) (omega (arith, m_le)));
  valid = record {
    in_ring = omega arith;
    bounded = omega (arith, v.bounded);
    meets = omega (arith, m_le);
  };
}
  where
    m : ℕ
    m = if ltb p.count n then p.count else n

    m_le : m ≤ p.count
    m_le = ground arith

pub record Put (src : List ℕ) (p : Pipe) (out : Pipe × ℕ) : Type 0 where
  pub count : out.1 ≡ min (length src) (buffer_size - p.count)
  pub queue : contents out.0 ≡ contents p ++ take out.1 src
  pub valid : IsValid out.0

-- The copying part of `pipe_write` on a valid ring puts as many of the given bytes at the back of
-- the queue as there is room for, the first ones, and keeps the ring valid.
pub put_bytes-Put : (src : List ℕ) (p : Pipe) → IsValid p → Put src p (put_bytes src p)
unfolding put_bytes contents
put_bytes-Put src p v = record {
  count = count;
  queue =
      copy_out-add new p.read_pos p.count m 0 p.count (omega arith) ∙ ap₂ ◌++◌ old_bytes new_bytes;
  valid = record {
    in_ring = v.in_ring;
    bounded = omega (arith, count);
    meets = omega (arith, count);
  };
}
  where
    space : ℕ
    space = (2 ^ 32 + buffer_size - p.count) % 2 ^ 32

    m : ℕ
    m = if ltb space (length src) then space else length src

    count : m ≡ min (length src) (buffer_size - p.count)
    count = ground arith

    len : length (take m src) ≡ m
    len = length-take m src ∙ omega (arith, count)

    new : ℕ → ℕ
    new = copy_in p.buffer p.write_pos (take m src) 0

    old_bytes : copy_out new p.read_pos p.count 0 ≡ copy_out p.buffer p.read_pos p.count 0
    old_bytes = rw v.meets (
        copy_out-copy_in_frame p.buffer p.read_pos p.count p.count 0 (take m src) (omega arith)
          (omega (arith, len, count)))

    new_bytes : copy_out new p.read_pos m p.count ≡ take m src
    new_bytes =
        sym (copy_out-shift new p.read_pos p.count m 0 p.count (omega arith))
        ∙ rw (← v.meets) (
            ap (λ t. copy_out new p.write_pos t 0) (sym len)
            ∙ copy_out-copy_in p.buffer p.write_pos (take m src) 0 (omega arith)
                (omega (arith, len, count)))
