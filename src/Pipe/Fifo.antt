-- ===== src/Pipe/Fifo.antt =====
-- `pipe_read` and `pipe_write` of kernel/pipe.c make each slot a FIFO.
use mathlib.Core.List.{append-nil, append_assoc}
use os.Base.{
  ℕ, ◌≡◌, refl, ◌∙◌, sym, ap, ◌≢◌, true, ◌&&◌, Option, none, some, List, [], ◌∷◌, ◌++◌, take,
  update, update_ne, leb, ◌==◌, ℤ, pos, negsuc, minus_one, eq_ℤ, Bool-cases, Option-cases, inl, inr,
  ==_self,
}
use os.Kernel.{Kernel}
use os.Signal.{Outcome, returns, exits}
use os.Sched.Block.{block_task}
use os.Pipe.{
  Pipe, Pipes, Result, result, gone, buffer_size, read_index, write_index, take_bytes, put_bytes,
  finish_read, finish_write, waited, read_at, read, write_at, write,
}
use os.Pipe.Ring.{contents, IsValid, take_bytes-Took, put_bytes-Put}

abbrev pub pipes_of : Result → Pipes
pipes_of (result ps k r bytes) = ps
pipes_of (gone ps k) = ps

abbrev pub kernel_of : Result → Kernel
kernel_of (result ps k r bytes) = k
kernel_of (gone ps k) = k

-- The bytes that a read hands to its caller.
abbrev pub got : Result → List ℕ
got (result ps k r bytes) = bytes
got (gone ps k) = []

-- The bytes of a write's buffer that its result says were taken.
abbrev pub accepted : Result → List ℕ → List ℕ
accepted (result ps k (pos n) bytes) src = take n src
accepted (result ps k (negsuc n) bytes) src = []
accepted (gone ps k) src = []

abbrev pub AllValid : Pipes → Type 0
AllValid ps = (i : ℕ) → IsValid (ps i)

-- What a call on slot `i` has done: it took bytes `took` from the front and put bytes `put` at the
-- back, and left the other slots alone.
pub record Moved (i : ℕ) (ps : Pipes) (took put : List ℕ) (ps' : Pipes) : Type 0 where
  pub queue : took ++ contents (ps' i) ≡ contents (ps i) ++ put
  pub others : (j : ℕ) → i ≢ j → ps' j ≡ ps j
  pub valid : AllValid ps'

Moved-none : (i : ℕ) (ps : Pipes) → AllValid ps → Moved i ps [] [] ps
Moved-none i ps v = record {
  queue = sym (append-nil (contents (ps i)));
  others = λ j ne. refl;
  valid = v;
}

-- Writing one slot.
Moved-update :
    (i : ℕ) (ps : Pipes) (p : Pipe) (took put : List ℕ)
    → AllValid ps
    → IsValid p
    → took ++ contents p ≡ contents (ps i) ++ put
    → Moved i ps took put (update ps i p)
Moved-update i ps p took put v w q = record {
  queue = rw (==_self i) q;
  others = λ j ne. update_ne ps i j p ne;
  valid = λ j. elim (Bool-cases (i == j)) [ inl e ↦ rw e w | inr e ↦ rw e (v j) ];
}

-- The waiting tasks and the descriptors do not count.
IsValid-frame :
    (p : Pipe) (r w : Option ℕ) (a b : ℤ)
    → IsValid p
    → IsValid (record p { reader = r; writer = w; read_fd = a; write_fd = b })
      × (contents (record p { reader = r; writer = w; read_fd = a; write_fd = b }) ≡ contents p)
unfolding contents
IsValid-frame p r w a b v =
    (record { in_ring = v.in_ring; bounded = v.bounded; meets = v.meets }, refl)

finish_read-Moved :
    (i n : ℕ) (ps : Pipes) (k : Kernel)
    → AllValid ps
    → Moved i ps (got (finish_read i n ps k)) [] (pipes_of (finish_read i n ps k))
unfolding finish_read
finish_read-Moved i n ps k v =
    let t = take_bytes-Took n (ps i) (v i) in
    let p = (take_bytes n (ps i)).0 in
    let (w, same) = IsValid-frame p p.reader none p.read_fd p.write_fd t.valid in
    Moved-update i ps _ _ [] v w (rw same (t.queue ∙ sym (append-nil (contents (ps i)))))

finish_write-Moved :
    (i : ℕ) (src : List ℕ) (ps : Pipes) (k : Kernel)
    → AllValid ps
    → Moved i ps [] (accepted (finish_write i src ps k) src) (pipes_of (finish_write i src ps k))
unfolding finish_write
finish_write-Moved i src ps k v =
    let t = put_bytes-Put src (ps i) (v i) in
    let p = (put_bytes src (ps i)).0 in
    let (w, same) = IsValid-frame p none p.writer p.read_fd p.write_fd t.valid in
    Moved-update i ps _ [] _ v w (same ∙ t.queue)

waited-Moved :
    (i : ℕ) (ps : Pipes) (p : Pipe) (src : List ℕ) (o : Outcome)
    → AllValid ps
    → IsValid p
    → contents p ≡ contents (ps i)
    → Moved i ps (got (waited (update ps i p) o)) [] (pipes_of (waited (update ps i p) o))
      × Moved i ps []
          (accepted (waited (update ps i p) o) src)
          (pipes_of (waited (update ps i p) o))
unfolding waited
waited-Moved i ps p src (returns k) v w e =
    let m = Moved-update i ps p [] [] v w (e ∙ sym (append-nil (contents (ps i)))) in (m, m)
waited-Moved i ps p src (exits k) v w e =
    let m = Moved-update i ps p [] [] v w (e ∙ sym (append-nil (contents (ps i)))) in (m, m)

module _ (call : ℕ → ℕ → Kernel → Kernel) where
  read_at-Moved :
      (i n : ℕ) (ps : Pipes) (k : Kernel)
      → AllValid ps
      → Moved i ps (got (read_at call i n ps k)) [] (pipes_of (read_at call i n ps k))
  unfolding read_at
  read_at-Moved i n ps k v =
      elim (Bool-cases ((ps i).count == 0 && eq_ℤ (ps i).write_fd minus_one)) [
        | inl eof ↦ rw (eof, read_at) (Moved-none i ps v)
        | inr open' ↦ elim (Bool-cases ((ps i).count == 0)) [
          | inl empty ↦ elim (Option-cases k.current) [
            | inl idle ↦ rw (open', empty, idle, read_at) (finish_read-Moved i n ps k v)
            | inr (t, cur) ↦
                let p = ps i in
                let (w, same) = IsValid-frame p (some t) p.writer p.read_fd p.write_fd (v i) in
                rw (open', empty, cur, read_at)
                  (waited-Moved i ps _ [] (block_task call (some t) k) v w same).0
          ]
          | inr some' ↦ rw (open', some', read_at) (finish_read-Moved i n ps k v)
        ]
      ]

  write_at-Moved :
      (i : ℕ) (src : List ℕ) (ps : Pipes) (k : Kernel)
      → AllValid ps
      → Moved i ps []
          (accepted (write_at call i src ps k) src)
          (pipes_of (write_at call i src ps k))
  unfolding write_at
  write_at-Moved i src ps k v = elim (Bool-cases (leb buffer_size (ps i).count)) [
    | inl full ↦ elim (Option-cases k.current) [
      | inl idle ↦ rw (full, idle, write_at) (finish_write-Moved i src ps k v)
      | inr (t, cur) ↦
          let p = ps i in
          let (w, same) = IsValid-frame p p.reader (some t) p.read_fd p.write_fd (v i) in
          rw (full, cur, write_at) (waited-Moved i ps _ src (block_task call (some t) k) v w same).1
    ]
    | inr room ↦ rw (room, write_at) (finish_write-Moved i src ps k v)
  ]

  -- `pipe_read` on a descriptor of slot `i`, where every ring is valid, hands out bytes from the
  -- front of that slot's queue and removes just those, on every path: end of file, blocking,
  -- exiting and reading. The other slots stay, and every ring stays valid.
  pub read-Moved :
      (fd : ℤ) (i n : ℕ) (ps : Pipes) (k : Kernel)
      → AllValid ps
      → read_index fd ≡ some i
      → let r = read call fd true n ps k in Moved i ps (got r) [] (pipes_of r)
  unfolding read
  read-Moved fd i n ps k v e = rw (e, read) (read_at-Moved i n ps k v)

  -- `pipe_write` on a descriptor of slot `i`, where every ring is valid, appends the bytes that
  -- its result counts to that slot's queue, and no others, on every path. The other slots stay,
  -- and every ring stays valid.
  pub write-Moved :
      (fd : ℤ) (i : ℕ) (src : List ℕ) (ps : Pipes) (k : Kernel)
      → AllValid ps
      → write_index fd ≡ some i
      → let r = write call fd (some src) ps k in Moved i ps [] (accepted r src) (pipes_of r)
  unfolding write
  write-Moved fd i src ps k v e = rw (e, write) (write_at-Moved i src ps k v)

-- A call on slot `i`, from either side.
pub data Op : Type 0 where
  reads : ℕ → Op
  writes : List ℕ → Op

-- A history of calls on one slot, each in the kernel state that the scheduler gives it: the bytes
-- handed out, the bytes taken in, and the pipes after it.
module _ (call : ℕ → ℕ → Kernel → Kernel) (i : ℕ) where
  pub run : List (Op × Kernel) → Pipes → List ℕ × List ℕ × Pipes
  run [] ps = ([], [], ps)
  run ((reads n, k) ∷ ops) ps =
      let r = read_at call i n ps k in
      let (g, a, ps') = run ops (pipes_of r) in (got r ++ g, a, ps')
  run ((writes src, k) ∷ ops) ps =
      let r = write_at call i src ps k in
      let (g, a, ps') = run ops (pipes_of r) in (g, accepted r src ++ a, ps')

  -- Over any history of reads and writes on a slot, in any states of the tasks, starting from
  -- rings that are all valid, the bytes read and then those still in the ring are the bytes that
  -- were there at first and then those that the writes took, in order: nothing is lost, repeated
  -- or reordered.
  pub run-fifo :
      (ops : List (Op × Kernel)) (ps : Pipes)
      → AllValid ps
      → let (g, a, ps') = run ops ps in g ++ contents (ps' i) ≡ contents (ps i) ++ a
  unfolding run
  run-fifo [] ps v = sym (append-nil (contents (ps i)))
  run-fifo ((reads n, k) ∷ ops) ps v =
      let m = read_at-Moved call i n ps k v in
      let r = read_at call i n ps k in
      let rest = run-fifo ops (pipes_of r) m.valid in
      append_assoc (got r) (run ops (pipes_of r)).0 _
      ∙ ap (λ l. got r ++ l) rest
      ∙ sym (append_assoc (got r) (contents (pipes_of r i)) _)
      ∙ ap (λ l. l ++ (run ops (pipes_of r)).1) (m.queue ∙ append-nil (contents (ps i)))
  run-fifo ((writes src, k) ∷ ops) ps v =
      let m = write_at-Moved call i src ps k v in
      let r = write_at call i src ps k in
      let rest = run-fifo ops (pipes_of r) m.valid in
      rest
      ∙ ap (λ l. l ++ (run ops (pipes_of r)).1) m.queue
      ∙ append_assoc (contents (ps i)) (accepted r src) _
