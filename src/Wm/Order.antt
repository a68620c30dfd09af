-- ===== src/Wm/Order.antt =====
-- `wm_render` of kernel/wm.c: the insertion sort of the windows by `z_order`.
use mathlib.Core.List.{Permᴰ, Perm, ◌++◌}
use mathlib.Core.List.Permᴰ
use os.Base.{ℕ, ◌<◌, ◌≤◌, ◌≢◌, refl, sym, List, [], ◌∷◌, leb, ltb, arith, Bool-cases, inl, inr}
use os.Wm.{Window, Wm, insert_behind, insert_sorted, sort_windows, render}

abbrev pub All : (Window → Type 0) → List Window → Type 0
All P [] = Unit {0}
All P (w ∷ ws) = P w × All P ws

-- No two windows agree on `f`.
abbrev pub Distinct : (Window → ℕ) → List Window → Type 0
Distinct f [] = Unit {0}
Distinct f (w ∷ ws) = All (λ v. f v ≢ f w) ws × Distinct f ws

-- From back to front.
abbrev pub IsSorted : List Window → Type 0
IsSorted [] = Unit {0}
IsSorted (w ∷ ws) = All (λ v. w.z_order ≤ v.z_order) ws × IsSorted ws

pub All-map :
    (P Q : Window → Type 0) (ws : List Window) → ((w : Window) → P w → Q w) → All P ws → All Q ws
All-map P Q [] h k = tt
All-map P Q (w ∷ ws) h k = (h w k.0, All-map P Q ws h k.1)

All-insert_behind :
    (P : Window → Type 0) (w : Window) (ss : List Window)
    → P w
    → All P ss
    → All P (insert_behind w ss)
unfolding insert_behind
All-insert_behind P w [] p k = (p, tt)
All-insert_behind P w (s ∷ ss) p k = elim (Bool-cases (leb s.z_order w.z_order)) [
  | inl e ↦ rw (insert_behind, e) (k.0, All-insert_behind P w ss p k.1)
  | inr e ↦ rw (insert_behind, e) (p, k)
]

All-insert_sorted :
    (P : Window → Type 0) (w : Window) (ss : List Window)
    → P w
    → All P ss
    → All P (insert_sorted w ss)
unfolding insert_sorted
All-insert_sorted P w [] p k = (p, tt)
All-insert_sorted P w (s ∷ ss) p k = elim (Bool-cases (ltb w.z_order s.z_order)) [
  | inl e ↦ rw (insert_sorted, e) (p, k)
  | inr e ↦ rw (insert_sorted, e) (k.0, All-insert_behind P w ss p k.1)
]

insert_behind-Distinct :
    (f : Window → ℕ) (w : Window) (ss : List Window)
    → All (λ v. f v ≢ f w) ss
    → Distinct f ss
    → Distinct f (insert_behind w ss)
unfolding insert_behind
insert_behind-Distinct f w [] n d = (n, d)
insert_behind-Distinct f w (s ∷ ss) n d = elim (Bool-cases (leb s.z_order w.z_order)) [
  | inl e ↦
      rw (insert_behind, e)
        (
          All-insert_behind (λ v. f v ≢ f s) w ss (λ q. n.0 (sym q)) d.0,
          insert_behind-Distinct f w ss n.1 d.1,
        )
  | inr e ↦ rw (insert_behind, e) (n, d)
]

insert_sorted-Distinct :
    (f : Window → ℕ) (w : Window) (ss : List Window)
    → All (λ v. f v ≢ f w) ss
    → Distinct f ss
    → Distinct f (insert_sorted w ss)
unfolding insert_sorted
insert_sorted-Distinct f w [] n d = (n, d)
insert_sorted-Distinct f w (s ∷ ss) n d = elim (Bool-cases (ltb w.z_order s.z_order)) [
  | inl e ↦ rw (insert_sorted, e) (n, d)
  | inr e ↦
      rw (insert_sorted, e)
        (
          All-insert_behind (λ v. f v ≢ f s) w ss (λ q. n.0 (sym q)) d.0,
          insert_behind-Distinct f w ss n.1 d.1,
        )
]

insert_behind-IsSorted :
    (w : Window) (ss : List Window) → IsSorted ss → IsSorted (insert_behind w ss)
unfolding insert_behind
insert_behind-IsSorted w [] k = (tt, tt)
insert_behind-IsSorted w (s ∷ ss) k = elim (Bool-cases (leb s.z_order w.z_order)) [
  | inl e ↦
      rw (insert_behind, e)
        (
          All-insert_behind (λ v. s.z_order ≤ v.z_order) w ss (ground (arith, e)) k.0,
          insert_behind-IsSorted w ss k.1,
        )
  | inr e ↦
      let lt : w.z_order < s.z_order = ground (arith, e) in
      rw (insert_behind, e)
        (
          (
            omega (arith, lt),
            All-map (λ v. s.z_order ≤ v.z_order) (λ v. w.z_order ≤ v.z_order) ss
                (λ v h. omega (arith, lt, h)) k.0,
          ),
          k,
        )
]

insert_sorted-IsSorted :
    (w : Window) (ss : List Window) → IsSorted ss → IsSorted (insert_sorted w ss)
unfolding insert_sorted
insert_sorted-IsSorted w [] k = (tt, tt)
insert_sorted-IsSorted w (s ∷ ss) k = elim (Bool-cases (ltb w.z_order s.z_order)) [
  | inl e ↦
      let lt : w.z_order < s.z_order = ground (arith, e) in
      rw (insert_sorted, e)
        (
          (
            omega (arith, lt),
            All-map (λ v. s.z_order ≤ v.z_order) (λ v. w.z_order ≤ v.z_order) ss
                (λ v h. omega (arith, lt, h)) k.0,
          ),
          k,
        )
  | inr e ↦
      rw (insert_sorted, e)
        (
          All-insert_behind (λ v. s.z_order ≤ v.z_order) w ss (ground (arith, e)) k.0,
          insert_behind-IsSorted w ss k.1,
        )
]

insert_behind-perm : (w : Window) (ss : List Window) → Permᴰ (w ∷ ss) (insert_behind w ss)
unfolding insert_behind
insert_behind-perm w [] = Permᴰ.cons refl Permᴰ.nil
insert_behind-perm w (s ∷ ss) = elim (Bool-cases (leb s.z_order w.z_order)) [
  | inl e ↦
      rw (insert_behind, e)
        (Permᴰ.trans (Permᴰ.swap refl refl) (Permᴰ.cons refl (insert_behind-perm w ss)))
  | inr e ↦ rw (insert_behind, e) (Permᴰ.refl (w ∷ s ∷ ss))
]

insert_sorted-perm : (w : Window) (ss : List Window) → Permᴰ (w ∷ ss) (insert_sorted w ss)
unfolding insert_sorted
insert_sorted-perm w [] = Permᴰ.cons refl Permᴰ.nil
insert_sorted-perm w (s ∷ ss) = elim (Bool-cases (ltb w.z_order s.z_order)) [
  | inl e ↦ rw (insert_sorted, e) (Permᴰ.refl (w ∷ s ∷ ss))
  | inr e ↦
      rw (insert_sorted, e)
        (Permᴰ.trans (Permᴰ.swap refl refl) (Permᴰ.cons refl (insert_behind-perm w ss)))
]

sort_windows-IsSorted : (ss ws : List Window) → IsSorted ss → IsSorted (sort_windows ss ws)
unfolding sort_windows
sort_windows-IsSorted ss [] k = k
sort_windows-IsSorted ss (w ∷ ws) k =
    sort_windows-IsSorted (insert_sorted w ss) ws (insert_sorted-IsSorted w ss k)

sort_windows-All :
    (P : Window → Type 0) (ss ws : List Window) → All P ss → All P ws → All P (sort_windows ss ws)
unfolding sort_windows
sort_windows-All P ss [] k l = k
sort_windows-All P ss (w ∷ ws) k l =
    sort_windows-All P (insert_sorted w ss) ws (All-insert_sorted P w ss l.0 k) l.1

-- Each window that is still to be sorted differs from those that are.
abbrev Apart : (Window → ℕ) → List Window → List Window → Type 0
Apart f ss [] = Unit {0}
Apart f ss (w ∷ ws) = All (λ v. f v ≢ f w) ss × Apart f ss ws

Apart-insert :
    (f : Window → ℕ) (w : Window) (ss ws : List Window)
    → All (λ v. f v ≢ f w) ws
    → Apart f ss ws
    → Apart f (insert_sorted w ss) ws
Apart-insert f w ss [] n k = tt
Apart-insert f w ss (x ∷ ws) n k =
    (All-insert_sorted (λ v. f v ≢ f x) w ss (λ q. n.0 (sym q)) k.0, Apart-insert f w ss ws n.1 k.1)

sort_windows-Distinct :
    (f : Window → ℕ) (ss ws : List Window)
    → Distinct f ss
    → Distinct f ws
    → Apart f ss ws
    → Distinct f (sort_windows ss ws)
unfolding sort_windows
sort_windows-Distinct f ss [] d e k = d
sort_windows-Distinct f ss (w ∷ ws) d e k =
    sort_windows-Distinct f (insert_sorted w ss) ws (insert_sorted-Distinct f w ss k.0 d) e.1
      (Apart-insert f w ss ws e.0 k.1)

Apart-nil : (f : Window → ℕ) (ws : List Window) → Apart f [] ws
Apart-nil f [] = tt
Apart-nil f (w ∷ ws) = (tt, Apart-nil f ws)

pub render-Distinct :
    (f : Window → ℕ) (wm : Wm) → Distinct f wm.windows → Distinct f (render wm).windows
unfolding render
render-Distinct f wm d = sort_windows-Distinct f [] wm.windows tt d (Apart-nil f wm.windows)

sort_windows-perm : (ss ws : List Window) → Permᴰ (ws ++ ss) (sort_windows ss ws)
unfolding sort_windows
sort_windows-perm ss [] = Permᴰ.refl ss
sort_windows-perm ss (w ∷ ws) = Permᴰ.trans (Permᴰ.symm (Permᴰ.middle w ws ss)) (
    Permᴰ.trans (Permᴰ.append_left ws (insert_sorted-perm w ss))
      (sort_windows-perm (insert_sorted w ss) ws))

pub render-Permᴰ : (wm : Wm) → Permᴰ wm.windows (render wm).windows
unfolding render
render-Permᴰ wm =
    Permᴰ.trans (Permᴰ.symm (Permᴰ.append-nil wm.windows)) (sort_windows-perm [] wm.windows)

-- `wm_render` leaves the list of windows with the same windows in it, ordered from back to front.
pub render-IsSorted : (wm : Wm) → Perm wm.windows (render wm).windows × IsSorted (render wm).windows
unfolding render
render-IsSorted wm = (∣ render-Permᴰ wm ∣₁, sort_windows-IsSorted [] wm.windows tt)

pub render-All : (P : Window → Type 0) (wm : Wm) → All P wm.windows → All P (render wm).windows
unfolding render
render-All P wm k = sort_windows-All P [] wm.windows tt k
