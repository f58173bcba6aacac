-- ===== src/Queue/Sequence.antt =====
-- The sequence of nodes that a queue stands for, and what the operations do to it.
use chatease_server.Common.{
  ℕ, ◌≡◌, ◌≢◌, refl, sym, ◌∙◌, arith, true, false, ◌==◌, List, [], ◌∷◌, ◌++◌, All,
}
use chatease_server.Hash.Table.{set_at}
use chatease_server.Queue.{Links, set_prev, set_next, insert_tail}

-- From `a` over the nodes of a list to `b`, and back.
abbrev pub Chain : Links → ℕ → List ℕ → ℕ → Type 0
Chain l a [] b = (l.next a ≡ b) × (l.prev b ≡ a)
Chain l a (x ∷ xs) b = (l.next a ≡ x) × (l.prev x ≡ a) × Chain l x xs b

abbrev pub Apart : ℕ → List ℕ → Type 0
Apart i xs = All (λ y. y ≢ i) xs

abbrev pub Distinct : List ℕ → Type 0
Distinct [] = Unit
Distinct (x ∷ xs) = Apart x xs × Distinct xs

-- The queue with the sentinel `h` has the nodes `xs`.
pub record IsQueue (l : Links) (h : ℕ) (xs : List ℕ) : Type 0 where
  pub chain : Chain l h xs h
  pub distinct : Distinct (h ∷ xs)

pub set_other : (f : ℕ → ℕ) (i a j : ℕ) → j ≢ i → set_at f i a j ≡ f j
set_other f i a j ne = let other : (j == i) ≡ false = ground (arith, ne) in rw other refl

pub set_same : (f : ℕ → ℕ) (i a : ℕ) → set_at f i a i ≡ a
set_same f i a = let here : (i == i) ≡ true = ground arith in rw here refl

-- What is written elsewhere does not matter.
pub Chain-set_next :
    (l : Links) (a : ℕ) (xs : List ℕ) (b i v : ℕ)
    → Apart i (a ∷ xs)
    → Chain l a xs b
    → Chain (set_next l i v) a xs b
Chain-set_next l a [] b i v (ne, h) (n, p) = (set_other l.next i v a ne ∙ n, p)
Chain-set_next l a (x ∷ xs) b i v (ne, h) (n, p, c) =
    (set_other l.next i v a ne ∙ n, p, Chain-set_next l x xs b i v h c)

pub Chain-set_prev :
    (l : Links) (a : ℕ) (xs : List ℕ) (b i v : ℕ)
    → Apart i xs
    → b ≢ i
    → Chain l a xs b
    → Chain (set_prev l i v) a xs b
Chain-set_prev l a [] b i v h ne (n, p) = (n, set_other l.prev i v b ne ∙ p)
Chain-set_prev l a (x ∷ xs) b i v (nx, h) ne (n, p, c) =
    (n, set_other l.prev i v x nx ∙ p, Chain-set_prev l x xs b i v h ne c)

abbrev last : ℕ → List ℕ → ℕ
last a [] = a
last a (x ∷ xs) = last x xs

prev-last : (l : Links) (a : ℕ) (xs : List ℕ) (b : ℕ) → Chain l a xs b → l.prev b ≡ last a xs
prev-last l a [] b (n, p) = p
prev-last l a (x ∷ xs) b (n, p, c) = prev-last l x xs b c

last-Apart : (i a : ℕ) (xs : List ℕ) → Apart i (a ∷ xs) → last a xs ≢ i
last-Apart i a [] (ne, h) = ne
last-Apart i a (x ∷ xs) (ne, h) = last-Apart i x xs h

-- A node is linked behind the last one.
Chain-snoc :
    (l : Links) (a : ℕ) (xs : List ℕ) (b x : ℕ)
    → Apart x (a ∷ xs)
    → Distinct (a ∷ xs)
    → Apart b xs
    → b ≢ x
    → Chain l a xs b
    → Chain
        (set_prev (set_next (set_next (set_prev l x (last a xs)) x b) (last a xs) x) b x)
        a
        (xs ++ x ∷ [])
        b
Chain-snoc l a [] b x (na, h) d hb nb (n, p) =
    let nx : x ≢ a = λ e. na (sym e) in
    let nb' : x ≢ b = λ e. nb (sym e) in
    (
      set_same (set_at l.next x b) a x,
      set_other (set_at l.prev x a) b x x nb' ∙ set_same l.prev x a,
      (
        set_other (set_at l.next x b) a x x nx ∙ set_same l.next x b,
        set_same (set_at l.prev x a) b x,
      ),
    )
Chain-snoc l a (y ∷ ys) b x (na, h) (da, d) (yb, hb) nb (n, p, c) =
    let far = last-Apart a y ys da in
    let na' : a ≢ last y ys = λ e. far (sym e) in
    (
      set_other (set_at l.next x b) (last y ys) x a na' ∙ set_other l.next x b a na ∙ n,
      set_other (set_at l.prev x (last y ys)) b x y yb ∙ set_other l.prev x (last y ys) y h.0 ∙ p,
      Chain-snoc l y ys b x h d hb nb c,
    )

Apart-snoc : (i x : ℕ) (xs : List ℕ) → Apart i xs → x ≢ i → Apart i (xs ++ x ∷ [])
Apart-snoc i x [] h ne = (ne, tt)
Apart-snoc i x (y ∷ ys) (hy, h) ne = (hy, Apart-snoc i x ys h ne)

Distinct-snoc : (x : ℕ) (xs : List ℕ) → Distinct xs → Apart x xs → Distinct (xs ++ x ∷ [])
Distinct-snoc x [] d h = (tt, tt)
Distinct-snoc x (y ∷ ys) (hy, d) (ny, h) =
    (Apart-snoc y x ys hy (λ e. ny (sym e)), Distinct-snoc x ys d h)

-- A node that is not in a queue is put behind its last one.
pub insert_tail-IsQueue :
    (l : Links) (h : ℕ) (xs : List ℕ) (x : ℕ)
    → IsQueue l h xs
    → Apart x (h ∷ xs)
    → IsQueue (insert_tail l h x) h (xs ++ x ∷ [])
unfolding insert_tail
insert_tail-IsQueue l h xs x q (nh, out) =
    let far : h ≢ x = nh in
    let end = prev-last l h xs h q.chain in
    let kept : set_at l.prev x (l.prev h) h ≡ l.prev h = set_other l.prev x (l.prev h) h far in
    record {
      chain = rw (kept, end) (Chain-snoc l h xs h x (nh, out) q.distinct q.distinct.0 far q.chain);
      distinct = Distinct-snoc x (h ∷ xs) q.distinct (nh, out);
    }
