-- ===== src/Queue/Removal.antt =====
-- A node is taken out of the sequence that a queue stands for.
use chatease_server.Common.{
  ℕ, ◌≡◌, ◌≢◌, inl, inr, refl, sym, ap, ap₂, ◌∙◌, Bool-cases, ◌==◌, List, [], ◌∷◌, ◌++◌,
}
use chatease_server.Hash.Table.{set_at}
use chatease_server.Queue.Sequence.{
  Chain, Apart, Distinct, IsQueue, set_other, set_same, Chain-set_next, Chain-set_prev,
}
use chatease_server.Queue.{Links, set_prev, set_next, remove}

-- The links after a removal, which closes the gap between `p` and `n`.
abbrev cut : Links → ℕ → ℕ → ℕ → Links
cut l x p n = set_next (set_prev (set_next (set_prev l n p) p n) x 0) x 0

Apart-append : (i : ℕ) (xs ys : List ℕ) → Apart i (xs ++ ys) → Apart i xs × Apart i ys
Apart-append i [] ys h = (tt, h)
Apart-append i (x ∷ xs) ys (hx, h) = let (a, b) = Apart-append i xs ys h in ((hx, a), b)

-- The neighbours of a node are nodes of its queue.
prev-inside :
    (l : Links) (a x : ℕ) (xs ys : List ℕ) (b i : ℕ)
    → Chain l a (xs ++ x ∷ ys) b
    → Apart i (a ∷ xs)
    → l.prev x ≢ i
prev-inside l a x [] ys b i (n, p, c) (na, h) = rw p na
prev-inside l a x (z ∷ zs) ys b i (n, p, c) (na, h) = prev-inside l z x zs ys b i c h

next-inside :
    (l : Links) (a x : ℕ) (xs ys : List ℕ) (b i : ℕ)
    → Chain l a (xs ++ x ∷ ys) b
    → Apart i ys
    → b ≢ i
    → l.next x ≢ i
next-inside l a x [] [] b i (n, p, (n', p')) h nb = rw n' nb
next-inside l a x [] (y ∷ ys) b i (n, p, (n', p', c)) (ny, h) nb = rw n' ny
next-inside l a x (z ∷ zs) ys b i (n, p, c) h nb = next-inside l z x zs ys b i c h nb

Chain-same :
    (l l' : Links) (a : ℕ) (xs : List ℕ) (b : ℕ) → l ≡ l' → Chain l' a xs b → Chain l a xs b
Chain-same l l' a xs b e c = rw e c

Chain-cut :
    (l : Links) (a x : ℕ) (xs ys : List ℕ) (b : ℕ)
    → Distinct (a ∷ xs ++ x ∷ ys)
    → Apart b (xs ++ x ∷ ys)
    → Chain l a (xs ++ x ∷ ys) b
    → Chain (cut l x (l.prev x) (l.next x)) a (xs ++ ys) b
Chain-cut l a x [] [] b (da, d) (xb, hb) (n, p, (n', p')) =
    let ax : a ≢ x = λ e. da.0 (sym e) in
    let bx : b ≢ x = λ e. xb (sym e) in
    rw (p, n')
      (
        set_other (set_at l.next a b) x 0 a ax ∙ set_same l.next a b,
        set_other (set_at l.prev b a) x 0 b bx ∙ set_same l.prev b a,
      )
Chain-cut l a x [] (y ∷ ys) b (da, d) (xb, hb) (n, p, (n', p', c)) =
    let ax : a ≢ x = λ e. da.0 (sym e) in
    let bx : b ≢ x = λ e. xb (sym e) in
    let by : b ≢ y = λ e. hb.0 (sym e) in
    let c1 = Chain-set_prev l y ys b y a d.1.0 by c in
    let c2 = Chain-set_next (set_prev l y a) y ys b a y da.1 c1 in
    let c3 = Chain-set_prev (set_next (set_prev l y a) a y) y ys b x 0 d.0.1 bx c2 in
    let c4 = Chain-set_next (set_prev (set_next (set_prev l y a) a y) x 0) y ys b x 0 d.0 c3 in
    let same : cut l x (l.prev x) (l.next x) ≡ cut l x a y = ap₂ (λ i j. cut l x i j) p n' in
    (
      rw (p, n') (set_other (set_at l.next a y) x 0 a ax ∙ set_same l.next a y),
      rw (p, n') (set_other (set_at l.prev y a) x 0 y d.0.0 ∙ set_same l.prev y a),
      Chain-same _ _ y ys b same c4,
    )
Chain-cut l a x (z ∷ zs) ys b (da, d) (zb, hb) (n, p, c) =
    let (da', xa) = Apart-append a (z ∷ zs) (x ∷ ys) da in
    let ax : a ≢ x = λ e. xa.0 (sym e) in
    let (dz, zx) = Apart-append z zs (x ∷ ys) d.0 in
    let zx' : z ≢ x = λ e. zx.0 (sym e) in
    let before = prev-inside l z x zs ys b a c da' in
    let behind = next-inside l z x zs ys b z c zx.1 (λ e. zb (sym e)) in
    let before' : a ≢ l.prev x = λ e. before (sym e) in
    let behind' : z ≢ l.next x = λ e. behind (sym e) in
    (
      set_other (set_at l.next (l.prev x) (l.next x)) x 0 a ax
          ∙ set_other l.next (l.prev x) (l.next x) a before'
          ∙ n,
      set_other (set_at l.prev (l.next x) (l.prev x)) x 0 z zx'
          ∙ set_other l.prev (l.next x) (l.prev x) z behind'
          ∙ p,
      Chain-cut l z x zs ys b d hb c,
    )

Apart-drop : (i x : ℕ) (xs ys : List ℕ) → Apart i (xs ++ x ∷ ys) → Apart i (xs ++ ys)
Apart-drop i x [] ys (hx, h) = h
Apart-drop i x (z ∷ zs) ys (hz, h) = (hz, Apart-drop i x zs ys h)

Distinct-drop : (x : ℕ) (xs ys : List ℕ) → Distinct (xs ++ x ∷ ys) → Distinct (xs ++ ys)
Distinct-drop x [] ys (hx, d) = d
Distinct-drop x (z ∷ zs) ys (hz, d) = (Apart-drop z x zs ys hz, Distinct-drop x zs ys d)

kept_prev : (l : Links) (x : ℕ) → set_at l.prev (l.next x) (l.prev x) x ≡ l.prev x
kept_prev l x = elim (Bool-cases (x == l.next x)) [ inl h ↦ rw h refl | inr h ↦ rw h refl ]

-- A node of a queue is taken out of it.
pub remove-IsQueue :
    (l : Links) (h : ℕ) (xs : List ℕ) (x : ℕ) (ys : List ℕ)
    → IsQueue l h (xs ++ x ∷ ys)
    → IsQueue (remove l x) h (xs ++ ys)
unfolding remove
remove-IsQueue l h xs x ys q =
    let kept : set_at l.prev (l.next x) (l.prev x) x ≡ l.prev x = kept_prev l x in
    let chain = Chain-cut l h x xs ys h q.distinct q.distinct.0 q.chain in
    let same : remove l x ≡ cut l x (l.prev x) (l.next x) =
      ap
        (λ p.
          set_next (set_prev (set_next (set_prev l (l.next x) (l.prev x)) p (l.next x)) x 0) x 0)
        kept in
    record {
      chain = Chain-same (remove l x) _ h (xs ++ ys) h same chain;
      distinct = (Apart-drop h x xs ys q.distinct.0, Distinct-drop x xs ys q.distinct.1);
    }
