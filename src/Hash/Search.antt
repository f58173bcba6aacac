-- ===== src/Hash/Search.antt =====
-- What the search through one bucket finds when elements are written.
use chatease_server.Common.{
  ℕ, ◌<◌, ◌≡◌, inl, inr, refl, ap, arith, Bool, true, false, ◌==◌, List, [], ◌∷◌, ◌++◌, Option,
  none, some, length, All, Bool-cases, Option-cases, if◌then◌else◌,
}
use chatease_server.Hash.Table.{Elt, is_key, find_elt, value_of, set_at, new_elt}
use chatease_server.Strings.Copy.{IsText, same_bytes, same_bytes_unique, strncpy_same}

-- One element has one key.
pub is_key_unique :
    (kh kh' : ℕ) (name other : List ℕ) (e : Elt)
    → IsText name
    → is_key kh name e ≡ true
    → is_key kh' other e ≡ true
    → (kh ≡ kh') × (name ≡ other)
unfolding is_key
is_key_unique kh kh' name other e t h h' =
    let same : length name ≡ length other = ground arith in
    let left : same_bytes (length name) e.chars name ≡ true = ground arith in
    let right : same_bytes (length name) e.chars other ≡ true = ground arith in
    (ground arith, same_bytes_unique e.chars name other t same left right)

pub is_key-new_elt :
    (kh : ℕ) (key : List ℕ) (value : ℕ) → is_key kh key (new_elt kh key value) ≡ true
unfolding is_key
is_key-new_elt kh key value = let same = strncpy_same key in ground arith

pub is_key_hash : (kh : ℕ) (name : List ℕ) (e : Elt) → is_key kh name e ≡ true → e.key_hash ≡ kh
unfolding is_key
is_key_hash kh name e h = ground arith

pub set_at-same : (f : ℕ → Elt) (i : ℕ) (x : Elt) → set_at f i x i ≡ x
set_at-same f i x = let here : (i == i) ≡ true = ground arith in rw here refl

is_key-set_value :
    (kh : ℕ) (name : List ℕ) (f : ℕ → Elt) (i v e : ℕ)
    → is_key kh name (set_at f i (record (f i) { value = v }) e) ≡ is_key kh name (f e)
unfolding is_key
is_key-set_value kh name f i v e = elim (Bool-cases (e == i)) [
  | inl same ↦ let eq : e ≡ i = ground (arith, same) in rw (same, eq) refl
  | inr other ↦ rw other refl
]

-- What is found, or else the value of a new element if it has the key.
abbrev pub or_new : Option ℕ → Bool → ℕ → Option ℕ
or_new (some w) mine v = some w
or_new none true v = some v
or_new none false v = none

pub or_new-false : (o : Option ℕ) (v : ℕ) → or_new o false v ≡ o
or_new-false none v = refl
or_new-false (some w) v = refl

module _ (f : ℕ → Elt) (kh : ℕ) (name : List ℕ) where
  pub find_elt-is_key :
      (q : List ℕ) (e : ℕ) → find_elt f kh name q ≡ some e → is_key kh name (f e) ≡ true
  unfolding find_elt
  find_elt-is_key [] e h = ground arith
  find_elt-is_key (x ∷ q) e h = elim (Bool-cases (is_key kh name (f x))) [
    | inl here ↦ let found = rw here at h in ground (arith, found, here)
    | inr on ↦ find_elt-is_key q e (rw on at h)
  ]

  -- A write to an element that is not linked yet.
  pub find_elt-fresh :
      (q : List ℕ) (n : ℕ) (x : Elt)
      → All (λ e. e < n) q
      → find_elt (set_at f n x) kh name q ≡ find_elt f kh name q
  unfolding find_elt
  find_elt-fresh [] n x below = refl
  find_elt-fresh (e ∷ q) n x (lt, below) =
      let ih = find_elt-fresh q n x below in
      let other : (e == n) ≡ false = ground arith in rw (other, ih) refl

  pub find_elt-below :
      (q : List ℕ) (n e : ℕ) → All (λ e. e < n) q → find_elt f kh name q ≡ some e → e < n
  unfolding find_elt
  find_elt-below [] n e below h = ground arith
  find_elt-below (x ∷ q) n e (lt, below) h = elim (Bool-cases (is_key kh name (f x))) [
    | inl here ↦ let found = rw here at h in ground (arith, found, lt)
    | inr on ↦ find_elt-below q n e below (rw on at h)
  ]

  -- A write to the value of an element.
  pub find_elt-set_value :
      (q : List ℕ) (i v : ℕ)
      → find_elt (set_at f i (record (f i) { value = v })) kh name q ≡ find_elt f kh name q
  unfolding find_elt
  find_elt-set_value [] i v = refl
  find_elt-set_value (e ∷ q) i v =
      rw (find_elt-set_value q i v, is_key-set_value kh name f i v e) refl

  -- An element at the end of the queue.
  pub find_elt-append :
      (q : List ℕ) (e : ℕ)
      → find_elt f kh name (q ++ e ∷ []) ≡ elim (find_elt f kh name q) [
        | some d ↦ some d
        | none ↦ if is_key kh name (f e) then some e else none
      ]
  unfolding find_elt
  find_elt-append [] e = refl
  find_elt-append (x ∷ q) e = elim (Bool-cases (is_key kh name (f x))) [
    | inl here ↦ rw here refl
    | inr on ↦ rw on (find_elt-append q e)
  ]

module _ (f : ℕ → Elt) (kh : ℕ) (name : List ℕ) where
  pub value_of-fresh :
      (q : List ℕ) (n : ℕ) (x : Elt)
      → All (λ e. e < n) q
      → value_of (set_at f n x) (find_elt (set_at f n x) kh name q)
        ≡ value_of f (find_elt f kh name q)
  value_of-fresh q n x below =
      rw (find_elt-fresh f kh name q n x below) (elim (Option-cases (find_elt f kh name q)) [
        | inl e ↦ rw e refl
        | inr (d, e) ↦
            let lt = find_elt-below f kh name q n d below e in
            let other : (d == n) ≡ false = ground (arith, lt) in rw (e, other) refl
      ])

  pub value_of-append :
      (q : List ℕ) (n : ℕ) (x : Elt)
      → All (λ e. e < n) q
      → value_of (set_at f n x) (find_elt (set_at f n x) kh name (q ++ n ∷ []))
        ≡ or_new (value_of f (find_elt f kh name q)) (is_key kh name x) x.value
  value_of-append q n x below =
      let new : set_at f n x n ≡ x = set_at-same f n x in
      rw (find_elt-append (set_at f n x) kh name q n, find_elt-fresh f kh name q n x below)
        (elim (Option-cases (find_elt f kh name q)) [
          | inl e ↦ elim (Bool-cases (is_key kh name x)) [
            | inl mine ↦ rw (e, new, mine) (ap (λ y. some y.value) new)
            | inr other ↦ rw (e, new, other) refl
          ]
          | inr (d, e) ↦
              let lt = find_elt-below f kh name q n d below e in
              let other : (d == n) ≡ false = ground (arith, lt) in rw (e, other) refl
        ])
