-- ===== src/Hash/Remove.antt =====
-- What `stu_hash_find_locked` finds after `stu_hash_remove_locked`.
use chatease_server.Common.{
  ℕ, ◌%◌, ◌≡◌, ◌≢◌, ◌⊎◌, inl, inr, refl, arith, true, ◌==◌, List, [], ◌∷◌, none, some, Bool-cases,
  Option-cases,
}
use chatease_server.Hash.Lookup.{not_key}
use chatease_server.Hash.Table.{
  Elt, Hash, is_key, find_elt, queue, find_locked, without, or_null, unlink, remove_locked,
}
use chatease_server.Strings.Copy.{IsText}

module _ (f : ℕ → Elt) (kh : ℕ) (name : List ℕ) where
  find_elt-without : (q : List ℕ) → find_elt f kh name (without f kh name q) ≡ none
  unfolding find_elt without
  find_elt-without [] = refl
  find_elt-without (e ∷ q) = elim (Bool-cases (is_key kh name (f e))) [
    | inl mine ↦ rw mine (find_elt-without q)
    | inr other ↦ rw (other, other) (find_elt-without q)
  ]

  find_elt-without_other :
      (kh' : ℕ) (other : List ℕ) (q : List ℕ)
      → IsText other
      → (kh' ≢ kh) ⊎ (other ≢ name)
      → find_elt f kh' other (without f kh name q) ≡ find_elt f kh' other q
  unfolding find_elt without
  find_elt-without_other kh' other [] t ne = refl
  find_elt-without_other kh' other (e ∷ q) t ne =
      let ih = find_elt-without_other kh' other q t ne in
      elim (Bool-cases (is_key kh name (f e))) [
        | inl mine ↦ rw (mine, not_key kh kh' name other (f e) t ne mine) ih
        | inr kept ↦ rw (kept, ih) refl
      ]

pub queue-or_null : (q : List ℕ) → queue (or_null q) ≡ q
queue-or_null [] = refl
queue-or_null (e ∷ q) = refl

pub remove-cases :
    (h : Hash) (kh : ℕ) (name : List ℕ)
    → ((h.buckets (kh % h.size) ≡ none) × (remove_locked h kh name ≡ h))
      ⊎ ((q : List ℕ) × (h.buckets (kh % h.size) ≡ some q)
          × (remove_locked h kh name ≡ unlink h kh name q))
unfolding remove_locked
remove-cases h kh name = elim (Option-cases (h.buckets (kh % h.size))) [
  | inl e ↦ inl (e, rw (remove_locked, e) refl)
  | inr (q, e) ↦ inr (q, e, rw (remove_locked, e) refl)
]

-- A removed key is not found, however many elements had it.
pub find_locked-remove_locked :
    (h : Hash) (kh : ℕ) (name : List ℕ) → find_locked (remove_locked h kh name) kh name ≡ none
unfolding find_locked unlink find_elt
find_locked-remove_locked h kh name = elim (remove-cases h kh name) [
  | inl (e, same) ↦ rw (same, e) refl
  | inr (q, e, same) ↦
      let here : (kh % h.size == kh % h.size) ≡ true = ground arith in
      rw (same, here, queue-or_null (without h.elts kh name q), find_elt-without h.elts kh name q)
        refl
]

-- Any other key, without a zero byte, finds what it found before a removal.
pub find_locked-remove_other :
    (h : Hash) (kh kh' : ℕ) (name other : List ℕ)
    → IsText other
    → (kh' ≢ kh) ⊎ (other ≢ name)
    → find_locked (remove_locked h kh name) kh' other ≡ find_locked h kh' other
unfolding find_locked unlink find_elt
find_locked-remove_other h kh kh' name other t ne = elim (remove-cases h kh name) [
  | inl (e, same) ↦ rw same refl
  | inr (q, e, same) ↦ elim (Bool-cases (kh' % h.size == kh % h.size)) [
    | inl here ↦
        let eq : kh' % h.size ≡ kh % h.size = ground (arith, here) in
        let rest = find_elt-without_other h.elts kh name kh' other q t ne in
        rw (same, here, queue-or_null (without h.elts kh name q), rest, eq, e) refl
    | inr apart ↦ rw (same, apart) refl
  ]
]

-- A removed key is not found, however many elements had it, and any other key, without a zero
-- byte, finds what it found before the removal.
pub find_locked-removed :
    (h : Hash) (kh kh' : ℕ) (name other : List ℕ)
    → IsText other
    → (kh' ≢ kh) ⊎ (other ≢ name)
    → (find_locked (remove_locked h kh name) kh name ≡ none)
      × (find_locked (remove_locked h kh name) kh' other ≡ find_locked h kh' other)
find_locked-removed h kh kh' name other t ne =
    (find_locked-remove_locked h kh name, find_locked-remove_other h kh kh' name other t ne)
