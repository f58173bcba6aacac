-- ===== src/Hash/Lookup.antt =====
-- What `stu_hash_find_locked` finds when the bucket of a new key has its head.
use chatease_server.Common.Scan.{rc_ok, rc_error}
use chatease_server.Common.{
  ℕ, ◌+◌, ◌%◌, ◌<◌, ◌≡◌, ◌≢◌, ◌⊎◌, inl, inr, refl, ap, sym, ◌∙◌, arith, Bool, true, false, ◌==◌,
  List, Option, none, some, All, Bool-cases, Option-cases,
}
use chatease_server.Hash.Search.{
  or_new, or_new-false, set_at-same, is_key_unique, is_key-new_elt, is_key_hash, find_elt-is_key,
  find_elt-set_value, value_of-fresh, value_of-append,
}
use chatease_server.Hash.Table.{
  Elt, Hash, set_at, is_key, find_elt, queue, bucket, value_of, find_locked, new_elt, link, append,
  place,
}
use chatease_server.Strings.Copy.{IsText}

-- The elements that the buckets link have been made.
pub record IsLinked (h : Hash) : Type 0 where
  pub below : (i : ℕ) → All (λ e. e < h.next) (queue (h.buckets i))

pub find_locked-link :
    (h : Hash) (kh kh' : ℕ) (key name : List ℕ) (value : ℕ)
    → IsLinked h
    → find_locked (link h kh key value) kh' name
      ≡ or_new (find_locked h kh' name) (is_key kh' name (new_elt kh key value)) value
unfolding find_locked link
find_locked-link h kh kh' key name value ok = elim (Bool-cases (kh' % h.size == kh % h.size)) [
  | inl same ↦
      let eq : kh' % h.size ≡ kh % h.size = ground (arith, same) in
      rw (same, eq)
        (value_of-append h.elts kh' name (bucket h kh) h.next (new_elt kh key value)
          (ok.below (kh % h.size)))
  | inr apart ↦ elim (Bool-cases (is_key kh' name (new_elt kh key value))) [
    | inl mine ↦
        let eq : kh ≡ kh' = is_key_hash kh' name (new_elt kh key value) mine in
        absurd (let again = rw eq at apart in ground (arith, again))
    | inr other ↦
        rw (apart, other)
          (value_of-fresh h.elts kh' name (bucket h kh') h.next (new_elt kh key value)
              (ok.below (kh' % h.size))
            ∙ sym (or_new-false _ value))
  ]
]

-- A replaced value, as a search for any key sees it.
find_locked-replaced :
    (h : Hash) (kh : ℕ) (key : List ℕ) (e value : ℕ) (kh' : ℕ) (name : List ℕ)
    → find_locked
        (record h { elts = set_at h.elts e (record (h.elts e) { value = value }) })
        kh'
        name
      ≡ value_of
          (set_at h.elts e (record (h.elts e) { value = value }))
          (find_elt h.elts kh' name (bucket h kh'))
unfolding find_locked
find_locked-replaced h kh key e value kh' name =
    ap (value_of (set_at h.elts e (record (h.elts e) { value = value })))
      (find_elt-set_value h.elts kh' name (bucket h kh') e value)

value_of_other :
    (f : ℕ → Elt) (i : ℕ) (x : Elt) (o : Option ℕ)
    → ((e : ℕ) → o ≡ some e → e ≢ i)
    → value_of (set_at f i x) o ≡ value_of f o
value_of_other f i x none h = refl
value_of_other f i x (some e) h =
    let ne : e ≢ i = h e refl in let other : (e == i) ≡ false = ground (arith, ne) in rw other refl

-- What is found under a key after a value was inserted under it: on `replace` that value, and
-- otherwise only if there was none.
abbrev pub kept : Bool → Option ℕ → ℕ → Option ℕ
kept true was v = some v
kept false none v = some v
kept false (some w) v = some w

or_new-true : (o : Option ℕ) (v : ℕ) → or_new o true v ≡ kept false o v
or_new-true none v = refl
or_new-true (some w) v = refl

-- Another key than that of an element.
pub not_key :
    (kh kh' : ℕ) (key name : List ℕ) (e : Elt)
    → IsText name
    → (kh' ≢ kh) ⊎ (name ≢ key)
    → is_key kh key e ≡ true
    → is_key kh' name e ≡ false
not_key kh kh' key name e t ne mine = elim (Bool-cases (is_key kh' name e)) [
  | inl both ↦
      let same = is_key_unique kh' kh name key e t both mine in
      absurd (elim ne [ inl hashes ↦ hashes same.0 | inr names ↦ names same.1 ])
  | inr other ↦ other
]

kept-none : (replace : Bool) (v : ℕ) → kept replace none v ≡ some v
kept-none true v = refl
kept-none false v = refl

module _ (palloc : ℕ → Bool) (h : Hash) (kh : ℕ) (key : List ℕ) (value : ℕ) where
  pub append-cases :
      ((n : ℕ) × (append palloc h kh key value
          ≡ record { rc = rc_error; hash = record h { calls = n } }))
      ⊎ (append palloc h kh key value ≡ record { rc = rc_ok; hash = link h kh key value })
  unfolding append
  append-cases = elim (Bool-cases (palloc h.calls)) [
    | inr denied ↦ inl (h.calls + 1, rw denied refl)
    | inl got ↦ elim (Bool-cases (palloc (h.calls + 1))) [
      | inr denied ↦ inl (h.calls + 2, rw (got, denied) refl)
      | inl both ↦ inr (rw (got, both) refl)
    ]
  ]

  pub place-cases :
      (replace : Bool)
      → (place palloc replace h kh key value ≡ append palloc h kh key value)
          × ((replace ≡ false) ⊎ (find_elt h.elts kh key (bucket h kh) ≡ none))
        ⊎ ((e : ℕ) × (replace ≡ true)
            × (find_elt h.elts kh key (bucket h kh) ≡ some e)
            × (place palloc replace h kh key value ≡ record {
              rc = rc_ok;
              hash = record h { elts = set_at h.elts e (record (h.elts e) { value = value }) };
            }))
  unfolding place
  place-cases false = inl (refl, inl refl)
  place-cases true = elim (Option-cases (find_elt h.elts kh key (bucket h kh))) [
    | inl e ↦
        let fresh : place palloc true h kh key value ≡ append palloc h kh key value =
          rw (place, e) refl in
        inl (fresh, inr e)
    | inr (d, e) ↦
        let written : place palloc true h kh key value ≡ record {
          rc = rc_ok;
          hash = record h { elts = set_at h.elts d (record (h.elts d) { value = value }) };
        } =
          rw (place, e) refl in
        inr (d, refl, e, written)
  ]

  pub place-rc :
      (replace : Bool)
      → ((place palloc replace h kh key value).rc ≡ rc_ok)
        ⊎ ((place palloc replace h kh key value).rc ≡ rc_error)
  place-rc replace = elim (place-cases replace) [
    | inl (same, why) ↦ elim append-cases [
      | inl (n, failed) ↦ rw (same, failed) (inr refl)
      | inr grown ↦ rw (same, grown) (inl refl)
    ]
    | inr (d, on, e, written) ↦ rw written (inl refl)
  ]

  pub find-place_failed :
      (replace : Bool) (kh' : ℕ) (name : List ℕ)
      → (place palloc replace h kh key value).rc ≡ rc_error
      → find_locked (place palloc replace h kh key value).hash kh' name ≡ find_locked h kh' name
  unfolding find_locked
  find-place_failed replace kh' name failed = elim (place-cases replace) [
    | inl (same, why) ↦ elim append-cases [
      | inl (n, e) ↦ rw (same, e) refl
      | inr grown ↦ absurd (let e = rw (same, grown) at failed in ground arith)
    ]
    | inr (d, on, e, written) ↦ absurd (let e' = rw written at failed in ground arith)
  ]

  -- The three ways in which a table changes, as a search for the new key sees them.
  pub find-place :
      (replace : Bool)
      → IsLinked h
      → (place palloc replace h kh key value).rc ≡ rc_ok
      → find_locked (place palloc replace h kh key value).hash kh key
        ≡ kept replace (find_locked h kh key) value
  unfolding find_locked
  find-place replace ok done = elim (place-cases replace) [
    | inl (same, why) ↦ elim append-cases [
      | inl (n, failed) ↦ absurd (let e = rw (same, failed) at done in ground arith)
      | inr grown ↦
          rw (same, grown)
            (find_locked-link h kh kh key key value ok
              ∙ ap (λ b. or_new (find_locked h kh key) b value) (is_key-new_elt kh key value)
              ∙ or_new-true (find_locked h kh key) value
              ∙ elim why [
                | inl plain ↦ rw plain refl
                | inr missing ↦ rw missing (sym (kept-none replace value))
              ])
    ]
    | inr (d, on, e, written) ↦
        rw (written, on)
          (find_locked-replaced h kh key d value kh key
            ∙ ap (value_of (set_at h.elts d (record (h.elts d) { value = value }))) e
            ∙ ap (λ y. some y.value) (set_at-same h.elts d (record (h.elts d) { value = value })))
  ]

  pub find-place_other :
      (replace : Bool) (kh' : ℕ) (name : List ℕ)
      → IsLinked h
      → IsText name
      → (kh' ≢ kh) ⊎ (name ≢ key)
      → find_locked (place palloc replace h kh key value).hash kh' name ≡ find_locked h kh' name
  unfolding find_locked
  find-place_other replace kh' name ok t ne = elim (place-cases replace) [
    | inl (same, why) ↦ elim append-cases [
      | inl (n, failed) ↦ rw (same, failed) refl
      | inr grown ↦
          rw (same, grown)
            (find_locked-link h kh kh' key name value ok
              ∙ ap (λ b. or_new (find_locked h kh' name) b value)
                  (not_key kh kh' key name (new_elt kh key value) t ne
                    (is_key-new_elt kh key value))
              ∙ or_new-false (find_locked h kh' name) value)
    ]
    | inr (d, on, e, written) ↦ rw written (
        find_locked-replaced h kh key d value kh' name
        ∙ value_of_other h.elts d (record (h.elts d) { value = value })
            (find_elt h.elts kh' name (bucket h kh')) (apart d e))
  ]
    where
      apart :
          (d : ℕ)
          → find_elt h.elts kh key (bucket h kh) ≡ some d
          → (i : ℕ) → find_elt h.elts kh' name (bucket h kh') ≡ some i
          → i ≢ d
      apart d e i found same =
          let mine = find_elt-is_key h.elts kh key (bucket h kh) d e in
          let his = find_elt-is_key h.elts kh' name (bucket h kh') i found in
          let no_more = not_key kh kh' key name (h.elts d) t ne mine in
          let both = rw same at his in ground (arith, both, no_more)
