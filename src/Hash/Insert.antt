-- ===== src/Hash/Insert.antt =====
-- What `stu_hash_find_locked` finds after `stu_hash_insert_locked`.
use chatease_server.Common.Scan.{rc_ok, rc_error}
use chatease_server.Common.{
  ℕ, ◌+◌, ◌%◌, ◌≡◌, ◌≢◌, ◌⊎◌, inl, inr, refl, ap, ◌∙◌, arith, Bool, ◌==◌, List, [], ◌∷◌, ◌++◌, true,
  false, none, some, Bool-cases, Option-cases,
}
use chatease_server.Hash.Key.{hash_key_lc}
use chatease_server.Hash.Lookup.{
  IsLinked, kept, find-place, find-place_other, find-place_failed, place-rc, append-cases,
}
use chatease_server.Hash.Table.{
  Hash, set_at, find_elt, queue, bucket, new_elt, link, append, value_of, find_locked, key_of,
  place, insert_hashed, insert_locked,
}
use chatease_server.Strings.Copy.{IsText}

-- The bucket got its head.
abbrev pub opened : Hash → ℕ → Hash
opened h kh = record h { buckets = set_at h.buckets (kh % h.size) (some []); calls = h.calls + 1 }

module _ (h : Hash) (kh : ℕ) (empty : h.buckets (kh % h.size) ≡ none) where
  opened-queue : (i : ℕ) → queue ((opened h kh).buckets i) ≡ queue (h.buckets i)
  opened-queue i = elim (Bool-cases (i == kh % h.size)) [
    | inl here ↦ let eq : i ≡ kh % h.size = ground (arith, here) in rw (here, eq, empty) refl
    | inr apart ↦ rw apart refl
  ]

  pub opened-IsLinked : IsLinked h → IsLinked (opened h kh)
  opened-IsLinked ok = record { below = λ i. rw (opened-queue i) (ok.below i) }

  find-opened :
      (kh' : ℕ) (name : List ℕ) → find_locked (opened h kh) kh' name ≡ find_locked h kh' name
  unfolding find_locked
  find-opened kh' name =
      ap (λ q. value_of h.elts (find_elt h.elts kh' name q)) (opened-queue (kh' % h.size))

module _ (palloc : ℕ → Bool) (replace : Bool) (h : Hash) (kh : ℕ) (key : List ℕ) (value : ℕ) where
  pub insert-cases :
      (insert_hashed palloc replace h kh key value ≡ place palloc replace h kh key value)
      ⊎ ((h.buckets (kh % h.size) ≡ none)
          × (insert_hashed palloc replace h kh key value
              ≡ place palloc replace (opened h kh) kh key value))
      ⊎ (insert_hashed palloc replace h kh key value
          ≡ record { rc = rc_error; hash = record h { calls = h.calls + 1 } })
  unfolding insert_hashed
  insert-cases = elim (Option-cases (h.buckets (kh % h.size))) [
    | inr (q, e) ↦ inl (rw (insert_hashed, e) refl)
    | inl e ↦ elim (Bool-cases (palloc h.calls)) [
      | inl got ↦ inr (inl (e, rw (insert_hashed, e, got) refl))
      | inr denied ↦ inr (inr (rw (insert_hashed, e, denied) refl))
    ]
  ]

-- After an insertion that answers STU_OK, into a table whose buckets link only elements that were
-- made, the key's lookup gives the new value, unless the key was there and STU_HASH_REPLACE was
-- not asked for: then it still gives the old one.
pub find_locked-insert_locked :
    (palloc : ℕ → Bool) (lowcase replace : Bool) (h : Hash) (key : List ℕ) (value : ℕ)
    → IsLinked h
    → (insert_locked palloc lowcase replace h key value).rc ≡ rc_ok
    → let kh = key_of lowcase key in
      find_locked (insert_locked palloc lowcase replace h key value).hash kh key
      ≡ kept replace (find_locked h kh key) value
unfolding insert_locked
find_locked-insert_locked palloc lowcase replace h key value ok done =
    let kh = key_of lowcase key in
    elim (insert-cases palloc replace h kh key value) [
      | inl e ↦ rw e (find-place palloc h kh key value replace ok (rw e at done))
      | inr (inl (empty, e)) ↦ rw e (
          find-place palloc (opened h kh) kh key value replace (opened-IsLinked h kh empty ok)
            (rw e at done)
          ∙ ap (λ was. kept replace was value) (find-opened h kh empty kh key))
      | inr (inr e) ↦ absurd (let failed = rw e at done in ground arith)
    ]

-- No insertion, failed or not, into a table whose buckets link only elements that were made,
-- changes what any other key without a zero byte finds.
pub find_locked-insert_other :
    (palloc : ℕ → Bool) (lowcase replace : Bool) (h : Hash) (key : List ℕ) (value kh : ℕ)
    (name : List ℕ)
    → IsLinked h
    → IsText name
    → (kh ≢ key_of lowcase key) ⊎ (name ≢ key)
    → find_locked (insert_locked palloc lowcase replace h key value).hash kh name
      ≡ find_locked h kh name
unfolding insert_locked find_locked
find_locked-insert_other palloc lowcase replace h key value kh' name ok t ne =
    let kh = key_of lowcase key in
    elim (insert-cases palloc replace h kh key value) [
      | inl e ↦ rw e (find-place_other palloc h kh key value replace kh' name ok t ne)
      | inr (inl (empty, e)) ↦ rw e (
          find-place_other palloc (opened h kh) kh key value replace kh' name
            (opened-IsLinked h kh empty ok) t ne
          ∙ find-opened h kh empty kh' name)
      | inr (inr e) ↦ rw e refl
    ]

-- A failed insertion changes nothing that any key finds.
pub find_locked-insert_failed :
    (palloc : ℕ → Bool) (lowcase replace : Bool) (h : Hash) (key : List ℕ) (value kh : ℕ)
    (name : List ℕ)
    → (insert_locked palloc lowcase replace h key value).rc ≡ rc_error
    → find_locked (insert_locked palloc lowcase replace h key value).hash kh name
      ≡ find_locked h kh name
unfolding insert_locked find_locked
find_locked-insert_failed palloc lowcase replace h key value kh' name failed =
    let kh = key_of lowcase key in
    elim (insert-cases palloc replace h kh key value) [
      | inl e ↦ rw e (find-place_failed palloc h kh key value replace kh' name (rw e at failed))
      | inr (inl (empty, e)) ↦ rw e (
          find-place_failed palloc (opened h kh) kh key value replace kh' name (rw e at failed)
          ∙ find-opened h kh empty kh' name)
      | inr (inr e) ↦ rw e refl
    ]

-- An insertion answers STU_OK or STU_ERROR.
pub insert_locked-rc :
    (palloc : ℕ → Bool) (lowcase replace : Bool) (h : Hash) (key : List ℕ) (value : ℕ)
    → ((insert_locked palloc lowcase replace h key value).rc ≡ rc_ok)
      ⊎ ((insert_locked palloc lowcase replace h key value).rc ≡ rc_error)
unfolding insert_locked
insert_locked-rc palloc lowcase replace h key value =
    let kh = key_of lowcase key in
    elim (insert-cases palloc replace h kh key value) [
      | inl e ↦ rw e (place-rc palloc h kh key value replace)
      | inr (inl (empty, e)) ↦ rw e (place-rc palloc (opened h kh) kh key value replace)
      | inr (inr e) ↦ rw e (inr refl)
    ]

-- What a new element is, and where it stands: behind those of before, in the list of keys and in
-- its bucket.
abbrev pub IsAdded : Hash → ℕ → List ℕ → ℕ → Hash → Type 0
IsAdded h kh key value out =
    (out.elts h.next ≡ new_elt kh key value)
    × (out.keys ≡ h.keys ++ h.next ∷ [])
    × (bucket out kh ≡ bucket h kh ++ h.next ∷ [])

append-IsAdded :
    (palloc : ℕ → Bool) (h : Hash) (kh : ℕ) (key : List ℕ) (value : ℕ)
    → (append palloc h kh key value).rc ≡ rc_ok
    → IsAdded h kh key value (append palloc h kh key value).hash
unfolding link
append-IsAdded palloc h kh key value ok =
    let here : (kh % h.size == kh % h.size) ≡ true = ground arith in
    let there : (h.next == h.next) ≡ true = ground arith in
    elim (append-cases palloc h kh key value) [
      | inl (n, failed) ↦ absurd (let h' = rw failed at ok in ground arith)
      | inr grown ↦ rw grown (rw there refl, refl, rw here refl)
    ]

-- Without REPLACE, an insertion that answers STU_OK adds an element, whether or not the key was
-- there.
pub insert_locked-IsAdded :
    (palloc : ℕ → Bool) (h : Hash) (key : List ℕ) (value : ℕ)
    → (insert_locked palloc true false h key value).rc ≡ rc_ok
    → IsAdded h (hash_key_lc key) key value (insert_locked palloc true false h key value).hash
unfolding insert_locked place
insert_locked-IsAdded palloc h key value ok =
    let kh = hash_key_lc key in
    elim (insert-cases palloc false h kh key value) [
      | inl e ↦ rw e (append-IsAdded palloc h kh key value (rw e at ok))
      | inr (inl (empty, e)) ↦
          let (elts, keys, added) = append-IsAdded palloc (opened h kh) kh key value (rw e at ok) in
          rw e
            (elts, keys, added ∙ ap (λ q. q ++ h.next ∷ []) (opened-queue h kh empty (kh % h.size)))
      | inr (inr e) ↦ absurd (let h' = rw e at ok in ground arith)
    ]
