-- ===== src/Hash/Reached.antt =====
-- The tables that a program can make by insertions and removals.
use chatease_server.Common.{
  ℕ, ◌+◌, ◌%◌, ◌<◌, ◌≡◌, inl, inr, arith, Bool, ◌==◌, List, [], ◌∷◌, ◌++◌, some, All, Bool-cases,
}
use chatease_server.Hash.Insert.{insert-cases, opened, opened-IsLinked}
use chatease_server.Hash.Lookup.{IsLinked, append-cases, place-cases}
use chatease_server.Hash.Remove.{remove-cases, queue-or_null}
use chatease_server.Hash.Table.{
  Elt, Hash, is_key, queue, bucket, key_of, init, link, place, insert_locked, without, unlink,
  remove_locked,
}

module _ (palloc : ℕ → Bool) where
  pub data Reached : Hash → Type 0 where
    initial : (size calls : ℕ) → Reached (init size calls)
    inserted :
        (lowcase replace : Bool) (h : Hash) (key : List ℕ) (value : ℕ)
        → Reached h
        → Reached (insert_locked palloc lowcase replace h key value).hash
    removed : (h : Hash) (kh : ℕ) (name : List ℕ) → Reached h → Reached (remove_locked h kh name)

All-snoc : (q : List ℕ) (n : ℕ) → All (λ e. e < n) q → All (λ e. e < n + 1) (q ++ n ∷ [])
All-snoc [] n below = (omega arith, tt)
All-snoc (e ∷ q) n (lt, below) = (omega arith, All-snoc q n below)

All-wider : (q : List ℕ) (n : ℕ) → All (λ e. e < n) q → All (λ e. e < n + 1) q
All-wider [] n below = tt
All-wider (e ∷ q) n (lt, below) = (omega arith, All-wider q n below)

All-without :
    (f : ℕ → Elt) (kh : ℕ) (name : List ℕ) (q : List ℕ) (n : ℕ)
    → All (λ e. e < n) q
    → All (λ e. e < n) (without f kh name q)
unfolding without
All-without f kh name [] n below = tt
All-without f kh name (e ∷ q) n (lt, below) = elim (Bool-cases (is_key kh name (f e))) [
  | inl mine ↦ rw mine (All-without f kh name q n below)
  | inr other ↦ rw other (lt, All-without f kh name q n below)
]

link-IsLinked :
    (h : Hash) (kh : ℕ) (key : List ℕ) (value : ℕ) → IsLinked h → IsLinked (link h kh key value)
unfolding link
link-IsLinked h kh key value ok = record {
  below = λ i. elim (Bool-cases (i == kh % h.size)) [
    | inl here ↦ rw here (All-snoc (bucket h kh) h.next (ok.below (kh % h.size)))
    | inr apart ↦ rw apart (All-wider (queue (h.buckets i)) h.next (ok.below i))
  ];
}

pub unlink-IsLinked :
    (h : Hash) (kh : ℕ) (name q : List ℕ)
    → h.buckets (kh % h.size) ≡ some q
    → IsLinked h
    → IsLinked (unlink h kh name q)
unfolding unlink
unlink-IsLinked h kh name q e ok =
    let mine : All (λ d. d < h.next) q = rw e at (ok.below (kh % h.size)) in
    record {
      below = λ i. elim (Bool-cases (i == kh % h.size)) [
        | inl here ↦
            rw (here, queue-or_null (without h.elts kh name q))
              (All-without h.elts kh name q h.next mine)
        | inr apart ↦ rw apart (ok.below i)
      ];
    }

pub remove-IsLinked :
    (h : Hash) (kh : ℕ) (name : List ℕ) → IsLinked h → IsLinked (remove_locked h kh name)
remove-IsLinked h kh name ok = elim (remove-cases h kh name) [
  | inl (e, same) ↦ rw same ok
  | inr (q, e, same) ↦ rw same (unlink-IsLinked h kh name q e ok)
]

module _ (palloc : ℕ → Bool) where
  place-IsLinked :
      (replace : Bool) (h : Hash) (kh : ℕ) (key : List ℕ) (value : ℕ)
      → IsLinked h
      → IsLinked (place palloc replace h kh key value).hash
  place-IsLinked replace h kh key value ok = elim (place-cases palloc h kh key value replace) [
    | inl (same, why) ↦ elim (append-cases palloc h kh key value) [
      | inl (n, failed) ↦ rw (same, failed) (record { below = ok.below })
      | inr grown ↦ rw (same, grown) (link-IsLinked h kh key value ok)
    ]
    | inr (d, on, e, written) ↦ rw written (record { below = ok.below })
  ]

  pub insert-IsLinked :
      (lowcase replace : Bool) (h : Hash) (key : List ℕ) (value : ℕ)
      → IsLinked h
      → IsLinked (insert_locked palloc lowcase replace h key value).hash
  unfolding insert_locked
  insert-IsLinked lowcase replace h key value ok =
      let kh = key_of lowcase key in
      elim (insert-cases palloc replace h kh key value) [
        | inl e ↦ rw e (place-IsLinked replace h kh key value ok)
        | inr (inl (empty, e)) ↦
            rw e (place-IsLinked replace (opened h kh) kh key value (opened-IsLinked h kh empty ok))
        | inr (inr e) ↦ rw e (record { below = ok.below })
      ]

  -- Every table that insertions and removals, failed ones included, make from an initial one
  -- links only elements that were made before: what a later insertion writes is linked nowhere.
  pub Reached-IsLinked : (h : Hash) → Reached palloc h → IsLinked h
  unfolding init
  Reached-IsLinked _ (initial size calls) = record { below = λ i. tt }
  Reached-IsLinked _ (inserted lowcase replace h key value r) =
      insert-IsLinked lowcase replace h key value (Reached-IsLinked h r)
  Reached-IsLinked _ (removed h kh name r) = remove-IsLinked h kh name (Reached-IsLinked h r)
