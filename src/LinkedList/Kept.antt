-- ===== src/LinkedList/Kept.antt =====
-- The objects of a list, in the order in which they were pushed.
use chatease_server.Common.{
  ℕ, ◌+◌, ◌^◌, ◌<◌, ◌≡◌, ◌≢◌, ◌⊎◌, inl, inr, refl, arith, Bool, List, [], ◌∷◌, ◌++◌, length,
  length-append, All, Bool-cases,
}
use chatease_server.Common.Scan.{rc_ok, rc_error}
use chatease_server.LinkedList.{LinkedList, Pushed, list_init, link, list_push, list_remove}
use chatease_server.Queue.{Links}
use chatease_server.Queue.Removal.{remove-IsQueue}
use chatease_server.Queue.Sequence.{Apart, IsQueue, insert_tail-IsQueue, set_other, set_same}
use chatease_server.Queue.Refines.{init-IsQueue}

-- The list has the elements `xs`, and no more than 2^64 of them.
pub record IsList (l : LinkedList) (xs : List ℕ) : Type 0 where
  pub queue : IsQueue l.links l.elts xs
  pub counted : l.length ≡ length xs
  pub made : All (λ x. x < l.next) (l.elts ∷ xs)

abbrev pub Bounded : List ℕ → Type 0
Bounded xs = length xs + 1 < 2 ^ 64

below-Apart : (n : ℕ) (xs : List ℕ) → All (λ x. x < n) xs → Apart n xs
below-Apart n [] h = tt
below-Apart n (x ∷ xs) (hx, h) = (ground arith, below-Apart n xs h)

below_snoc : (n : ℕ) (xs : List ℕ) → All (λ x. x < n) xs → All (λ x. x < n + 1) (xs ++ n ∷ [])
below_snoc n [] h = (omega arith, tt)
below_snoc n (x ∷ xs) (hx, h) = (omega arith, below_snoc n xs h)

below_drop :
    (n x : ℕ) (xs ys : List ℕ) → All (λ y. y < n) (xs ++ x ∷ ys) → All (λ y. y < n) (xs ++ ys)
below_drop n x [] ys (hx, h) = h
below_drop n x (z ∷ zs) ys (hz, h) = (hz, below_drop n x zs ys h)

pub link-IsList :
    (l : LinkedList) (xs : List ℕ) (obj size : ℕ)
    → Bounded xs
    → IsList l xs
    → IsList (link l obj size) (xs ++ l.next ∷ [])
unfolding link
link-IsList l xs obj size small ok =
    let count = length-append xs (l.next ∷ []) in
    let same = ok.counted in
    record {
      queue =
          insert_tail-IsQueue l.links l.elts xs l.next ok.queue
            (below-Apart l.next (l.elts ∷ xs) ok.made);
      counted = omega (arith, count, same, small);
      made = below_snoc l.next (l.elts ∷ xs) ok.made;
    }

-- From a list with fewer than 2^64 - 1 elements, whose links, count and numbers agree, the removal
-- of one of its elements leaves the others in their order, and the count is right again.
pub list_remove-IsList :
    (l : LinkedList) (xs : List ℕ) (x : ℕ) (ys : List ℕ)
    → Bounded (xs ++ x ∷ ys)
    → IsList l (xs ++ x ∷ ys)
    → IsList (list_remove l x) (xs ++ ys)
unfolding list_remove
list_remove-IsList l xs x ys small ok =
    let count = length-append xs (x ∷ ys) in
    let count' = length-append xs ys in
    let same = ok.counted in
    record {
      queue = remove-IsQueue l.links l.elts xs x ys ok.queue;
      counted = omega (arith, count, count', same, small);
      made = (ok.made.0, below_drop l.next x xs ys ok.made.1);
    }

pub list_init-IsList : (links : Links) (elts : ℕ) → IsList (list_init links elts) []
unfolding list_init
list_init-IsList links elts = record {
  queue = init-IsQueue links elts;
  counted = refl;
  made = (omega arith, tt);
}

-- What a push may do to a list with the elements `xs`.
abbrev pub IsPushed : LinkedList → List ℕ → ℕ → ℕ → Pushed → Type 0
IsPushed l xs obj size r =
    ((r.rc ≡ rc_ok)
      × IsList r.list (xs ++ l.next ∷ [])
      × (r.list.obj l.next ≡ obj)
      × (r.list.size l.next ≡ size)
      × ((e : ℕ) → e ≢ l.next → r.list.obj e ≡ l.obj e))
    ⊎ ((r.rc ≡ rc_error) × IsList r.list xs × (r.list.obj ≡ l.obj))

-- On a list with fewer than 2^64 - 1 elements, whose links, count and numbers agree, a push either
-- answers STU_OK and puts one new element with the object and its size at the end, and no other
-- element's object changes, or answers STU_ERROR and leaves elements and objects as they are.
pub list_push-IsList :
    (palloc : ℕ → Bool) (l : LinkedList) (xs : List ℕ) (obj size : ℕ)
    → Bounded xs
    → IsList l xs
    → IsPushed l xs obj size (list_push palloc l obj size)
unfolding list_push link
list_push-IsList palloc l xs obj size small ok = elim (Bool-cases (palloc l.calls)) [
  | inl got ↦ rw got (
      inl (
        refl,
        link-IsList l xs obj size small ok,
        set_same l.obj l.next obj,
        set_same l.size l.next size,
        λ e ne. set_other l.obj l.next obj e ne,
      ))
  | inr denied ↦
      rw denied
        (inr (refl, record { queue = ok.queue; counted = ok.counted; made = ok.made }, refl))
]

-- On a list with fewer than 2^64 - 1 elements, `x` among them, whose links, count and numbers
-- agree: a push either answers STU_OK and puts one new element with the object and its size at the
-- end, and no other element's object changes, or answers STU_ERROR and leaves elements and objects
-- as they are; the removal of `x` leaves the others in their order, and the count is right again.
pub push_remove-IsList :
    (palloc : ℕ → Bool) (l : LinkedList) (xs : List ℕ) (x : ℕ) (ys : List ℕ) (obj size : ℕ)
    → Bounded (xs ++ x ∷ ys)
    → IsList l (xs ++ x ∷ ys)
    → IsPushed l (xs ++ x ∷ ys) obj size (list_push palloc l obj size)
      × IsList (list_remove l x) (xs ++ ys)
push_remove-IsList palloc l xs x ys obj size small ok = (
  list_push-IsList palloc l (xs ++ x ∷ ys) obj size small ok,
  list_remove-IsList l xs x ys small ok,
)
