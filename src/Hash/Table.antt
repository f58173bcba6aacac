-- ===== src/Hash/Table.antt =====
-- The table of stu_hash.c: buckets and the list of all keys link the same elements.
use chatease_server.Common.{
  ℕ, ◌+◌, ◌-◌, ◌%◌, ◌^◌, Bool, true, false, ◌&&◌, not, ◌==◌, List, [], ◌∷◌, ◌++◌, map, Option, none,
  some, if◌then◌else◌, length,
}
use chatease_server.Common.Scan.{Rc, rc_ok, rc_error}
use chatease_server.Hash.Key.{hash_key, hash_key_lc}
use chatease_server.Strings.Copy.{strncpy, same_bytes}

-- `stu_hash_elt_t`; `chars` is what `key.data` points to, and `value` the pointer stored.
pub record Elt : Type 0 where
  pub chars : List ℕ
  pub len : ℕ
  pub key_hash : ℕ
  pub value : ℕ

-- `stu_hash_t`. Elements are known by number: `elts` is the memory they stand in and `next` the
-- number of the next one. A bucket is NULL or a queue of elements, and `keys` is the list of all
-- of them. `calls` counts the calls of `palloc`.
pub record Hash : Type 0 where
  pub elts : ℕ → Elt
  pub next : ℕ
  pub buckets : ℕ → Option (List ℕ)
  pub keys : List ℕ
  pub size : ℕ
  pub length : ℕ
  pub calls : ℕ

-- What an operation returns with the table it leaves.
pub record Result : Type 0 where
  pub rc : Rc
  pub hash : Hash

abbrev pub set_at {ℓ} : {A : Type ℓ} → (ℕ → A) → ℕ → A → ℕ → A
set_at f i a j = if j == i then a else f j

-- The test in front of every use of an element.
unfoldable pub is_key : ℕ → List ℕ → Elt → Bool
is_key kh name e = e.key_hash == kh && e.len == length name && same_bytes (length name) e.chars name

-- The first element of a bucket with that key.
unfoldable pub find_elt : (ℕ → Elt) → ℕ → List ℕ → List ℕ → Option ℕ
find_elt elts kh name [] = none
find_elt elts kh name (e ∷ q) = if is_key kh name (elts e) then some e else find_elt elts kh name q

abbrev pub queue : Option (List ℕ) → List ℕ
queue none = []
queue (some q) = q

abbrev pub bucket : Hash → ℕ → List ℕ
bucket h kh = queue (h.buckets (kh % h.size))

abbrev pub value_of : (ℕ → Elt) → Option ℕ → Option ℕ
value_of elts none = none
value_of elts (some e) = some (elts e).value

-- `stu_hash_find_locked`.
unfoldable pub find_locked : Hash → ℕ → List ℕ → Option ℕ
find_locked h kh name = value_of h.elts (find_elt h.elts kh name (bucket h kh))

abbrev pub new_elt : ℕ → List ℕ → ℕ → Elt
new_elt kh key value = record {
  chars = strncpy key;
  len = length key;
  key_hash = kh;
  value = value;
}

abbrev pub key_of : Bool → List ℕ → ℕ
key_of lowcase key = if lowcase then hash_key_lc key else hash_key key

-- The new element at the end of its bucket and of the keys.
unfoldable pub link : Hash → ℕ → List ℕ → ℕ → Hash
link h kh key value = record h {
  elts = set_at h.elts h.next (new_elt kh key value);
  next = h.next + 1;
  buckets = set_at h.buckets (kh % h.size) (some (bucket h kh ++ h.next ∷ []));
  keys = h.keys ++ h.next ∷ [];
  length = h.length + 1;
  calls = h.calls + 2;
}

-- The table that `stu_hash_init` leaves on STU_OK, whether the buckets were given or come from
-- `palloc`: all callers pass `stu_calloc`, which clears them, or buckets that are clear.
unfoldable pub init : ℕ → ℕ → Hash
init size calls = record {
  elts = λ e. record { chars = []; len = 0; key_hash = 0; value = 0 };
  next = 0;
  buckets = λ i. none;
  keys = [];
  size = size;
  length = 0;
  calls = calls;
}

-- `palloc n` tells whether the n-th call of `hash->palloc` gives memory.
module _ (palloc : ℕ → Bool) where
  -- The head of the bucket is there, and no element was replaced.
  unfoldable pub append : Hash → ℕ → List ℕ → ℕ → Result
  append h kh key value =
      if not (palloc h.calls)
      then record { rc = rc_error; hash = record h { calls = h.calls + 1 } }
      else if not (palloc (h.calls + 1))
      then record { rc = rc_error; hash = record h { calls = h.calls + 2 } }
      else record { rc = rc_ok; hash = link h kh key value }

  -- `flags & STU_HASH_REPLACE`, in a bucket that is not NULL.
  unfoldable pub place : Bool → Hash → ℕ → List ℕ → ℕ → Result
  unfolding append
  place false h kh key value = append h kh key value
  place true h kh key value = elim (find_elt h.elts kh key (bucket h kh)) [
    | some e ↦ record {
      rc = rc_ok;
      hash = record h { elts = set_at h.elts e (record (h.elts e) { value = value }) };
    }
    | none ↦ append h kh key value
  ]

  unfoldable pub insert_hashed : Bool → Hash → ℕ → List ℕ → ℕ → Result
  unfolding place
  insert_hashed replace h kh key value = elim (h.buckets (kh % h.size)) [
    | some q ↦ place replace h kh key value
    | none ↦
        if palloc h.calls
        then place replace
            (record h { buckets = set_at h.buckets (kh % h.size) (some []); calls = h.calls + 1 })
            kh key value
        else record { rc = rc_error; hash = record h { calls = h.calls + 1 } }
  ]

  -- `stu_hash_insert_locked`; `lowcase` and `replace` are the bits of `flags`.
  unfoldable pub insert_locked : Bool → Bool → Hash → List ℕ → ℕ → Result
  unfolding insert_hashed
  insert_locked lowcase replace h key value = insert_hashed replace h (key_of lowcase key) key value

-- The queue without the elements of that key, as the loop of `stu_hash_remove_locked` leaves it.
unfoldable pub without : (ℕ → Elt) → ℕ → List ℕ → List ℕ → List ℕ
without elts kh name [] = []
without elts kh name (e ∷ q) =
    let rest = without elts kh name q in if is_key kh name (elts e) then rest else e ∷ rest

unfoldable pub drop_id : ℕ → List ℕ → List ℕ
drop_id e [] = []
drop_id e (k ∷ ks) = let rest = drop_id e ks in if k == e then rest else k ∷ rest

-- `stu_queue_remove(&e->q)` for each element of a bucket that has the key.
unfoldable pub unlist : (ℕ → Elt) → ℕ → List ℕ → List ℕ → List ℕ → List ℕ
unlist elts kh name [] keys = keys
unlist elts kh name (e ∷ q) keys =
    unlist elts kh name q (if is_key kh name (elts e) then drop_id e keys else keys)

-- `hash->length--` for each of them, in 64 bits.
unfoldable pub uncount : (ℕ → Elt) → ℕ → List ℕ → List ℕ → ℕ → ℕ
uncount elts kh name [] n = n
uncount elts kh name (e ∷ q) n =
    uncount elts kh name q (if is_key kh name (elts e) then (n + 2 ^ 64 - 1) % 2 ^ 64 else n)

abbrev pub or_null : List ℕ → Option (List ℕ)
or_null [] = none
or_null (e ∷ q) = some (e ∷ q)

-- The table without the elements of that key, whose bucket is `q`.
unfoldable pub unlink : Hash → ℕ → List ℕ → List ℕ → Hash
unlink h kh name q = record h {
  buckets = set_at h.buckets (kh % h.size) (or_null (without h.elts kh name q));
  keys = unlist h.elts kh name q h.keys;
  length = uncount h.elts kh name q h.length;
}

-- `stu_hash_remove_locked`. Memory that `hash->free` got back is not written before the loop
-- that still reads it is over.
unfoldable pub remove_locked : Hash → ℕ → List ℕ → Hash
remove_locked h kh name = elim (h.buckets (kh % h.size)) [ none ↦ h | some q ↦ unlink h kh name q ]

-- The calls of `cb` that `stu_hash_foreach_locked` makes: keys and values in order of insertion.
unfoldable pub foreach_locked : Hash → List (List ℕ × ℕ)
foreach_locked h = map (λ e. ((h.elts e).chars, (h.elts e).value)) h.keys
