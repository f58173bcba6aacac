-- ===== src/Hash/Tests.antt =====
-- A table of two buckets that holds "a", and what is done to it.
use chatease_server.Common.Scan.{rc_ok}
use chatease_server.Common.{ℕ, ◌≡◌, ◌≢◌, refl, inr, arith, Bool, true, false, List, [], ◌∷◌, none}
use chatease_server.Hash.Insert.{find_locked-insert_locked, find_locked-insert_other}
use chatease_server.Hash.Key.{hash, hash_key, hash_key_from}
use chatease_server.Hash.Lookup.{kept}
use chatease_server.Hash.Reached.{Reached, initial, inserted, Reached-IsLinked}
use chatease_server.Hash.Remove.{find_locked-removed}
use chatease_server.Hash.Table.{
  Hash, key_of, init, append, place, insert_hashed, insert_locked, find_elt, is_key, find_locked,
  remove_locked, link,
}
use chatease_server.Strings.Copy.{strncpy, copy_loop, same_bytes}

abbrev always : ℕ → Bool
always n = true

abbrev name_a : List ℕ
name_a = b'a' ∷ []

abbrev name_b : List ℕ
name_b = b'b' ∷ []

abbrev one : Hash
one = (insert_locked always false true (init 2 1) name_a 7).hash

one-Reached : Reached always one
one-Reached = inserted false true (init 2 1) name_a 7 (initial 2 1)

again_ok : (insert_locked always false true one name_a 9).rc ≡ rc_ok
unfolding insert_locked insert_hashed place append init hash_key hash_key_from hash find_elt is_key
    link strncpy copy_loop same_bytes
again_ok = refl

find_locked-insert_locked_example :
    find_locked (insert_locked always false true one name_a 9).hash (key_of false name_a) name_a
    ≡ kept true (find_locked one (key_of false name_a) name_a) 9
find_locked-insert_locked_example =
    find_locked-insert_locked always false true one name_a 9
      (Reached-IsLinked always one one-Reached) again_ok

a_is_not_b : name_a ≢ name_b
a_is_not_b e = ground (arith, e)

find_locked-insert_other_example :
    find_locked (insert_locked always false false one name_b 9).hash (key_of false name_a) name_a
    ≡ find_locked one (key_of false name_a) name_a
find_locked-insert_other_example =
    find_locked-insert_other always false false one name_b 9 (key_of false name_a) name_a
      (Reached-IsLinked always one one-Reached) (omega arith, tt) (inr a_is_not_b)

find_locked-removed_example :
    (find_locked (remove_locked one (key_of false name_b) name_b) (key_of false name_b) name_b
      ≡ none)
    × (find_locked (remove_locked one (key_of false name_b) name_b) (key_of false name_a) name_a
        ≡ find_locked one (key_of false name_a) name_a)
find_locked-removed_example =
    find_locked-removed one (key_of false name_b) (key_of false name_a) name_b name_a
      (omega arith, tt) (inr a_is_not_b)
