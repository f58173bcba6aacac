-- ===== src/Json/Duplicate.antt =====
-- `stu_json_duplicate`. Memory is always granted.
use chatease_server.Common.{
  ℕ, ◌≡◌, ◌↔◌, refl, ap, ◌∙◌, Bool, true, false, List, [], ◌∷◌, length, take,
}
use chatease_server.Json.Strings.{IsPlain, c_string-plain}
use chatease_server.Json.Value.{
  Text, Json, Items, null, boolean, string, number, array, object, nil, cons, c_string,
}

-- `stu_json_create_string` and `stu_json_set_key` copy a text in this way: up to a zero, and no
-- more than `len` bytes.
unfoldable pub copy_text : Text → Text
copy_text t = record { chars = c_string (take t.len t.chars); len = t.len }

-- `recurse` says whether children are copied too. The value of an item of another type than a
-- string, a number, an array or an object is that of a new item, which is 0.
unfoldable mutual
  pub duplicate : Bool → Json → Json
  duplicate recurse null = null
  duplicate recurse (boolean b) = boolean false
  duplicate recurse (string t) = string (copy_text t)
  duplicate recurse (number d) = number d
  duplicate true (array xs) = array (duplicate_items xs)
  duplicate false (array xs) = array nil
  duplicate true (object xs) = object (duplicate_items xs)
  duplicate false (object xs) = object nil

  pub duplicate_items : Items → Items
  duplicate_items nil = nil
  duplicate_items (cons k v xs) = cons (copy_text k) (duplicate true v) (duplicate_items xs)

-- No boolean of the tree is true.
abbrev mutual
  pub HasNoTrue : Json → Type 0
  HasNoTrue null = Unit
  HasNoTrue (boolean b) = b ≡ false
  HasNoTrue (string t) = Unit
  HasNoTrue (number d) = Unit
  HasNoTrue (array xs) = HaveNoTrue xs
  HasNoTrue (object xs) = HaveNoTrue xs

  pub HaveNoTrue : Items → Type 0
  HaveNoTrue nil = Unit
  HaveNoTrue (cons k v xs) = HasNoTrue v × HaveNoTrue xs

-- The texts of the tree have no quotes and zeros.
abbrev mutual
  pub HasPlain : Json → Type 0
  HasPlain null = Unit
  HasPlain (boolean b) = Unit
  HasPlain (string t) = IsPlain t
  HasPlain (number d) = Unit
  HasPlain (array xs) = HavePlain xs
  HasPlain (object xs) = HavePlain xs

  pub HavePlain : Items → Type 0
  HavePlain nil = Unit
  HavePlain (cons k v xs) = IsPlain k × HasPlain v × HavePlain xs

mutual
  unfolding duplicate

  duplicate-HasNoTrue : (v : Json) → HasNoTrue (duplicate true v)
  duplicate-HasNoTrue null = tt
  duplicate-HasNoTrue (boolean b) = refl
  duplicate-HasNoTrue (string t) = tt
  duplicate-HasNoTrue (number d) = tt
  duplicate-HasNoTrue (array xs) = duplicate_items-HaveNoTrue xs
  duplicate-HasNoTrue (object xs) = duplicate_items-HaveNoTrue xs

  duplicate_items-HaveNoTrue : (xs : Items) → HaveNoTrue (duplicate_items xs)
  duplicate_items-HaveNoTrue nil = tt
  duplicate_items-HaveNoTrue (cons k v xs) = (duplicate-HasNoTrue v, duplicate_items-HaveNoTrue xs)

take-length : (xs : List ℕ) → take (length xs) xs ≡ xs
take-length [] = refl
take-length (x ∷ xs) = ap (λ ys. x ∷ ys) (take-length xs)

copy_text-IsPlain : (t : Text) → IsPlain t → copy_text t ≡ t
unfolding copy_text
copy_text-IsPlain t p =
    ap (λ cs. record { chars = cs; len = t.len })
      (ap (λ n. c_string (take n t.chars)) p.whole
        ∙ ap c_string (take-length t.chars)
        ∙ c_string-plain t.chars p.plain)

mutual
  unfolding duplicate

  duplicate_same : (v : Json) → HasPlain v → HasNoTrue v → duplicate true v ≡ v
  duplicate_same null p h = refl
  duplicate_same (boolean b) p h = rw h refl
  duplicate_same (string t) p h = ap string (copy_text-IsPlain t p)
  duplicate_same (number d) p h = refl
  duplicate_same (array xs) p h = ap array (duplicate_items_same xs p h)
  duplicate_same (object xs) p h = ap object (duplicate_items_same xs p h)

  duplicate_items_same : (xs : Items) → HavePlain xs → HaveNoTrue xs → duplicate_items xs ≡ xs
  duplicate_items_same nil p h = refl
  duplicate_items_same (cons k v xs) (pk, pv, p) (hv, h) =
      rw (copy_text-IsPlain k pk, duplicate_same v pv hv, duplicate_items_same xs p h) refl

-- A copy with its children never has a boolean that is true; it is the same as the tree, whose
-- texts have no quote and no zero, just when that has none either.
pub duplicate_iff :
    (v : Json) → HasPlain v → HasNoTrue (duplicate true v) × ((duplicate true v ≡ v) ↔ HasNoTrue v)
duplicate_iff v p =
    (duplicate-HasNoTrue v, ((λ e. rw e at (duplicate-HasNoTrue v)), duplicate_same v p))
