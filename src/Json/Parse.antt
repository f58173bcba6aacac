-- ===== src/Json/Parse.antt =====
-- The parser of stu_json.c, on flat memory. `data` is where a function begins, `len` how many
-- bytes it may read, and `pos` how many it has read. Memory is always granted.
use chatease_server.Common.Memory.{Mem, slice, matches}
use chatease_server.Common.{
  ℕ, zero, suc, ◌+◌, ◌-◌, ◌%◌, ◌^◌, Bool, true, false, ◌||◌, Option, none, some, ltb, within, ◌==◌,
  if◌then◌else◌,
}
use chatease_server.Json.Print.{Doubles, null_word, true_word, false_word}
use chatease_server.Json.Value.{
  Text, Json, Items, null, boolean, string, number, array, object, nil, no_key, c_string, add_item,
}

-- What `stu_json_parse` gives: a tree, NULL, or one of the two outcomes below.
pub data Root : Type 0 where
  tree : Json → Root
  null_pointer unset out_of_fuel : Root

-- What a function returns: `done` its count and what it made, `failed` what it wrote to `*err`.
-- `unset` is a tree with a string whose length or place was never written; the source returns it
-- as if it were done.
pub data Parsed {ℓ} (A : Type ℓ) : Type ℓ where
  done : ℕ → A → Parsed A
  failed : ℕ → Parsed A
  unset out_of_fuel : Parsed A

abbrev pub is_blank : ℕ → Bool
is_blank c = c == b' ' || c == b'\r' || c == b'\n' || c == b'\t'

-- `pos += n` for what a call gave.
abbrev pub after {ℓ} : {A : Type ℓ} → ℕ → Parsed A → Parsed A
after pos (done n a) = done (pos + n) a
after pos (failed e) = failed e
after pos unset = unset
after pos out_of_fuel = out_of_fuel

abbrev pub wrap : (Items → Json) → Parsed Items → Parsed Json
wrap f (done n a) = done n (f a)
wrap f (failed e) = failed e
wrap f unset = unset
wrap f out_of_fuel = out_of_fuel

pub data StringState : Type 0 where
  sw_start sw_str_start : StringState
  sw_str : ℕ → StringState
  sw_str_end : Text → StringState

pub data ArrayState : Type 0 where
  sw_start sw_arr_start sw_arr_end : ArrayState

pub data ObjectState : Type 0 where
  sw_start sw_obj_start sw_key_start : ObjectState
  sw_key : ℕ → ObjectState
  sw_key_end sw_val : Text → ObjectState
  sw_obj_end : ObjectState

-- Where the loop behind a value stops: at a comma, at the bracket, at the end, or at a byte that
-- may not stand there.
pub data Separator : Type 0 where
  comma closed ended : ℕ → Separator
  bad : ℕ → Separator

module _ (m : Mem) where
  -- The first byte that is no blank.
  unfoldable pub skip_blanks : ℕ → ℕ → Option ℕ
  skip_blanks zero p = none
  skip_blanks (suc f) p =
      let rest = skip_blanks f (p + 1) in if is_blank (m p) then rest else some p

  abbrev pub text_at : ℕ → ℕ → Text
  text_at s p = record { chars = c_string (slice m s (p - s)); len = p - s }

  -- `left` is `len - pos`.
  unfoldable pub string_loop : ℕ → ℕ → ℕ → StringState → Parsed Json
  string_loop data' zero pos (sw_str_end t) = done pos (string t)
  string_loop data' zero pos _ = unset
  string_loop data' (suc left) pos StringState.sw_start =
      let c = m (data' + pos) in
      let opened = string_loop data' left (pos + 1) sw_str_start in
      let rest = string_loop data' left (pos + 1) StringState.sw_start in
      if c == b'"' then opened else if is_blank c then rest else failed (data' + pos)
  string_loop data' (suc left) pos sw_str_start =
      let p = data' + pos in
      string_loop data' left (pos + 1) (if m p == b'"' then sw_str_end no_key else sw_str p)
  string_loop data' (suc left) pos (sw_str s) =
      let p = data' + pos in
      string_loop data' left (pos + 1) (if m p == b'"' then sw_str_end (text_at s p) else sw_str s)
  string_loop data' (suc left) pos (sw_str_end t) = done pos (string t)

  unfoldable pub parse_string : ℕ → ℕ → Parsed Json
  parse_string data' len = string_loop data' len 0 StringState.sw_start

  unfoldable pub separator : ℕ → ℕ → ℕ → ℕ → Separator
  separator close data' zero pos = ended pos
  separator close data' (suc left) pos =
      let c = m (data' + pos) in
      let rest = separator close data' left (pos + 1) in
      if is_blank c
      then rest
      else if c == b','
      then comma pos
      else if c == close
      then closed pos
      else bad pos

  unfoldable pub parse_specific : ℕ → ℕ → Parsed Json
  parse_specific f data' = elim (skip_blanks f data') [
    | none ↦ out_of_fuel
    | some p ↦
        if matches m p null_word
        then done (p - data' + 4) null
        else if matches m p true_word
        then done (p - data' + 4) (boolean true)
        else if matches m p false_word
        then done (p - data' + 5) (boolean false)
        else failed p
  ]

module _ (doubles : Doubles) (m : Mem) where
  -- The number is read at `data`, and the blanks in front of it are counted once more.
  unfoldable pub parse_number : ℕ → ℕ → Parsed Json
  parse_number f data' = elim (skip_blanks m f data') [
    | none ↦ out_of_fuel
    | some p ↦
        let (num, n) = doubles.strtod m data' in
        if n == 0 then failed p else done (p - data' + n) (number num)
  ]

  unfoldable mutual
    pub parse_value : ℕ → ℕ → ℕ → Parsed Json
    parse_value zero data' len = out_of_fuel
    parse_value (suc f) data' len = elim (skip_blanks m f data') [
      | none ↦ out_of_fuel
      | some p ↦
          let pos = p - data' in
          let left = (len + 2 ^ 64 - pos) % 2 ^ 64 in
          let c = m p in
          let in_object = wrap object (object_loop f p left ObjectState.sw_start 0 nil) in
          let in_array = wrap array (array_loop f p left ArrayState.sw_start 0 nil) in
          after pos (
            if c == b'"'
            then parse_string m p left
            else if c == b'{'
            then in_object
            else if c == b'['
            then in_array
            else if c == b'-' || within b'0' b'9' c
            then parse_number f p
            else parse_specific m f p)
    ]

    pub array_loop : ℕ → ℕ → ℕ → ArrayState → ℕ → Items → Parsed Items
    array_loop zero data' len st pos xs = out_of_fuel
    array_loop (suc f) data' len st pos xs = elim (ltb pos len) [
      | false ↦ done pos xs
      | true ↦ elim st [
        | sw_start ↦
            let c = m (data' + pos) in
            let opened = array_loop f data' len sw_arr_start (pos + 1) xs in
            let rest = array_loop f data' len ArrayState.sw_start (pos + 1) xs in
            if c == b'[' then opened else if is_blank c then rest else failed (data' + pos)
        | sw_arr_start ↦ elim (parse_value f (data' + pos) (len - pos)) [
          | done n v ↦ elim (separator m b']' data' (len - (pos + n)) (pos + n)) [
            | comma q ↦ array_loop f data' len sw_arr_start (q + 1) (add_item xs no_key v)
            | closed q ↦ array_loop f data' len sw_arr_end (q + 1) (add_item xs no_key v)
            | ended q ↦ array_loop f data' len sw_arr_start (q + 1) (add_item xs no_key v)
            | bad q ↦ failed (data' + q)
          ]
          | failed e ↦ failed e
          | unset ↦ unset
          | out_of_fuel ↦ out_of_fuel
        ]
        | sw_arr_end ↦ done pos xs
      ]
    ]

    pub object_loop : ℕ → ℕ → ℕ → ObjectState → ℕ → Items → Parsed Items
    object_loop zero data' len st pos xs = out_of_fuel
    object_loop (suc f) data' len st pos xs = elim (ltb pos len) [
      | false ↦ done pos xs
      | true ↦
          let c = m (data' + pos) in
          elim st [
            | sw_start ↦
                let opened = object_loop f data' len sw_obj_start (pos + 1) xs in
                let rest = object_loop f data' len ObjectState.sw_start (pos + 1) xs in
                if c == b'{' then opened else if is_blank c then rest else failed (data' + pos)
            | sw_obj_start ↦
                let key = object_loop f data' len sw_key_start (pos + 1) xs in
                let rest = object_loop f data' len sw_obj_start (pos + 1) xs in
                if c == b'"' then key else if is_blank c then rest else failed (data' + pos)
            | sw_key_start ↦
                object_loop f data' len
                  (if c == b'"' then sw_key_end no_key else sw_key (data' + pos)) (pos + 1) xs
            | sw_key s ↦
                object_loop f data' len
                  (if c == b'"' then sw_key_end (text_at m s (data' + pos)) else sw_key s) (pos + 1)
                  xs
            | sw_key_end k ↦
                let value = object_loop f data' len (sw_val k) (pos + 1) xs in
                let rest = object_loop f data' len (sw_key_end k) (pos + 1) xs in
                if c == b':' then value else if is_blank c then rest else failed (data' + pos)
            | sw_val k ↦ elim (parse_value f (data' + pos) (len - pos)) [
              | done n v ↦ elim (separator m b'}' data' (len - (pos + n)) (pos + n)) [
                | comma q ↦ object_loop f data' len sw_obj_start (q + 1) (add_item xs k v)
                | closed q ↦ object_loop f data' len sw_obj_end (q + 1) (add_item xs k v)
                | ended q ↦ object_loop f data' len (sw_val k) (q + 1) (add_item xs k v)
                | bad q ↦ failed (data' + q)
              ]
              | failed e ↦ failed e
              | unset ↦ unset
              | out_of_fuel ↦ out_of_fuel
            ]
            | sw_obj_end ↦ done pos xs
          ]
    ]

  unfoldable pub parse : ℕ → ℕ → ℕ → Root
  parse f data' len = elim (parse_value f data' len) [
    | done n v ↦ tree v
    | failed e ↦ null_pointer
    | unset ↦ Root.unset
    | out_of_fuel ↦ Root.out_of_fuel
  ]
