-- ===== src/Session/Answer.antt =====
-- `stu_websocket_analyze_request` and `stu_websocket_finalize_request`: what the text of a user is
-- answered with. Memory is always granted.
use chatease_server.Common.{
  ℕ, ◌+◌, ◌*◌, ◌/◌, ◌%◌, ◌^◌, Bool, true, false, Option, none, some, ltb, ◌==◌, if◌then◌else◌,
}
use chatease_server.Json.Duplicate.{copy_text, duplicate}
use chatease_server.Json.Parse.{Root, tree, null_pointer, unset, out_of_fuel}
use chatease_server.Json.Value.{
  Text, Json, Items, null, boolean, string, number, array, object, nil, add_item,
}
use chatease_server.Session.Item.{Item, find_item, as_string, as_object, word}
use chatease_server.Session.Key.{text_word, extern_word}
use chatease_server.Session.Key
use chatease_server.Session.Status
use chatease_server.Strings.Copy.{same_bytes}

-- The user of the connection, and the state of the user's channel.
pub record Speaker : Type 0 where
  pub id : Text
  pub name : Text
  pub icon : Text
  pub role : ℕ
  pub interval : ℕ
  pub active : ℕ
  pub state : ℕ

-- `STU_USER_ROLE_ASSISTANT`
abbrev pub role_assistant : ℕ
role_assistant = 0x10

-- What the functions leave: `r->status`, the tree that is printed to the outgoing frame, and
-- `c->user.active`.
pub record Answer : Type 0 where
  pub status : ℕ
  pub body : Json
  pub active : ℕ

-- What the C compiler and the allocator make of doubles and of memory that they own.
pub record Reading : Type 0 where
  -- `(stu_double_t) i`
  pub of_int : ℕ → ℕ
  -- the double -1
  pub minus_one : ℕ
  -- `d >= 0`
  pub at_least_zero : ℕ → Bool
  -- the first eight bytes of what the value of a string, an array or an object points to
  pub inside : Json → ℕ
  -- `*(stu_double_t *) item->value` of an item that `stu_json_delete` has freed, if the read gives
  -- anything
  pub freed : Json → Option ℕ

-- `tm.tv_sec * 1000 + tm.tv_usec / 1000` in a `stu_uint_t`.
abbrev pub millis : ℕ → ℕ → ℕ
millis sec usec = (sec * 1000 + usec / 1000) % 2 ^ 64

-- Whether the user may send such a command. For an empty one the source compares at NULL, which
-- here is no known command.
unfoldable pub permission : Speaker → Text → ℕ
permission u cmd =
    if same_bytes 4 cmd.chars text_word
    then (if ltb u.role u.state then Status.expectation_failed else Status.ok)
    else if same_bytes 6 cmd.chars extern_word
    then (if ltb u.role role_assistant then Status.expectation_failed else Status.ok)
    else Status.method_not_allowed

module _ (reading : Reading) where
  open reading use {of_int, minus_one, at_least_zero, inside, freed}

  -- `*(stu_double_t *) item->value`: the value of a null is 0 and that of a boolean 0 or 1, which
  -- are no addresses of doubles.
  unfoldable pub read_double : Json → Option ℕ
  read_double null = none
  read_double (boolean b) = none
  read_double (number d) = some d
  read_double (string t) = some (inside (string t))
  read_double (array xs) = some (inside (array xs))
  read_double (object xs) = some (inside (object xs))

  -- `rqreq ? *(stu_double_t *) rqreq->value : -1`, with the read that is given.
  unfoldable pub req_by : (Json → Option ℕ) → Option Item → Option ℕ
  req_by read none = some minus_one
  req_by read (some item) = read item.value

  abbrev pub error_fields : ℕ → Items
  error_fields rc = add_item nil (word Key.code) (number (of_int rc))

  -- The object that `stu_websocket_finalize_request` prints when the status is not STU_HTTP_OK.
  unfoldable pub error_body : ℕ → ℕ → Json
  error_body rc req =
      let raw = add_item nil (word Key.raw) (string (word Key.error)) in
      let with_req = if at_least_zero req then add_item raw (word Key.req) (number req) else raw in
      object (add_item with_req (word Key.error) (object (error_fields rc)))

  abbrev pub user_fields : Speaker → Items
  user_fields u =
      let id = add_item nil (word Key.id) (string (copy_text u.id)) in
      let name = add_item id (word Key.name) (string (copy_text u.name)) in
      let icon = add_item name (word Key.icon) (string (copy_text u.icon)) in
      add_item icon (word Key.role) (number (of_int u.role))

  abbrev pub add_req : Items → Option Item → Items
  add_req xs none = xs
  add_req xs (some item) = add_item xs (copy_text item.key) (duplicate false item.value)

  -- The fields of the object that is sent to the users of the channel.
  unfoldable pub message_fields :
      Speaker → Text → Option Item → Text × Text → Text × Text → Text × Items → Items
  message_fields u cmd req data' type channel =
      let raw = add_item nil (word Key.raw) (string (copy_text cmd)) in
      let with_req = add_req raw req in
      let with_data = add_item with_req (copy_text data'.0) (string (copy_text data'.1)) in
      let with_type = add_item with_data (copy_text type.0) (string (copy_text type.1)) in
      let with_channel =
        add_item with_type (copy_text channel.0) (duplicate true (object channel.1)) in
      add_item with_channel (word Key.user) (object (user_fields u))

  -- A call of `stu_websocket_finalize_request` with another status than STU_HTTP_OK, when the
  -- number of the request was read.
  unfoldable pub refuse : ℕ → ℕ → Option ℕ → Option Answer
  refuse rc active none = none
  refuse rc active (some req) =
      some (record { status = rc; body = error_body rc req; active = active })

  -- The call with STU_HTTP_OK, which does not use the number that it was given.
  unfoldable pub accept : Json → ℕ → Option ℕ → Option Answer
  accept body active none = none
  accept body active (some req) = some (record { status = Status.ok; body = body; active = active })

  -- The three items that a command needs.
  unfoldable pub compose :
      Speaker
      → Text
      → Option Item
      → Option (Text × Text)
      → Option (Text × Text)
      → Option (Text × Items)
      → Option Json
  compose u cmd req (some data') (some type) (some channel) =
      some (object (message_fields u cmd req data' type channel))
  compose u cmd req _ _ _ = none

  unfoldable pub answer_body : ℕ → Option ℕ → Option Json → Option Answer
  answer_body active req none = refuse Status.bad_request active req
  answer_body active req (some body) = accept body active req

  -- From the test of "cmd" on; `req` is the number read after the request was deleted.
  unfoldable pub answer_command :
      Speaker → ℕ → Items → Option ℕ → Option (Text × Text) → Option Answer
  answer_command u sec xs req none = refuse Status.bad_request sec req
  answer_command u sec xs req (some (key, cmd)) =
      let allowed = permission u cmd in
      if allowed == Status.ok
      then answer_body sec req (
          compose u cmd (find_item Key.req xs) (as_string (find_item Key.data' xs))
            (as_string (find_item Key.type xs)) (as_object (find_item Key.channel xs)))
      else refuse allowed sec req

  -- From the test of the frequency on.
  unfoldable pub answer_object : Speaker → ℕ → Items → Option Answer
  answer_object u sec xs =
      let req = find_item Key.req xs in
      if ltb sec ((u.active + u.interval) % 2 ^ 64)
      then refuse Status.conflict u.active (req_by read_double req)
      else answer_command u sec xs (req_by freed req) (as_string (find_item Key.cmd xs))

  -- `stu_websocket_analyze_request` on what `stu_json_parse` gave, at the time `sec`. The result
  -- `none` says that the code reads memory that is not there or was never written.
  unfoldable pub analyze_request : Speaker → ℕ → Root → Option Answer
  analyze_request u sec null_pointer = refuse Status.bad_request u.active (some minus_one)
  analyze_request u sec (tree (object xs)) = answer_object u sec xs
  analyze_request u sec (tree v) = refuse Status.bad_request u.active (some minus_one)
  analyze_request u sec unset = none
  analyze_request u sec out_of_fuel = none
