-- ===== src/Channel/Cycle.antt =====
-- The table of channels of stu_cycle, the channels, and the connections of their users.
use chatease_server.Common.{
  ℕ, ◌+◌, ◌-◌, ◌%◌, ◌^◌, Bool, true, false, ◌&&◌, not, ◌==◌, List, [], ◌∷◌, Option, none, some,
  if◌then◌else◌,
}
use chatease_server.Common.Scan.{Rc, rc_ok, rc_error}
use chatease_server.Hash.Key.{hash_key_lc}
use chatease_server.Hash.Table.{
  Elt, Hash, set_at, is_key, find_locked, init, insert_locked, remove_locked, drop_id, or_null,
}

-- `stu_channel_t`; the bytes of `id` are as many as `id.len`.
pub record Channel : Type 0 where
  pub id : List ℕ
  pub message_n : ℕ
  pub state : ℕ
  pub userlist : Hash

-- Of `stu_connection_t` the descriptor, `user.id` and `user.channel`.
pub record Connection : Type 0 where
  pub fd : ℕ
  pub user_id : List ℕ
  pub channel : Option ℕ

-- Channels and connections are known by number. `live` are the channels that were made and not
-- freed, and `next` is the number of the next one.
pub record Cycle : Type 0 where
  pub channels : Hash
  pub channel : ℕ → Channel
  pub live : ℕ → Bool
  pub next : ℕ
  pub connection : ℕ → Connection

-- What a function returns, with what it leaves.
pub record Outcome : Type 0 where
  pub rc : Rc
  pub cycle : Cycle

abbrev pub user_maximum : ℕ
user_maximum = 512

abbrev pub with_userlist : Cycle → ℕ → Hash → Cycle
with_userlist s ch users = record s {
  channel = set_at s.channel ch (record (s.channel ch) { userlist = users });
}

-- `c->user.channel = ch`
abbrev pub joined : Cycle → ℕ → ℕ → Cycle
joined s ch c = record s {
  connection = set_at s.connection c (record (s.connection c) { channel = some ch });
}

abbrev pub new_channel : List ℕ → Channel
new_channel id = record { id = id; message_n = 0; state = 0; userlist = init user_maximum 3 }

-- The memory that is asked for: `palloc n` for the n-th call of the table of channels, and
-- `calloc ch n` for the n-th call for channel `ch`, its first three and those of its table of users.
module _ (palloc : ℕ → Bool) (calloc : ℕ → ℕ → Bool) where
  -- `stu_channel_insert_locked`
  unfoldable pub join_locked : Cycle → ℕ → ℕ → Outcome
  join_locked s ch c =
      let r =
        insert_locked (calloc ch) true false (s.channel ch).userlist (s.connection c).user_id c in
      elim r.rc [
        | rc_error ↦ record { rc = rc_error; cycle = with_userlist s ch r.hash }
        | _ ↦ record { rc = rc_ok; cycle = joined (with_userlist s ch r.hash) ch c }
      ]

  -- The channel that `stu_channel_insert` makes when none is found; NULL where it fails.
  unfoldable pub create : Cycle → List ℕ → Option ℕ × Cycle
  create s id =
      let ch = s.next in
      let failed : Option ℕ × Cycle = (none, record s { next = ch + 1 }) in
      if not (calloc ch 0)
      then failed
      else if not (calloc ch 1)
      then failed
      else if not (calloc ch 2)
      then failed
      else let r = insert_locked palloc true true s.channels id ch in
        elim r.rc [
          | rc_error ↦ (none, record s { channels = r.hash; next = ch + 1 })
          | _ ↦ (
            some ch,
            record s {
              channels = r.hash;
              channel = set_at s.channel ch (new_channel id);
              live = set_at s.live ch true;
              next = ch + 1;
            },
          )
        ]

  abbrev pub join_created : Option ℕ × Cycle → ℕ → Outcome
  join_created (some ch, s) c = join_locked s ch c
  join_created (none, s) c = record { rc = rc_error; cycle = s }

  -- `stu_channel_insert`
  unfoldable pub insert : Cycle → List ℕ → ℕ → Outcome
  insert s id c = elim (find_locked s.channels (hash_key_lc id) id) [
    | some ch ↦ join_locked s ch c
    | none ↦ join_created (create s id) c
  ]

-- The first element with that key whose connection has that descriptor.
unfoldable pub find_user : (ℕ → Elt) → (ℕ → ℕ) → ℕ → List ℕ → ℕ → List ℕ → Option ℕ
find_user elts fd_of kh name fd [] = none
find_user elts fd_of kh name fd (e ∷ q) =
    let rest = find_user elts fd_of kh name fd q in
    if is_key kh name (elts e) && fd_of (elts e).value == fd then some e else rest

-- The table without element `e` of the bucket `q`, which is number `i`.
abbrev pub take_user : Hash → ℕ → List ℕ → Option ℕ → Hash
take_user h i q none = record h { buckets = set_at h.buckets i (or_null q) }
take_user h i q (some e) = record h {
  buckets = set_at h.buckets i (or_null (drop_id e q));
  keys = drop_id e h.keys;
  length = (h.length + 2 ^ 64 - 1) % 2 ^ 64;
}

-- `stu_channel_remove_user_locked`, on the table of users.
unfoldable pub remove_user : Hash → (ℕ → ℕ) → List ℕ → ℕ → Hash
remove_user h fd_of name fd =
    let kh = hash_key_lc name in
    elim (h.buckets (kh % h.size)) [
      | none ↦ h
      | some q ↦ take_user h (kh % h.size) q (find_user h.elts fd_of kh name fd q)
    ]

abbrev pub fd_in : Cycle → ℕ → ℕ
fd_in s c = (s.connection c).fd

-- A channel without users is taken out of the table and freed.
unfoldable pub remove_empty : Cycle → ℕ → Cycle
remove_empty s ch =
    let id = (s.channel ch).id in
    if (s.channel ch).userlist.length == 0
    then record s {
      channels = remove_locked s.channels (hash_key_lc id) id;
      live = set_at s.live ch false;
    }
    else s

-- `stu_channel_remove_locked`
unfoldable pub remove : Cycle → ℕ → ℕ → Cycle
remove s ch c =
    let users =
      remove_user (s.channel ch).userlist (fd_in s) (s.connection c).user_id (fd_in s c) in
    remove_empty (with_userlist s ch users) ch
