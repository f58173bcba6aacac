-- ===== src/Channel/Safety.antt =====
-- A channel that is found has not been freed.
use chatease_server.Channel.Cases.{user_inserted, channel_inserted, created, join-cases}
use chatease_server.Channel.Cycle.{
  Channel, Connection, Cycle, with_userlist, new_channel, user_maximum, join_locked,
}
use chatease_server.Common.{
  ℕ, ◌+◌, ◌<◌, ◌≡◌, ◌≢◌, inl, inr, refl, sym, ◌∙◌, arith, Bool, true, false, ◌==◌, List, none, some,
  Bool-cases, same_or_not,
}
use chatease_server.Common.Scan.{rc_ok}
use chatease_server.Hash.Insert.{find_locked-insert_locked, find_locked-insert_other}
use chatease_server.Hash.Key.{hash_key_lc}
use chatease_server.Hash.Lookup.{IsLinked}
use chatease_server.Hash.Reached.{insert-IsLinked}
use chatease_server.Hash.Table.{Hash, find_locked, init}
use chatease_server.Strings.Copy.{IsText}

-- A channel is found under its own id only, and it is live.
pub record IsSound (s : Cycle) : Type 0 where
  pub linked : IsLinked s.channels
  pub named :
      (kh : ℕ) (name : List ℕ) (ch : ℕ)
      → IsText name
      → find_locked s.channels kh name ≡ some ch
      → ((s.channel ch).id ≡ name) × (kh ≡ hash_key_lc name) × (s.live ch ≡ true)
  pub text : (ch : ℕ) → s.live ch ≡ true → IsText (s.channel ch).id
  pub made : (ch : ℕ) → s.live ch ≡ true → ch < s.next
  pub users : (ch : ℕ) → s.live ch ≡ true → IsLinked (s.channel ch).userlist

pub id_kept :
    (s : Cycle) (ch : ℕ) (h : Hash) (j : ℕ)
    → ((with_userlist s ch h).channel j).id ≡ (s.channel j).id
id_kept s ch h j = elim (Bool-cases (j == ch)) [
  | inl same ↦ let eq : j ≡ ch = ground (arith, same) in rw (same, eq) refl
  | inr apart ↦ rw apart refl
]

pub with_userlist-IsSound :
    (s : Cycle) (ch : ℕ) (h : Hash) → IsLinked h → IsSound s → IsSound (with_userlist s ch h)
with_userlist-IsSound s ch h new ok = record {
  linked = ok.linked;
  named = λ kh name j t e. rw (id_kept s ch h j) (ok.named kh name j t e);
  text = λ j alive. rw (id_kept s ch h j) (ok.text j alive);
  made = ok.made;
  users = λ j alive. elim (Bool-cases (j == ch)) [
    | inl same ↦ rw same new
    | inr apart ↦ rw apart (ok.users j alive)
  ];
}

-- Connections may change in any way.
pub reconnected :
    (s : Cycle) (conns : ℕ → Connection) → IsSound s → IsSound (record s { connection = conns })
reconnected s conns ok = record {
  linked = ok.linked;
  named = ok.named;
  text = ok.text;
  made = ok.made;
  users = ok.users;
}

pub init-IsLinked : (size calls : ℕ) → IsLinked (init size calls)
unfolding init
init-IsLinked size calls = record { below = λ i. tt }

module _ (palloc : ℕ → Bool) (calloc : ℕ → ℕ → Bool) where
  pub join-IsSound :
      (s : Cycle) (ch c : ℕ)
      → s.live ch ≡ true
      → IsSound s
      → IsSound (join_locked palloc calloc s ch c).cycle
  join-IsSound s ch c alive ok =
      let linked =
        insert-IsLinked (calloc ch) true false (s.channel ch).userlist (s.connection c).user_id c
          (ok.users ch alive) in
      let sound = with_userlist-IsSound s ch (user_inserted calloc s ch c).hash linked ok in
      elim (join-cases palloc calloc s ch c) [
        | inl (rc, e) ↦ rw e sound
        | inr (rc, e) ↦ rw e (reconnected _ _ sound)
      ]

  -- A channel that was found before is not the new one.
  old_named :
      (s : Cycle) (id : List ℕ) (kh : ℕ) (name : List ℕ) (j : ℕ)
      → IsSound s
      → IsText name
      → find_locked s.channels kh name ≡ some j
      → (((created palloc s id).channel j).id ≡ name)
        × (kh ≡ hash_key_lc name)
        × ((created palloc s id).live j ≡ true)
  old_named s id kh name j ok t e =
      let old = ok.named kh name j t e in
      let lt = ok.made j old.2 in
      let apart : (j == s.next) ≡ false = ground (arith, lt) in rw apart old

  created-named :
      (s : Cycle) (id : List ℕ)
      → find_locked s.channels (hash_key_lc id) id ≡ none
      → (channel_inserted palloc s id).rc ≡ rc_ok
      → IsSound s
      → (kh : ℕ) (name : List ℕ) (j : ℕ) → IsText name
      → find_locked (channel_inserted palloc s id).hash kh name ≡ some j
      → (((created palloc s id).channel j).id ≡ name)
        × (kh ≡ hash_key_lc name)
        × ((created palloc s id).live j ≡ true)
  created-named s id missing rc ok kh name j t e = elim (same_or_not name id) [
    | inr apart ↦ old_named s id kh name j ok t (
        sym (
          find_locked-insert_other palloc true true s.channels id s.next kh name ok.linked t
            (inr apart))
        ∙ e)
    | inl same ↦ elim (Bool-cases (kh == hash_key_lc id)) [
      | inr apart ↦
          let ne : kh ≢ hash_key_lc id = ground (arith, apart) in
          old_named s id kh name j ok t (
            sym (
              find_locked-insert_other palloc true true s.channels id s.next kh name ok.linked t
                (inl ne))
            ∙ e)
      | inl here ↦
          let eq : kh ≡ hash_key_lc id = ground (arith, here) in
          let found =
            find_locked-insert_locked palloc true true s.channels id s.next ok.linked rc in
          let mine = rw (same, eq, found) at e in
          let j' : j ≡ s.next = ground (arith, mine) in
          let top : (s.next == s.next) ≡ true = ground arith in
          rw (same, eq, j', top) (refl, refl, refl)
    ]
  ]

  -- What holds of the new channel and of the others holds of all.
  created-all :
      (s : Cycle) (id : List ℕ) (P : ℕ → Channel → Type 0) (j : ℕ)
      → P s.next (new_channel id)
      → ((i : ℕ) → s.live i ≡ true → P i (s.channel i))
      → (created palloc s id).live j ≡ true
      → P j ((created palloc s id).channel j)
  created-all s id P j new old alive = elim (Bool-cases (j == s.next)) [
    | inl here ↦ let eq : j ≡ s.next = ground (arith, here) in rw (here, eq) new
    | inr apart ↦ rw apart (old j (rw apart at alive))
  ]

  pub created-IsSound :
      (s : Cycle) (id : List ℕ)
      → IsText id
      → find_locked s.channels (hash_key_lc id) id ≡ none
      → (channel_inserted palloc s id).rc ≡ rc_ok
      → IsSound s
      → IsSound (created palloc s id)
  created-IsSound s id t missing rc ok = record {
    linked = insert-IsLinked palloc true true s.channels id s.next ok.linked;
    named = created-named s id missing rc ok;
    text = λ j. created-all s id (λ i ch. IsText ch.id) j t ok.text;
    made = λ j.
        created-all s id (λ i ch. i < s.next + 1) j (omega arith)
          (λ i alive. let lt = ok.made i alive in omega arith);
    users = λ j.
        created-all s id (λ i ch. IsLinked ch.userlist) j (init-IsLinked user_maximum 3) ok.users;
  }
