-- ===== src/Session/Granted.antt =====
-- Which messages are sent to the users of the channel.
use chatease_server.Common.{
  ℕ, ◌+◌, ◌%◌, ◌^◌, ◌≤◌, ◌≡◌, ◌≢◌, ◌⊎◌, ◌↔◌, refl, sym, true, false, Option, none, some, arith, ltb,
  Bool-cases, Option-cases, inl, inr, ◌==◌, ◌∙◌,
}
use chatease_server.Json.Value.{Text, Json, Items, object}
use chatease_server.Session.Answer.{
  Speaker, Answer, Reading, role_assistant, req_by, message_fields, refuse, accept, permission,
  compose, answer_body, answer_command, answer_object,
}
use chatease_server.Session.Item.{find_item, as_string, as_object}
use chatease_server.Session.Key
use chatease_server.Session.Key.{text_word, extern_word}
use chatease_server.Session.Status
use chatease_server.Strings.Copy.{same_bytes}

-- A command that begins with "text", from a user with the role that the state of the channel
-- asks for, or another one that begins with "extern", from an assistant or a higher role.
abbrev pub MaySend : Speaker → Text → Type 0
MaySend u cmd =
    ((same_bytes 4 cmd.chars text_word ≡ true) × (u.state ≤ u.role))
    ⊎ ((same_bytes 4 cmd.chars text_word ≡ false)
        × (same_bytes 6 cmd.chars extern_word ≡ true)
        × (role_assistant ≤ u.role))

-- A message that comes late enough, with all that it needs.
pub record IsGranted (u : Speaker) (sec : ℕ) (xs : Items) : Type 0 where
  pub cmd : Text × Text
  pub data' : Text × Text
  pub type : Text × Text
  pub channel : Text × Items
  pub late : (u.active + u.interval) % 2 ^ 64 ≤ sec
  pub cmd_is : as_string (find_item Key.cmd xs) ≡ some cmd
  pub allowed : MaySend u cmd.1
  pub data_is : as_string (find_item Key.data' xs) ≡ some data'
  pub type_is : as_string (find_item Key.type xs) ≡ some type
  pub channel_is : as_object (find_item Key.channel xs) ≡ some channel

permission-MaySend : (u : Speaker) (cmd : Text) → MaySend u cmd → permission u cmd ≡ Status.ok
unfolding permission
permission-MaySend u cmd h = ground (arith, h)

MaySend-permission : (u : Speaker) (cmd : Text) → permission u cmd ≡ Status.ok → MaySend u cmd
unfolding permission
MaySend-permission u cmd h = elim (Bool-cases (same_bytes 4 cmd.chars text_word)) [
  | inl text ↦ inl (text, ground arith)
  | inr other ↦ elim (Bool-cases (same_bytes 6 cmd.chars extern_word)) [
    | inl extern ↦ inr (other, extern, ground arith)
    | inr neither ↦ absurd (ground arith)
  ]
]

module _ (reading : Reading) where
  pub refuse-status :
      (rc active : ℕ) (req : Option ℕ) (a : Answer)
      → refuse reading rc active req ≡ some a
      → (a.status ≡ rc) × (a.active ≡ active)
  unfolding refuse
  refuse-status rc active none a e = cc
  refuse-status rc active (some d) a e = ground (arith, e)

module _ (reading : Reading) (u : Speaker) (sec : ℕ) (xs : Items) where
  open reading use {freed}

  abbrev sent_body : IsGranted u sec xs → Json
  sent_body g =
      object (message_fields reading u g.cmd.1 (find_item Key.req xs) g.data' g.type g.channel)

  -- The message was answered with STU_HTTP_OK by the object that is made of its items.
  abbrev pub IsAnswered : IsGranted u sec xs → Option Answer → Type 0
  IsAnswered g out = out ≡ some (record { status = Status.ok; body = sent_body g; active = sec })

  accept_read :
      (g : IsGranted u sec xs) (req : Option ℕ)
      → req ≢ none
      → IsAnswered g (accept reading (sent_body g) sec req)
  unfolding accept
  accept_read g none read = absurd (read refl)
  accept_read g (some d) read = refl

  pub granted-IsAnswered :
      (g : IsGranted u sec xs)
      → req_by reading freed (find_item Key.req xs) ≢ none
      → IsAnswered g (answer_object reading u sec xs)
  unfolding answer_object answer_command answer_body compose
  granted-IsAnswered g read =
      let late : ltb sec ((u.active + u.interval) % 2 ^ 64) ≡ false = ground (arith, g.late) in
      rw
        (late, g.cmd_is, permission-MaySend u g.cmd.1 g.allowed, g.data_is, g.type_is, g.channel_is)
        (accept_read g _ read)

  refused_other {ℓ} :
      {A : Type ℓ} (rc active : ℕ) (req : Option ℕ) (a : Answer)
      → rc ≢ Status.ok
      → refuse reading rc active req ≡ some a
      → a.status ≡ Status.ok
      → A
  refused_other rc active req a ne e ok =
      absurd (ne (sym (refuse-status reading rc active req a e).0 ∙ ok))

  answer_body-items :
      (cmd : Text) (active : ℕ) (req : Option ℕ) (a : Answer) (d t : Option (Text × Text))
      (c : Option (Text × Items))
      → answer_body reading active req (compose reading u cmd (find_item Key.req xs) d t c) ≡ some a
      → a.status ≡ Status.ok
      → ((d' : Text × Text) × (d ≡ some d'))
        × ((t' : Text × Text) × (t ≡ some t'))
        × ((c' : Text × Items) × (c ≡ some c'))
  unfolding answer_body compose
  answer_body-items cmd active req a (some d) (some t) (some c) e ok =
      ((d, refl), (t, refl), (c, refl))
  answer_body-items cmd active req a none t c e ok = refused_other _ _ _ a (omega arith) e ok
  answer_body-items cmd active req a (some d) none c e ok = refused_other _ _ _ a (omega arith) e ok
  answer_body-items cmd active req a (some d) (some t) none e ok =
      refused_other _ _ _ a (omega arith) e ok

  answered-IsGranted :
      (a : Answer)
      → answer_object reading u sec xs ≡ some a
      → a.status ≡ Status.ok
      → IsGranted u sec xs
  unfolding answer_object answer_command
  answered-IsGranted a e ok = elim (Bool-cases (ltb sec ((u.active + u.interval) % 2 ^ 64))) [
    | inl early ↦ refused_other _ _ _ a (omega arith) (rw early at e) ok
    | inr late ↦ elim (Option-cases (as_string (find_item Key.cmd xs))) [
      | inl none' ↦ refused_other _ _ _ a (omega arith) (rw (late, none') at e) ok
      | inr (cmd, cmd_is) ↦ elim (Bool-cases (permission u cmd.1 == Status.ok)) [
        | inr denied ↦
            refused_other _ _ _ a (ground (arith, denied)) (rw (late, cmd_is, denied) at e) ok
        | inl allowed ↦
            let items =
              answer_body-items cmd.1 sec (req_by reading freed (find_item Key.req xs)) a
                (as_string (find_item Key.data' xs)) (as_string (find_item Key.type xs))
                (as_object (find_item Key.channel xs)) (rw (late, cmd_is, allowed) at e) ok in
            record {
              cmd = cmd;
              data' = items.0.0;
              type = items.1.0;
              channel = items.2.0;
              late = ground (arith, late);
              cmd_is = cmd_is;
              allowed = MaySend-permission u cmd.1 (ground (arith, allowed));
              data_is = items.0.1;
              type_is = items.1.1;
              channel_is = items.2.1;
            }
      ]
    ]
  ]

  -- The message was answered with STU_HTTP_OK.
  abbrev pub IsAccepted : Option Answer → Type 0
  IsAccepted out = (a : Answer) × (out ≡ some a) × (a.status ≡ Status.ok)

  -- When the number of the request can be read after the request was deleted, a message is
  -- answered with STU_HTTP_OK just when it comes late enough, has a command that its user may send,
  -- and has data and a type, which are strings, and a channel, which is an object.
  pub answer_object_iff :
      req_by reading freed (find_item Key.req xs) ≢ none
      → IsGranted u sec xs ↔ IsAccepted (answer_object reading u sec xs)
  answer_object_iff read =
      (λ g. (_, granted-IsAnswered g read, refl), λ h. answered-IsGranted h.0 h.1 h.2)
