-- ===== src/HttpRequest/Lines/Stores.antt =====
-- What the header functions do to the pointers and to the list of headers.
use chatease_server.Common.{
  ◌≡◌, ◌⊎◌, refl, ◌∙◌, sym, ap, get_or, true, Option, none, some, List, [], ◌∷◌, ◌==◌,
  if◌then◌else◌, arith, inl, inr, Option-cases, Bool-cases,
}
use chatease_server.HttpRequest.Handlers.{
  HeaderElt, Headers, Handled, Library, place, unique_header_line, header_line, with_keys,
  accept_safari, is_computed, safari_answer, accept_key, process,
}
use chatease_server.HttpRequest.Table.{
  Field, host, user_agent, accept, accept_language, content_type, content_length, sec_websocket_key,
  sec_websocket_key1, sec_websocket_key2, sec_websocket_key3, sec_websocket_protocol,
  sec_websocket_version, sec_websocket_extensions, upgrade, connection, Process, process_host,
  process_connection, process_content_length, process_sec_websocket_key,
  process_sec_websocket_key_for_safari, process_sec_websocket_protocol, process_header_line,
  process_unique_header_line,
}

abbrev pub or_else : Option HeaderElt → Option HeaderElt → Option HeaderElt
or_else none b = b
or_else (some a) b = some a

-- What every header function makes of the pointer of a field.
abbrev pub Stores : Field → HeaderElt → Headers → Headers → Type 0
Stores field h r r' =
    (f : Field) → r'.slot f ≡ or_else (r.slot f) (if place f == place field then some h else none)

field_at : List Field
field_at =
    host ∷ user_agent ∷ accept ∷ accept_language ∷ content_type ∷ content_length ∷ sec_websocket_key
    ∷ sec_websocket_key1 ∷ sec_websocket_key2 ∷ sec_websocket_key3 ∷ sec_websocket_protocol
    ∷ sec_websocket_version ∷ sec_websocket_extensions ∷ upgrade ∷ connection ∷ []

field_at-place : (f : Field) → get_or field_at (place f) connection ≡ f
unfolding place field_at
field_at-place host = refl
field_at-place user_agent = refl
field_at-place accept = refl
field_at-place accept_language = refl
field_at-place content_type = refl
field_at-place content_length = refl
field_at-place sec_websocket_key = refl
field_at-place sec_websocket_key1 = refl
field_at-place sec_websocket_key2 = refl
field_at-place sec_websocket_key3 = refl
field_at-place sec_websocket_protocol = refl
field_at-place sec_websocket_version = refl
field_at-place sec_websocket_extensions = refl
field_at-place upgrade = refl
field_at-place connection = refl

place_injective : (f g : Field) → (place f == place g) ≡ true → f ≡ g
place_injective f g e =
    let same : place f ≡ place g = ground (arith, e) in
    sym (field_at-place f) ∙ ap (λ i. get_or field_at i connection) same ∙ field_at-place g

pub or_else-none : (a : Option HeaderElt) → a ≡ or_else a none
or_else-none none = refl
or_else-none (some a) = refl

module _ (field : Field) (h : HeaderElt) (r : Headers) where
  set_stores :
      (f : Field)
      → r.slot field ≡ none
      → (if place f == place field then some h else r.slot f)
        ≡ or_else (r.slot f) (if place f == place field then some h else none)
  set_stores f e = elim (Bool-cases (place f == place field)) [
    | inl same ↦
        let empty : r.slot f ≡ none = rw (place_injective f field same) e in rw (same, empty) refl
    | inr apart ↦ rw apart (or_else-none (r.slot f))
  ]

  kept_stores :
      (f : Field) (before : HeaderElt)
      → r.slot field ≡ some before
      → r.slot f ≡ or_else (r.slot f) (if place f == place field then some h else none)
  kept_stores f before e = elim (Bool-cases (place f == place field)) [
    | inl same ↦
        let full : r.slot f ≡ some before = rw (place_injective f field same) e in
        rw (same, full) refl
    | inr apart ↦ rw apart (or_else-none (r.slot f))
  ]

  unique-Stores : Stores field h r (unique_header_line field h r).headers
  unfolding unique_header_line
  unique-Stores f = elim (Option-cases (r.slot field)) [
    | inl e ↦ rw (unique_header_line, e) (set_stores f e)
    | inr (before, e) ↦ rw (unique_header_line, e) (kept_stores f before e)
  ]

  header_line-Stores : Stores field h r (header_line field h r).headers
  unfolding header_line
  header_line-Stores f = elim (Option-cases (r.slot field)) [
    | inl e ↦ rw (header_line, e) (set_stores f e)
    | inr (before, e) ↦ rw (header_line, e) (kept_stores f before e)
  ]

-- A second storing changes nothing.
or_else-twice : (a b : Option HeaderElt) → or_else (or_else a b) b ≡ or_else a b
or_else-twice none none = refl
or_else-twice none (some b) = refl
or_else-twice (some a) b = refl

-- What is stored by a function that did what it may.
abbrev pub MayStore : Field → HeaderElt → Headers → Option Handled → Type 0
MayStore field h r none = Unit
MayStore field h r (some out) = Stores field h r out.headers

-- The branch for two keys sets the answer, or does what it must not.
accept_safari-cases :
    (h1 h2 : HeaderElt) (r : Headers)
    → (accept_safari h1 h2 r ≡ none) ⊎ (accept_safari h1 h2 r ≡ some (safari_answer r))
unfolding accept_safari
accept_safari-cases h1 h2 r = elim (Bool-cases (is_computed h1)) [
  | inr bad ↦ inl (rw (accept_safari, bad) refl)
  | inl good ↦ elim (Bool-cases (is_computed h2)) [
    | inr bad ↦ inl (rw (accept_safari, good, bad) refl)
    | inl good' ↦ inr (rw (accept_safari, good, good') refl)
  ]
]

module _ (library : Library) (field : Field) (h : HeaderElt) (r : Headers) where
  with_keys-MayStore :
      (k1 k2 : Option HeaderElt) (r' : Headers)
      → Stores field h r r'
      → MayStore field h r (with_keys k1 k2 r')
  unfolding with_keys
  with_keys-MayStore none k2 r' s = s
  with_keys-MayStore (some h1) none r' s = s
  with_keys-MayStore (some h1) (some h2) r' s = elim (accept_safari-cases h1 h2 r') [
    | inl bad ↦ rw bad tt
    | inr e ↦ rw e s
  ]

  pub process-MayStore : (p : Process) → MayStore field h r (process library p field h r)
  unfolding process accept_key
  process-MayStore process_host = unique-Stores field h r
  process-MayStore process_connection = unique-Stores field h r
  process-MayStore process_content_length = λ f.
      header_line-Stores field h
        (record (unique_header_line field h r).headers { content_length_n = library.atol h.value })
        f
      ∙ ap (λ a. or_else a (if place f == place field then some h else none))
          (unique-Stores field h r f)
      ∙ or_else-twice (r.slot f) _
  process-MayStore process_sec_websocket_key = unique-Stores field h r
  process-MayStore process_sec_websocket_key_for_safari =
      let r' = (unique_header_line field h r).headers in
      with_keys-MayStore (r'.slot sec_websocket_key1) (r'.slot sec_websocket_key2) r'
        (unique-Stores field h r)
  process-MayStore process_sec_websocket_protocol = unique-Stores field h r
  process-MayStore process_header_line = header_line-Stores field h r
  process-MayStore process_unique_header_line = unique-Stores field h r

-- The list of headers is kept by every header function.
abbrev pub KeepsList : Headers → Option Handled → Type 0
KeepsList r none = Unit
KeepsList r (some out) = out.headers.all ≡ r.all

module _ (library : Library) where
  unique-KeepsList :
      (field : Field) (h : HeaderElt) (r : Headers)
      → (unique_header_line field h r).headers.all ≡ r.all
  unfolding unique_header_line
  unique-KeepsList field h r = elim (Option-cases (r.slot field)) [
    | inl e ↦ rw (unique_header_line, e) refl
    | inr (before, e) ↦ rw (unique_header_line, e) refl
  ]

  header_line-KeepsList :
      (field : Field) (h : HeaderElt) (r : Headers) → (header_line field h r).headers.all ≡ r.all
  unfolding header_line
  header_line-KeepsList field h r = elim (Option-cases (r.slot field)) [
    | inl e ↦ rw (header_line, e) refl
    | inr (before, e) ↦ rw (header_line, e) refl
  ]

  with_keys-KeepsList :
      (k1 k2 : Option HeaderElt) (r r' : Headers)
      → r'.all ≡ r.all
      → KeepsList r (with_keys k1 k2 r')
  unfolding with_keys
  with_keys-KeepsList none k2 r r' s = s
  with_keys-KeepsList (some h1) none r r' s = s
  with_keys-KeepsList (some h1) (some h2) r r' s = elim (accept_safari-cases h1 h2 r') [
    | inl bad ↦ rw bad tt
    | inr e ↦ rw e s
  ]

  pub process-KeepsList :
      (p : Process) (field : Field) (h : HeaderElt) (r : Headers)
      → KeepsList r (process library p field h r)
  unfolding process accept_key
  process-KeepsList process_content_length field h r =
      header_line-KeepsList field h
        (record (unique_header_line field h r).headers { content_length_n = library.atol h.value })
      ∙ unique-KeepsList field h r
  process-KeepsList process_sec_websocket_key_for_safari field h r =
      let r' = (unique_header_line field h r).headers in
      with_keys-KeepsList (r'.slot sec_websocket_key1) (r'.slot sec_websocket_key2) r r'
        (unique-KeepsList field h r)
  process-KeepsList process_header_line field h r = header_line-KeepsList field h r
  process-KeepsList _ field h r = unique-KeepsList field h r
