-- ===== src/HttpRequest/Lines/First.antt =====
-- Which header of a request is found under each name.
use chatease_server.Common.{
  ℕ, zero, suc, ◌≡◌, refl, ◌∙◌, sym, ap, Bool, true, false, Option, none, some, List, [], ◌∷◌, ◌++◌,
  ◌==◌, if◌then◌else◌, inl, inr, Option-cases, Bool-cases,
}
use chatease_server.Common.Scan.{Rc, rc_ok, rc_again, rc_done}
use chatease_server.HttpRequest.Handlers.{
  HeaderElt, Headers, Handled, Code, ok, again, http, Library, place,
}
use chatease_server.HttpRequest.Lines.{
  Reader, Outcome, Ended, pushed, dispatch, on_result, after_dispatch, header_of_line, line_mem,
  process_line, on_code, read_line, line_round, line_rounds, process_request_headers,
}
use chatease_server.HttpRequest.Lines.Stores.{
  or_else, or_else-none, MayStore, KeepsList, process-MayStore, process-KeepsList,
}
use chatease_server.Session.Status
use chatease_server.HttpRequest.Table.{Field, Entry, find_header}

-- Whether an entry belongs to a field.
abbrev pub belongs : Field → Option Entry → Bool
belongs f none = false
belongs f (some e) = place f == place e.field

-- The first header of a list whose name stands in the table for a field.
unfoldable pub first_of : Field → List HeaderElt → Option HeaderElt
first_of f [] = none
first_of f (h ∷ hs) =
    let rest = first_of f hs in if belongs f (find_header h.lowcase_key) then some h else rest

first_of-snoc :
    (f : Field) (hs : List HeaderElt) (h : HeaderElt)
    → first_of f (hs ++ h ∷ []) ≡ or_else (first_of f hs) (first_of f (h ∷ []))
unfolding first_of
first_of-snoc f [] h = refl
first_of-snoc f (x ∷ hs) h = elim (Bool-cases (belongs f (find_header x.lowcase_key))) [
  | inl yes' ↦ rw yes' refl
  | inr not' ↦ rw not' (first_of-snoc f hs h)
]

-- Every pointer is to the first header of the list that belongs to its field.
abbrev pub AreFirst : Headers → Type 0
AreFirst r = (f : Field) → r.slot f ≡ first_of f r.all

module _ (library : Library) where
  -- The pointers after a header of the list was processed as its name says.
  abbrev FirstAfter : Option Handled → Type 0
  FirstAfter none = Unit
  FirstAfter (some out) = AreFirst out.headers

  entry-FirstAfter :
      (h : HeaderElt) (r : Headers) (e : Entry) (out : Option Handled)
      → AreFirst r
      → find_header h.lowcase_key ≡ some e
      → MayStore e.field h (pushed h r) out
      → KeepsList (pushed h r) out
      → FirstAfter out
  unfolding first_of
  entry-FirstAfter h r e none first found stores keeps = tt
  entry-FirstAfter h r e (some out) first found stores keeps = λ f.
      let mine = if place f == place e.field then some h else none in
      let one : first_of f (h ∷ []) ≡ mine = rw (first_of, found) refl in
      stores f
      ∙ ap (λ a. or_else a mine) (first f)
      ∙ ap (or_else (first_of f r.all)) (sym one)
      ∙ sym (first_of-snoc f r.all h)
      ∙ ap (first_of f) (sym keeps)

  dispatch-FirstAfter :
      (h : HeaderElt) (r : Headers)
      → AreFirst r
      → FirstAfter (dispatch library (find_header h.lowcase_key) h (pushed h r))
  unfolding dispatch first_of
  dispatch-FirstAfter h r first = elim (Option-cases (find_header h.lowcase_key)) [
    | inl unknown ↦ rw unknown (λ f.
        let one : first_of f (h ∷ []) ≡ none = rw (first_of, unknown) refl in
        first f
        ∙ or_else-none (first_of f r.all)
        ∙ ap (or_else (first_of f r.all)) (sym one)
        ∙ sym (first_of-snoc f r.all h))
    | inr (e, found) ↦ rw found (
        entry-FirstAfter h r e _ first found
          (process-MayStore library e.field h (pushed h r) e.handler)
          (process-KeepsList library e.handler e.field h (pushed h r)))
  ]

  -- What a round or the loop leaves, if it did what it may.
  abbrev RoundFirst : Outcome → Type 0
  RoundFirst (Outcome.next s) = AreFirst s.headers
  RoundFirst (Outcome.left code s) = AreFirst s.headers
  RoundFirst Outcome.undefined = Unit

  abbrev pub EndsFirst : Ended → Type 0
  EndsFirst (Ended.left code s) = AreFirst s.headers
  EndsFirst Ended.undefined = Unit
  EndsFirst Ended.spent = Unit

  on_result-RoundFirst :
      (c : Code) (s : Reader) → AreFirst s.headers → RoundFirst (on_result library c s)
  unfolding on_result
  on_result-RoundFirst ok s first = first
  on_result-RoundFirst again s first = first
  on_result-RoundFirst (http status) s first = first

  after_dispatch-RoundFirst :
      (s : Reader) (out : Option Handled)
      → FirstAfter out
      → RoundFirst (after_dispatch library s out)
  unfolding after_dispatch
  after_dispatch-RoundFirst s none first = tt
  after_dispatch-RoundFirst s (some out) first =
      on_result-RoundFirst out.code (record s { headers = out.headers }) first

  either-RoundFirst :
      (b : Bool) (x y : Outcome) → RoundFirst x → RoundFirst y → RoundFirst (if b then x else y)
  either-RoundFirst true x y hx hy = hx
  either-RoundFirst false x y hx hy = hy

  on_code-RoundFirst :
      (rc : Rc) (s : Reader) → AreFirst s.headers → RoundFirst (on_code library rc s)
  unfolding on_code process_line
  on_code-RoundFirst rc_ok s first =
      let h = header_of_line s.mem s.parser in
      let s' = record s { mem = line_mem s.mem s.parser } in
      let out = dispatch library (find_header h.lowcase_key) h (pushed h s.headers) in
      either-RoundFirst s.parser.invalid_header (Outcome.left (http Status.bad_request) s)
        (after_dispatch library s' out) first
        (after_dispatch-RoundFirst s' out (dispatch-FirstAfter h s.headers first))
  on_code-RoundFirst rc_done s first = first
  on_code-RoundFirst rc_again s first = first
  on_code-RoundFirst _ s first = first

  after-EndsFirst :
      (fuel end : ℕ) (s : Reader) (out : Outcome)
      → ((s' : Reader) → AreFirst s'.headers → EndsFirst (line_rounds library fuel end s'))
      → RoundFirst out
      → line_round library end s ≡ out
      → EndsFirst (line_rounds library (suc fuel) end s)
  unfolding line_rounds
  after-EndsFirst fuel end s (Outcome.next s') more first e = rw (line_rounds, e) (more s' first)
  after-EndsFirst fuel end s (Outcome.left code s') more first e = rw (line_rounds, e) first
  after-EndsFirst fuel end s Outcome.undefined more first e = rw (line_rounds, e) tt

  line_rounds-EndsFirst :
      (fuel end : ℕ) (s : Reader) → AreFirst s.headers → EndsFirst (line_rounds library fuel end s)
  unfolding line_rounds line_round
  line_rounds-EndsFirst zero end s first = tt
  line_rounds-EndsFirst (suc fuel) end s first =
      after-EndsFirst fuel end s _ (λ s' first'. line_rounds-EndsFirst fuel end s' first')
        (on_code-RoundFirst _ (read_line library end s) first) refl

  -- Whatever the bytes of a request are and however the loop over its header lines returns: each
  -- pointer of the request is to the first header of the list of all headers read whose name in
  -- lower case stands in the table for that field, when that was so before.
  pub process_request_headers-EndsFirst :
      (end : ℕ) (s : Reader)
      → AreFirst s.headers
      → EndsFirst (process_request_headers library end s)
  unfolding process_request_headers
  process_request_headers-EndsFirst end s first = line_rounds-EndsFirst _ end s first
