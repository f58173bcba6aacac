-- ===== src/Strings/Unescape.antt =====
-- `stu_unescape_uri` of stu_string.c.
use chatease_server.Common.{
  ℕ, ◌+◌, ◌-◌, ◌*◌, ◌%◌, Bool, false, ◌&&◌, ◌||◌, ◌==◌, ltb, within, bit_or, List, [], ◌∷◌, length,
  if◌then◌else◌,
}

-- The bits STU_UNESCAPE_URI and STU_UNESCAPE_REDIRECT of `type`.
pub record Kind : Type 0 where
  pub uri : Bool
  pub redirect : Bool

-- The states of the source; `sw_quoted_second` has `decoded` and the byte in front of it, which
-- is `*(s - 2)` when the next byte has been read.
pub data State : Type 0 where
  sw_usual sw_quoted : State
  sw_quoted_second : ℕ → ℕ → State

-- What was written to `dst`, and the bytes from the new `*src` on.
pub record Unescaped : Type 0 where
  pub written : List ℕ
  pub left : List ℕ

abbrev pub put : ℕ → Unescaped → Unescaped
put c u = record { written = c ∷ u.written; left = u.left }

abbrev pub stop_at : ℕ → List ℕ → Unescaped
stop_at c cs = record { written = c ∷ []; left = cs }

abbrev pub is_digit : ℕ → Bool
is_digit c = within b'0' b'9' c

-- `c | 0x20` is one of `a` to `f`.
abbrev pub is_letter : ℕ → Bool
is_letter c = within b'a' b'f' (bit_or c 0x20)

-- `size > 1`, and the next two bytes are hexadecimal digits.
abbrev pub is_quoted : List ℕ → Bool
is_quoted (a ∷ b ∷ cs) = (is_digit a || is_letter a) && (is_digit b || is_letter b)
is_quoted _ = false

-- A decoded byte that a redirect keeps as it was written, unless it is harmless.
abbrev pub redirected : ℕ → ℕ → ℕ → Unescaped → Unescaped
redirected decoded first second rest =
    if ltb b'%' decoded && ltb decoded 0x7f
    then put decoded rest
    else put b'%' (put first (put second rest))

module _ (kind : Kind) where
  -- The loop, in a state and on the bytes that are left.
  unfoldable pub unescape_loop : State → List ℕ → Unescaped
  unescape_loop st [] = record { written = []; left = [] }
  unescape_loop sw_usual (c ∷ cs) =
      let quoted = unescape_loop sw_quoted cs in
      let rest = unescape_loop sw_usual cs in
      if c == b'?' && (kind.uri || kind.redirect)
      then stop_at c cs
      else if c == b'%' && ltb 1 (length cs)
      then (if is_quoted cs then quoted else put b'%' rest)
      else if c == b'+'
      then put b' ' rest
      else put c rest
  unescape_loop sw_quoted (c ∷ cs) =
      let digit = unescape_loop (sw_quoted_second (c - b'0') c) cs in
      let letter = unescape_loop (sw_quoted_second (bit_or c 0x20 - b'a' + 10) c) cs in
      let rest = unescape_loop sw_usual cs in
      if is_digit c then digit else if is_letter c then letter else put c rest
  unescape_loop (sw_quoted_second decoded first) (c ∷ cs) =
      let rest = unescape_loop sw_usual cs in
      let digit = (decoded * 16 + (c - b'0')) % 256 in
      let letter = (decoded * 16 + (bit_or c 0x20 - b'a') + 10) % 256 in
      if is_digit c
      then (if kind.redirect then redirected digit first c rest else put digit rest)
      else if is_letter c
      then (if kind.uri
          then (if letter == b'?' then stop_at letter cs else put letter rest)
          else if kind.redirect
          then (if letter == b'?' then stop_at letter cs else redirected letter first c rest)
          else put letter rest)
      else rest

  unfoldable pub unescape_uri : List ℕ → Unescaped
  unescape_uri src = unescape_loop sw_usual src
