-- ===== src/Session/Key.antt =====
-- The words of stu_protocol.c that the messages use.
use chatease_server.Common.{ℕ, List, [], ◌∷◌}

abbrev pub cmd : List ℕ
cmd = b'c' ∷ b'm' ∷ b'd' ∷ []

abbrev pub raw : List ℕ
raw = b'r' ∷ b'a' ∷ b'w' ∷ []

abbrev pub req : List ℕ
req = b'r' ∷ b'e' ∷ b'q' ∷ []

abbrev pub data' : List ℕ
data' = b'd' ∷ b'a' ∷ b't' ∷ b'a' ∷ []

abbrev pub type : List ℕ
type = b't' ∷ b'y' ∷ b'p' ∷ b'e' ∷ []

abbrev pub channel : List ℕ
channel = b'c' ∷ b'h' ∷ b'a' ∷ b'n' ∷ b'n' ∷ b'e' ∷ b'l' ∷ []

abbrev pub user : List ℕ
user = b'u' ∷ b's' ∷ b'e' ∷ b'r' ∷ []

abbrev pub id : List ℕ
id = b'i' ∷ b'd' ∷ []

abbrev pub name : List ℕ
name = b'n' ∷ b'a' ∷ b'm' ∷ b'e' ∷ []

abbrev pub icon : List ℕ
icon = b'i' ∷ b'c' ∷ b'o' ∷ b'n' ∷ []

abbrev pub role : List ℕ
role = b'r' ∷ b'o' ∷ b'l' ∷ b'e' ∷ []

abbrev pub error : List ℕ
error = b'e' ∷ b'r' ∷ b'r' ∷ b'o' ∷ b'r' ∷ []

abbrev pub code : List ℕ
code = b'c' ∷ b'o' ∷ b'd' ∷ b'e' ∷ []

abbrev pub text_word : List ℕ
text_word = b't' ∷ b'e' ∷ b'x' ∷ b't' ∷ []

abbrev pub extern_word : List ℕ
extern_word = b'e' ∷ b'x' ∷ b't' ∷ b'e' ∷ b'r' ∷ b'n' ∷ []
