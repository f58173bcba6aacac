-- ===== src/HttpParse/RequestLine/GetLine.antt =====
-- GET request lines as they stand in memory.
use chatease_server.Common.Memory.{Mem, matches}
use chatease_server.Common.{ℕ, zero, suc, ◌+◌, ◌<◌, ◌≡◌, ◌≢◌, ◌⊎◌, arith, true, false}
use chatease_server.HttpParse.RequestLine.{get_word, http_1}

-- `GET `, a uri of `n` bytes, a space, `HTTP/1.` with a digit, and the end of the line, at `p`.
pub record GetLine (m : Mem) (p n digit : ℕ) : Type 0 where
  pub word : matches m p get_word ≡ true
  pub space : m (p + 3) ≡ b' '
  pub not_empty : 0 < n
  pub uri_plain : (i : ℕ) → i < n → (m (p + 4 + i) ≢ b' ') × (m (p + 4 + i) ≢ b'?')
  pub uri_end : m (p + 4 + n) ≡ b' '
  pub version : matches m (p + 5 + n) (http_1 digit) ≡ true
  pub known : (digit ≡ b'1') ⊎ (digit ≡ b'0')
  pub cr : m (p + 13 + n) ≡ b'\r'
  pub lf : m (p + 14 + n) ≡ b'\n'

pub version_plain :
    (m : Mem) (v digit i : ℕ)
    → matches m v (http_1 digit) ≡ true
    → (digit ≡ b'1') ⊎ (digit ≡ b'0')
    → i < 7
    → m (v + 1 + i) ≢ b'\r'
unfolding matches
version_plain m v digit zero h k lt = ground arith
version_plain m v digit (suc zero) h k lt = ground arith
version_plain m v digit (suc (suc zero)) h k lt = ground arith
version_plain m v digit (suc (suc (suc zero))) h k lt = ground arith
version_plain m v digit (suc (suc (suc (suc zero)))) h k lt = ground arith
version_plain m v digit (suc (suc (suc (suc (suc zero))))) h k lt = ground arith
version_plain m v digit (suc (suc (suc (suc (suc (suc zero)))))) h k lt = ground arith
version_plain m v digit (suc (suc (suc (suc (suc (suc (suc i))))))) h k lt = absurd (omega arith)

-- The two versions exclude one another.
pub version_other :
    (m : Mem) (v : ℕ) → matches m v (http_1 b'0') ≡ true → matches m v (http_1 b'1') ≡ false
unfolding matches
version_other m v h = ground arith
