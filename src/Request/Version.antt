-- ===== src/Request/Version.antt =====
-- `get_http_ver`
use nvhttpd.Base.{
  ℕ, zero, suc, ◌%◌, ◌^◌, Bool, true, false, not, ◌&&◌, [], ◌∷◌, ◌++◌, Option, none, some, ◌==◌,
  if◌then◌else◌, length, drop,
}
use nvhttpd.Base.Chars.{Bytes, codes, is_space, is_digit, strtol_from}
use nvhttpd.Request.State.{fail, crash, bad, M, return, stop, ◌>>=◌, ◌>>◌, modify}
use nvhttpd.Request.Io.{next_char, peek_char}
use nvhttpd.Request.Method.{expect_all}

-- The chars of `buffer` and the offset of `minor`, which is NULL (`none`) until a dot is read.
pub record Digits : Type 0 where
  pub read : Bytes
  pub minor : Option ℕ

abbrev pub is_none : Option ℕ → Bool
is_none none = true
is_none (some n) = false

-- The loop over `i`, by the rounds that are left of `sizeof(buffer) - 1`.
unfoldable pub version_loop : ℕ → Digits → M Digits
version_loop zero d = return d
version_loop (suc rounds) d = do
  ch ← peek_char
  if is_space ch
      then return d
      else if not (is_digit ch) && not (ch == b'.')
      then stop (fail bad)
      else if ch == b'.' && not (is_none d.minor)
      then stop (fail bad)
      else do
        c ← next_char
        version_loop rounds (record {
          read = d.read ++ c ∷ [];
          minor = if ch == b'.' then some (suc (length d.read)) else d.minor;
        })

-- The two calls of strtol; its argument is NULL where no dot was read. The long is stored in an int,
-- here as a bit pattern.
unfoldable pub store_version : Bytes → Option ℕ → M (Unit {0})
store_version read none = stop crash
store_version read (some i) = modify (λ r. record r {
  http_version_major = strtol_from 0 read % 2 ^ 32;
  http_version_minor = strtol_from 0 (drop i read) % 2 ^ 32;
})

unfoldable pub get_http_ver : M (Unit {0})
unfolding version_loop store_version
get_http_ver = do
  expect_all (codes "HTTP/")
  d ← version_loop 15 (record { read = []; minor = none })
  store_version d.read d.minor
