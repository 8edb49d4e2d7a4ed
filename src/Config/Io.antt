-- ===== src/Config/Io.antt =====
-- `io_peek` and `io_next` of config.c.
pub mod Means
use nvhttpd.Base.{ℕ, zero, suc, ◌+◌, none, some, ◌++◌, ◌==◌, if◌then◌else◌, length, drop, get_elem?}
use nvhttpd.Base.Chars.{ℤ, pos, negsuc}
use nvhttpd.Http.{ReadResult, received, failed, next_result}
use nvhttpd.Config.State.{Reader, Outcome, done, crash, M, return, ◌>>=◌}

abbrev pub io_eof : ℕ
io_eof = 0

abbrev pub buffer_size : ℕ
buffer_size = 1024

-- `return *io_buffer_ptr`
unfoldable pub load : Reader → Outcome ℕ × Reader
load r = elim (get_elem? r.buffer r.ptr) [ none ↦ (crash, r) | some b ↦ (done b, r) ]

-- `io_buffer_len = read(file_handle, io_buffer, BUFFER_SIZE)` and what follows.
unfoldable pub fill : ReadResult → Reader → Outcome ℕ × Reader
unfolding load
fill failed r = (done io_eof, record r { len = negsuc 0 })
fill (received bs) r =
    let read = record r { buffer = bs ++ drop (length bs) r.buffer; len = pos (length bs) } in
    if length bs == 0 then (done io_eof, read) else load (record read { ptr = 0 })

unfoldable pub peek_at : ℤ → Reader → Outcome ℕ × Reader
unfolding fill next_result load
peek_at (pos zero) r = fill (next_result r.file).0 (record r { file = (next_result r.file).1 })
peek_at (pos (suc n)) r = load r
peek_at (negsuc n) r = load r

unfoldable pub peek : Reader → Outcome ℕ × Reader
unfolding peek_at
peek r = if r.is_open then peek_at r.len r else (done io_eof, r)

unfoldable pub io_peek : {U : Type 0} → M U ℕ
io_peek r c = ((peek r).0, (peek r).1, c)

-- `io_buffer_len--`
abbrev pub pred_int : ℤ → ℤ
pred_int (pos zero) = negsuc 0
pred_int (pos (suc n)) = pos n
pred_int (negsuc n) = negsuc (suc n)

unfoldable pub advance : {U : Type 0} → M U (Unit {0})
advance r c = (done tt, record r { len = pred_int r.len; ptr = r.ptr + 1 }, c)

unfoldable pub io_next : {U : Type 0} → M U ℕ
io_next = do ch ← io_peek; if ch == io_eof then return ch else (advance >>= λ _. return ch)
