-- ===== src/Request/Io/Stream.antt =====
-- The buffered reader of request.c against the bytes that the connection delivers: how recv cuts
-- them into pieces does not show.
use nvhttpd.Base.{
  ℕ, zero, suc, ◌+◌, ◌≤◌, ◌<◌, true, false, List, [], ◌∷◌, ◌++◌, ◌≡◌, refl, sym, ap, ◌∙◌, arith,
  ltb, leb, ◌==◌, if◌then◌else◌, length, take, drop, length-append, length-drop, take-append,
  get_elem?-of_drop, get_elem?-of_take, drop-all, length-take,
}
use native.Mathlib.Nat.{add-zero}
use native.Mathlib.Numerals.{add-one}
use nvhttpd.Base.Chars.{Bytes, ℤ, char_to_int}
use nvhttpd.Http.{HttpClient, ReadResult, received, failed, next_result, read_size, http_read}
use nvhttpd.Request.State.{Request, Outcome, done, buffer_size, M}
use nvhttpd.Request.Io.{io_eof, refill, load, read_char}

-- The results that the reader of this connection takes.
abbrev pub incoming : HttpClient → List ReadResult
incoming c = if c.ssl_ctx then c.ssl_read else c.recv

abbrev pub flat : List ReadResult → Bytes
flat [] = []
flat (received bs ∷ xs) = bs ++ flat xs
flat (failed ∷ xs) = flat xs

-- What a call of recv that does not fail stores: at least one byte before the peer shuts the
-- connection down, and no more bytes than were asked for.
abbrev pub NoFailure : List ReadResult → Type 0
NoFailure [] = Unit
NoFailure (received bs ∷ xs) = (0 < length bs) × (length bs ≤ buffer_size) × NoFailure xs
NoFailure (failed ∷ xs) = ⊥

pub record IsOpen (r : Request) : Type 0 where
  pub block : length r.buffer ≡ buffer_size
  pub filled : r.buffer_len ≤ buffer_size
  pub arrives : NoFailure (incoming r.client)

-- The bytes that the parser has still to see.
unfoldable pub pending : Request → Bytes
pending r = drop r.buffer_index (take r.buffer_len r.buffer) ++ flat (incoming r.client)

-- The request without its reader.
abbrev pub no_client : HttpClient
no_client = record { ssl_ctx = false; recv = []; ssl_read = [] }

unfoldable pub strip : Request → Request
strip r = record r { client = no_client; buffer = []; buffer_len = 0; buffer_index = 0 }

-- A step of the reader: it ends in `o`, with `rest` still to see and the parse untouched.
pub record Reads {A : Type 0} (m : M A) (r : Request) (o : Outcome A) (rest : Bytes) : Type 0 where
  pub after : Request
  pub runs : m r ≡ (o, after)
  pub open_after : IsOpen after
  pub pending_after : pending after ≡ rest
  pub strip_after : strip after ≡ strip r

http_read-incoming :
    (c : HttpClient)
    → ((http_read c).0 ≡ (next_result (incoming c)).0)
      × (incoming (http_read c).1 ≡ (next_result (incoming c)).1)
unfolding http_read
http_read-incoming c = ground arith

drop_step :
    (xs : Bytes) (i step c : ℕ) {rest : Bytes}
    → step ≤ 1
    → drop i xs ≡ c ∷ rest
    → drop (i + step) xs ≡ drop step (c ∷ rest)
drop_step xs i zero c h e = rw add-zero e
drop_step xs i (suc zero) c h e = rw add-one (get_elem?-of_drop xs i e).1
drop_step xs i (suc (suc step)) c h e = absurd (omega arith)

drop-append_step :
    (step c : ℕ) (xs ys : Bytes) → step ≤ 1 → drop step (c ∷ xs) ++ ys ≡ drop step (c ∷ (xs ++ ys))
drop-append_step zero c xs ys h = refl
drop-append_step (suc zero) c xs ys h = refl
drop-append_step (suc (suc step)) c xs ys h = absurd (omega arith)

load-Reads :
    (step : ℕ) (r : Request) (c : ℕ) (rest : Bytes)
    → IsOpen r
    → drop r.buffer_index (take r.buffer_len r.buffer) ≡ c ∷ rest
    → step ≤ 1
    → Reads
        (load step)
        r
        (done (char_to_int c))
        (drop step (c ∷ (rest ++ flat (incoming r.client))))
unfolding load pending strip
load-Reads step r c rest o e small =
    let window = take r.buffer_len r.buffer in
    let found =
      get_elem?-of_take r.buffer r.buffer_len r.buffer_index
        (get_elem?-of_drop window r.buffer_index e).0 in
    record {
      after = record r { buffer_index = r.buffer_index + step };
      runs = rw (found, load);
      open_after = record { block = o.block; filled = o.filled; arrives = o.arrives };
      pending_after =
          ap (λ xs. xs ++ flat (incoming r.client)) (drop_step window r.buffer_index step c small e)
          ∙ drop-append_step step c rest (flat (incoming r.client)) small;
      strip_after = refl;
    }

-- What `refill` does when recv delivers `x` and then `xs`.
module _ (r : Request) (o : IsOpen r) where
  next_of :
      (x : ReadResult) (xs : List ReadResult)
      → next_result (incoming r.client) ≡ (x, xs)
      → ((http_read r.client).0 ≡ x) × (incoming (http_read r.client).1 ≡ xs)
  next_of x xs e = (
    (http_read-incoming r.client).0 ∙ ap (λ t. t.0) e,
    (http_read-incoming r.client).1 ∙ ap (λ t. t.1) e,
  )

  refill_end :
      incoming r.client ≡ []
      → IsOpen (refill r) × (pending (refill r) ≡ []) × ((refill r).buffer_len ≡ 0)
  unfolding refill pending next_result read_size
  refill_end e =
      let (x, i) = next_of (received []) [] (rw e) in
      (
        record { block = rw x o.block; filled = rw x (omega arith); arrives = rw i tt },
        rw (x, i, drop-all {A = ℕ} [] r.buffer_index (omega arith)),
        rw x,
      )

  refill_more :
      (b : ℕ) (bs : Bytes) (xs : List ReadResult)
      → incoming r.client ≡ received (b ∷ bs) ∷ xs
      → IsOpen (refill r)
        × (take (refill r).buffer_len (refill r).buffer ≡ b ∷ bs)
        × (incoming (refill r).client ≡ xs)
        × ((refill r).buffer_len ≡ suc (length bs))
  unfolding refill next_result read_size
  refill_more b bs xs e =
      let (x, i) = next_of (received (b ∷ bs)) xs (rw e) in
      let (full, fits, later) = rw e at o.arrives in
      (
        record {
          block = rw x (
              omega (
                arith,
                length-append bs (drop (suc (length bs)) r.buffer),
                length-drop (suc (length bs)) r.buffer,
                o.block,
              ));
          filled = rw x fits;
          arrives = rw i later;
        },
        rw x (ap (◌∷◌ b) (take-append bs _)),
        i,
        rw x,
      )

-- What one call sees of the bytes to come: the first of them as an int, or the end of the input.
abbrev pub stream_head : Bytes → ℤ
stream_head [] = io_eof
stream_head (c ∷ cs) = char_to_int c

-- The buffer holds a byte that is not read.
read_char_in_window :
    (step : ℕ) (r : Request) (c : ℕ) (rest : Bytes)
    → IsOpen r
    → step ≤ 1
    → drop r.buffer_index (take r.buffer_len r.buffer) ≡ c ∷ rest
    → Reads (read_char step) r (done (stream_head (pending r))) (drop step (pending r))
unfolding read_char pending
read_char_in_window step r c rest o small e =
    let inside : r.buffer_index < r.buffer_len = omega (
      arith,
      ap length e,
      length-drop r.buffer_index (take r.buffer_len r.buffer),
      length-take r.buffer r.buffer_len (omega arith),
    ) in
    let test : leb r.buffer_len r.buffer_index ≡ false = ground arith in
    let loaded = load-Reads step r c rest o e small in
    record {
      after = loaded.after;
      runs = rw (test, e) loaded.runs;
      open_after = loaded.open_after;
      pending_after = rw e loaded.pending_after;
      strip_after = loaded.strip_after;
    }

-- The buffer is used up, and recv is called.
read_char_refilled :
    (step : ℕ) (r : Request) (ys : List ReadResult)
    → IsOpen r
    → step ≤ 1
    → leb r.buffer_len r.buffer_index ≡ true
    → incoming r.client ≡ ys
    → NoFailure ys
    → Reads (read_char step) r (done (stream_head (flat ys))) (drop step (flat ys))
unfolding read_char
read_char_refilled step r [] o small test e ok =
    let (open', none', zero') = refill_end r o e in
    record {
      after = refill r;
      runs = rw (test, zero');
      open_after = open';
      pending_after = none' ∙ sym (drop-all {A = ℕ} [] step (omega arith));
      strip_after = unfold strip refill in refl;
    }
read_char_refilled step r (failed ∷ xs) o small test e ok = absurd ok
read_char_refilled step r (received [] ∷ xs) o small test e ok = absurd (omega arith)
read_char_refilled step r (received (b ∷ bs) ∷ xs) o small test e ok =
    let (open', first, later, count) = refill_more r o b bs xs e in
    let some_read : ltb (refill r).buffer_len 0 ≡ false = ground arith in
    let not_none : (refill r).buffer_len == 0 ≡ false = ground arith in
    let loaded =
      load-Reads step (record (refill r) { buffer_index = 0 }) b bs
        (record { block = open'.block; filled = open'.filled; arrives = open'.arrives }) first
        small in
    record {
      after = loaded.after;
      runs = rw (test, some_read, not_none) loaded.runs;
      open_after = loaded.open_after;
      pending_after = loaded.pending_after ∙ ap (λ ys. drop step (b ∷ (bs ++ flat ys))) later;
      strip_after = loaded.strip_after ∙ (unfold strip refill in refl);
    }

-- `io_peek` (step 0) and `io_next` (step 1) behave as on the bytes to come: they see the first one,
-- or the end.
pub read_char-Reads :
    (step : ℕ) (r : Request)
    → step ≤ 1
    → IsOpen r
    → Reads (read_char step) r (done (stream_head (pending r))) (drop step (pending r))
read_char-Reads step r small o = go (drop r.buffer_index (take r.buffer_len r.buffer)) refl
  where
    go :
        (w : Bytes)
        → drop r.buffer_index (take r.buffer_len r.buffer) ≡ w
        → Reads (read_char step) r (done (stream_head (pending r))) (drop step (pending r))
    go (c ∷ rest) e = read_char_in_window step r c rest o small e
    go [] e =
        let used : r.buffer_len ≤ r.buffer_index = omega (
          arith,
          ap length e,
          length-drop r.buffer_index (take r.buffer_len r.buffer),
          length-take r.buffer r.buffer_len (omega arith),
        ) in
        let all : pending r ≡ flat (incoming r.client) = unfold pending in rw e in
        rw all (read_char_refilled step r (incoming r.client) o small (ground arith) refl o.arrives)
