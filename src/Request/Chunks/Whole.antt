-- ===== src/Request/Chunks/Whole.antt =====
-- `request_parse` as a whole.
use nvhttpd.Base.{ℕ, ◌<◌, Bool, not, ◌||◌, Option, ◌≡◌, ◌≢◌, refl, ◌==◌, length}
use nvhttpd.Base.Chars.{Bytes, is_space}
use nvhttpd.Request.State.{
  Request, RequestMethod, on_fail, RequestType, simple, full, ParseError, bad, not_implemented,
  io_error, out_of_fuel,
}
use nvhttpd.Request.Method.{get_method}
use nvhttpd.Request.Parse.{
  is_get, is_head, is_simple, require, bad_method, skip_blanks, skip_to_uri, set_type, parse_method,
  parse_target, parse_type, set_version_default, parse_version, parse_rest, request_parse,
}
use nvhttpd.Request.Io.Stream.{IsOpen, pending, strip}
use nvhttpd.Request.Chunks.Runs.{
  Same, Runs, IsView, with_reader, Same-self, bind, return-Runs, fail-Runs, branch, on_fail-Runs,
  test-Runs, modify-Runs,
}
use nvhttpd.Request.Chunks.Reader.{
  or_io_error-Runs, next_char-Runs, peek_char-Runs, expect-Runs, skip_ws-Runs,
}
use nvhttpd.Request.Chunks.Fields.{KeepsVariables, KeepsHeaders, get_query-Runs, get_headers-Runs}
use nvhttpd.Request.Chunks.Line.{
  get_method-Runs, get_uri-Runs, get_uri_fragment-Runs, get_http_ver-Runs,
}

-- The views of the request that each part of `request_parse` leaves as they are.
abbrev pub KeepsType : {V : Type 0} → (Request → V) → Type 0
KeepsType view = (r : Request) (t : RequestType) → view (record r { type = t }) ≡ view r

abbrev pub KeepsMethod : {V : Type 0} → (Request → V) → Type 0
KeepsMethod view = (r : Request) (m : RequestMethod) → view (record r { method = m }) ≡ view r

abbrev pub KeepsUri : {V : Type 0} → (Request → V) → Type 0
KeepsUri view = (r : Request) (u : Option Bytes) → view (record r { uri = u }) ≡ view r

abbrev pub KeepsFragment : {V : Type 0} → (Request → V) → Type 0
KeepsFragment view =
    (r : Request) (u : Option Bytes) → view (record r { uri_fragment = u }) ≡ view r

abbrev pub KeepsVersion : {V : Type 0} → (Request → V) → Type 0
KeepsVersion view =
    (r : Request) (i j : ℕ)
    → view (record r { http_version_major = i; http_version_minor = j }) ≡ view r

module _ {V : Type 0} {view : Request → V} (w : IsView view) (fuel : ℕ) where
  pub skip_blanks-Runs : Runs view fuel (skip_blanks fuel)
  unfolding skip_blanks
  skip_blanks-Runs = bind or_io_error-Runs (skip_ws-Runs w fuel)

  require-Runs :
      (test : Request → Bool) (e : ParseError)
      → ((r : Request) → test r ≡ test (strip r))
      → Runs view fuel (require test e)
  unfolding require
  require-Runs test e t = test-Runs test t (return-Runs tt) (fail-Runs e)

  pub skip_to_uri-Runs : Runs view fuel (skip_to_uri fuel)
  unfolding skip_to_uri
  skip_to_uri-Runs =
      bind
        (λ ch.
          branch (is_space ch)
            (bind (λ c. branch (c == b'\n') (fail-Runs bad) (return-Runs tt)) skip_blanks-Runs)
            (fail-Runs bad))
        (next_char-Runs w)

  pub get_method_or-Runs : KeepsMethod view → Runs view fuel (on_fail get_method bad_method)
  get_method_or-Runs keep = on_fail-Runs bad_method (get_method-Runs w keep)

  pub parse_method-Runs : KeepsMethod view → Runs view fuel (parse_method fuel)
  unfolding parse_method strip
  parse_method-Runs keep =
      bind
        (λ _.
          bind (λ _. skip_to_uri-Runs)
            (require-Runs (λ r. is_get r.method || is_head r.method) not_implemented (λ r. refl)))
        (get_method_or-Runs keep)

  pub parse_target-Runs :
      KeepsUri view → KeepsFragment view → KeepsVariables view → Runs view fuel (parse_target fuel)
  unfolding parse_target
  parse_target-Runs keep_uri keep_fragment keep_variables =
      bind
        (λ _.
          bind
            (λ first.
              bind
                (λ ch.
                  branch (ch == b'#')
                    (bind
                      (λ hash. bind (λ _. return-Runs 0) (get_uri_fragment-Runs w keep_fragment))
                      (next_char-Runs w))
                    (return-Runs ch))
                (branch (first == b'?')
                  (bind (λ _. peek_char-Runs w) (get_query-Runs w keep_variables fuel))
                  (return-Runs first)))
            (peek_char-Runs w))
        (get_uri-Runs w keep_uri)

  set_type-Runs : KeepsType view → (t : RequestType) → Runs view fuel (set_type t)
  unfolding set_type strip with_reader
  set_type-Runs keep t = modify-Runs (λ r. refl) (λ r. keep r t)

  pub parse_type-Runs : KeepsType view → (ch : ℕ) → Runs view fuel (parse_type fuel ch)
  unfolding parse_type
  parse_type-Runs keep ch =
      bind
        (λ _.
          branch (is_space ch)
            (bind (λ c. branch (c == b'\n') (set_type-Runs keep simple) (return-Runs tt))
              skip_blanks-Runs)
            (return-Runs tt))
        (set_type-Runs keep full)

  pub parse_version-Runs : KeepsVersion view → Runs view fuel parse_version
  unfolding parse_version set_version_default strip with_reader
  parse_version-Runs keep =
      test-Runs (λ r. is_simple r.type) (λ r. refl)
        (bind (λ _. modify-Runs (λ r. refl) (λ r. keep r _ _))
          (require-Runs (λ q. is_get q.method) bad (λ r. refl)))
        (on_fail-Runs (λ e. io_error) (get_http_ver-Runs w keep))

  pub parse_rest-Runs : KeepsHeaders view → Runs view fuel (parse_rest fuel)
  unfolding parse_rest
  parse_rest-Runs keep =
      bind
        (λ _.
          bind
            (λ _.
              bind
                (λ _.
                  bind
                    (λ ch.
                      branch (ch == b'\r') (expect-Runs w b'\n' bad)
                        (branch (not (ch == b'\n')) (fail-Runs bad) (return-Runs tt)))
                    (next_char-Runs w))
                (on_fail-Runs (λ e. bad) (get_headers-Runs w keep fuel)))
            (expect-Runs w b'\n' bad))
        (expect-Runs w b'\r' bad)

-- The view of nothing, which every part leaves as it is.
abbrev pub blind : Request → Unit {0}
blind r = tt

pub blind-IsView : IsView blind
blind-IsView = record { of_strip = λ r. refl; of_allocations = λ r l. refl }

request_parse-Runs : (fuel : ℕ) → Runs blind fuel (request_parse fuel)
unfolding request_parse
request_parse-Runs fuel =
    let w = blind-IsView in
    bind
      (λ _.
        bind
          (λ ch.
            bind
              (λ _.
                bind (λ _. parse_rest-Runs w fuel (λ r l. refl))
                  (parse_version-Runs w fuel (λ r i j. refl)))
              (parse_type-Runs w fuel (λ r t. refl) ch))
          (parse_target-Runs w fuel (λ r u. refl) (λ r u. refl) (λ r l. refl)))
      (parse_method-Runs w fuel (λ r m. refl))

-- Two connections that deliver the same bytes, cut into pieces in two ways, are parsed alike: from
-- requests that differ in their readers alone, with fuel for the bytes to come, request_parse ends in
-- the same outcome, fills in the same fields, and leaves the same bytes unread.
pub request_parse_chunks :
    (fuel : ℕ) (r s : Request)
    → Same r s
    → length (pending r) < fuel
    → ((request_parse fuel r).0 ≡ (request_parse fuel s).0)
      × (strip (request_parse fuel r).1 ≡ strip (request_parse fuel s).1)
      × (pending (request_parse fuel r).1 ≡ pending (request_parse fuel s).1)
request_parse_chunks fuel r s eq enough =
    let end = (request_parse-Runs fuel).agree r s eq enough in
    (end.outcome, end.same.strip_eq, end.same.pending_eq)

-- Where recv does not fail, request_parse ends on every input: fuel above the number of bytes to come
-- does not run out.
pub request_parse_ends :
    (fuel : ℕ) (r : Request)
    → IsOpen r
    → length (pending r) < fuel
    → (request_parse fuel r).0 ≢ out_of_fuel
request_parse_ends fuel r o enough =
    ((request_parse-Runs fuel).agree r r (Same-self r o) enough).fuelled
