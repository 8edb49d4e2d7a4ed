-- ===== src/Server/Answer/Pages.antt =====
-- What a client gets.
use mathlib.Core.Path.{subst}
use nvhttpd.Base.{
  ℕ, ◌*◌, ◌^◌, ◌≤◌, ◌<◌, Bool, true, false, List, [], ◌∷◌, none, some, ◌++◌, ◌≡◌, ◌≢◌, refl, sym,
  ap, ◌∙◌, if◌then◌else◌, length, take, take-append, append-nil, lt→ltb,
}
use nvhttpd.Base.Chars.{Bytes}
use nvhttpd.Http.{HttpClient}
use nvhttpd.Cache.{
  CacheElement, Cache, done, on_done, cache_load, new_element, new_elements, same_text,
}
use nvhttpd.Cache.Serves.{lookup}
use nvhttpd.Cache.Lookup.{cache_find-finds_loaded}
use nvhttpd.Cache.Misses.{cache_find-misses_loaded}
use nvhttpd.Request.State.{Request, ParseError, io_error, bad, not_implemented, internal, other}
use nvhttpd.Request.State as Parser
use nvhttpd.Request.Parse.{request_get, request_parse, is_get}
use nvhttpd.Server.Settings.{response_404_path}
use nvhttpd.Server.Response.{
  ResponseCode, response_200, response_404, header_text, header_size, http_response_header,
}
use nvhttpd.Server.Answer.{
  closed, Thread, code_of, path_of, other_page, find_page, send_bytes, send_page, send_found,
  answer, handle_client_request,
}
use nvhttpd.Server.Answer.Delivery.{IsOpen, write_loop-sends}

-- The bytes of the page that a GET gets, and a HEAD does not.
abbrev pub body_of : Bool → CacheElement → Bytes
body_of get e = if get then e.content else []

-- The header in front of them.
abbrev pub header_of : Thread → ResponseCode → Bool → CacheElement → Bytes
header_of t code get e =
    header_text t.date t.printed_null code (length (body_of get e)) e.mime
      t.settings.response_headers

-- The header fits into its block, the calls of malloc and strdup return memory, the connection takes
-- the bytes, and the fuel is enough for them.
pub record CanSend (fuel : ℕ) (t : Thread) (code : ResponseCode) (get : Bool) (e : CacheElement)
    : Type 0 where
  pub fits : length (header_of t code get e) < header_size
  pub has_header : t.has_header ≡ true
  pub has_output : t.has_output ≡ true
  pub open_writes : IsOpen t.writes
  pub short : length (header_of t code get e ++ body_of get e) < 2 ^ 64
  pub enough : length (header_of t code get e ++ body_of get e) < fuel

take-all : (xs : Bytes) → take (length xs) xs ≡ xs
take-all xs = ap (take (length xs)) (sym (append-nil xs)) ∙ take-append xs []

data_len-body :
    (get : Bool) (e : CacheElement)
    → e.len ≡ length e.content
    → (if get then e.len else 0) ≡ length (body_of get e)
data_len-body true e h = h
data_len-body false e h = refl

taken-body :
    (get : Bool) (e : CacheElement) → take (length (body_of get e)) e.content ≡ body_of get e
taken-body true e = take-all e.content
taken-body false e = refl

send_page-closed :
    (fuel : ℕ) (t : Thread) (ssl get : Bool) (code : ResponseCode) (e : CacheElement)
    → e.len ≡ length e.content
    → CanSend fuel t code get e
    → send_page fuel t ssl get code e ≡ closed (header_of t code get e ++ body_of get e)
unfolding send_page send_bytes http_response_header
send_page-closed fuel t ssl get code e h can =
    let fit = lt→ltb (length (header_of t code get e)) header_size can.fits in
    ap (λ n. send_bytes fuel t ssl code n e) (data_len-body get e h)
    ∙ rw (send_bytes, http_response_header, fit, can.has_header, can.has_output, taken-body get e)
        (write_loop-sends fuel ssl t.writes (header_of t code get e ++ body_of get e)
          can.open_writes can.short can.enough)

-- An element of the site holds as many bytes as it says.
lookup-len :
    (base_path : Bytes) (files : List (Bytes × Bytes)) (path : Bytes) (e : CacheElement)
    → lookup (new_elements base_path files) path ≡ some e
    → e.len ≡ length e.content
unfolding lookup new_elements new_element
lookup-len base_path [] path e h = cc
lookup-len base_path ((name, content) ∷ files) path e h =
    go (same_text name path) h (lookup-len base_path files path e)
  where
    go :
        (b : Bool)
        → (if b
            then some (new_element base_path (name, content))
            else lookup (new_elements base_path files) path)
          ≡ some e
        → (lookup (new_elements base_path files) path ≡ some e → e.len ≡ length e.content)
        → e.len ≡ length e.content
    go true h again =
        let same : new_element base_path (name, content) ≡ e = cc in
        subst (λ x. x.len ≡ length x.content) same refl
    go false h again = again h

not_coded :
    (code : ResponseCode)
    → (code_of Parser.crash ≢ some code) × (code_of Parser.out_of_fuel ≢ some code)
unfolding code_of
not_coded code = ((λ h. cc), λ h. cc)

pub answer-code :
    (fuel : ℕ) (t : Thread) (out : Parser.Outcome (Unit {0})) (r : Request) (code : ResponseCode)
    → code_of out ≡ some code
    → answer fuel t (out, r)
      ≡ send_found fuel t r.client.ssl_ctx
          (is_get r.method)
          (find_page fuel t code (path_of t.settings r code))
unfolding answer
answer-code fuel t (Parser.done u) r code h = rw (answer, h) refl
answer-code fuel t (Parser.fail e) r code h = rw (answer, h) refl
answer-code fuel t Parser.crash r code h = absurd ((not_coded code).0 h)
answer-code fuel t Parser.out_of_fuel r code h = absurd ((not_coded code).1 h)

-- The search for the page of a path, in a table that the site was loaded to.
found_page :
    (fuel : ℕ) (t : Thread) (code : ResponseCode) (path base_path : Bytes)
    (files : List (Bytes × Bytes)) (table : Cache) (e : CacheElement)
    → cache_load true fuel base_path files ≡ done table
    → t.cache ≡ some table
    → t.has_copy ≡ true
    → lookup (new_elements base_path files) path ≡ some e
    → find_page fuel t code (some path) ≡ done (code, some e)
unfolding find_page on_done
found_page fuel t code path base_path files table e loaded cache copy at =
    rw (copy, cache, (cache_find-finds_loaded fuel base_path files table loaded path e).1 at) refl

-- A request is parsed, and its path, or the path that the settings have for its error, is that of a
-- file of the site: the client gets the header for the code, and the bytes of the file if the method
-- is GET. The cache is the one that was loaded from the site, malloc and strdup return memory, the
-- header fits into its block, no write fails and the fuel is enough (CanSend).
pub handle_client_request-page :
    (fuel : ℕ) (t : Thread) (client : HttpClient) (memory : Bytes) (coming : List Bool)
    (out : Parser.Outcome (Unit {0})) (r : Request) (code : ResponseCode) (path base_path : Bytes)
    (files : List (Bytes × Bytes)) (table : Cache) (e : CacheElement)
    → request_parse fuel (request_get client memory coming) ≡ (out, r)
    → code_of out ≡ some code
    → path_of t.settings r code ≡ some path
    → cache_load true fuel base_path files ≡ done table
    → t.cache ≡ some table
    → t.has_copy ≡ true
    → lookup (new_elements base_path files) path ≡ some e
    → CanSend fuel t code (is_get r.method) e
    → handle_client_request fuel t client (some memory) coming
      ≡ closed (header_of t code (is_get r.method) e ++ body_of (is_get r.method) e)
unfolding handle_client_request send_found
handle_client_request-page fuel t client memory coming out r code path base_path files table e
      parsed coded at loaded cache copy page can =
    ap (answer fuel t) parsed
    ∙ answer-code fuel t out r code coded
    ∙ ap (λ p. send_found fuel t r.client.ssl_ctx (is_get r.method) (find_page fuel t code p)) at
    ∙ ap (send_found fuel t r.client.ssl_ctx (is_get r.method))
        (found_page fuel t code path base_path files table e loaded cache copy page)
    ∙ send_page-closed fuel t r.client.ssl_ctx (is_get r.method) code e
        (lookup-len base_path files path e page) can

-- A request is parsed, the site has no file with its path, and it has the page for status 404: the
-- client gets this page with that code, its bytes if the method is GET. The cache is the one that was
-- loaded from the site, of at most 32768 files, the fuel is at least twice their number, and the
-- answer can be sent (CanSend).
pub handle_client_request-missing :
    (fuel : ℕ) (t : Thread) (client : HttpClient) (memory : Bytes) (coming : List Bool)
    (r : Request) (path path_404 base_path : Bytes) (files : List (Bytes × Bytes)) (table : Cache)
    (e : CacheElement)
    → request_parse fuel (request_get client memory coming) ≡ (Parser.done tt, r)
    → r.uri ≡ some path
    → t.settings.texts response_404_path ≡ some path_404
    → cache_load true fuel base_path files ≡ done table
    → length files ≤ 32768
    → 2 * length files ≤ fuel
    → t.cache ≡ some table
    → t.has_other_copy ≡ true
    → lookup (new_elements base_path files) path ≡ none
    → lookup (new_elements base_path files) path_404 ≡ some e
    → CanSend fuel t response_404 (is_get r.method) e
    → handle_client_request fuel t client (some memory) coming
      ≡ closed (header_of t response_404 (is_get r.method) e ++ body_of (is_get r.method) e)
unfolding handle_client_request send_found find_page other_page on_done code_of path_of
handle_client_request-missing fuel t client memory coming r path path_404 base_path files table e
      parsed at at_404 loaded most enough cache copy missing page can =
    ap (answer fuel t) parsed
    ∙ answer-code fuel t (Parser.done tt) r response_200 refl
    ∙ ap
        (λ p.
          send_found fuel t r.client.ssl_ctx (is_get r.method) (find_page fuel t response_200 p))
        at
    ∙ ap (send_found fuel t r.client.ssl_ctx (is_get r.method)) searched
    ∙ send_page-closed fuel t r.client.ssl_ctx (is_get r.method) response_404 e
        (lookup-len base_path files path_404 e page) can
  where
    searched : find_page fuel t response_200 (some path) ≡ done (response_404, some e)
    searched =
        rw
          (
            cache,
            cache_find-misses_loaded fuel base_path files table loaded most enough t.has_copy path
                missing,
            at_404,
            copy,
            cache,
            (cache_find-finds_loaded fuel base_path files table loaded path_404 e).1 page,
          )
          refl
