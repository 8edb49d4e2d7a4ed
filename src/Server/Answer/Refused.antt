-- ===== src/Server/Answer/Refused.antt =====
-- What a client gets whose method the program knows and does not implement.
use nvhttpd.Base.{
  ℕ, ◌*◌, ◌≤◌, Bool, true, false, List, ◌∷◌, none, some, ◌++◌, ◌≡◌, refl, ap, ◌∙◌, length,
}
use nvhttpd.Base.Chars.{Bytes, is_space}
use nvhttpd.Http.{HttpClient}
use nvhttpd.Cache.{Cache, done, on_done, cache_load, new_elements}
use nvhttpd.Cache.Serves.{lookup}
use nvhttpd.Cache.Misses.{cache_find-misses_loaded}
use nvhttpd.Request.State.{
  Request, RequestMethod, connect, delete, get, head, options, post, put, trace, Outcome,
  not_implemented, fail, stop, go_on, ◌>>=◌, on_fail,
}
use nvhttpd.Request.State as Parser
use nvhttpd.Request.Method.{get_method}
use nvhttpd.Request.Method.Stores.{method_str, outcome_of}
use nvhttpd.Request.Method.Words.{get_method_words}
use nvhttpd.Request.Parse.{request_get, is_get, is_head, require, parse_method, request_parse}
use nvhttpd.Request.Io.Stream.{IsOpen, pending}
use nvhttpd.Server.Settings.{response_501_path}
use nvhttpd.Server.Response.{response_501}
use nvhttpd.Server.Answer.{
  undefined, Thread, code_of, path_of, other_page, find_page, send_found, answer,
  handle_client_request,
}
use nvhttpd.Server.Answer.Pages.{answer-code}

-- The methods whose names `get_method` accepts and `request_parse` does not.
abbrev pub is_refused : RequestMethod → Bool
is_refused connect = true
is_refused delete = true
is_refused options = true
is_refused trace = true
is_refused _ = false

refused_cases :
    (m : RequestMethod)
    → is_refused m ≡ true
    → (outcome_of m ≡ Parser.done tt) × (is_get m ≡ false) × (is_head m ≡ false)
refused_cases connect h = (refl, refl, refl)
refused_cases delete h = (refl, refl, refl)
refused_cases options h = (refl, refl, refl)
refused_cases trace h = (refl, refl, refl)
refused_cases get h = absurd cc
refused_cases head h = absurd cc
refused_cases post h = absurd cc
refused_cases put h = absurd cc

-- Such a request is not read beyond its method.
request_parse_refuses :
    (fuel : ℕ) (m : RequestMethod) (c : ℕ) (rest : Bytes) (r : Request)
    → is_refused m ≡ true
    → IsOpen r
    → pending r ≡ method_str m ++ (c ∷ rest)
    → is_space c ≡ true
    → (q : Request) × (request_parse fuel r ≡ (fail not_implemented, q))
unfolding request_parse parse_method require on_fail go_on ◌>>=◌ stop
request_parse_refuses fuel m c rest r refused o e blank =
    let s = get_method_words m c rest r o e blank in
    let (accepted, not_get, not_head) = refused_cases m refused in
    let out : (get_method r).0 ≡ Parser.done tt = s.outcome ∙ accepted in
    ((get_method r).1, rw (out, s.stored, not_get, not_head) refl)

-- A client sends the name of a method that is known and not implemented (CONNECT, DELETE, OPTIONS,
-- TRACE), a blank and anything more, and the page for status 501 is not in the site: the answer is
-- undefined behaviour, since the length of an element that was never set is read. The cache is the
-- one that was loaded from the site, of at most 32768 files, the fuel is at least twice their number,
-- and no recv fails.
pub handle_client_request-refused :
    (fuel : ℕ) (t : Thread) (client : HttpClient) (memory : Bytes) (coming : List Bool)
    (m : RequestMethod) (c : ℕ) (rest path base_path : Bytes) (files : List (Bytes × Bytes))
    (table : Cache)
    → is_refused m ≡ true
    → IsOpen (request_get client memory coming)
    → pending (request_get client memory coming) ≡ method_str m ++ (c ∷ rest)
    → is_space c ≡ true
    → t.settings.texts response_501_path ≡ some path
    → cache_load true fuel base_path files ≡ done table
    → length files ≤ 32768
    → 2 * length files ≤ fuel
    → t.cache ≡ some table
    → lookup (new_elements base_path files) path ≡ none
    → handle_client_request fuel t client (some memory) coming ≡ undefined
unfolding handle_client_request send_found find_page other_page on_done code_of path_of
handle_client_request-refused fuel t client memory coming m c rest path base_path files table
      refused o e blank at loaded most enough cache missing =
    let (r, parsed) =
      request_parse_refuses fuel m c rest (request_get client memory coming) refused o e blank in
    let none_there =
      cache_find-misses_loaded fuel base_path files table loaded most enough t.has_copy path
        missing in
    ap (answer fuel t) parsed
    ∙ answer-code fuel t (fail not_implemented) r response_501 refl
    ∙ rw (at, cache, none_there) refl
