-- ===== src/Server/Answer.antt =====
-- `handle_client_request` of main.c, and `http_write` of http.c.
pub mod Delivery
pub mod Pages
pub mod Refused
mod Tests
use nvhttpd.Base.{
  ℕ, zero, suc, ◌+◌, ◌-◌, ◌%◌, ◌^◌, Bool, true, false, List, [], ◌∷◌, Option, none, some, ◌++◌, ltb,
  leb, ◌==◌, if◌then◌else◌, length, take, drop,
}
use nvhttpd.Base.Chars.{Bytes}
use nvhttpd.Http.{HttpClient}
use nvhttpd.Cache.{
  CacheElement, Slot, Cache, Result, done, error, crash, out_of_fuel, on_done, cache_find,
}
use nvhttpd.Request.State.{Request, ParseError, io_error, bad, not_implemented}
use nvhttpd.Request.State as Parser
use nvhttpd.Request.Parse.{request_get, request_parse, is_get}
use nvhttpd.Server.Settings.{
  TextField, response_400_path, response_404_path, response_500_path, response_501_path, Settings,
}
use nvhttpd.Server.Response.{
  ResponseCode, response_200, response_400, response_404, response_500, response_501,
  http_response_header,
}

-- One call of send or SSL_write_ex: how many bytes the connection takes at most, or a failure.
pub data WriteResult : Type 0 where
  takes : ℕ → WriteResult
  write_failed : WriteResult

-- Behind the results that are listed, the connection takes everything.
unfoldable pub next_write : ℕ → List WriteResult → WriteResult × List WriteResult
next_write len [] = (takes len, [])
next_write len (x ∷ xs) = (x, xs)

-- The bytes that went out.
unfoldable pub written : ℕ → WriteResult → ℕ
written len (takes most) = if ltb most len then most else len
written len write_failed = 0

-- `http_write`: the -1 of send is converted to size_t; a failure of SSL_write_ex is 0.
unfoldable pub http_write : Bool → ℕ → WriteResult → ℕ
http_write ssl len (takes most) = written len (takes most)
http_write ssl len write_failed = if ssl then 0 else 2 ^ 64 - 1

-- How `handle_client_request` ends: the client is closed, and these bytes went out.
pub data Reply : Type 0 where
  closed : Bytes → Reply
  undefined : Reply
  no_fuel : Reply

-- The loop over `out_len` and `offset`, on 64 bits; `sent` went out before.
unfoldable pub write_loop : ℕ → Bool → List WriteResult → Bytes → ℕ → ℕ → Bytes → Reply
write_loop zero ssl writes output offset out_len sent = no_fuel
write_loop (suc fuel) ssl writes output offset out_len sent =
    let result = (next_write out_len writes).0 in
    let size = http_write ssl out_len result in
    let rest =
      write_loop fuel ssl (next_write out_len writes).1 output ((offset + size) % 2 ^ 64)
        ((out_len + (2 ^ 64 - size)) % 2 ^ 64)
        (sent ++ take (written out_len result) (drop offset output)) in
    if out_len == 0
    then closed sent
    else if leb (offset + out_len) (length output)
    then (if size == 0 then closed sent else rest)
    else undefined

-- What a thread has of the server: the cache, the settings, the text of the date and what `%s`
-- writes for NULL; the calls of malloc and strdup that succeed; and what the connection takes.
pub record Thread : Type 0 where
  pub cache : Option Cache
  pub settings : Settings
  pub date : Bytes
  pub printed_null : Bytes
  pub has_copy : Bool
  pub has_other_copy : Bool
  pub has_header : Bool
  pub has_output : Bool
  pub writes : List WriteResult

-- `code`; `none` is the `goto terminate`.
unfoldable pub code_of : Parser.Outcome (Unit {0}) → Option ResponseCode
code_of (Parser.done tt) = some response_200
code_of (Parser.fail bad) = some response_400
code_of (Parser.fail not_implemented) = some response_501
code_of (Parser.fail io_error) = none
code_of (Parser.fail e) = some response_500
code_of Parser.crash = none
code_of Parser.out_of_fuel = none

-- `path`, for the code.
unfoldable pub path_of : Settings → Request → ResponseCode → Option Bytes
path_of s r response_200 = r.uri
path_of s r response_400 = s.texts response_400_path
path_of s r response_404 = s.texts response_404_path
path_of s r response_500 = s.texts response_500_path
path_of s r response_501 = s.texts response_501_path

abbrev pub is_200 : ResponseCode → Bool
is_200 response_200 = true
is_200 _ = false

-- The page of status 404, where the code was 200; `hash` reads a path that is NULL.
unfoldable pub other_page : ℕ → Thread → ResponseCode → Result (ResponseCode × Slot)
other_page fuel t code =
    if is_200 code
    then elim (t.settings.texts response_404_path) [
      | none ↦ crash
      | some path ↦
          on_done (cache_find t.has_other_copy fuel t.cache path) (λ e. done (response_404, e))
    ]
    else done (code, none)

-- `e` and `code` behind the search for the page; without a path `e` is not initialised.
unfoldable pub find_page : ℕ → Thread → ResponseCode → Option Bytes → Result (ResponseCode × Slot)
find_page fuel t code none = crash
find_page fuel t code (some path) =
    on_done (cache_find t.has_copy fuel t.cache path)
      (λ page. elim page [ some e ↦ done (code, some e) | none ↦ other_page fuel t code ])

-- The header and the first `data_len` bytes of the page, and their way to the client.
unfoldable pub send_bytes : ℕ → Thread → Bool → ResponseCode → ℕ → CacheElement → Reply
send_bytes fuel t ssl code data_len e =
    elim (http_response_header t.date t.printed_null t.has_header code data_len e.mime
      t.settings.response_headers) [
        | done (some header) ↦
            if t.has_output
            then (let output = header ++ take data_len e.content in
                write_loop fuel ssl t.writes output 0 (length output) [])
            else closed []
        | done none ↦ if t.has_output then undefined else closed []
        | error ↦ undefined
        | crash ↦ undefined
        | out_of_fuel ↦ no_fuel
      ]

-- `data_len`: the page is sent to a GET only.
unfoldable pub send_page : ℕ → Thread → Bool → Bool → ResponseCode → CacheElement → Reply
send_page fuel t ssl get code e = send_bytes fuel t ssl code (if get then e.len else 0) e

-- Without a page the length of an element that is not initialised is read.
unfoldable pub send_found : ℕ → Thread → Bool → Bool → Result (ResponseCode × Slot) → Reply
send_found fuel t ssl get (done (code, some e)) = send_page fuel t ssl get code e
send_found fuel t ssl get (done (code, none)) = undefined
send_found fuel t ssl get error = undefined
send_found fuel t ssl get crash = undefined
send_found fuel t ssl get out_of_fuel = no_fuel

-- What stands behind `request_parse`.
unfoldable pub answer : ℕ → Thread → Parser.Outcome (Unit {0}) × Request → Reply
answer fuel t (Parser.crash, r) = undefined
answer fuel t (Parser.out_of_fuel, r) = no_fuel
answer fuel t (out, r) = elim (code_of out) [
  | none ↦ closed []
  | some code ↦
      send_found fuel t r.client.ssl_ctx (is_get r.method)
        (find_page fuel t code (path_of t.settings r code))
]

-- `handle_client_request`, with the block that the request's buffer is in and the results of its
-- allocations. Where `request_get` returns NULL, its headers are read through it.
unfoldable pub handle_client_request : ℕ → Thread → HttpClient → Option Bytes → List Bool → Reply
handle_client_request fuel t client none coming = undefined
handle_client_request fuel t client (some memory) coming =
    answer fuel t (request_parse fuel (request_get client memory coming))
