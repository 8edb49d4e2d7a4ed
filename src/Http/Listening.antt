-- ===== src/Http/Listening.antt =====
-- `http_init` and `http_close` of http.c.
pub mod Closed
mod Tests
use nvhttpd.Base.{ℕ, ◌+◌, ◌-◌, ◌%◌, ◌^◌, Bool, true, false, Option, none, some, if◌then◌else◌}
use nvhttpd.Base.Chars.{Bytes, codes, ℤ, pos, negsuc}
use nvhttpd.Cache.{same_text, Result, done, crash}

-- What inet_pton returns: 1 and an address, 0 for a text that is none, or -1.
pub data Pton : Type 0 where
  address : ℕ → Pton
  no_address : Pton
  unsupported : Pton

-- `sin_addr`: INADDR_ANY, an address, or what malloc left there.
pub data SinAddr : Type 0 where
  inaddr_any : SinAddr
  in_addr : ℕ → SinAddr
  unset : SinAddr

-- `http_server_s`, with an open socket; `sin_port` in the order of the host.
pub record HttpServer : Type 0 where
  pub html_path : Option Bytes
  pub ssl_ctx : Bool
  pub sin_addr : SinAddr
  pub sin_port : ℕ

-- The calls of `http_init`: whether they succeed.
pub record ListenCalls : Type 0 where
  pub has_memory : Bool
  pub socket : Bool
  pub inet_pton : Bytes → Pton
  pub bind : Bool
  pub listen : Bool

-- The structures and sockets of servers that are not released.
pub record Servers : Type 0 where
  pub structures : ℕ
  pub sockets : ℕ

-- `htons(port)` on an int.
unfoldable pub port_bits : ℤ → ℕ
port_bits (pos n) = n % 2 ^ 16
port_bits (negsuc n) = 2 ^ 16 - 1 - n % 2 ^ 16

-- A text that is no address leaves the field as it is; only -1 is an error.
abbrev pub pton_addr : Pton → Option SinAddr
pton_addr (address a) = some (in_addr a)
pton_addr no_address = some unset
pton_addr unsupported = none

unfoldable pub server_addr : ListenCalls → Bytes → Option SinAddr
server_addr calls ip =
    if same_text ip (codes "any") then some inaddr_any else pton_addr (calls.inet_pton ip)

-- The calls of bind and listen; where one fails, the socket and the structure are released.
abbrev pub listen_at :
    ListenCalls
    → Option SinAddr
    → (SinAddr → HttpServer)
    → Servers
    → Servers
    → Result (Option HttpServer × Servers)
listen_at calls none server held released = done (none, released)
listen_at calls (some sin_addr) server held released =
    if calls.bind
    then (if calls.listen then done (some (server sin_addr), held) else done (none, released))
    else done (none, released)

-- Behind `socket`. A NULL `server_ip` is compared.
abbrev pub address_at :
    ListenCalls
    → Option Bytes
    → (SinAddr → HttpServer)
    → Servers
    → Servers
    → Result (Option HttpServer × Servers)
address_at calls none server held released = crash
address_at calls (some ip) server held released =
    listen_at calls (server_addr calls ip) server held released

-- `http_init`: the server or NULL, and what is held then.
unfoldable pub http_init :
    ListenCalls
    → Bool
    → Option Bytes
    → Option Bytes
    → ℤ
    → Servers
    → Result (Option HttpServer × Servers)
http_init calls ssl_ctx html_path server_ip port held =
    if calls.has_memory
    then (let structure = record held { structures = held.structures + 1 } in
        if calls.socket
        then (let opened = record structure { sockets = structure.sockets + 1 } in
            let server : SinAddr → HttpServer = λ sin_addr. record {
              html_path = html_path;
              ssl_ctx = ssl_ctx;
              sin_addr = sin_addr;
              sin_port = port_bits port;
            } in
            address_at calls server_ip server opened
              (record opened { structures = opened.structures - 1; sockets = opened.sockets - 1 }))
        else done (none, record structure { structures = structure.structures - 1 }))
    else done (none, held)

unfoldable pub http_close : Option HttpServer → Servers → Servers
http_close none held = held
http_close (some server) held = record held {
  structures = held.structures - 1;
  sockets = held.sockets - 1;
}
