-- ===== src/Http/Connection.antt =====
-- `http_accept` and `http_client_close` of http.c: which blocks, sockets and sessions of TLS are held.
pub mod Held
mod Tests
use nvhttpd.Base.{ℕ, ◌+◌, ◌-◌, Bool, true, false, Option, none, some, if◌then◌else◌}

-- `reload`, and the numbers of the structures, the sockets and the sessions that are not released.
pub record Resources : Type 0 where
  pub reload : Bool
  pub clients : ℕ
  pub sockets : ℕ
  pub sessions : ℕ

-- The calls of `http_accept`: whether malloc returns memory, whether accept returns a socket, whether
-- cache_load succeeds and whether SSL_accept does; and whether the server has a context of TLS.
pub record Calls : Type 0 where
  pub has_memory : Bool
  pub accepts : Bool
  pub loads : Bool
  pub ssl_ctx : Bool
  -- SSL_new gives a session; only a failure of SSL_accept is modelled.
  pub ssl_accepts : Bool

-- What a client has of them: a structure, a socket if `fd` is one, and a session if `ssl` is set.
pub record Client : Type 0 where
  pub has_socket : Bool
  pub has_session : Bool

abbrev pub count_of : Bool → ℕ
count_of true = 1
count_of false = 0

-- `http_client_close`, on a client or NULL.
unfoldable pub http_client_close : Option Client → Resources → Resources
http_client_close none r = r
http_client_close (some c) r = record r {
  clients = r.clients - 1;
  sockets = r.sockets - count_of c.has_socket;
  sessions = r.sessions - count_of c.has_session;
}

-- The end of `http_accept`, behind the reload.
unfoldable pub finish_accept : Calls → Resources → Option Client × Resources
finish_accept calls r =
    if calls.accepts
    then (if calls.ssl_ctx
        then (if calls.ssl_accepts
            then (
              some (record { has_socket = true; has_session = true }),
              record r { sessions = r.sessions + 1 },
            )
            else (none, record r { clients = r.clients - 1; sockets = r.sockets - 1 }))
        else (some (record { has_socket = true; has_session = false }), r))
    else (none, record r { clients = r.clients - 1 })

-- `http_accept`
unfoldable pub http_accept : Calls → Resources → Option Client × Resources
http_accept calls r =
    if calls.has_memory
    then (let held = record r {
      clients = r.clients + 1;
      sockets = r.sockets + count_of calls.accepts;
    } in
        if r.reload
        then (if calls.loads
            then finish_accept calls (record held { reload = false })
            else (none, held))
        else finish_accept calls held)
    else (none, r)
