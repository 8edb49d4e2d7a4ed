-- ===== src/Http/Connection/Tests.antt =====
-- A client with TLS is accepted and closed.
use nvhttpd.Base.{◌+◌, true, false, ◌&&◌, none, ◌≡◌, refl}
use nvhttpd.Http.Connection.{
  Resources, Calls, count_of, http_client_close, finish_accept, http_accept,
}
use nvhttpd.Http.Connection.Held.{SameHeld, fails_reload, http_client_close-http_accept}

abbrev idle : Resources
idle = record { reload = true; clients = 3; sockets = 3; sessions = 3 }

abbrev with_tls : Calls
with_tls = record {
  has_memory = true;
  accepts = true;
  loads = true;
  ssl_ctx = true;
  ssl_accepts = true;
}

http_client_close-http_accept_example :
    SameHeld
      (http_client_close (http_accept with_tls idle).0 (http_accept with_tls idle).1)
      (record idle {
        clients = 3 + count_of (fails_reload with_tls idle);
        sockets = 3 + count_of (fails_reload with_tls idle && true);
      })
http_client_close-http_accept_example = http_client_close-http_accept with_tls idle

-- The cache is to be loaded again and cannot be: the client that was accepted is lost.
loses_client :
    http_accept (record with_tls { loads = false }) idle
    ≡ (none, record { reload = true; clients = 4; sockets = 4; sessions = 3 })
unfolding http_accept finish_accept
loses_client = refl
