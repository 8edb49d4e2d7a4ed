-- ===== src/Http/Listening/Tests.antt =====
-- `http_init` on an address that is none, and on a port that is taken.
use nvhttpd.Base.{true, false, none, some, ◌≡◌, refl}
use nvhttpd.Base.Chars.{codes, pos}
use nvhttpd.Cache.{same_text, done}
use nvhttpd.Http.Listening.{
  ListenCalls, unset, no_address, HttpServer, Servers, port_bits, server_addr, http_init,
  http_close,
}
use nvhttpd.Http.Listening.Closed.{http_close-http_init}

program : Unit {0}
unfolding same_text port_bits server_addr http_init http_close
program = tt

abbrev calls : ListenCalls
calls = record {
  has_memory = true;
  socket = true;
  inet_pton = λ text. no_address;
  bind = true;
  listen = true;
}

abbrev none_yet : Servers
none_yet = record { structures = 0; sockets = 0 }

abbrev server : HttpServer
server = record { html_path = none; ssl_ctx = false; sin_addr = unset; sin_port = 4464 }

-- The server listens on whatever the block held, and on the low half of the port.
http_init-no_address :
    http_init calls false none (some (codes "localhost")) (pos 70000) none_yet
    ≡ done (some server, record { structures = 1; sockets = 1 })
unfolding program
http_init-no_address = refl

http_close-http_init_example :
    http_close (some server) (record { structures = 1; sockets = 1 }) ≡ none_yet
http_close-http_init_example =
    http_close-http_init calls false none (some (codes "localhost")) (pos 70000) none_yet
      (some server, record { structures = 1; sockets = 1 }) http_init-no_address
