-- ===== src/Http/Listening/Closed.antt =====
-- `http_close` releases what `http_init` holds.
use nvhttpd.Base.{
  ◌+◌, ◌-◌, Bool, true, false, Option, none, some, ◌≡◌, refl, sym, ap, ◌∙◌, arith, if◌then◌else◌,
}
use nvhttpd.Base.Chars.{Bytes, ℤ}
use nvhttpd.Cache.{Result, done}
use nvhttpd.Http.Listening.{
  ListenCalls, SinAddr, HttpServer, Servers, listen_at, server_addr, address_at, http_init,
  http_close,
}

abbrev Made : Type 0
Made = Option HttpServer × Servers

done_inj : {r s : Made} → ◌≡◌ {A = Result Made} (done r) (done s) → r ≡ s
done_inj h = cc

-- Closing what was made comes back to `held`.
abbrev Closes : Servers → Made → Type 0
Closes held r = http_close r.0 r.1 ≡ held

restored :
    (held : Servers)
    → ◌≡◌ {A = Servers}
        (record { structures = held.structures + 1 - 1; sockets = held.sockets + 1 - 1 })
        held
restored held = ground arith

restored_one :
    (held : Servers) → ◌≡◌ {A = Servers} (record held { structures = held.structures + 1 - 1 }) held
restored_one held = ground arith

if_done :
    (b : Bool) (x : Result Made) (lost held : Servers) (r : Made)
    → http_close none lost ≡ held
    → (x ≡ done r → Closes held r)
    → (if b then x else done (none, lost)) ≡ done r
    → Closes held r
if_done true x lost held r back made h = made h
if_done false x lost held r back made h =
    ap (λ (s : Made). http_close s.0 s.1) (sym (done_inj h)) ∙ back

module _ (calls : ListenCalls) (make : SinAddr → HttpServer) (opened released held : Servers)
    (back : http_close none released ≡ held)
    (closed : (server : HttpServer) → http_close (some server) opened ≡ held) where
  listen_at-Closes :
      (o : Option SinAddr) (r : Made)
      → listen_at calls o make opened released ≡ done r
      → Closes held r
  listen_at-Closes none r h = ap (λ (s : Made). http_close s.0 s.1) (sym (done_inj h)) ∙ back
  listen_at-Closes (some a) r h =
      if_done calls.bind _ released held r back
        (λ bound.
          if_done calls.listen _ released held r back
            (λ listens.
              ap (λ (s : Made). http_close s.0 s.1) (sym (done_inj listens)) ∙ closed (make a))
            bound)
        h

  address_at-Closes :
      (ip : Option Bytes) (r : Made)
      → address_at calls ip make opened released ≡ done r
      → Closes held r
  address_at-Closes none r h = cc
  address_at-Closes (some ip) r h = listen_at-Closes (server_addr calls ip) r h

-- Where http_init returns, a server or NULL, http_close on that leaves the structures and sockets that
-- were held before.
pub http_close-http_init :
    (calls : ListenCalls) (ssl_ctx : Bool) (path ip : Option Bytes) (port : ℤ) (held : Servers)
    (r : Option HttpServer × Servers)
    → http_init calls ssl_ctx path ip port held ≡ done r
    → http_close r.0 r.1 ≡ held
unfolding http_init http_close
http_close-http_init calls ssl_ctx path ip port held r h =
    if_done calls.has_memory _ held held r refl
      (λ memory.
        if_done calls.socket _ _ held r (restored_one held)
          (λ opened.
            address_at-Closes calls _ _ _ held (restored held) (λ server. restored held) ip r
              opened)
          memory)
      h
