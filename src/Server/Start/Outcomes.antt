-- ===== src/Server/Start/Outcomes.antt =====
-- The server that `http_init` makes, and the cache that `cache_load` makes.
use nvhttpd.Base.{
  ℕ, Bool, true, false, List, Option, none, some, ◌≡◌, refl, ap, arith, if◌then◌else◌,
}
use nvhttpd.Base.Chars.{Bytes, ℤ}
use nvhttpd.Cache.{Cache, Result}
use nvhttpd.Cache.Site.{Directory, load_site, is_served, exchange, reload_cache}
use nvhttpd.Http.Listening.{
  ListenCalls, HttpServer, Servers, SinAddr, listen_at, server_addr, address_at, http_init,
  port_bits,
}

abbrev pub IsServer : Option Bytes → Bool → ℤ → HttpServer → Type 0
IsServer path ssl_ctx port server =
    (server.html_path ≡ path) × (server.ssl_ctx ≡ ssl_ctx) × (server.sin_port ≡ port_bits port)

pub listen_at-IsServer :
    (calls : ListenCalls) (o : Option SinAddr) (make : SinAddr → HttpServer)
    (held released held' : Servers) (server : HttpServer)
    → listen_at calls o make held released ≡ Result.done (some server, held')
    → (a : SinAddr) × (server ≡ make a)
listen_at-IsServer calls none make held released held' server h = cc
listen_at-IsServer calls (some a) make held released held' server h = (a, ground arith)

pub address_at-IsServer :
    (calls : ListenCalls) (ip : Option Bytes) (make : SinAddr → HttpServer)
    (held released held' : Servers) (server : HttpServer)
    → address_at calls ip make held released ≡ Result.done (some server, held')
    → (a : SinAddr) × (server ≡ make a)
address_at-IsServer calls none make held released held' server h = cc
address_at-IsServer calls (some ip) make held released held' server h =
    listen_at-IsServer calls (server_addr calls ip) make held released held' server h

pub then_done :
    (b : Bool) (x : Result (Option HttpServer × Servers)) (lost : Servers) {server : HttpServer}
    {held : Servers}
    → (if b then x else Result.done (none, lost)) ≡ Result.done (some server, held)
    → x ≡ Result.done (some server, held)
then_done true x lost h = h
then_done false x lost h = cc

pub http_init-IsServer :
    (calls : ListenCalls) (ssl_ctx : Bool) (path ip : Option Bytes) (port : ℤ)
    (held held' : Servers) (server : HttpServer)
    → http_init calls ssl_ctx path ip port held ≡ Result.done (some server, held')
    → IsServer path ssl_ctx port server
unfolding http_init
http_init-IsServer calls ssl_ctx path ip port held held' server h =
    let (a, is) =
      address_at-IsServer calls ip _ _ _ held' server
        (then_done calls.socket _ _ (then_done calls.has_memory _ _ h)) in
    (
      ap (λ (x : HttpServer). x.html_path) is,
      ap (λ (x : HttpServer). x.ssl_ctx) is,
      ap (λ (x : HttpServer). x.sin_port) is,
    )

pub load_site-cache :
    (fuel : ℕ) (path : Option Bytes) (site : Directory) (allocations : List Bool)
    (old c : Option Cache)
    → reload_cache fuel path site allocations old ≡ Result.done (0, c)
    → (html : Bytes) × (cache : Cache) × (path ≡ some html)
      × (c ≡ some cache)
      × (load_site (is_served old) fuel (some html) site allocations ≡ Result.done cache)
unfolding reload_cache load_site
load_site-cache fuel path site allocations old c h =
    loaded path (load_site (is_served old) fuel path site allocations) refl h
  where
    loaded :
        (path : Option Bytes) (r : Result Cache)
        → load_site (is_served old) fuel path site allocations ≡ r
        → exchange old r ≡ Result.done (0, c)
        → (html : Bytes) × (cache : Cache) × (path ≡ some html)
          × (c ≡ some cache)
          × (load_site (is_served old) fuel (some html) site allocations ≡ Result.done cache)
    loaded none (Result.done new) e h = cc
    loaded (some html) (Result.done new) e h = (html, new, refl, cc, e)
    loaded path Result.error e h = cc
    loaded path Result.crash e h = cc
    loaded path Result.out_of_fuel e h = cc
