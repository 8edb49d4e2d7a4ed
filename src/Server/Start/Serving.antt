-- ===== src/Server/Start/Serving.antt =====
-- What holds when `main` calls `handle_connections`.
use mathlib.Core.Path.{subst}
use nvhttpd.Base.{ℕ, Bool, true, List, [], ◌∷◌, Option, some, ◌≡◌, ◌↔◌, refl, sym, ap, ◌∙◌}
use nvhttpd.Base.Chars.{Bytes}
use nvhttpd.Cache.{Cache, Result, new_element, cache_find}
use nvhttpd.Cache.Site.{load_site, is_served}
use nvhttpd.Cache.Site.Walk.{Has}
use nvhttpd.Cache.Site.Names.{WellNamed}
use nvhttpd.Cache.Site.Found.{cache_find-load_site}
use nvhttpd.Log.Logger.{Logger}
use nvhttpd.Http.Listening.{HttpServer, Servers, port_bits}
use nvhttpd.Server.Settings.{TextField, html_path, server_ip, pid_filename, Settings}
use nvhttpd.Server.Start.{
  read_options, run_configure, write_pid_file, start_log, directory_of, fill_cache, start_ssl,
  init_signal_handlers, open_server, start, release, exits, ended_by, main,
}
use nvhttpd.Server.Process.{
  sigint, sigpipe, sigusr1, Machine, Process, Progress, goes_on, shuts_down, crashes, out_of_steps,
  at_first,
}
use nvhttpd.Server.Start.Steps.{
  before-goes_on, cached-goes_on, going-OnlySettings, handled_in_turn, listening_on-goes_on,
  logging-goes_on, pid_file_at-goes_on, process_of, read_options-OnlySettings,
  run_configure-OnlySettings, start_ssl-goes_on,
}
use nvhttpd.Server.Start.Outcomes.{IsServer, http_init-IsServer, load_site-cache}

-- What `main` has when it calls `handle_connections`.
pub record IsServing (fuel : ℕ) (m : Machine) (p : Process) : Type 0 where
  pub html : Bytes
  pub pid : Bytes
  pub log : Logger
  pub cache : Cache
  pub server : HttpServer
  pub html_set : p.settings.texts html_path ≡ some html
  pub pid_set : p.settings.texts pid_filename ≡ some pid
  pub pid_written : p.pid_file ≡ some pid
  pub log_open : p.log ≡ some log
  pub cache_set : p.cache ≡ some cache
  pub handled : p.handlers ≡ sigusr1 ∷ sigpipe ∷ sigint ∷ []
  pub server_set : p.server ≡ some server
  pub server_of : IsServer (some html) p.settings.ssl_ctx p.settings.server_port server
  pub secure : p.settings.ssl_enabled ≡ true → p.settings.ssl_ctx ≡ true
  pub serves :
      WellNamed (m.disk html)
      → (path content : Bytes)
      → (cache_find true fuel (some cache) path
          ≡ Result.done (some (new_element html (path, content))))
        ↔ Has (m.disk html) path content

module _ (fuel : ℕ) (m : Machine) (p₂ p₃ p₄ p₅ p₆ p₇ p : Process) (pid html : Bytes) (log : Logger)
    (cache : Cache) (s : Settings) (server : HttpServer) (held : Servers)
    (pid_is : p₂.settings.texts pid_filename ≡ some pid)
    (e₃ : p₃ ≡ record p₂ { pid_file = some pid }) (e₄ : p₄ ≡ record p₃ { log = some log })
    (e₅ : p₅ ≡ record p₄ { cache = some cache }) (e₆ : p₆ ≡ record p₅ { settings = s })
    (e₇ : p₇ ≡ record p₆ { handlers = sigusr1 ∷ sigpipe ∷ sigint ∷ p₆.handlers })
    (e₈ : p ≡ record p₇ { server = some server; servers = held }) where
  pid_written_lem : p.pid_file ≡ some pid
  pid_written_lem =
      ap (λ (x : Process). x.pid_file) e₈
      ∙ ap (λ (x : Process). x.pid_file) e₇
      ∙ ap (λ (x : Process). x.pid_file) e₆
      ∙ ap (λ (x : Process). x.pid_file) e₅
      ∙ ap (λ (x : Process). x.pid_file) e₄
      ∙ ap (λ (x : Process). x.pid_file) e₃

  log_open_lem : p.log ≡ some log
  log_open_lem =
      ap (λ (x : Process). x.log) e₈
      ∙ ap (λ (x : Process). x.log) e₇
      ∙ ap (λ (x : Process). x.log) e₆
      ∙ ap (λ (x : Process). x.log) e₅
      ∙ ap (λ (x : Process). x.log) e₄

  cache_set_lem : p.cache ≡ some cache
  cache_set_lem =
      ap (λ (x : Process). x.cache) e₈
      ∙ ap (λ (x : Process). x.cache) e₇
      ∙ ap (λ (x : Process). x.cache) e₆
      ∙ ap (λ (x : Process). x.cache) e₅

  handled_lem : p₂.handlers ≡ [] → p.handlers ≡ sigusr1 ∷ sigpipe ∷ sigint ∷ []
  handled_lem none_yet =
      ap (λ (x : Process). x.handlers) e₈
      ∙ ap (λ (x : Process). x.handlers) e₇
      ∙ ap (λ hs. sigusr1 ∷ sigpipe ∷ sigint ∷ hs)
          (ap (λ (x : Process). x.handlers) e₆
            ∙ ap (λ (x : Process). x.handlers) e₅
            ∙ ap (λ (x : Process). x.handlers) e₄
            ∙ ap (λ (x : Process). x.handlers) e₃
            ∙ none_yet)

  settings_lem : p.settings ≡ s
  settings_lem =
      ap (λ (x : Process). x.settings) e₈
      ∙ ap (λ (x : Process). x.settings) e₇
      ∙ ap (λ (x : Process). x.settings) e₆

  texts_lem : s.texts ≡ p₅.settings.texts → p.settings.texts ≡ p₄.settings.texts
  texts_lem kept =
      ap (λ (x : Settings). x.texts) settings_lem ∙ kept ∙ ap (λ (x : Process). x.settings.texts) e₅

  traced-IsServing :
      p₂.handlers ≡ []
      → s.texts ≡ p₅.settings.texts
      → (s.ssl_enabled ≡ true → s.ssl_ctx ≡ true)
      → p₄.settings.texts html_path ≡ some html
      → load_site (is_served p₄.cache) fuel (some html) (m.disk html) m.cache_allocations
        ≡ Result.done cache
      → IsServer (p₇.settings.texts html_path) p₇.settings.ssl_ctx p₇.settings.server_port server
      → IsServing fuel m p
  traced-IsServing none_yet kept secure html_is loaded made =
      let early : p₄.settings.texts ≡ p₂.settings.texts =
        ap (λ (x : Process). x.settings.texts) e₄ ∙ ap (λ (x : Process). x.settings.texts) e₃ in
      let html_set : p.settings.texts html_path ≡ some html =
        ap (λ (t : TextField → Option Bytes). t html_path) (texts_lem kept) ∙ html_is in
      let last : p.settings ≡ p₇.settings = ap (λ (x : Process). x.settings) e₈ in
      record {
        html = html;
        pid = pid;
        log = log;
        cache = cache;
        server = server;
        html_set = html_set;
        pid_set =
            ap (λ (t : TextField → Option Bytes). t pid_filename) (texts_lem kept ∙ early) ∙ pid_is;
        pid_written = pid_written_lem;
        log_open = log_open_lem;
        cache_set = cache_set_lem;
        handled = handled_lem none_yet;
        server_set = ap (λ (x : Process). x.server) e₈;
        server_of = (
          made.0 ∙ ap (λ (t : Settings). t.texts html_path) (sym last) ∙ html_set,
          made.1 ∙ ap (λ (t : Settings). t.ssl_ctx) (sym last),
          made.2 ∙ ap (λ (t : Settings). port_bits t.server_port) (sym last),
        );
        secure = λ on.
            ap (λ (t : Settings). t.ssl_ctx) settings_lem
            ∙ secure (ap (λ (t : Settings). t.ssl_enabled) (sym settings_lem) ∙ on);
        serves = λ named path content.
            cache_find-load_site (is_served p₄.cache) fuel html (m.disk html) m.cache_allocations
              cache named loaded path content;
      }

steps-IsServing :
    (fuel : ℕ) (m : Machine) (p₂ p₃ p₄ p₅ p₆ p₇ p : Process)
    → p₂.handlers ≡ []
    → write_pid_file m.opens_pid p₂ ≡ goes_on p₃
    → start_log m p₃ ≡ goes_on p₄
    → fill_cache fuel m p₄ ≡ goes_on p₅
    → start_ssl m.ssl p₅ ≡ goes_on p₆
    → init_signal_handlers m.sigaction p₆ ≡ goes_on p₇
    → open_server m.listening p₇ ≡ goes_on p
    → IsServing fuel m p
unfolding write_pid_file start_log fill_cache open_server
steps-IsServing fuel m p₂ p₃ p₄ p₅ p₆ p₇ p none_yet h₃ h₄ h₅ h₆ h₇ h₈ =
    let path = p₄.settings.texts html_path in
    let (pid, pid_is, e₃) =
      pid_file_at-goes_on p₂ m.opens_pid (p₂.settings.texts pid_filename) p₃ h₃ in
    let (log, e₄) = logging-goes_on p₃ _ p₄ h₄ in
    let (c, reloaded, e₅) = cached-goes_on p₄ _ p₅ h₅ in
    let (html, cache, html_is, cache_is, loaded) =
      load_site-cache fuel path (directory_of m.disk path) m.cache_allocations p₄.cache c
        reloaded in
    let (s, e₆, kept, secure) = start_ssl-goes_on m.ssl p₅ p₆ h₆ in
    let (server, held, made, e₈) = listening_on-goes_on p₇ _ p h₈ in
    traced-IsServing fuel m p₂ p₃ p₄ p₅ p₆ p₇ p pid html log cache s server held pid_is e₃ e₄
      (e₅ ∙ ap (λ (c : Option Cache). record p₄ { cache = c }) cache_is) e₆
      (handled_in_turn m.sigaction p₆ p₇ h₇) e₈ none_yet kept secure html_is
      (subst
        (λ d.
          load_site (is_served p₄.cache) fuel (some html) d m.cache_allocations ≡ Result.done cache)
        (ap (directory_of m.disk) html_is) loaded)
      (http_init-IsServer m.listening p₇.settings.ssl_ctx (p₇.settings.texts html_path)
        (p₇.settings.texts server_ip) p₇.settings.server_port p₇.servers held server made)

-- Where `main` comes to `handle_connections`: the pid file, the log, the cache, the handlers and the
-- server are there.
pub start-IsServing :
    (fuel : ℕ) (m : Machine) (p₀ p : Process)
    → p₀.handlers ≡ []
    → start fuel m p₀ ≡ goes_on p
    → IsServing fuel m p
unfolding start
start-IsServing fuel m p₀ p none_yet h =
    let (p₁, options_read, h₁) = before-goes_on (read_options m.arguments p₀) _ h in
    let (p₂, is_configured, h₂) = before-goes_on (run_configure fuel m.system p₁) _ h₁ in
    let (p₃, pid_done, h₃) = before-goes_on (write_pid_file m.opens_pid p₂) _ h₂ in
    let (p₄, log_done, h₄) = before-goes_on (start_log m p₃) _ h₃ in
    let (p₅, cache_done, h₅) = before-goes_on (fill_cache fuel m p₄) _ h₄ in
    let (p₆, ssl_done, h₆) = before-goes_on (start_ssl m.ssl p₅) _ h₅ in
    let (p₇, signals_done, h₇) = before-goes_on (init_signal_handlers m.sigaction p₆) _ h₆ in
    steps-IsServing fuel m p₂ p₃ p₄ p₅ p₆ p₇ p
      (going-OnlySettings p₁ p₂ _ is_configured (run_configure-OnlySettings fuel m.system p₁)
        ∙ going-OnlySettings p₀ p₁ _ options_read (read_options-OnlySettings m.arguments p₀)
        ∙ none_yet)
      pid_done log_done cache_done ssl_done signals_done h₇

-- The program ends with code 0 only if all the steps of `main` up to the call of handle_connections
-- go on, and then the process that they leave is what handle_connections is called with, and what is
-- released at the end. In that process the pid file, the log, the three handlers and the server are
-- there, with a context of TLS where it is enabled; and the cache, where no name in the directory of
-- the site holds a slash and no directory lists a name twice, gives for each path the file that the
-- directory has under it.
pub main-IsServing :
    (fuel : ℕ) (m : Machine) (allocations fopens : List Bool) (q : Process)
    → main fuel m (at_first allocations fopens) ≡ exits 0 q
    → (p : Process) × (start fuel m (at_first allocations fopens) ≡ goes_on p)
      × IsServing fuel m p
      × (q ≡ release p)
unfolding main
main-IsServing fuel m allocations fopens q h =
    ended (start fuel m (at_first allocations fopens)) refl h
  where
    ended :
        (r : Progress)
        → start fuel m (at_first allocations fopens) ≡ r
        → ended_by r ≡ exits 0 q
        → (p : Process) × (start fuel m (at_first allocations fopens) ≡ goes_on p)
          × IsServing fuel m p
          × (q ≡ release p)
    ended (goes_on p) e h =
        (p, e, start-IsServing fuel m (at_first allocations fopens) p refl e, sym (process_of h))
    ended (shuts_down p) e h = cc
    ended crashes e h = cc
    ended out_of_steps e h = cc
