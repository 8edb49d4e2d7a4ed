-- ===== src/Server/Start/Released.antt =====
-- What `main` leaves, however it ends.
use mathlib.Core.Path.{subst}
use nvhttpd.Base.{ℕ, Bool, true, List, Option, none, some, ◌≡◌, ◌⊎◌, refl, ap, ◌∙◌, inl, inr}
use nvhttpd.Base.Chars.{Bytes, ℤ}
use nvhttpd.Cache.{Result, same_text}
use nvhttpd.Cache.Probe.{same_text_refl}
use nvhttpd.Http.Listening.{ListenCalls, HttpServer, Servers, http_init, http_close}
use nvhttpd.Http.Listening.Closed.{http_close-http_init}
use nvhttpd.Server.Settings.{
  TextField, config_file, response_400_path, response_404_path, response_500_path,
  response_501_path, html_path, server_ip, pid_filename, server_string, ssl_cert_filename,
  ssl_key_filename,
}
use nvhttpd.Server.Start.{
  read_options, run_configure, write_pid_file, start_log, fill_cache, start_ssl,
  init_signal_handlers, listening_on, open_server, start, unlinked, release, exits, ended_by, main,
}
use nvhttpd.Server.Process.{
  Machine, Process, Progress, goes_on, shuts_down, crashes, out_of_steps, before, at_first,
}
use nvhttpd.Server.Start.Steps.{process_of, read_options-OnlySettings, run_configure-OnlySettings}
use nvhttpd.Server.Start.Ready.{
  After, IsFresh, IsReady, IsTidy, before-After, fill_cache-IsReady, fresh-IsReady,
  init_signal_handlers-IsReady, nothing_held, ready-IsTidy, settings-IsFresh, start_log-IsReady,
  start_ssl-IsReady, write_pid_file-IsReady,
}

listening_on-IsTidy :
    (calls : ListenCalls) (ssl_ctx : Bool) (path ip : Option Bytes) (port : ℤ) (p : Process)
    (r : Result (Option HttpServer × Servers))
    → http_init calls ssl_ctx path ip port p.servers ≡ r
    → IsReady p
    → After IsTidy (listening_on r p)
listening_on-IsTidy calls ssl_ctx path ip port p (Result.done (none, held)) e h = (
  ap (λ (s : Option HttpServer). http_close s held) (h.0)
      ∙ http_close-http_init calls ssl_ctx path ip port p.servers (none, held) e
      ∙ h.1,
  h.2,
)
listening_on-IsTidy calls ssl_ctx path ip port p (Result.done (some server, held)) e h =
    (http_close-http_init calls ssl_ctx path ip port p.servers (some server, held) e ∙ h.1, h.2)
listening_on-IsTidy calls ssl_ctx path ip port p Result.error e h = ready-IsTidy p h
listening_on-IsTidy calls ssl_ctx path ip port p Result.crash e h = tt
listening_on-IsTidy calls ssl_ctx path ip port p Result.out_of_fuel e h = tt

open_server-IsTidy :
    (calls : ListenCalls) (p : Process) → IsReady p → After IsTidy (open_server calls p)
unfolding open_server
open_server-IsTidy calls p h =
    listening_on-IsTidy calls p.settings.ssl_ctx (p.settings.texts html_path)
      (p.settings.texts server_ip) p.settings.server_port p _ refl h

-- A step that keeps a state ready, before one that leaves a tidy one.
ready_then :
    (r : Progress) (f : Process → Progress)
    → After IsReady r
    → ((q : Process) → IsReady q → After IsTidy (f q))
    → After IsTidy (before r f)
ready_then r f h next = before-After IsReady IsTidy r f ready-IsTidy next h

fresh_then :
    (r : Progress) (f : Process → Progress)
    → After IsFresh r
    → ((q : Process) → IsFresh q → After IsTidy (f q))
    → After IsTidy (before r f)
fresh_then r f h next =
    before-After IsFresh IsTidy r f (λ q h'. ready-IsTidy q (fresh-IsReady q h')) next h

start-IsTidy : (fuel : ℕ) (m : Machine) (p : Process) → IsFresh p → After IsTidy (start fuel m p)
unfolding start
start-IsTidy fuel m p h =
    fresh_then (read_options m.arguments p) _
      (settings-IsFresh p _ (read_options-OnlySettings m.arguments p) h)
      λ p₁ h₁.
        fresh_then (run_configure fuel m.system p₁) _
          (settings-IsFresh p₁ _ (run_configure-OnlySettings fuel m.system p₁) h₁)
          λ p₂ h₂.
            ready_then (write_pid_file m.opens_pid p₂) _ (write_pid_file-IsReady m.opens_pid p₂ h₂)
              λ p₃ h₃. ready_then (start_log m p₃) _ (start_log-IsReady m p₃ h₃) λ p₄ h₄.
                ready_then (fill_cache fuel m p₄) _ (fill_cache-IsReady fuel m p₄ h₄) λ p₅ h₅.
                  ready_then (start_ssl m.ssl p₅) _ (start_ssl-IsReady m.ssl p₅ h₅) λ p₆ h₆.
                    ready_then (init_signal_handlers m.sigaction p₆) _
                      (init_signal_handlers-IsReady m.sigaction p₆ h₆)
                      (open_server-IsTidy m.listening)

-- The text fields that `main` does not free.
abbrev pub IsLeft : TextField → Type 0
IsLeft f = (f ≡ server_string) ⊎ (f ≡ ssl_cert_filename) ⊎ (f ≡ ssl_key_filename)

-- What is left at the end of the program.
pub record IsReleased (p : Process) : Type 0 where
  pub servers : p.servers ≡ nothing_held
  pub log : p.log ≡ none
  pub pid_file : p.pid_file ≡ none
  pub response_headers : p.settings.response_headers ≡ none
  pub response_headers_array : p.settings.response_headers_array ≡ none
  pub texts : (f : TextField) → (p.settings.texts f ≡ none) ⊎ IsLeft f

unlinked_named :
    (name file : Option Bytes)
    → (file ≡ none) ⊎ ((n : Bytes) × (name ≡ some n) × (file ≡ some n))
    → unlinked name file ≡ none
unlinked_named none none h = refl
unlinked_named (some n) none h = refl
unlinked_named none (some x) (inl h) = cc
unlinked_named none (some x) (inr (k, a, b)) = cc
unlinked_named (some n) (some x) (inl h) = cc
unlinked_named (some n) (some x) (inr (k, a, b)) =
    let same : n ≡ x = cc in rw (subst (λ y. same_text n y ≡ true) same (same_text_refl n)) refl

release-IsReleased : (p : Process) → IsTidy p → IsReleased (release p)
unfolding release
release-IsReleased p h = record {
  servers = h.0;
  log = refl;
  pid_file = unlinked_named (p.settings.texts pid_filename) p.pid_file (h.1);
  response_headers = refl;
  response_headers_array = refl;
  texts = freed;
}
  where
    freed : (f : TextField) → ((release p).settings.texts f ≡ none) ⊎ IsLeft f
    freed config_file = inl refl
    freed response_400_path = inl refl
    freed response_404_path = inl refl
    freed response_500_path = inl refl
    freed response_501_path = inl refl
    freed html_path = inl refl
    freed server_ip = inl refl
    freed pid_filename = inl refl
    freed server_string = inr (inl refl)
    freed ssl_cert_filename = inr (inr (inl refl))
    freed ssl_key_filename = inr (inr (inr refl))

-- Whatever fails on the way, at the end of the program the server's structure and socket are
-- released, the log is cleaned up, the pid file is gone, and the response headers and all text
-- settings are freed but for the name of the server and the names of the certificate and the key.
pub main-IsReleased :
    (fuel : ℕ) (m : Machine) (allocations fopens : List Bool) (code : ℕ) (q : Process)
    → main fuel m (at_first allocations fopens) ≡ exits code q
    → IsReleased q
unfolding main
main-IsReleased fuel m allocations fopens code q h =
    ended (start fuel m (at_first allocations fopens))
      (start-IsTidy fuel m (at_first allocations fopens) (refl, refl, refl)) h
  where
    ended : (r : Progress) → After IsTidy r → ended_by r ≡ exits code q → IsReleased q
    ended (goes_on p) t h = subst IsReleased (process_of h) (release-IsReleased p t)
    ended (shuts_down p) t h = subst IsReleased (process_of h) (release-IsReleased p t)
    ended crashes t h = cc
    ended out_of_steps t h = cc
