-- ===== src/Server/Start/Ready.antt =====
-- The steps of `main` keep what it will release.
use mathlib.Core.Path.{subst}
use nvhttpd.Base.{
  ℕ, zero, suc, Bool, true, false, Option, none, some, ◌≡◌, ◌⊎◌, refl, sym, ap, ◌∙◌, inl, inr,
  Bool-cases, if◌then◌else◌,
}
use nvhttpd.Base.Chars.{Bytes}
use nvhttpd.Cache.{Cache, Result}
use nvhttpd.Cache.Site.{reload_cache}
use nvhttpd.Log.Logger.{Logger, log_init}
use nvhttpd.Http.Listening.{HttpServer, Servers, http_close}
use nvhttpd.Server.Settings.{
  TextField, html_path, pid_filename, server_string, ssl_cert_filename, ssl_key_filename, Settings,
}
use nvhttpd.Server.Start.{
  pid_file_at, write_pid_file, logging, start_log, cached, fill_cache, secured, start_ssl, handle,
  init_signal_handlers, directory_of,
}
use nvhttpd.Server.Process.{
  Signal, sigint, sigpipe, sigusr1, SslCalls, Machine, Process, Progress, goes_on, shuts_down,
  crashes, out_of_steps, before, init_ssl,
}
use nvhttpd.Server.Start.Steps.{OnlySettings, ssl_with-Sets}

abbrev pub nothing_held : Servers
nothing_held = record { structures = 0; sockets = 0 }

-- No server is open, and no pid file is there.
abbrev pub IsFresh : Process → Type 0
IsFresh p = (p.server ≡ none) × (p.servers ≡ nothing_held) × (p.pid_file ≡ none)

-- A pid file that is there has the configured name.
abbrev pub IsNamed : Process → Type 0
IsNamed p =
    (p.pid_file ≡ none)
    ⊎ ((name : Bytes) × (p.settings.texts pid_filename ≡ some name) × (p.pid_file ≡ some name))

abbrev pub IsReady : Process → Type 0
IsReady p = (p.server ≡ none) × (p.servers ≡ nothing_held) × IsNamed p

-- What is held is what the end releases.
abbrev pub IsTidy : Process → Type 0
IsTidy p = (http_close p.server p.servers ≡ nothing_held) × IsNamed p

abbrev pub After : (Process → Type 0) → Progress → Type 0
After P (goes_on q) = P q
After P (shuts_down q) = P q
After P crashes = Unit {0}
After P out_of_steps = Unit {0}

pub before-After :
    (P Q : Process → Type 0) (r : Progress) (f : Process → Progress)
    → ((q : Process) → P q → Q q)
    → ((q : Process) → P q → After Q (f q))
    → After P r
    → After Q (before r f)
unfolding before
before-After P Q (goes_on q) f weaker next h = next q h
before-After P Q (shuts_down q) f weaker next h = weaker q h
before-After P Q crashes f weaker next h = tt
before-After P Q out_of_steps f weaker next h = tt

pub fresh-IsReady : (p : Process) → IsFresh p → IsReady p
fresh-IsReady p h = (h.0, h.1, inl (h.2))

pub ready-IsTidy : (p : Process) → IsReady p → IsTidy p
unfolding http_close
ready-IsTidy p h = (ap (λ (s : Option HttpServer). http_close s p.servers) (h.0) ∙ h.1, h.2)

pub settings-IsFresh : (p : Process) (r : Progress) → OnlySettings p r → IsFresh p → After IsFresh r
settings-IsFresh p (goes_on q) (s, is) h = subst IsFresh (sym is) h
settings-IsFresh p (shuts_down q) (s, is) h = subst IsFresh (sym is) h
settings-IsFresh p crashes o h = tt
settings-IsFresh p out_of_steps o h = tt

pub named :
    (p : Process) (s : Settings)
    → s.texts ≡ p.settings.texts
    → IsNamed p
    → (p.pid_file ≡ none)
      ⊎ ((name : Bytes) × (s.texts pid_filename ≡ some name) × (p.pid_file ≡ some name))
named p s e (inl h) = inl h
named p s e (inr (name, set, there)) =
    inr (name, ap (λ (t : TextField → Option Bytes). t pid_filename) e ∙ set, there)

pub pid_file_at-IsReady :
    (opens : Bytes → Bool) (o : Option Bytes) (p : Process)
    → p.settings.texts pid_filename ≡ o
    → IsFresh p
    → After IsReady (pid_file_at opens o p)
pid_file_at-IsReady opens none p e h = fresh-IsReady p h
pid_file_at-IsReady opens (some name) p e h = elim (Bool-cases (opens name)) [
  | inl opened ↦ rw opened (h.0, h.1, inr (name, e, refl))
  | inr closed ↦ rw closed (fresh-IsReady p h)
]

pub logging-IsReady : (o : Option Logger) (p : Process) → IsReady p → After IsReady (logging o p)
logging-IsReady none p h = h
logging-IsReady (some log) p h = h

pub cached-IsReady :
    (r : Result (ℕ × Option Cache)) (p : Process) → IsReady p → After IsReady (cached r p)
cached-IsReady (Result.done (zero, c)) p h = h
cached-IsReady (Result.done (suc n, c)) p h = h
cached-IsReady Result.error p h = h
cached-IsReady Result.crash p h = tt
cached-IsReady Result.out_of_fuel p h = tt

pub secured-IsReady :
    (r : Bool × Settings) (p : Process)
    → r.1.texts ≡ p.settings.texts
    → IsReady p
    → After IsReady (secured r p)
secured-IsReady (true, s) p e h = (h.0, h.1, named p s e (h.2))
secured-IsReady (false, s) p e h = (h.0, h.1, named p s e (h.2))

pub start_ssl-IsReady :
    (calls : SslCalls) (p : Process) → IsReady p → After IsReady (start_ssl calls p)
unfolding start_ssl init_ssl
start_ssl-IsReady calls p h = elim (Bool-cases p.settings.ssl_enabled) [
  | inl on ↦
      subst (After IsReady)
        (sym (ap (λ b. if b then secured (init_ssl calls p.settings) p else goes_on p) on))
        (secured-IsReady (init_ssl calls p.settings) p
          (ssl_with-Sets calls (p.settings.texts ssl_cert_filename)
            (p.settings.texts ssl_key_filename) p.settings).0
          h)
  | inr off ↦
      subst (After IsReady)
        (sym (ap (λ b. if b then secured (init_ssl calls p.settings) p else goes_on p) off)) h
]

pub handle-IsReady :
    (sigaction : Signal → Bool) (signal : Signal) (p : Process)
    → IsReady p
    → After IsReady (handle sigaction signal p)
handle-IsReady sigaction signal p h = elim (Bool-cases (sigaction signal)) [
  | inl ok ↦ rw ok h
  | inr failed ↦ rw failed h
]

pub init_signal_handlers-IsReady :
    (sigaction : Signal → Bool) (p : Process)
    → IsReady p
    → After IsReady (init_signal_handlers sigaction p)
unfolding init_signal_handlers
init_signal_handlers-IsReady sigaction p h =
    before-After IsReady IsReady _ (handle sigaction sigusr1) (λ q h'. h')
      (handle-IsReady sigaction sigusr1)
      (before-After IsReady IsReady (handle sigaction sigint p) (handle sigaction sigpipe)
        (λ q h'. h') (handle-IsReady sigaction sigpipe) (handle-IsReady sigaction sigint p h))

pub write_pid_file-IsReady :
    (opens : Bytes → Bool) (p : Process) → IsFresh p → After IsReady (write_pid_file opens p)
unfolding write_pid_file
write_pid_file-IsReady opens p h =
    pid_file_at-IsReady opens (p.settings.texts pid_filename) p refl h

pub start_log-IsReady : (m : Machine) (p : Process) → IsReady p → After IsReady (start_log m p)
unfolding start_log
start_log-IsReady m p h =
    logging-IsReady
      (log_init m.has_log_memory m.has_queue_memory m.getpid p.settings.log_level
        (p.settings.texts server_string))
      p h

pub fill_cache-IsReady :
    (fuel : ℕ) (m : Machine) (p : Process) → IsReady p → After IsReady (fill_cache fuel m p)
unfolding fill_cache
fill_cache-IsReady fuel m p h =
    let path = p.settings.texts html_path in
    cached-IsReady (reload_cache fuel path (directory_of m.disk path) m.cache_allocations p.cache) p
      h
