-- ===== src/Server/Start/Steps.antt =====
-- What each step of `main` has done where it goes on.
use nvhttpd.Base.{
  ℕ, zero, suc, Bool, true, false, List, ◌∷◌, Option, none, some, ◌≡◌, refl, sym, ap, ◌∙◌, inl, inr,
  Bool-cases, if◌then◌else◌,
}
use nvhttpd.Base.Chars.{Bytes}
use nvhttpd.Cache.{Cache, Result}
use nvhttpd.Log.Logger.{Logger}
use nvhttpd.Http.Listening.{HttpServer, Servers}
use nvhttpd.Config.State.{done, fail, crash, out_of_fuel}
use nvhttpd.Server.Settings
use nvhttpd.Options.{option_parse_args}
use nvhttpd.Server.Configure.{System, configure}
use nvhttpd.Server.Settings.{
  TextField, html_path, server_ip, pid_filename, server_string, ssl_cert_filename, ssl_key_filename,
  Settings,
}
use nvhttpd.Server.Start.{
  pid_file_at, read_options, run_configure, logging, cached, secured, start_ssl, handle,
  init_signal_handlers, listening_on, exits, take_config_file, choose, configured, present_at,
  value_at,
}
use nvhttpd.Server.Process.{
  Signal, sigint, sigpipe, sigusr1, SslCalls, Process, Progress, goes_on, shuts_down, crashes,
  out_of_steps, ssl_with, before, init_ssl, options,
}

pub going : Process → Progress
going p = goes_on p

pub goes_on_inj : {p q : Process} → goes_on p ≡ goes_on q → p ≡ q
goes_on_inj h = cc

-- A step behind another is made only if this goes on.
pub before-goes_on :
    (r : Progress) (f : Process → Progress) {q : Process}
    → before r f ≡ goes_on q
    → (p : Process) × (r ≡ goes_on p) × (f p ≡ goes_on q)
unfolding before
before-goes_on (goes_on p) f h = (p, refl, h)
before-goes_on (shuts_down p) f h = cc
before-goes_on crashes f h = cc
before-goes_on out_of_steps f h = cc

-- A step that sets at most the settings.
abbrev pub OnlySettings : Process → Progress → Type 0
OnlySettings p (goes_on q) = (s : Settings) × (q ≡ record p { settings = s })
OnlySettings p (shuts_down q) = (s : Settings) × (q ≡ record p { settings = s })
OnlySettings p crashes = Unit {0}
OnlySettings p out_of_steps = Unit {0}

pub choose-OnlySettings :
    (v parsed h c : Bool) (value : Option Bytes) (p : Process)
    → OnlySettings p (choose v parsed h c value p)
unfolding take_config_file
choose-OnlySettings true parsed h c value p = (p.settings, refl)
choose-OnlySettings false false h c value p = (p.settings, refl)
choose-OnlySettings false true true c value p = (p.settings, refl)
choose-OnlySettings false true false true none p = tt
choose-OnlySettings false true false true (some name) p = (_, refl)
choose-OnlySettings false true false false value p = (p.settings, refl)

pub read_options-OnlySettings :
    (arguments : List Bytes) (p : Process) → OnlySettings p (read_options arguments p)
unfolding read_options
read_options-OnlySettings arguments p =
    let (parsed, os) = option_parse_args (λ o. true) options arguments in
    choose-OnlySettings (present_at os 2) parsed (present_at os 1) (present_at os 0) (value_at os 0)
      p

pub configured-OnlySettings : (r : Settings.Result) (p : Process) → OnlySettings p (configured r p)
configured-OnlySettings (done ok, s) p = (s, refl)
configured-OnlySettings (fail e, s) p = (s, refl)
configured-OnlySettings (crash, s) p = tt
configured-OnlySettings (out_of_fuel, s) p = tt

pub run_configure-OnlySettings :
    (fuel : ℕ) (system : System) (p : Process) → OnlySettings p (run_configure fuel system p)
unfolding run_configure
run_configure-OnlySettings fuel system p =
    configured-OnlySettings (configure fuel system p.settings) p

pub going-OnlySettings :
    (p q : Process) (r : Progress) → r ≡ goes_on q → OnlySettings p r → q.handlers ≡ p.handlers
going-OnlySettings p q (goes_on q') h (s, is) =
    ap (λ (x : Process). x.handlers) (sym (goes_on_inj h) ∙ is)
going-OnlySettings p q (shuts_down q') h o = cc
going-OnlySettings p q crashes h o = cc
going-OnlySettings p q out_of_steps h o = cc

pub process_of : {n k : ℕ} {p q : Process} → exits n p ≡ exits k q → p ≡ q
process_of h = cc

module _ (p : Process) where
  pub pid_file_at-goes_on :
      (opens : Bytes → Bool) (o : Option Bytes) (q : Process)
      → pid_file_at opens o p ≡ goes_on q
      → (name : Bytes) × (o ≡ some name) × (q ≡ record p { pid_file = some name })
  pid_file_at-goes_on opens none q h = cc
  pid_file_at-goes_on opens (some name) q h = elim (Bool-cases (opens name)) [
    | inl opened ↦ (name, refl, sym (goes_on_inj (rw opened at h)))
    | inr closed ↦ cc (rw closed at h)
  ]

  pub logging-goes_on :
      (o : Option Logger) (q : Process)
      → logging o p ≡ goes_on q
      → (log : Logger) × (q ≡ record p { log = some log })
  logging-goes_on none q h = cc
  logging-goes_on (some log) q h = (log, sym (goes_on_inj h))

  pub cached-goes_on :
      (r : Result (ℕ × Option Cache)) (q : Process)
      → cached r p ≡ goes_on q
      → (c : Option Cache) × (r ≡ Result.done (0, c)) × (q ≡ record p { cache = c })
  cached-goes_on (Result.done (zero, c)) q h = (c, refl, sym (goes_on_inj h))
  cached-goes_on (Result.done (suc n, c)) q h = cc
  cached-goes_on Result.error q h = cc
  cached-goes_on Result.crash q h = cc
  cached-goes_on Result.out_of_fuel q h = cc

  pub secured-goes_on :
      (r : Bool × Settings) (q : Process)
      → secured r p ≡ goes_on q
      → (r.0 ≡ true) × (q ≡ record p { settings = r.1 })
  secured-goes_on (true, s) q h = (refl, sym (goes_on_inj h))
  secured-goes_on (false, s) q h = cc

  pub listening_on-goes_on :
      (r : Result (Option HttpServer × Servers)) (q : Process)
      → listening_on r p ≡ goes_on q
      → (server : HttpServer) × (held : Servers) × (r ≡ Result.done (some server, held))
        × (q ≡ record p { server = some server; servers = held })
  listening_on-goes_on (Result.done (none, held)) q h = cc
  listening_on-goes_on (Result.done (some server, held)) q h =
      (server, held, refl, sym (goes_on_inj h))
  listening_on-goes_on Result.error q h = cc
  listening_on-goes_on Result.crash q h = cc
  listening_on-goes_on Result.out_of_fuel q h = cc

-- `init_ssl` sets only `ssl_ctx`; where it returns 0 it is set.
abbrev pub Sets : Settings → Bool × Settings → Type 0
Sets s r =
    (r.1.texts ≡ s.texts)
    × (r.1.server_port ≡ s.server_port)
    × (r.1.ssl_enabled ≡ s.ssl_enabled)
    × (r.0 ≡ true → r.1.ssl_ctx ≡ true)

pub ssl_with-Sets :
    (calls : SslCalls) (cert key : Option Bytes) (s : Settings) → Sets s (ssl_with calls cert key s)
ssl_with-Sets calls none key s = (refl, refl, refl, λ h. cc)
ssl_with-Sets calls (some cert) none s = (refl, refl, refl, λ h. cc)
ssl_with-Sets calls (some cert) (some key) s = elim (Bool-cases calls.new_context) [
  | inl made ↦ rw made (refl, refl, refl, λ h. refl)
  | inr failed ↦ rw failed (refl, refl, refl, λ h. cc)
]

pub if_true :
    {A : Type 0} (b : Bool) (x y : A) {z : A} → b ≡ true → (if b then x else y) ≡ z → x ≡ z
if_true b x y t h = rw t at h

pub if_false :
    {A : Type 0} (b : Bool) (x y : A) {z : A} → b ≡ false → (if b then x else y) ≡ z → y ≡ z
if_false b x y t h = rw t at h

abbrev pub added : Signal → Process → Process
added signal p = record p { handlers = signal ∷ p.handlers }

pub handle-goes_on :
    (sigaction : Signal → Bool) (signal : Signal) (p q : Process)
    → handle sigaction signal p ≡ goes_on q
    → q ≡ added signal p
handle-goes_on sigaction signal p q h = elim (Bool-cases (sigaction signal)) [
  | inl ok ↦ sym (goes_on_inj (if_true (sigaction signal) _ _ ok h))
  | inr failed ↦ stuck p q (if_false (sigaction signal) _ _ failed h)
]
  where
    stuck : (p q : Process) → shuts_down p ≡ goes_on q → q ≡ added signal p
    stuck p q h = cc

pub handled_in_turn :
    (sigaction : Signal → Bool) (p q : Process)
    → init_signal_handlers sigaction p ≡ goes_on q
    → q ≡ record p { handlers = sigusr1 ∷ sigpipe ∷ sigint ∷ p.handlers }
unfolding init_signal_handlers before
handled_in_turn sigaction p q h =
    let (p₂, two, three) = before-goes_on _ (handle sigaction sigusr1) h in
    let (p₁, one, after) =
      before-goes_on (handle sigaction sigint p) (handle sigaction sigpipe) two in
    handle-goes_on sigaction sigusr1 p₂ q three
    ∙ ap (added sigusr1) (handle-goes_on sigaction sigpipe p₁ p₂ after)
    ∙ ap (λ x. added sigusr1 (added sigpipe x)) (handle-goes_on sigaction sigint p p₁ one)

pub start_ssl-goes_on :
    (calls : SslCalls) (p q : Process)
    → start_ssl calls p ≡ goes_on q
    → (s : Settings) × (q ≡ record p { settings = s })
      × (s.texts ≡ p.settings.texts)
      × (s.ssl_enabled ≡ true → s.ssl_ctx ≡ true)
unfolding start_ssl init_ssl
start_ssl-goes_on calls p q h = elim (Bool-cases p.settings.ssl_enabled) [
  | inl enabled ↦
      let r = init_ssl calls p.settings in
      let (ok, is) = secured-goes_on p r q (if_true p.settings.ssl_enabled _ _ enabled h) in
      let sets =
        ssl_with-Sets calls (p.settings.texts ssl_cert_filename) (p.settings.texts ssl_key_filename)
          p.settings in
      (r.1, is, sets.0, λ e. sets.3 ok)
  | inr disabled ↦ (
    p.settings,
    sym (goes_on_inj (if_false p.settings.ssl_enabled _ _ disabled h)),
    refl,
    λ e. cc (disabled),
  )
]
