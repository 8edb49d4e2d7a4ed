-- ===== src/Server/Process.antt =====
-- The state of the program while `main` runs, and what its calls give: main.c.
use nvhttpd.Base.{ℕ, ◌&&◌, Bool, true, false, List, [], ◌∷◌, Option, none, some, if◌then◌else◌}
use nvhttpd.Base.Chars.{Bytes, codes}
use nvhttpd.Options.{option_arg_none, option_arg_required, OptionS}
use nvhttpd.Cache.{Cache}
use nvhttpd.Cache.Site.{Directory}
use nvhttpd.Log.Logger.{Logger}
use nvhttpd.Http.Listening.{ListenCalls, HttpServer, Servers}
use nvhttpd.Server.Settings.{ssl_cert_filename, ssl_key_filename, Settings, initial}
use nvhttpd.Server.Configure.{System}

abbrev pub option_c : OptionS
option_c = record {
  name = codes "c";
  arg_type = option_arg_required;
  value = none;
  validated = false;
  present = false;
}

abbrev pub option_h : OptionS
option_h = record {
  name = codes "h";
  arg_type = option_arg_none;
  value = none;
  validated = false;
  present = false;
}

abbrev pub option_v : OptionS
option_v = record {
  name = codes "v";
  arg_type = option_arg_none;
  value = none;
  validated = false;
  present = false;
}

abbrev pub options : List OptionS
options = option_c ∷ option_h ∷ option_v ∷ []

-- `terminate` and `reload`, and what the handlers make of them.
pub record Flags : Type 0 where
  pub terminate : Bool
  pub reload : Bool

pub data Signal : Type 0 where
  sigint sigpipe sigusr1 : Signal

unfoldable pub sig_handler : Signal → Flags → Flags
sig_handler sigint f = record f { terminate = true }
sig_handler sigpipe f = f
sig_handler sigusr1 f = record f { reload = true }

-- The calls of OpenSSL in `init_ssl`: whether they succeed.
pub record SslCalls : Type 0 where
  pub new_context : Bool
  pub set_cipher_list : Bool
  pub use_certificate : Bytes → Bool
  pub use_private_key : Bytes → Bool
  pub check_private_key : Bool

-- What the calls of `main` give: the arguments behind the name of the program, what `configure` asks
-- for, open on the pid file, malloc in `log_init`, the directories on the disk, malloc in
-- `cache_load`, OpenSSL, the three calls of sigaction, and those of `http_init`.
pub record Machine : Type 0 where
  pub arguments : List Bytes
  pub system : System
  pub opens_pid : Bytes → Bool
  pub has_log_memory : Bool
  pub has_queue_memory : Bool
  pub getpid : ℕ
  pub disk : Bytes → Directory
  pub cache_allocations : List Bool
  pub ssl : SslCalls
  pub sigaction : Signal → Bool
  pub listening : ListenCalls

-- The static variables and local variables of `main`, the signals that have a handler, whether the
-- pid file is there, and what `http_init` holds.
pub record Process : Type 0 where
  pub settings : Settings
  pub log : Option Logger
  pub cache : Option Cache
  pub handlers : List Signal
  pub server : Option HttpServer
  pub servers : Servers
  pub pid_file : Option Bytes

-- A step of `main` goes on, or goes to `shutdown`.
pub data Progress : Type 0 where
  goes_on : Process → Progress
  shuts_down : Process → Progress
  crashes : Progress
  out_of_steps : Progress

unfoldable pub before : Progress → (Process → Progress) → Progress
before (goes_on p) f = f p
before (shuts_down p) f = shuts_down p
before crashes f = crashes
before out_of_steps f = out_of_steps

-- On the names of the certificate and the key.
abbrev pub ssl_with : SslCalls → Option Bytes → Option Bytes → Settings → Bool × Settings
ssl_with calls none key s = (false, s)
ssl_with calls (some cert) none s = (false, s)
ssl_with calls (some cert) (some key) s =
    if calls.new_context
    then (
      calls.set_cipher_list
          && (calls.use_certificate cert && (calls.use_private_key key && calls.check_private_key)),
      record s { ssl_ctx = true },
    )
    else (false, s)

-- `init_ssl`: whether it returns 0, and `ssl_ctx`.
unfoldable pub init_ssl : SslCalls → Settings → Bool × Settings
init_ssl calls s = ssl_with calls (s.texts ssl_cert_filename) (s.texts ssl_key_filename) s

-- The variables as they are when `main` is called.
abbrev pub at_first : List Bool → List Bool → Process
at_first allocations fopens = record {
  settings = initial allocations fopens;
  log = none;
  cache = none;
  handlers = [];
  server = none;
  servers = record { structures = 0; sockets = 0 };
  pid_file = none;
}
