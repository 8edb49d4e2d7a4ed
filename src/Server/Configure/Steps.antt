-- ===== src/Server/Configure/Steps.antt =====
-- What the steps of `configure` set and keep.
use mathlib.Core.Path.{subst}
use nvhttpd.Base.{
  ℕ, suc, Bool, true, false, List, [], ◌∷◌, Option, none, some, ◌≡◌, ◌≢◌, refl, sym, ap, ◌∙◌, ◌⊎◌,
  inl, inr, ◌==◌, if◌then◌else◌, arith,
}
use nvhttpd.Base.Chars.{Bytes, pos, negsuc, ℤ}
use nvhttpd.Config.State.{no_memory, done, fail, crash, out_of_fuel}
use nvhttpd.Server.Settings.{
  TextField, field_number, Settings, Result, and_then, is_next_given, allocated, set_text, store,
  lines_of, stdout, LogFile,
}
use nvhttpd.Server.Configure.{set_defaults, default_log_file, default_port}

-- A step that was followed by another one succeeded.
pub and_then-done :
    (x : Result) (f : Settings → Result) (t : Settings)
    → and_then x f ≡ (done tt, t)
    → (s : Settings) × (x ≡ (done tt, s)) × (f s ≡ (done tt, t))
unfolding and_then
and_then-done (done tt, s) f t h = (s, refl, h)
and_then-done (fail e, s) f t h = absurd cc
and_then-done (crash, s) f t h = absurd cc
and_then-done (out_of_fuel, s) f t h = absurd cc

-- What is set in `s` is set in `t`.
pub record Keeps (s t : Settings) : Type 0 where
  pub texts : (f : TextField) → s.texts f ≢ none → t.texts f ≢ none
  pub log_file : s.log_file ≢ none → t.log_file ≢ none
  pub server_port : s.server_port ≢ pos 0 → t.server_port ≢ pos 0

pub Keeps-refl : (s : Settings) → Keeps s s
Keeps-refl s = record { texts = λ f h. h; log_file = λ h. h; server_port = λ h. h }

pub Keeps-trans : {s t u : Settings} → Keeps s t → Keeps t u → Keeps s u
Keeps-trans a b = record {
  texts = λ f h. b.texts f (a.texts f h);
  log_file = λ h. b.log_file (a.log_file h);
  server_port = λ h. b.server_port (a.server_port h);
}

-- The settings behind a step that succeeds, and the headers that are still in the array.
pub record Adds (s t : Settings) : Type 0 where
  pub keeps : Keeps s t
  pub lines : lines_of t ≡ lines_of s

pub Adds-refl : (s : Settings) → Adds s s
Adds-refl s = record { keeps = Keeps-refl s; lines = refl }

pub Adds-trans : {s t u : Settings} → Adds s t → Adds t u → Adds s u
Adds-trans a b = record { keeps = Keeps-trans a.keeps b.keeps; lines = b.lines ∙ a.lines }

abbrev pub ok : Settings → Result
ok s = (done tt, s)

pub settings_of : {s t : Settings} → ok s ≡ ok t → s ≡ t
settings_of h = ap (λ x. x.1) h

-- A test that leaves a text, where one branch is a text.
chosen-some :
    (b : Bool) (text : Bytes) (old : Option Bytes)
    → (b ≡ true) ⊎ (old ≢ none)
    → (if b then some text else old) ≢ none
chosen-some true text old given = λ h. cc
chosen-some false text old (inl given) = absurd cc
chosen-some false text old (inr given) = given

set_text-Given :
    (f : TextField) (text : Bytes) (s : Settings)
    → let t = set_text f (some text) (allocated s) in (t.texts f ≢ none) × Adds s t
set_text-Given f text s = (
  chosen-some (field_number f == field_number f) text (s.texts f) (inl (ground arith)),
  record {
    keeps = record {
      texts = λ g h. chosen-some (field_number f == field_number g) text (s.texts g) (inr h);
      log_file = λ h. h;
      server_port = λ h. h;
    };
    lines = refl;
  },
)

store-Adds :
    (f : TextField) (text : Bytes) (s t : Settings)
    → store f text s ≡ ok t
    → (t.texts f ≢ none) × Adds s t
unfolding store
store-Adds f text s t h = go (is_next_given s) h
  where
    go :
        (b : Bool)
        → (if b
            then ok (set_text f (some text) (allocated s))
            else (fail no_memory, set_text f none (allocated s)))
          ≡ ok t
        → (t.texts f ≢ none) × Adds s t
    go true h = subst (λ u. (u.texts f ≢ none) × Adds s u) (settings_of h) (set_text-Given f text s)
    go false h = absurd cc

-- Every field of the list has a text.
abbrev pub Given : List (TextField × Bytes) → Settings → Type 0
Given [] s = Unit
Given ((f, text) ∷ rest) s = (s.texts f ≢ none) × Given rest s

pub Given-Keeps :
    (fields : List (TextField × Bytes)) {s t : Settings}
    → Keeps s t
    → Given fields s
    → Given fields t
Given-Keeps [] k g = tt
Given-Keeps ((f, text) ∷ rest) k g = (k.texts f g.0, Given-Keeps rest k g.1)

default-Adds :
    (f : TextField) (text : Bytes) (s t : Settings) (v : Option Bytes)
    → s.texts f ≡ v
    → elim v [ some old ↦ ok s | none ↦ store f text s ] ≡ ok t
    → (t.texts f ≢ none) × Adds s t
default-Adds f text s t none e h = store-Adds f text s t h
default-Adds f text s t (some old) e h =
    subst (λ u. (u.texts f ≢ none) × Adds s u) (settings_of h) ((λ h. cc), Adds-refl s)

pub set_defaults-Adds :
    (fields : List (TextField × Bytes)) (s t : Settings)
    → set_defaults fields s ≡ ok t
    → Given fields t × Adds s t
unfolding set_defaults
set_defaults-Adds [] s t h = subst (λ u. Given [] u × Adds s u) (settings_of h) (tt, Adds-refl s)
set_defaults-Adds ((f, text) ∷ rest) s t h =
    let (u, first, second) = and_then-done _ _ t h in
    let (given, adds) = default-Adds f text s u (s.texts f) refl first in
    let (later, more) = set_defaults-Adds rest u t second in
    ((more.keeps.texts f given, later), Adds-trans adds more)

pub default_log_file-Adds :
    (s t : Settings) → default_log_file s ≡ ok t → (t.log_file ≢ none) × Adds s t
unfolding default_log_file
default_log_file-Adds s t h = go s.log_file refl h
  where
    go :
        (v : Option LogFile)
        → s.log_file ≡ v
        → elim v [ some file ↦ ok s | none ↦ ok (record s { log_file = some stdout }) ] ≡ ok t
        → (t.log_file ≢ none) × Adds s t
    go (some file) e h =
        subst (λ u. (u.log_file ≢ none) × Adds s u) (settings_of h) ((λ h. cc), Adds-refl s)
    go none e h =
        subst (λ u. (u.log_file ≢ none) × Adds s u) (settings_of h)
          (
            (λ h. cc),
            record {
              keeps = record { texts = λ f h. h; log_file = λ h h'. cc; server_port = λ h. h };
              lines = refl;
            },
          )

-- The number of a port that is not negative.
abbrev port_number : ℤ → ℕ
port_number (pos n) = n
port_number (negsuc n) = 0

ne : (n : ℕ) → pos (suc n) ≢ pos 0
ne n h = absurd (omega (arith, ap port_number h))

pub default_port-Adds :
    (s t : Settings) → default_port s ≡ ok t → (t.server_port ≢ pos 0) × Adds s t
unfolding default_port
default_port-Adds s t h = go s.server_port refl h
  where
    ported : Settings
    ported = record s { server_port = if s.ssl_ctx then pos 443 else pos 80 }

    same : s.server_port ≢ pos 0 → ok s ≡ ok t → (t.server_port ≢ pos 0) × Adds s t
    same set h = subst (λ u. (u.server_port ≢ pos 0) × Adds s u) (settings_of h) (set, Adds-refl s)

    chosen : (b : Bool) → (if b then pos 443 else pos 80) ≢ pos 0
    chosen true = λ h. ne 442 h
    chosen false = λ h. ne 79 h

    go_zero :
        (b : Bool) (n : ℕ)
        → s.server_port ≡ pos n
        → (n == 0) ≡ b
        → (if b then ok ported else ok s) ≡ ok t
        → (t.server_port ≢ pos 0) × Adds s t
    go_zero true n e z h =
        subst (λ u. (u.server_port ≢ pos 0) × Adds s u) (settings_of h)
          (
            chosen s.ssl_ctx,
            record {
              keeps = record {
                texts = λ f h. h;
                log_file = λ h. h;
                server_port = λ h. chosen s.ssl_ctx;
              };
              lines = refl;
            },
          )
    go_zero false n e z h =
        same (λ zero'. let is_zero : n ≡ 0 = ap port_number (sym e ∙ zero') in ground arith) h

    go :
        (v : ℤ)
        → s.server_port ≡ v
        → elim v [ pos n ↦ if n == 0 then ok ported else ok s | negsuc n ↦ ok s ] ≡ ok t
        → (t.server_port ≢ pos 0) × Adds s t
    go (pos n) e h = go_zero (n == 0) n e refl h
    go (negsuc n) e h = same (λ zero'. cc) h
