-- ===== src/Server/Configure/Complete.antt =====
-- What `configure` has set when it returns 0.
use mathlib.Core.Path.{subst}
use nvhttpd.Base.{
  ℕ, Bool, true, false, List, [], ◌∷◌, Option, none, some, ◌≡◌, ◌≢◌, refl, sym, ap, ◌∙◌, ◌⊎◌, inl,
  inr, if◌then◌else◌,
}
use nvhttpd.Base.Chars.{Bytes, pos}
use nvhttpd.Config.State.{no_memory, Outcome, done, fail, crash}
use nvhttpd.Server.Settings.{
  config_file, response_400_path, response_404_path, response_500_path, response_501_path,
  html_path, server_ip, pid_filename, server_string, Settings, and_then, is_next_given, allocated,
  lines_of,
}
use nvhttpd.Server.Configure.{
  System, cfg_filename_primary, run_path, find_config_file, read_settings, first_defaults,
  later_defaults, join_lines, join_headers, complete, use_config_file, configure,
}
use nvhttpd.Server.Configure.Joined.{concat, joined_text-concat}
use nvhttpd.Server.Configure.Steps.{
  and_then-done, Keeps, Keeps-refl, Keeps-trans, Adds-trans, ok, settings_of, Given-Keeps,
  set_defaults-Adds, default_log_file-Adds, default_port-Adds,
}

-- What is set where `configure` has read a file.
pub record IsComplete (s : Settings) : Type 0 where
  pub path_400 : s.texts response_400_path ≢ none
  pub path_404 : s.texts response_404_path ≢ none
  pub path_500 : s.texts response_500_path ≢ none
  pub path_501 : s.texts response_501_path ≢ none
  pub name : s.texts server_string ≢ none
  pub html : s.texts html_path ≢ none
  pub pid : s.texts pid_filename ≢ none
  pub ip : s.texts server_ip ≢ none
  pub log_file : s.log_file ≢ none
  pub server_port : s.server_port ≢ pos 0

join_headers-Keeps :
    (s t : Settings)
    → join_headers s ≡ ok t
    → Keeps s t × ((lines_of s ≡ []) ⊎ (t.response_headers ≡ some (concat (lines_of s))))
unfolding join_headers join_lines
join_headers-Keeps s t h = go s.response_headers_array refl h
  where
    kept : ok s ≡ ok t → Keeps s t
    kept h = subst (Keeps s) (settings_of h) (Keeps-refl s)

    joined : Bytes → Settings
    joined text = record (allocated s) {
      response_headers = some text;
      response_headers_array = none;
      response_headers_size = 0;
    }

    wrote :
        (a : Bool) (o : Option Bytes) (e f : Outcome (Unit {0})) (u v : Settings)
        → e ≢ done tt
        → f ≢ done tt
        → (if a then elim o [ none ↦ (e, u) | some text ↦ ok (joined text) ] else (f, v)) ≡ ok t
        → (text : Bytes) × Keeps s t × (t.response_headers ≡ some text) × (o ≡ some text)
    wrote true (some text) e f u v ne nf h =
        let (k, is) : Keeps s t × (t.response_headers ≡ some text) =
          subst (λ x. Keeps s x × (x.response_headers ≡ some text)) (settings_of h)
            (record { texts = λ g h. h; log_file = λ h. h; server_port = λ h. h }, refl) in
        (text, k, is, refl)
    wrote true none e f u v ne nf h = absurd (ne (ap (λ x. x.0) h))
    wrote false o e f u v ne nf h = absurd (nf (ap (λ x. x.0) h))

    go :
        (v : Option (List Bytes))
        → s.response_headers_array ≡ v
        → elim v [
          | none ↦ ok s
          | some [] ↦ ok s
          | some (line ∷ lines) ↦ join_lines (line ∷ lines) s
        ]
          ≡ ok t
        → Keeps s t × ((lines_of s ≡ []) ⊎ (t.response_headers ≡ some (concat (lines_of s))))
    go none e h = (kept h, inl (rw e refl))
    go (some []) e h = (kept h, inl (rw e refl))
    go (some (line ∷ lines)) e h =
        let (text, k, is, joins) = wrote _ _ crash (fail no_memory) _ _ (λ h. cc) (λ h. cc) h in
        let in_order : text ≡ concat (line ∷ lines) =
          joined_text-concat (line ∷ lines) _ text joins in
        (k, inr (rw e (is ∙ ap some in_order)))

complete-IsComplete :
    (s t : Settings)
    → complete s ≡ ok t
    → IsComplete t × ((lines_of s ≡ []) ⊎ (t.response_headers ≡ some (concat (lines_of s))))
unfolding complete
complete-IsComplete s t h =
    let (s₁, run₁, h₁) = and_then-done _ _ t h in
    let (s₂, run₂, h₂) = and_then-done _ _ t h₁ in
    let (s₃, run₃, h₃) = and_then-done _ _ t h₂ in
    let (s₄, run₄, h₄) = and_then-done _ _ t h₃ in
    let (g₁, a₁) = set_defaults-Adds first_defaults s s₁ run₁ in
    let (g₂, a₂) = default_log_file-Adds s₁ s₂ run₂ in
    let (g₃, a₃) = set_defaults-Adds later_defaults s₂ s₃ run₃ in
    let (g₄, a₄) = default_port-Adds s₃ s₄ run₄ in
    let (k, joined) = join_headers-Keeps s₄ t h₄ in
    let all = Adds-trans a₁ (Adds-trans a₂ (Adds-trans a₃ a₄)) in
    let behind = Keeps-trans (Keeps-trans a₂.keeps (Keeps-trans a₃.keeps a₄.keeps)) k in
    let first = Given-Keeps first_defaults behind g₁ in
    let later = Given-Keeps later_defaults (Keeps-trans a₄.keeps k) g₃ in
    (
      record {
        path_400 = first.1.1.1.0;
        path_404 = first.1.1.0;
        path_500 = first.1.0;
        path_501 = first.0;
        name = first.1.1.1.1.0;
        html = later.0;
        pid = later.1.0;
        ip = later.1.1.0;
        log_file = k.log_file (a₄.keeps.log_file (a₃.keeps.log_file g₂));
        server_port = k.server_port g₄;
      },
      rw (sym all.lines) joined,
    )

-- Where configure returns 0 and there is a configuration file, every text that the server needs is
-- set, a log file is open and the port is not 0.
pub configure-IsComplete :
    (fuel : ℕ) (system : System) (s t : Settings)
    → configure fuel system s ≡ (done tt, t)
    → (t.texts config_file ≡ none) ⊎ IsComplete t
unfolding configure use_config_file
configure-IsComplete fuel system s t h =
    let (u, found, used) =
      and_then-done (find_config_file system s) (use_config_file fuel system) t h in
    go u (u.texts config_file) refl used
  where
    go :
        (u : Settings) (v : Option Bytes)
        → u.texts config_file ≡ v
        → elim v [ none ↦ ok u | some name ↦ and_then (read_settings fuel system name u) complete ]
          ≡ ok t
        → (t.texts config_file ≡ none) ⊎ IsComplete t
    go u none e h = inl (ap (λ x. x.texts config_file) (sym (settings_of h)) ∙ e)
    go u (some name) e h =
        let (v, read, completed) = and_then-done (read_settings fuel system name u) complete t h in
        inr (complete-IsComplete v t completed).0

-- Where the part of configure behind the parsing of the file returns 0, and the configuration has lines
-- for the response headers, the text of the headers is these lines one after the other.
pub complete-concat :
    (s t : Settings)
    → complete s ≡ (done tt, t)
    → (lines_of s ≡ []) ⊎ (t.response_headers ≡ some (concat (lines_of s)))
complete-concat s t h = (complete-IsComplete s t h).1

-- No configuration file is named, neither place has one, and the call of malloc for the second name
-- returns memory: configure returns 0 and sets nothing, so that the texts that the server goes on with
-- are those that it was called with.
pub configure_no_file :
    (fuel : ℕ) (system : System) (s : Settings)
    → s.texts config_file ≡ none
    → system.stat cfg_filename_primary ≡ false
    → system.stat (run_path system.program_path) ≡ false
    → is_next_given s ≡ true
    → configure fuel system s ≡ (done tt, allocated s)
unfolding configure find_config_file use_config_file and_then
configure_no_file fuel system s unset no_primary no_local given =
    rw
      (
        configure, find_config_file, unset, no_primary, given, no_local, and_then, use_config_file,
        unset,
      )
      refl
