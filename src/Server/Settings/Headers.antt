-- ===== src/Server/Settings/Headers.antt =====
-- The array of the response headers.
use nvhttpd.Base.{
  ℕ, ◌+◌, ◌*◌, ◌%◌, ◌^◌, ◌≤◌, ◌<◌, Bool, true, false, List, [], ◌∷◌, Option, none, some, ◌++◌, ◌≡◌,
  ◌≢◌, refl, sym, ap, ◌∙◌, ◌==◌, if◌then◌else◌, length, arith, length-append, lt→ltb,
}
use nvhttpd.Base.Chars.{Bytes}
use nvhttpd.Config.State.{no_memory, done, fail, crash, out_of_fuel}
use nvhttpd.Server.Settings.{
  Settings, Result, and_then, is_next_given, allocated, lines_of, header_line, need_array,
  double_array, add_line, on_headers,
}

-- The bytes of all lines.
abbrev pub total_length : List Bytes → ℕ
total_length [] = 0
total_length (line ∷ lines) = length line + total_length lines

total_length-append :
    (xs : List Bytes) (line : Bytes)
    → total_length (xs ++ line ∷ []) ≡ total_length xs + length line
total_length-append [] line = omega arith
total_length-append (x ∷ xs) line = omega (arith, total_length-append xs line)

-- The lines are within the array, and `response_headers_total` is the number of their bytes.
pub record AreHeld (s : Settings) : Type 0 where
  pub fit :
      (lines : List Bytes)
      → s.response_headers_array ≡ some lines
      → length lines ≤ s.response_headers_size
  pub room :
      (lines : List Bytes) → s.response_headers_array ≡ some lines → 0 < s.response_headers_size
  pub total : s.response_headers_total ≡ total_length (lines_of s)

-- A step crashes nowhere, and has this property where it succeeds.
abbrev Fine : (Settings → Type 0) → Result → Type 0
Fine P x = (x.0 ≢ crash) × (x.0 ≡ done tt → P x.1)

and_then-Fine :
    (P Q : Settings → Type 0) (x : Result) (f : Settings → Result)
    → Fine P x
    → ((t : Settings) → P t → Fine Q (f t))
    → Fine Q (and_then x f)
unfolding and_then
and_then-Fine P Q (done tt, s) f p q = q s (p.1 refl)
and_then-Fine P Q (fail e, s) f p q = ((λ h. cc), (λ h. absurd cc))
and_then-Fine P Q (crash, s) f p q = absurd (p.0 refl)
and_then-Fine P Q (out_of_fuel, s) f p q = ((λ h. cc), (λ h. absurd cc))

done-Fine : (P : Settings → Type 0) (s : Settings) → P s → Fine P (done tt, s)
done-Fine P s p = ((λ h. cc), (λ h. p))

-- Memory is given or not.
given-Fine :
    (P : Settings → Type 0) (b : Bool) (x : Result) (s : Settings)
    → Fine P x
    → Fine P (if b then x else (fail no_memory, s))
given-Fine P true x s p = p
given-Fine P false x s p = ((λ h. cc), (λ h. absurd cc))

-- The array is there, with the same lines and room for these.
record Ready (s t : Settings) : Type 0 where
  made : t.response_headers_array ≡ some (lines_of s)
  fit : length (lines_of s) ≤ t.response_headers_size
  room : 0 < t.response_headers_size
  small : t.response_headers_size * 2 < 2 ^ 64
  total : t.response_headers_total ≡ s.response_headers_total

pub lines_of-some :
    (s : Settings) (lines : List Bytes) → s.response_headers_array ≡ some lines → lines_of s ≡ lines
lines_of-some s lines e = rw e refl

lines_of-none : (s : Settings) → s.response_headers_array ≡ none → lines_of s ≡ []
lines_of-none s e = rw e refl

need_array-Ready :
    (s : Settings)
    → s.response_headers_size * 2 < 2 ^ 64
    → AreHeld s
    → Fine (Ready s) (need_array s)
unfolding need_array
need_array-Ready s small held = go s.response_headers_array refl
  where
    made : Settings
    made = record (allocated s) { response_headers_array = some []; response_headers_size = 10 }

    go :
        (v : Option (List Bytes))
        → s.response_headers_array ≡ v
        → Fine (Ready s) (elim v [
          | some lines ↦ (done tt, s)
          | none ↦
              if is_next_given s
              then (done tt, made)
              else (fail no_memory, record (allocated s) { response_headers_size = 10 })
        ])
    go (some lines) e = done-Fine (Ready s) s (record {
      made = e ∙ ap some (sym (lines_of-some s lines e));
      fit = held.fit (lines_of s) (e ∙ ap some (sym (lines_of-some s lines e)));
      room = held.room lines e;
      small = small;
      total = refl;
    })
    go none e =
        given-Fine (Ready s) (is_next_given s) (done tt, made) _
          (done-Fine (Ready s) made (record {
            made = ap some (sym (lines_of-none s e));
            fit = omega (arith, ap length (lines_of-none s e));
            room = omega arith;
            small = omega arith;
            total = refl;
          }))

-- There is room for one line more.
record HasRoom (s t : Settings) : Type 0 where
  made : t.response_headers_array ≡ some (lines_of s)
  fit : length (lines_of s) < t.response_headers_size
  total : t.response_headers_total ≡ s.response_headers_total

double_array-HasRoom : (s t : Settings) → Ready s t → Fine (HasRoom s) (double_array (lines_of t) t)
unfolding double_array
double_array-HasRoom s t ready =
    go (length (lines_of t) == t.response_headers_size) refl (is_next_given t)
  where
    same : lines_of t ≡ lines_of s
    same = lines_of-some t (lines_of s) ready.made

    doubled : Settings
    doubled = record (allocated t) { response_headers_size = t.response_headers_size * 2 % 2 ^ 64 }

    go :
        (b : Bool)
        → (length (lines_of t) == t.response_headers_size) ≡ b
        → (g : Bool)
        → Fine
            (HasRoom s)
            (if b then ((if g then done tt else fail no_memory), doubled) else (done tt, t))
    go true e true = done-Fine (HasRoom s) doubled (record {
      made = ready.made;
      fit = omega (arith, ready.fit, ready.room, ready.small);
      total = ready.total;
    })
    go true e false = ((λ h. cc), (λ h. absurd cc))
    go false e g = done-Fine (HasRoom s) t (record {
      made = ready.made;
      fit = (let same_length = ap length same in let fit = ready.fit in ground arith);
      total = ready.total;
    })

-- What `on_headers` leaves.
record HasLine (line : Bytes) (s t : Settings) : Type 0 where
  held : AreHeld t
  lines : lines_of t ≡ lines_of s ++ line ∷ []

add_line-HasLine :
    (line : Bytes) (s t : Settings)
    → s.response_headers_total + length line < 2 ^ 64
    → AreHeld s
    → HasRoom s t
    → Fine (HasLine line s) (add_line (lines_of t) line t)
unfolding add_line
add_line-HasLine line s t few held room = given-Fine (HasLine line s) (is_next_given t) _ _ (
    rw
      (lt→ltb (length (lines_of t)) t.response_headers_size
        (omega (arith, ap length same, room.fit)))
      (done-Fine (HasLine line s) added (record {
        held = record {
          fit = λ lines e. omega (
            arith,
            ap length (lines_of-some added lines e),
            length-append (lines_of t) (line ∷ []),
            ap length same,
            room.fit,
          );
          room = λ lines e. omega (arith, room.fit);
          total = omega (
            arith,
            room.total,
            held.total,
            ap total_length same,
            total_length-append (lines_of t) line,
          );
        };
        lines = ap (λ xs. xs ++ line ∷ []) same;
      })))
  where
    same : lines_of t ≡ lines_of s
    same = lines_of-some t (lines_of s) room.made

    added : Settings
    added = record (allocated t) {
      response_headers_array = some (lines_of t ++ line ∷ []);
      response_headers_total = (t.response_headers_total + length line) % 2 ^ 64;
    }

-- A header is added: no byte is written outside the array, the lines stay within it, and their
-- number of bytes is right, as long as the sizes are below 2 ^ 64; and where config_handler
-- returns CONFIG_ERROR_NONE, the line stands behind those before.
pub on_headers-AreHeld :
    (key value : Bytes) (s : Settings)
    → s.response_headers_size * 2 < 2 ^ 64
    → s.response_headers_total + length (header_line key value) < 2 ^ 64
    → AreHeld s
    → ((on_headers key value s).0 ≢ crash)
      × ((on_headers key value s).0 ≡ done tt
          → AreHeld (on_headers key value s).1
            × (lines_of (on_headers key value s).1 ≡ lines_of s ++ header_line key value ∷ []))
unfolding on_headers and_then need_array double_array add_line
on_headers-AreHeld key value s small few held =
    let fine =
      and_then-Fine (HasRoom s) (HasLine (header_line key value) s)
        (and_then (need_array s) (λ t. double_array (lines_of t) t))
        (λ t. add_line (lines_of t) (header_line key value) t)
        (and_then-Fine (Ready s) (HasRoom s) (need_array s) (λ t. double_array (lines_of t) t)
          (need_array-Ready s small held) (double_array-HasRoom s))
        (λ t. add_line-HasLine (header_line key value) s t few held) in
    (fine.0, (λ h. ((fine.1 h).held, (fine.1 h).lines)))
