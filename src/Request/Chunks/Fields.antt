-- ===== src/Request/Chunks/Fields.antt =====
-- The judgement of `Runs` for `parse_var`, `parse_val`, `get_query` and `get_headers`.
use nvhttpd.Base.{ℕ, zero, suc, ◌+◌, ◌≤◌, ◌&&◌, ◌||◌, List, [], ◌≡◌, refl, arith, ◌==◌, length}
use nvhttpd.Base.Chars.{Bytes, ℤ, pos, negsuc, is_space}
use nvhttpd.Http.{HttpVariable}
use nvhttpd.Request.State.{Request, error, bad, io_error, other}
use nvhttpd.Request.Io.{io_error_code}
use nvhttpd.Request.Text.{Text, text_rounds}
use nvhttpd.Request.Field.{
  url_var_name_max, url_var_value_max, var_loop, parse_var, val_loop, parse_val, add_variable,
  add_header, query_loop, query_from, get_query, get_headers,
}
use nvhttpd.Request.Io.Stream.{strip}
use nvhttpd.Request.Chunks.Runs.{
  Runs, IsView, with_reader, bind, bind_where, bind-Eats, return-Runs, fail-Runs, branch,
  modify-Runs,
}
use nvhttpd.Request.Chunks.Texts.{
  allocate-Runs, new_text-Runs, reserve-Runs, Fits, new_text-Fits, reserve-Fits, finish-Runs,
  fresh_rounds, store-Runs,
}
use nvhttpd.Request.Chunks.Reader.{
  io_next-Runs, next_char-Runs, peek_char-Runs, eat, expect-Eats, expect-Runs,
}

module _ {V : Type 0} {view : Request → V} (w : IsView view) {k : ℕ} where
  var_loop-Runs :
      (fuel separator : ℕ) (t : Text)
      → Fits t
      → 1025 ≤ fuel + length t.text
      → Runs view k (var_loop fuel separator t)
  unfolding var_loop
  var_loop-Runs zero separator t f enough = absurd (omega (arith, f.sizes, f.within))
  var_loop-Runs (suc fuel) separator t f enough =
      bind
        (λ ch. branch (is_space ch && separator == b'=') (fail-Runs bad) (
          bind_where {P = λ u. Fits u × (u.text ≡ t.text)}
            (λ t' g. branch (ch == separator) (return-Runs t') (
              bind (λ c. store-Runs w fuel c t t' _ enough g (var_loop-Runs fuel separator))
                (next_char-Runs w)))
            (λ r u h. reserve-Fits url_var_name_max t r u (omega arith) f h)
            (reserve-Runs w url_var_name_max t)))
        (peek_char-Runs w)

  pub parse_var-Runs : (separator : ℕ) → Runs view k (parse_var separator)
  unfolding parse_var
  parse_var-Runs separator =
      bind_where {P = λ t. Fits t × (t.text ≡ [])}
        (λ t f. bind (finish-Runs w) (var_loop-Runs text_rounds separator t f.0 (fresh_rounds t f)))
        new_text-Fits (new_text-Runs w)

  val_loop-Runs :
      (fuel : ℕ) (t : Text) → Fits t → 1025 ≤ fuel + length t.text → Runs view k (val_loop fuel t)
  unfolding val_loop
  val_loop-Runs zero t f enough = absurd (omega (arith, f.sizes, f.within))
  val_loop-Runs (suc fuel) t f enough =
      bind
        (λ ch.
          bind_where {P = λ u. Fits u × (u.text ≡ t.text)}
            (λ t' g. branch (ch == b'&' || ch == b'\r') (return-Runs t') (
              bind (λ c. store-Runs w fuel c t t' _ enough g (val_loop-Runs fuel))
                (next_char-Runs w)))
            (λ r u h. reserve-Fits url_var_value_max t r u (omega arith) f h)
            (reserve-Runs w url_var_value_max t))
        (peek_char-Runs w)

  pub parse_val-Runs : Runs view k parse_val
  unfolding parse_val
  parse_val-Runs =
      bind_where {P = λ t. Fits t × (t.text ≡ [])}
        (λ t f. bind (finish-Runs w) (val_loop-Runs text_rounds t f.0 (fresh_rounds t f)))
        new_text-Fits (new_text-Runs w)

-- The views that the two lists of variables do not change.
abbrev pub KeepsVariables : {V : Type 0} → (Request → V) → Type 0
KeepsVariables view =
    (r : Request) (l : List HttpVariable) → view (record r { url_variables = l }) ≡ view r

abbrev pub KeepsHeaders : {V : Type 0} → (Request → V) → Type 0
KeepsHeaders view = (r : Request) (l : List HttpVariable) → view (record r { headers = l }) ≡ view r

module _ {V : Type 0} {view : Request → V} (w : IsView view) (keep : KeepsVariables view) where
  add_variable-Runs : {k : ℕ} (var val : Bytes) → Runs view k (add_variable var val)
  unfolding add_variable strip with_reader
  add_variable-Runs var val =
      bind (λ got. branch got (modify-Runs (λ r. refl) (λ r. keep r _)) (fail-Runs io_error))
        (allocate-Runs w)

  query_loop-Runs : (fuel : ℕ) → Runs view fuel (query_loop fuel)
  unfolding query_loop
  query_loop-Runs zero = record { agree = λ r s eq less. absurd (omega arith) }
  query_loop-Runs (suc fuel) =
      bind
        (λ ch. branch (is_space ch || ch == b'#') (return-Runs tt) (
          bind
            (λ var. eat (
              bind-Eats
                (λ _.
                  bind
                    (λ val.
                      bind
                        (λ _.
                          bind
                            (λ next.
                              bind (λ _. query_loop-Runs fuel)
                                (branch (next == b'&')
                                  (bind (λ _. return-Runs tt) (next_char-Runs w)) (return-Runs tt)))
                            (peek_char-Runs w))
                        (add_variable-Runs var val))
                    (parse_val-Runs w))
                (expect-Eats w b'=' bad)))
            (parse_var-Runs w b'=')))
        (peek_char-Runs w)

  query_from-Runs : (fuel : ℕ) (c : ℤ) → Runs view fuel (query_from fuel c)
  unfolding query_from
  query_from-Runs fuel (pos c) = branch (c == b'?') (query_loop-Runs fuel) (return-Runs tt)
  query_from-Runs fuel (negsuc zero) = return-Runs tt
  query_from-Runs fuel (negsuc (suc zero)) = fail-Runs (other io_error_code)
  query_from-Runs fuel (negsuc (suc (suc n))) = return-Runs tt

  pub get_query-Runs : (fuel : ℕ) → Runs view fuel (get_query fuel)
  unfolding get_query
  get_query-Runs fuel = bind (query_from-Runs fuel) (io_next-Runs w)

module _ {V : Type 0} {view : Request → V} (w : IsView view) (keep : KeepsHeaders view) where
  add_header-Runs : {k : ℕ} (var val : Bytes) → Runs view k (add_header var val)
  unfolding add_header strip with_reader
  add_header-Runs var val =
      bind (λ got. branch got (modify-Runs (λ r. refl) (λ r. keep r _)) (fail-Runs error))
        (allocate-Runs w)

  pub get_headers-Runs : (fuel : ℕ) → Runs view fuel (get_headers fuel)
  unfolding get_headers
  get_headers-Runs zero = record { agree = λ r s eq less. absurd (omega arith) }
  get_headers-Runs (suc fuel) =
      bind
        (λ ch. branch (ch == b'\r') (return-Runs tt) (
          bind
            (λ var. eat (
              bind-Eats
                (λ _.
                  bind
                    (λ _.
                      bind
                        (λ val.
                          bind
                            (λ _.
                              bind
                                (λ _. bind (λ _. get_headers-Runs fuel) (expect-Runs w b'\n' bad))
                                (expect-Runs w b'\r' bad))
                            (add_header-Runs var val))
                        (parse_val-Runs w))
                    (expect-Runs w b' ' bad))
                (expect-Eats w b':' bad)))
            (parse_var-Runs w b':')))
        (peek_char-Runs w)
