-- ===== src/Request/Chunks/Line.antt =====
-- The judgement of `Runs` for the method, the URI and the version.
use nvhttpd.Base.{
  ℕ, zero, suc, ◌+◌, ◌≤◌, Bool, not, ◌&&◌, [], ◌∷◌, Option, none, some, ◌≡◌, refl, arith, ltb, leb,
  ◌==◌, length,
}
use nvhttpd.Base.Chars.{Bytes, codes, c_string, is_space, is_xdigit, is_digit}
use nvhttpd.Request.State.{
  Request, RequestMethod, connect, delete, get, head, options, post, put, trace, bad, error,
  io_error, ◌>>=◌,
}
use nvhttpd.Request.Text.{Text, text_rounds}
use nvhttpd.Request.Method.{expect_all, set_method, method_p, method_letters, get_method}
use nvhttpd.Request.Uri.{
  escaped_char, stored_char, uri_size_max, uri_loop, ends_uri, ends_fragment, make_room,
  append_index, last_char, add_index_behind, add_index, get_uri, get_uri_fragment,
}
use nvhttpd.Request.Version.{Digits, is_none, version_loop, store_version, get_http_ver}
use nvhttpd.Request.Io.Stream.{strip}
use nvhttpd.Request.Chunks.Runs.{
  Runs, IsView, with_reader, bind, bind_where, return-Runs, fail-Runs, crash-Runs, branch,
  modify-Runs,
}
use nvhttpd.Request.Chunks.Reader.{next_char-Runs, peek_char-Runs, expect-Runs}
use nvhttpd.Request.Chunks.Texts.{
  allocate-Runs, new_text-Runs, reserve-Runs, terminate-Runs, duplicate-Runs, Fits, new_text-Fits,
  reserve-Fits, fresh_rounds, store-Runs,
}

module _ {V : Type 0} {view : Request → V} (w : IsView view) {k : ℕ} where
  expect_all-Runs : (cs : Bytes) → Runs view k (expect_all cs)
  unfolding expect_all
  expect_all-Runs [] = return-Runs tt
  expect_all-Runs (c ∷ cs) = bind (λ _. expect_all-Runs cs) (expect-Runs w c bad)

  module _
      (keep : (r : Request) (m : RequestMethod) → view (record r { method = m }) ≡ view r) where
    set_method-Runs : (m : RequestMethod) → Runs view k (set_method m)
    unfolding set_method strip with_reader
    set_method-Runs m = modify-Runs (λ r. refl) (λ r. keep r m)

    -- A method's letters, and the method stored behind them.
    letters-Runs :
        (cs : Bytes) (m : RequestMethod) → Runs view k (expect_all cs >>= λ _. set_method m)
    letters-Runs cs m = bind (λ _. set_method-Runs m) (expect_all-Runs cs)

    method_p-Runs : Runs view k method_p
    unfolding method_p
    method_p-Runs =
        bind
          (λ ch.
            branch (ch == b'O') (bind (λ _. fail-Runs io_error) (letters-Runs (codes "ST") post)) (
              branch (ch == b'U') (bind (λ _. fail-Runs io_error) (letters-Runs (codes "T") put))
                (fail-Runs io_error)))
          (next_char-Runs w)

    method_letters-Runs : (ch : ℕ) → Runs view k (method_letters ch)
    unfolding method_letters
    method_letters-Runs ch = branch (ch == b'C') (letters-Runs (codes "ONNECT") connect) (
        branch (ch == b'D') (letters-Runs (codes "ELETE") delete) (
          branch (ch == b'G') (letters-Runs (codes "ET") get) (
            branch (ch == b'H') (letters-Runs (codes "EAD") head) (
              branch (ch == b'O') (letters-Runs (codes "PTIONS") options) (
                branch (ch == b'P') method_p-Runs
                  (branch (ch == b'T') (letters-Runs (codes "RACE") trace) (fail-Runs bad)))))))

    pub get_method-Runs : Runs view k get_method
    unfolding get_method
    get_method-Runs =
        bind
          (λ first.
            bind
              (λ _.
                bind (λ ch. branch (is_space ch) (return-Runs tt) (fail-Runs bad))
                  (peek_char-Runs w))
              (method_letters-Runs first))
          (next_char-Runs w)

  stored_char-Runs : (ch : ℕ) → Runs view k (stored_char ch)
  unfolding stored_char escaped_char
  stored_char-Runs ch =
      branch (ch == b'%')
        (bind
          (λ percent.
            bind
              (λ digit.
                branch (is_xdigit digit)
                  (bind (λ c. branch (is_xdigit c) (return-Runs _) (fail-Runs bad))
                    (peek_char-Runs w))
                  (fail-Runs bad))
              (next_char-Runs w))
          (next_char-Runs w))
        (return-Runs ch)

  uri_loop-Runs :
      (ends : ℕ → Bool) (fuel : ℕ) (t : Text)
      → Fits t
      → 1025 ≤ fuel + length t.text
      → Runs view k (uri_loop ends fuel t)
  unfolding uri_loop
  uri_loop-Runs ends zero t f enough = absurd (omega (arith, f.sizes, f.within))
  uri_loop-Runs ends (suc fuel) t f enough =
      bind
        (λ ch.
          bind_where {P = λ u. Fits u × (u.text ≡ t.text)}
            (λ t' g. branch (ends ch) (return-Runs t') (
              bind
                (λ c.
                  store-Runs w fuel c t t' _ enough g (λ u v more.
                    bind (λ last. uri_loop-Runs ends fuel u v more) (next_char-Runs w)))
                (stored_char-Runs ch)))
            (λ r u h. reserve-Fits uri_size_max t r u (omega arith) f h)
            (reserve-Runs w uri_size_max t))
        (peek_char-Runs w)

  add_index_behind-Runs : (t : Text) (c : Option ℕ) → Runs view k (add_index_behind t c)
  unfolding add_index_behind make_room append_index
  add_index_behind-Runs t none = crash-Runs
  add_index_behind-Runs t (some c) =
      branch (c == b'/')
        (bind
          (λ u.
            branch (u.mapped && leb (length (c_string u.text) + 11) u.size) (return-Runs _)
              crash-Runs)
          (branch (ltb t.size (length t.text + 11))
            (bind (λ got. branch got (return-Runs _) (fail-Runs error)) (allocate-Runs w))
            (return-Runs t)))
        (return-Runs (c_string t.text))

  add_index-Runs : (t : Text) → Runs view k (add_index t)
  unfolding add_index
  add_index-Runs t = add_index_behind-Runs t (last_char t.text)

  pub get_uri-Runs :
      ((r : Request) (u : Option Bytes) → view (record r { uri = u }) ≡ view r)
      → Runs view k get_uri
  unfolding get_uri strip with_reader
  get_uri-Runs keep =
      bind_where {P = λ t. Fits t × (t.text ≡ [])}
        (λ t f.
          bind
            (λ u.
              bind
                (λ _.
                  bind
                    (λ s. bind (λ v. modify-Runs (λ r. refl) (λ r. keep r _)) (duplicate-Runs w s))
                    (add_index-Runs u))
                (terminate-Runs w u))
            (uri_loop-Runs ends_uri text_rounds t f.0 (fresh_rounds t f)))
        new_text-Fits (new_text-Runs w)

  pub get_uri_fragment-Runs :
      ((r : Request) (u : Option Bytes) → view (record r { uri_fragment = u }) ≡ view r)
      → Runs view k get_uri_fragment
  unfolding get_uri_fragment strip with_reader
  get_uri_fragment-Runs keep =
      bind_where {P = λ t. Fits t × (t.text ≡ [])}
        (λ t f.
          bind
            (λ u.
              bind
                (λ _. bind (λ v. modify-Runs (λ r. refl) (λ r. keep r _)) (duplicate-Runs w u.text))
                (terminate-Runs w u))
            (uri_loop-Runs ends_fragment text_rounds t f.0 (fresh_rounds t f)))
        new_text-Fits (new_text-Runs w)

  version_loop-Runs : (rounds : ℕ) (d : Digits) → Runs view k (version_loop rounds d)
  unfolding version_loop
  version_loop-Runs zero d = return-Runs d
  version_loop-Runs (suc rounds) d =
      bind
        (λ ch. branch (is_space ch) (return-Runs d) (
          branch (not (is_digit ch) && not (ch == b'.')) (fail-Runs bad) (
            branch (ch == b'.' && not (is_none d.minor)) (fail-Runs bad)
              (bind (λ c. version_loop-Runs rounds _) (next_char-Runs w)))))
        (peek_char-Runs w)

  module _
      (keep : (r : Request) (i j : ℕ)
        → view (record r { http_version_major = i; http_version_minor = j }) ≡ view r) where
    store_version-Runs : (read : Bytes) (minor : Option ℕ) → Runs view k (store_version read minor)
    unfolding store_version strip with_reader
    store_version-Runs read none = crash-Runs
    store_version-Runs read (some i) = modify-Runs (λ r. refl) (λ r. keep r _ _)

    pub get_http_ver-Runs : Runs view k get_http_ver
    unfolding get_http_ver
    get_http_ver-Runs =
        bind (λ _. bind (λ d. store_version-Runs d.read d.minor) (version_loop-Runs 15 _))
          (expect_all-Runs (codes "HTTP/"))
