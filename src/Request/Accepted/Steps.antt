-- ===== src/Request/Accepted/Steps.antt =====
-- The parts of `request_parse`, as far as an accepted request depends on them.
use nvhttpd.Base.{
  ℕ, ◌<◌, Bool, true, false, ◌||◌, ◌∷◌, inl, inr, ◌≡◌, refl, sym, ap, ◌∙◌, arith, ◌==◌,
  if◌then◌else◌, Bool-cases, ==_iff, length,
}
use nvhttpd.Base.Chars.{Bytes, is_space}
use nvhttpd.Request.State.{
  Request, RequestMethod, RequestType, simple, full, not_implemented, fail, bad, done, M, return,
  go_on, ◌>>=◌, modify, on_fail,
}
use nvhttpd.Request.Io.{expect, or_io_error, skip_ws}
use nvhttpd.Request.Method.{get_method}
use nvhttpd.Request.Parse.{
  is_get, is_head, is_simple, require, bad_method, skip_blanks, skip_to_uri, set_type, parse_method,
  parse_type, set_version_default, parse_version, parse_rest,
}
use nvhttpd.Request.Io.Stream.{IsOpen, pending, strip}
use nvhttpd.Request.Io.Sees.{
  >>=-eq-done, stream_head-pos, or_io_error-done, guard-done, expect-done, skip_ws-stops,
}
use nvhttpd.Request.Chunks.Runs.{Runs, IsView, Same-self}
use nvhttpd.Request.Chunks.Whole.{
  blind-IsView, skip_to_uri-Runs, get_method_or-Runs, skip_blanks-Runs,
}

abbrev pub method_of : Request → RequestMethod
method_of r = r.method

abbrev pub type_of : Request → RequestType
type_of r = r.type

pub method_of-IsView : IsView method_of
unfolding strip
method_of-IsView = record { of_strip = λ r. refl; of_allocations = λ r l. refl }

pub type_of-IsView : IsView type_of
unfolding strip
type_of-IsView = record { of_strip = λ r. refl; of_allocations = λ r l. refl }

-- One part of the parser, run from a request with bytes below the fuel to come.
pub after :
    {V A : Type 0} {view : Request → V} {k : ℕ} {m : M A} (r : Request)
    → Runs view k m
    → IsOpen r
    → length (pending r) < k
    → IsOpen (m r).1 × (length (pending (m r).1) < k) × (view (m r).1 ≡ view r)
after r p o less =
    let end = p.agree r r (Same-self r o) less in
    (end.same.open_left, omega (arith, end.shrinks), end.kept)

-- `skip_ws` leaves the char that the caller tests to come.
pub skip_blanks-stops :
    (fuel : ℕ) (r : Request) (c : ℕ)
    → IsOpen r
    → (skip_blanks fuel r).0 ≡ done c
    → (rest : Bytes) × (pending (skip_blanks fuel r).1 ≡ c ∷ rest)
unfolding skip_blanks
skip_blanks-stops fuel r c o h =
    let (z, read, go) = >>=-eq-done (skip_ws fuel) or_io_error r h in
    let (zc, stays) = or_io_error-done z (skip_ws fuel r).1 c (ap (λ x. x.0) (sym go) ∙ h) in
    let stop' = skip_ws-stops fuel r z o read in
    let (rest, e) = stream_head-pos (pending (skip_ws fuel r).1) c (sym stop' ∙ zc) in
    (rest, ap (λ x. pending x.1) go ∙ ap pending stays ∙ e)

abbrev choose : ℕ → M (Unit {0})
choose c = if c == b'\n' then set_type simple else return tt

-- The type becomes simple on one branch only, and no byte is read there.
simple_branch :
    (b : Bool) (q : Request)
    → q.type ≡ full
    → is_simple ((if b then set_type simple else return tt) q).1.type ≡ true
    → (b ≡ true) × (pending ((if b then set_type simple else return tt) q).1 ≡ pending q)
unfolding set_type modify return pending
simple_branch true q t h = (refl, refl)
simple_branch false q t h = cc

full_is_not_simple :
    (r : Request) → is_simple (return tt (record r { type = full })).1.type ≡ true → ⊥
unfolding return
full_is_not_simple r h = cc

-- Where the type becomes simple, the newline that made it so is still to come.
pub parse_type-newline :
    (fuel ch : ℕ) (r : Request)
    → IsOpen r
    → length (pending r) < fuel
    → (parse_type fuel ch r).0 ≡ done tt
    → is_simple (parse_type fuel ch r).1.type ≡ true
    → (rest : Bytes) × (pending (parse_type fuel ch r).1 ≡ b'\n' ∷ rest)
parse_type-newline fuel ch r o less h s =
    let q = record r { type = full } in
    let e : parse_type fuel ch r
        ≡ (if is_space ch then skip_blanks fuel >>= choose else return tt) q =
      unfold parse_type ◌>>=◌ set_type modify go_on in refl in
    let open_q : IsOpen q = record { block = o.block; filled = o.filled; arrives = o.arrives } in
    let less_q : length (pending q) < fuel = unfold pending in less in
    elim (Bool-cases (is_space ch)) [
      | inr none' ↦
          let f : parse_type fuel ch r ≡ return tt q = e ∙ rw none' in
          absurd (full_is_not_simple r (sym (ap (λ x. is_simple x.1.type) f) ∙ s))
      | inl blank ↦
          let f : parse_type fuel ch r ≡ (skip_blanks fuel >>= choose) q = e ∙ rw blank in
          let (c, read, go) = >>=-eq-done (skip_blanks fuel) choose q (ap (λ x. x.0) (sym f) ∙ h) in
          let (rest, came) = skip_blanks-stops fuel q c open_q read in
          let (o', less', kept) = after q (skip_blanks-Runs type_of-IsView fuel) open_q less_q in
          let g : parse_type fuel ch r ≡ choose c (skip_blanks fuel q).1 = f ∙ go in
          let (nl, same) =
            simple_branch (c == b'\n') (skip_blanks fuel q).1 kept
              (ap (λ x. is_simple x.1.type) (sym g) ∙ s) in
          (rest, ap (λ x. pending x.1) g ∙ same ∙ came ∙ ap (λ x. x ∷ rest) ((==_iff c b'\n').0 nl))
    ]

-- The branch for a simple request reads nothing.
pub parse_version-simple :
    (r : Request)
    → is_simple r.type ≡ true
    → (parse_version r).0 ≡ done tt
    → pending (parse_version r).1 ≡ pending r
parse_version-simple r s h =
    let test = require (λ q. is_get q.method) bad in
    let e : parse_version r ≡ (test >>= λ _. set_version_default) r =
      unfold parse_version in rw s in
    let (u, passed, go) =
      >>=-eq-done test (λ _. set_version_default) r (ap (λ x. x.0) (sym e) ∙ h) in
    let same : (test r).1 ≡ r = unfold require in (guard-done (is_get r.method) bad r passed).1 in
    let default : pending (set_version_default (test r).1).1 ≡ pending (test r).1 =
      unfold set_version_default modify pending in refl in
    ap (λ x. pending x.1) (e ∙ go) ∙ default ∙ ap pending same

-- The end of the request line begins with a carriage return.
pub parse_rest-newline :
    (fuel : ℕ) (r : Request) (rest : Bytes)
    → IsOpen r
    → pending r ≡ b'\n' ∷ rest
    → (parse_rest fuel r).0 ≡ done tt
    → ⊥
unfolding parse_rest
parse_rest-newline fuel r rest o e h =
    let (u, read, go) = >>=-eq-done (expect b'\r' (fail bad)) _ r h in
    let (rest', e') = expect-done b'\r' bad r o read in cc (sym e ∙ e')

abbrev served : Request → Bool
served r = is_get r.method || is_head r.method

-- `parse_method` succeeds only for GET and HEAD.
pub parse_method-accepts :
    (fuel : ℕ) (r : Request)
    → IsOpen r
    → length (pending r) < fuel
    → (parse_method fuel r).0 ≡ done tt
    → served (parse_method fuel r).1 ≡ true
parse_method-accepts fuel r o less h =
    let m = on_fail get_method bad_method in
    let test = require served not_implemented in
    let e : parse_method fuel r ≡ (m >>= λ _. (test >>= λ _. skip_to_uri fuel)) r =
      unfold parse_method in refl in
    let (u, read, go) =
      >>=-eq-done m (λ _. (test >>= λ _. skip_to_uri fuel)) r (ap (λ x. x.0) (sym e) ∙ h) in
    let (o', less', k) = after r (get_method_or-Runs blind-IsView fuel (λ q v. refl)) o less in
    let (v, passed, go') =
      >>=-eq-done test (λ _. skip_to_uri fuel) (m r).1 (ap (λ x. x.0) (sym (e ∙ go)) ∙ h) in
    let held : (served (m r).1 ≡ true) × ((test (m r).1).1 ≡ (m r).1) =
      unfold require in guard-done (served (m r).1) not_implemented (m r).1 passed in
    let same : parse_method fuel r ≡ skip_to_uri fuel (m r).1 =
      e ∙ go ∙ go' ∙ ap (skip_to_uri fuel) held.1 in
    let (o'', less'', kept) = after (m r).1 (skip_to_uri-Runs method_of-IsView fuel) o' less' in
    ap (λ x. served x.1) same ∙ ap (λ (w : RequestMethod). is_get w || is_head w) kept ∙ held.0
