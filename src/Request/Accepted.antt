-- ===== src/Request/Accepted.antt =====
-- What holds of a request that request_parse accepts.
pub mod Steps
use nvhttpd.Base.{
  ℕ, ◌<◌, Bool, true, false, ◌||◌, ◌∷◌, ◌⊎◌, inl, inr, ◌≡◌, refl, sym, ap, ◌∙◌, arith, ◌==◌,
  if◌then◌else◌, Bool-cases, ==_iff, length,
}
use nvhttpd.Base.Chars.{Bytes, is_space}
use nvhttpd.Request.State.{
  Request, RequestMethod, get, head, RequestType, simple, full, not_implemented, fail, bad, done, M,
  return, go_on, ◌>>=◌, modify, on_fail,
}
use nvhttpd.Request.Io.{expect, or_io_error, skip_ws}
use nvhttpd.Request.Method.{get_method}
use nvhttpd.Request.Parse.{
  is_get, is_head, is_simple, require, bad_method, skip_blanks, skip_to_uri, set_type, parse_method,
  parse_target, parse_type, set_version_default, parse_version, parse_rest, request_parse,
}
use nvhttpd.Request.Io.Stream.{IsOpen, pending, strip}
use nvhttpd.Request.Io.Sees.{
  >>=-eq-done, stream_head-pos, or_io_error-done, guard-done, expect-done, skip_ws-stops,
}
use nvhttpd.Request.Chunks.Runs.{Runs, IsView, Same-self}
use nvhttpd.Request.Chunks.Whole.{
  blind-IsView, skip_to_uri-Runs, get_method_or-Runs, skip_blanks-Runs, parse_method-Runs,
  parse_target-Runs, parse_type-Runs, parse_version-Runs, parse_rest-Runs,
}
use nvhttpd.Request.Accepted.Steps.{
  method_of, type_of, method_of-IsView, type_of-IsView, after, parse_type-newline,
  parse_version-simple, parse_rest-newline, parse_method-accepts,
}

-- The requests between the parts of `request_parse`.
module _ (fuel : ℕ) (r : Request) where
  abbrev after_method : Request
  after_method = (parse_method fuel r).1

  abbrev after_target : Request
  after_target = (parse_target fuel after_method).1

  abbrev after_type : ℕ → Request
  after_type ch = (parse_type fuel ch after_target).1

  abbrev after_version : ℕ → Request
  after_version ch = (parse_version (after_type ch)).1

  -- The parts of a run that is accepted, each of which succeeds.
  record Parts : Type 0 where
    ch : ℕ
    method_ok : (parse_method fuel r).0 ≡ done tt
    target_ok : (parse_target fuel after_method).0 ≡ done ch
    type_ok : (parse_type fuel ch after_target).0 ≡ done tt
    version_ok : (parse_version (after_type ch)).0 ≡ done tt
    rest_ok : (parse_rest fuel (after_version ch)).0 ≡ done tt
    ends : (request_parse fuel r).1 ≡ (parse_rest fuel (after_version ch)).1

  accepted-Parts : (request_parse fuel r).0 ≡ done tt → Parts
  accepted-Parts h =
      let tail₃ = λ (u : Unit {0}). parse_rest fuel in
      let tail₂ = λ (u : Unit {0}). parse_version >>= tail₃ in
      let tail₁ = λ (ch : ℕ). parse_type fuel ch >>= tail₂ in
      let tail = λ (u : Unit {0}). parse_target fuel >>= tail₁ in
      let e : request_parse fuel r ≡ (parse_method fuel >>= tail) r =
        unfold request_parse in refl in
      let (u₁, d₁, g₁) = >>=-eq-done (parse_method fuel) tail r (ap (λ x. x.0) (sym e) ∙ h) in
      let e₁ = e ∙ g₁ in
      let (ch, d₂, g₂) =
        >>=-eq-done (parse_target fuel) tail₁ after_method (ap (λ x. x.0) (sym e₁) ∙ h) in
      let e₂ = e₁ ∙ g₂ in
      let (u₃, d₃, g₃) =
        >>=-eq-done (parse_type fuel ch) tail₂ after_target (ap (λ x. x.0) (sym e₂) ∙ h) in
      let e₃ = e₂ ∙ g₃ in
      let (u₄, d₄, g₄) =
        >>=-eq-done parse_version tail₃ (after_type ch) (ap (λ x. x.0) (sym e₃) ∙ h) in
      let e₄ = e₃ ∙ g₄ in
      record {
        ch = ch;
        method_ok = d₁;
        target_ok = d₂;
        type_ok = d₃;
        version_ok = d₄;
        rest_ok = ap (λ x. x.0) (sym e₄) ∙ h;
        ends = ap (λ x. x.1) e₄;
      }

  -- Each part leaves a view alone, and its reader open with bytes below the fuel to come.
  module _ (o : IsOpen r) (less : length (pending r) < fuel) (p : Parts) where
    method_kept : method_of (request_parse fuel r).1 ≡ method_of after_method
    method_kept =
        let w = method_of-IsView in
        let (o₁, l₁, k₁) = after r (parse_method-Runs blind-IsView fuel (λ q m. refl)) o less in
        let (o₂, l₂, k₂) =
          after after_method (parse_target-Runs w fuel (λ q u. refl) (λ q u. refl) (λ q l. refl)) o₁
            l₁ in
        let (o₃, l₃, k₃) = after after_target (parse_type-Runs w fuel (λ q t. refl) p.ch) o₂ l₂ in
        let (o₄, l₄, k₄) =
          after (after_type p.ch) (parse_version-Runs w fuel (λ q i j. refl)) o₃ l₃ in
        let (o₅, l₅, k₅) =
          after (after_version p.ch) (parse_rest-Runs w fuel (λ q l. refl)) o₄ l₄ in
        ap method_of p.ends ∙ k₅ ∙ k₄ ∙ k₃ ∙ k₂

    type_kept : type_of (request_parse fuel r).1 ≡ type_of (after_type p.ch)
    type_kept =
        let w = type_of-IsView in
        let b = blind-IsView in
        let (o₁, l₁, k₁) = after r (parse_method-Runs b fuel (λ q m. refl)) o less in
        let (o₂, l₂, k₂) =
          after after_method (parse_target-Runs b fuel (λ q u. refl) (λ q u. refl) (λ q l. refl)) o₁
            l₁ in
        let (o₃, l₃, k₃) = after after_target (parse_type-Runs b fuel (λ q t. refl) p.ch) o₂ l₂ in
        let (o₄, l₄, k₄) =
          after (after_type p.ch) (parse_version-Runs w fuel (λ q i j. refl)) o₃ l₃ in
        let (o₅, l₅, k₅) =
          after (after_version p.ch) (parse_rest-Runs w fuel (λ q l. refl)) o₄ l₄ in
        ap type_of p.ends ∙ k₅ ∙ k₄

    not_simple : is_simple (after_type p.ch).type ≡ true → ⊥
    not_simple s =
        let b = blind-IsView in
        let (o₁, l₁, k₁) = after r (parse_method-Runs b fuel (λ q m. refl)) o less in
        let (o₂, l₂, k₂) =
          after after_method (parse_target-Runs b fuel (λ q u. refl) (λ q u. refl) (λ q l. refl)) o₁
            l₁ in
        let (o₃, l₃, k₃) = after after_target (parse_type-Runs b fuel (λ q t. refl) p.ch) o₂ l₂ in
        let (o₄, l₄, k₄) =
          after (after_type p.ch) (parse_version-Runs b fuel (λ q i j. refl)) o₃ l₃ in
        let (rest, nl) = parse_type-newline fuel p.ch after_target o₂ l₂ p.type_ok s in
        parse_rest-newline fuel (after_version p.ch) rest o₄
          (parse_version-simple (after_type p.ch) s p.version_ok ∙ nl) p.rest_ok

is_simple-false : (t : RequestType) → (is_simple t ≡ true → ⊥) → t ≡ full
is_simple-false simple h = absurd (h refl)
is_simple-false full h = refl

served-cases : (m : RequestMethod) → (is_get m || is_head m) ≡ true → (m ≡ get) ⊎ (m ≡ head)
served-cases m h = ground arith

-- A request that request_parse accepts is a GET or a HEAD, and a full request: where recv does not
-- fail and the fuel is above the number of bytes to come, REQUEST_PARSE_OK leaves the method at GET
-- or HEAD and the type at REQUEST_TYPE_FULL. No simple request is accepted.
pub request_parse_accepts :
    (fuel : ℕ) (r : Request)
    → IsOpen r
    → length (pending r) < fuel
    → (request_parse fuel r).0 ≡ done tt
    → (((request_parse fuel r).1.method ≡ get) ⊎ ((request_parse fuel r).1.method ≡ head))
      × ((request_parse fuel r).1.type ≡ full)
request_parse_accepts fuel r o less h =
    let p = accepted-Parts fuel r h in
    (
      served-cases _ (
          ap (λ m. is_get m || is_head m) (method_kept fuel r o less p)
          ∙ parse_method-accepts fuel r o less p.method_ok),
      type_kept fuel r o less p ∙ is_simple-false _ (not_simple fuel r o less p),
    )
