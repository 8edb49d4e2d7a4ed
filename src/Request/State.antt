-- ===== src/Request/State.antt =====
-- The state of the parser (`request_s`), its result codes, and the monad that its functions run in.
use nvhttpd.Base.{ℕ, Bool, true, List, [], ◌∷◌, Option}
use nvhttpd.Base.Chars.{Bytes, ℤ}
use nvhttpd.Http.{HttpClient, HttpVariable}

-- `request_method_e`
pub data RequestMethod : Type 0 where
  connect delete get head options post put trace : RequestMethod

-- `request_type_e`
pub data RequestType : Type 0 where
  simple full : RequestType

-- `request_parse_error_e` but for REQUEST_PARSE_OK. `other` is an int that is no value of the enum.
pub data ParseError : Type 0 where
  io_error error bad internal not_implemented : ParseError
  other : ℤ → ParseError

-- `request_s`. `buffer` is the memory of BUFFER_SIZE bytes that the field points to. `allocations`
-- says which of the coming calls of malloc, realloc and strdup succeed; those behind its end do.
pub record Request : Type 0 where
  pub client : HttpClient
  pub http_version_major : ℕ
  pub http_version_minor : ℕ
  pub uri_fragment : Option Bytes
  pub uri : Option Bytes
  pub buffer : Bytes
  pub buffer_len : ℕ
  pub buffer_index : ℕ
  pub url_variables : List HttpVariable
  pub headers : List HttpVariable
  pub method : RequestMethod
  pub type : RequestType
  pub allocations : List Bool

abbrev pub buffer_size : ℕ
buffer_size = 512

-- How a function ends: with a value, with an error code, in undefined behaviour, or (only in the
-- model) with no fuel left for a loop.
pub data Outcome (A : Type 0) : Type 0 where
  done : A → Outcome A
  fail : ParseError → Outcome A
  crash : Outcome A
  out_of_fuel : Outcome A

abbrev pub M : Type 0 → Type 0
M A = Request → Outcome A × Request

unfoldable pub return : {A : Type 0} → A → M A
return a r = (done a, r)

unfoldable pub stop : {A : Type 0} → Outcome A → M A
stop o r = (o, r)

unfoldable pub go_on : {A B : Type 0} → Outcome A × Request → (A → M B) → Outcome B × Request
go_on (done a, r) f = f a r
go_on (fail e, r) f = (fail e, r)
go_on (crash, r) f = (crash, r)
go_on (out_of_fuel, r) f = (out_of_fuel, r)

infixl 5 ◌>>=◌ ◌>>◌
unfoldable pub ◌>>=◌ : {A B : Type 0} → M A → (A → M B) → M B
unfolding go_on
◌>>=◌ m f r = go_on (m r) f

abbrev pub ◌>>◌ : {B : Type 0} → M (Unit {0}) → M B → M B
m >> k = m >>= λ _. k

unfoldable pub modify : (Request → Request) → M (Unit {0})
modify f r = (done tt, f r)

-- A caller that answers an error code by another one.
unfoldable pub translate : {A : Type 0} → (ParseError → ParseError) → Outcome A → Outcome A
translate g (done a) = done a
translate g (fail e) = fail (g e)
translate g crash = crash
translate g out_of_fuel = out_of_fuel

unfoldable pub on_fail : {A : Type 0} → M A → (ParseError → ParseError) → M A
unfolding translate
on_fail m g r = (translate g (m r).0, (m r).1)

unfoldable pub next_allocation : List Bool → Bool × List Bool
next_allocation [] = (true, [])
next_allocation (b ∷ bs) = (b, bs)

-- One call of malloc, realloc or strdup: whether it returns memory.
unfoldable pub allocate : M Bool
unfolding next_allocation
allocate r = (
  done (next_allocation r.allocations).0,
  record r { allocations = (next_allocation r.allocations).1 },
)
