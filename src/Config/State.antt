-- ===== src/Config/State.antt =====
-- The static variables of config.c, and how its functions end.
use nvhttpd.Base.{ℕ, suc, Bool, true, List, [], ◌∷◌, Option, if◌then◌else◌}
use nvhttpd.Base.Chars.{Bytes, ℤ}
use nvhttpd.Http.{ReadResult}

-- `config_error_t`, but for CONFIG_ERROR_NONE, which is `done`, and CONFIG_ERROR_COUNT.
pub data ConfigError : Type 0 where
  no_filename : ConfigError
  no_open : ConfigError
  no_memory : ConfigError
  unexpected_character : ConfigError
  premature_eof : ConfigError
  unexpected_eol : ConfigError
  unrecognized_section : ConfigError
  unexpected_value : ConfigError

-- A value, an error code, undefined behaviour or, in the model alone, the end of the fuel.
pub data Outcome (A : Type 0) : Type 0 where
  done : A → Outcome A
  fail : ConfigError → Outcome A
  crash : Outcome A
  out_of_fuel : Outcome A

-- `file_handle` (with the results of the calls of `read` still to come), `io_buffer`,
-- `io_buffer_ptr` (as an index into it) and `io_buffer_len`.
pub record Reader : Type 0 where
  pub file : List ReadResult
  pub is_open : Bool
  pub buffer : Bytes
  pub ptr : ℕ
  pub len : ℤ

-- `current_section`, `line`, the results of the allocations to come, and what the handler changes.
pub record Core (U : Type 0) : Type 0 where
  pub section : Option Bytes
  pub line : ℕ
  pub allocations : List Bool
  pub user : U

abbrev pub M : Type 0 → Type 0 → Type 0
M U A = Reader → Core U → Outcome A × Reader × Core U

-- `assignment_handler`, as a function of the section, the key and the value.
abbrev pub Handler : Type 0 → Type 0
Handler U = Option Bytes → Bytes → Bytes → U → Outcome (Unit {0}) × U

unfoldable pub return : {U A : Type 0} → A → M U A
return a r c = (done a, r, c)

unfoldable pub stop : {U A : Type 0} → Outcome A → M U A
stop o r c = (o, r, c)

unfoldable pub go_on :
    {U A B : Type 0} → Outcome A × Reader × Core U → (A → M U B) → Outcome B × Reader × Core U
go_on (done a, r, c) f = f a r c
go_on (fail e, r, c) f = (fail e, r, c)
go_on (crash, r, c) f = (crash, r, c)
go_on (out_of_fuel, r, c) f = (out_of_fuel, r, c)

infixl 5 ◌>>=◌ ◌>>◌
unfoldable pub ◌>>=◌ : {U A B : Type 0} → M U A → (A → M U B) → M U B
unfolding go_on
◌>>=◌ m f r c = go_on (m r c) f

abbrev pub ◌>>◌ : {U B : Type 0} → M U (Unit {0}) → M U B → M U B
m >> k = m >>= λ _. k

-- `line++`
unfoldable pub next_line : {U : Type 0} → M U (Unit {0})
next_line r c = (done tt, r, record c { line = suc c.line })

unfoldable pub set_section : {U : Type 0} → Bytes → M U (Unit {0})
set_section s r c = (done tt, r, record c { section = Option.some s })

unfoldable pub next_allocation : List Bool → Bool × List Bool
next_allocation [] = (true, [])
next_allocation (b ∷ bs) = (b, bs)

-- One call of malloc or realloc; NULL ends in CONFIG_ERROR_NO_MEMORY.
unfoldable pub allocate : {U : Type 0} → M U (Unit {0})
unfolding next_allocation
allocate r c = (
  if (next_allocation c.allocations).0 then done tt else fail no_memory,
  r,
  record c { allocations = (next_allocation c.allocations).1 },
)

-- `rc = assignment_handler(current_section, key, value)`
unfoldable pub call_handler : {U : Type 0} → Handler U → Bytes → Bytes → M U (Unit {0})
call_handler handler key value r c = (
  (handler c.section key value c.user).0,
  r,
  record c { user = (handler c.section key value c.user).1 },
)
