-- ===== src/Config/Chunks.antt =====
-- `config_parse` on a file that `read` delivers in any pieces.
use nvhttpd.Base.{
  ℕ, suc, ◌<◌, Bool, true, false, List, [], ◌∷◌, Option, none, some, ◌≡◌, ◌≢◌, refl, sym, ap, ◌∙◌,
  arith, if◌then◌else◌, length,
}
use nvhttpd.Base.Chars.{Bytes}
use nvhttpd.Http.{ReadResult}
use nvhttpd.Config.State.{Handler, fail, out_of_fuel, no_memory, next_allocation}
use nvhttpd.Config.Io.{buffer_size}
use nvhttpd.Config.Io.Means.{Holds, NoFailure, flat}
use nvhttpd.Config.Parse.{read_file, config_parse, opened, start_of, outcome_of}
use nvhttpd.Config.Ends.{Ends}
use nvhttpd.Config.Ends.File.{Returns, read_file-Ends}

-- What a file delivers, and the block of the buffer.
pub record Delivers (file : List ReadResult) (memory content : Bytes) : Type 0 where
  pub arrives : NoFailure file
  pub block : length memory ≡ buffer_size
  pub whole : flat file ≡ content

pub Delivers-Holds :
    (file : List ReadResult) (memory content : Bytes)
    → Delivers file memory content
    → Holds (opened file memory) content
Delivers-Holds file memory content d = record {
  is_open = refl;
  block = d.block;
  count = 0;
  len = refl;
  fits = omega arith;
  bytes = d.whole;
  arrives = d.arrives;
}

tested :
    {A : Type 0} (b : Bool) (z : A) {x y : A} → x ≡ y → (if b then x else z) ≡ (if b then y else z)
tested b z e = ap (λ x. if b then x else z) e

module _ {U : Type 0} (handler : Handler U) (returns : Returns handler) where
  -- What `read_file` makes of the bytes.
  made :
      (fuel : ℕ) (content : Bytes) (coming : List Bool) (user : U)
      → suc (length content) < fuel
      → Ends (read_file handler fuel) content (start_of user coming) (length content)
  made fuel content coming user lt =
      read_file-Ends handler returns fuel content (start_of user coming) lt (omega arith)

  outcome_of-read_file :
      (fuel : ℕ) (file : List ReadResult) (memory content : Bytes) (coming : List Bool) (user : U)
      (lt : suc (length content) < fuel)
      → Delivers file memory content
      → outcome_of (read_file handler fuel (opened file memory) (start_of user coming)) ≡ (
        (made fuel content coming user lt).out,
        (made fuel content coming user lt).after.line,
        (made fuel content coming user lt).after.user,
      )
  outcome_of-read_file fuel file memory content coming user lt d =
      let e = made fuel content coming user lt in
      let (after, run, holds) =
        e.means.from (opened file memory) (Delivers-Holds file memory content d) in
      ap outcome_of run

  -- Two files with the same bytes, which `read` cuts into pieces in two ways, are parsed alike: with
  -- fuel for two bytes more than the file has, config_parse ends in the same error code, at the same
  -- line, and the handler has made the same of them.
  pub config_parse_chunks :
      (fuel : ℕ) (name : Option Bytes) (f g : List ReadResult) (memory memory' content : Bytes)
      (coming : List Bool) (user : U)
      → Delivers f memory content
      → Delivers g memory' content
      → suc (length content) < fuel
      → config_parse handler fuel name (some f) memory coming user
        ≡ config_parse handler fuel name (some g) memory' coming user
  unfolding config_parse
  config_parse_chunks fuel none f g memory memory' content coming user d e lt = refl
  config_parse_chunks fuel (some []) f g memory memory' content coming user d e lt = refl
  config_parse_chunks fuel (some (n ∷ ns)) f g memory memory' content coming user d e lt =
      tested (next_allocation coming).0 (fail no_memory, 1, user)
        (outcome_of-read_file fuel f memory content (next_allocation coming).1 user lt d
          ∙ sym (outcome_of-read_file fuel g memory' content (next_allocation coming).1 user lt e))

  -- Where `read` does not fail and the handler returns, config_parse ends on every file.
  pub config_parse_ends :
      (fuel : ℕ) (name : Option Bytes) (file : List ReadResult) (memory content : Bytes)
      (coming : List Bool) (user : U)
      → Delivers file memory content
      → suc (length content) < fuel
      → (config_parse handler fuel name (some file) memory coming user).0 ≢ out_of_fuel
  unfolding config_parse
  config_parse_ends fuel none file memory content coming user d lt = λ h. cc
  config_parse_ends fuel (some []) file memory content coming user d lt = λ h. cc
  config_parse_ends fuel (some (n ∷ ns)) file memory content coming user d lt =
      given (next_allocation coming).0
    where
      later : List Bool
      later = (next_allocation coming).1

      given :
          (b : Bool)
          → (if b
              then outcome_of (read_file handler fuel (opened file memory) (start_of user later))
              else (fail no_memory, 1, user)).0
            ≢ out_of_fuel
      given true = λ h.
          (made fuel content later user lt).fuelled (
            sym (ap (λ x. x.0) (outcome_of-read_file fuel file memory content later user lt d)) ∙ h)
      given false = λ h. cc
