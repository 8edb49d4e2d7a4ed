-- ===== src/Request/Method/Words.antt =====
-- `get_method` on the words of the methods.
use nvhttpd.Base.{ℕ, ◌<◌, true, ◌∷◌, ◌++◌, ◌≡◌, refl, arith}
use nvhttpd.Base.Chars.{Bytes, codes, is_space}
use nvhttpd.Request.State.{
  Request, RequestMethod, connect, delete, get, head, options, post, put, trace, Outcome, done,
  fail, crash, out_of_fuel, io_error, M, stop, go_on, ◌>>=◌, ◌>>◌,
}
use nvhttpd.Request.Io.{next_char, peek_char}
use nvhttpd.Request.Method.{expect_all, set_method, method_p, method_letters, get_method}
use nvhttpd.Request.Io.Stream.{IsOpen, pending}
use nvhttpd.Request.Io.Feed.{next_char-Reads}
use nvhttpd.Request.Method.Stores.{
  method_str, outcome_of, is_ascii, is_ascii-AllAscii, Stores, letters-Stores, refused-Stores,
  blank_test, blank-Stores,
}

-- One letter, read and switched on.
letter-Stores :
    (f : ℕ → M (Unit {0})) (first : ℕ) (more : Bytes) (k : M (Unit {0})) {out : Outcome (Unit {0})}
    {m : RequestMethod} {rest : Bytes} (r : Request)
    → f first ≡ k
    → first < 128
    → ((q : Request) → IsOpen q → pending q ≡ more → Stores (k q) out m rest)
    → IsOpen r
    → pending r ≡ first ∷ more
    → Stores ((next_char >>= f) r) out m rest
unfolding ◌>>=◌
letter-Stores f first more k r same ascii later o e =
    let n = next_char-Reads r first more o e ascii in
    rw (n.runs, go_on, same) (later n.after n.open_after n.pending_after)

accepted-Stores :
    (m : RequestMethod) (first : ℕ) (cs : Bytes) (rest : Bytes) (r : Request)
    → method_letters first ≡ (expect_all cs >>= λ _. set_method m)
    → is_ascii (first ∷ cs) ≡ true
    → IsOpen r
    → pending r ≡ first ∷ cs ++ rest
    → Stores ((next_char >>= method_letters) r) (done tt) m rest
accepted-Stores m first cs rest r same ascii =
    let a = is_ascii-AllAscii (first ∷ cs) ascii in
    letter-Stores method_letters first (cs ++ rest) _ r same a.0
      (λ q o e. letters-Stores m rest cs q a.1 o e)

dropped-Stores :
    (m : RequestMethod) (second : ℕ) (cs : Bytes) (rest : Bytes) (r : Request)
    (f : ℕ → M (Unit {0}))
    → method_letters b'P' ≡ next_char >>= f
    → f second ≡ (expect_all cs >> set_method m >> stop (fail io_error))
    → is_ascii (second ∷ cs) ≡ true
    → IsOpen r
    → pending r ≡ b'P' ∷ second ∷ cs ++ rest
    → Stores ((next_char >>= method_letters) r) (fail io_error) m rest
dropped-Stores m second cs rest r f body same ascii =
    let a = is_ascii-AllAscii (second ∷ cs) ascii in
    letter-Stores method_letters b'P' (second ∷ cs ++ rest) (next_char >>= f) r body (omega arith)
      (λ q.
        letter-Stores f second (cs ++ rest) _ q same a.0
          (λ q' o e. refused-Stores m rest cs q' a.1 o e))

letters_word :
    (m : RequestMethod) (rest : Bytes) (r : Request)
    → IsOpen r
    → pending r ≡ method_str m ++ rest
    → Stores ((next_char >>= method_letters) r) (outcome_of m) m rest
unfolding method_letters method_p is_ascii
letters_word connect rest r = accepted-Stores connect b'C' (codes "ONNECT") rest r refl refl
letters_word delete rest r = accepted-Stores delete b'D' (codes "ELETE") rest r refl refl
letters_word get rest r = accepted-Stores get b'G' (codes "ET") rest r refl refl
letters_word head rest r = accepted-Stores head b'H' (codes "EAD") rest r refl refl
letters_word options rest r = accepted-Stores options b'O' (codes "PTIONS") rest r refl refl
letters_word post rest r = dropped-Stores post b'O' (codes "ST") rest r _ refl refl refl
letters_word put rest r = dropped-Stores put b'U' (codes "T") rest r _ refl refl refl
letters_word trace rest r = accepted-Stores trace b'T' (codes "RACE") rest r refl refl

module _ (m : RequestMethod) (c : ℕ) (rest : Bytes) where
  after_success :
      (x : Outcome (Unit {0}) × Request)
      → Stores x (done tt) m (c ∷ rest)
      → is_space c ≡ true
      → Stores (go_on x (λ _. peek_char >>= blank_test)) (done tt) m (c ∷ rest)
  unfolding go_on ◌>>=◌
  after_success (out, q) s blank =
      rw (s.outcome, go_on)
        (blank-Stores q m c rest
          (record {
            outcome = refl;
            stored = s.stored;
            unread = s.unread;
            still_open = s.still_open;
          })
          blank)

  after_refusal :
      (x : Outcome (Unit {0}) × Request)
      → Stores x (fail io_error) m (c ∷ rest)
      → Stores (go_on x (λ _. peek_char >>= blank_test)) (fail io_error) m (c ∷ rest)
  unfolding go_on
  after_refusal (out, q) s =
      rw (s.outcome, go_on)
        (record { outcome = refl; stored = s.stored; unread = s.unread; still_open = s.still_open })

behind_word :
    (x : Outcome (Unit {0}) × Request) (m : RequestMethod) (c : ℕ) (rest : Bytes)
    → is_space c ≡ true
    → Stores x (outcome_of m) m (c ∷ rest)
    → Stores (go_on x (λ _. peek_char >>= blank_test)) (outcome_of m) m (c ∷ rest)
behind_word x post c rest blank s = after_refusal post c rest x s
behind_word x put c rest blank s = after_refusal put c rest x s
behind_word x connect c rest blank s = after_success connect c rest x s blank
behind_word x delete c rest blank s = after_success delete c rest x s blank
behind_word x get c rest blank s = after_success get c rest x s blank
behind_word x head c rest blank s = after_success head c rest x s blank
behind_word x options c rest blank s = after_success options c rest x s blank
behind_word x trace c rest blank s = after_success trace c rest x s blank

go_on_assoc :
    {A B C : Type 0} (x : Outcome A × Request) (f : A → M B) (g : B → M C)
    → go_on x (λ a r. go_on (f a r) g) ≡ go_on (go_on x f) g
unfolding go_on
go_on_assoc (done a, r) f g = refl
go_on_assoc (fail e, r) f g = refl
go_on_assoc (crash, r) f g = refl
go_on_assoc (out_of_fuel, r) f g = refl

-- On the name of a method and a blank behind it, `get_method` stores that method and reads the
-- name; it succeeds for every method but POST and PUT, which end with the code of an I/O error.
pub get_method_words :
    (m : RequestMethod) (c : ℕ) (rest : Bytes) (r : Request)
    → IsOpen r
    → pending r ≡ method_str m ++ (c ∷ rest)
    → is_space c ≡ true
    → Stores (get_method r) (outcome_of m) m (c ∷ rest)
unfolding get_method blank_test ◌>>=◌
get_method_words m c rest r o e blank =
    rw (go_on_assoc (next_char r) method_letters (λ _. peek_char >>= blank_test)) (
      behind_word ((next_char >>= method_letters) r) m c rest blank
        (letters_word m (c ∷ rest) r o e))
