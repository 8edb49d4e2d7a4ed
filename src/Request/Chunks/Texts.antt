-- ===== src/Request/Chunks/Texts.antt =====
-- The judgement of `Runs` for the growing texts.
use nvhttpd.Base.{
  ℕ, suc, ◌+◌, ◌%◌, ◌≤◌, [], ◌∷◌, ◌⊎◌, ◌≡◌, refl, ap, arith, ltb, leb, length, length-append,
}
use nvhttpd.Base.Chars.{Bytes}
use nvhttpd.Request.State.{Request, done, error, M, return, stop, ◌>>=◌, allocate, next_allocation}
use nvhttpd.Request.Text.{
  Text, is_writable, new_text, reserve, put_char, terminate, duplicate, text_rounds,
}
use nvhttpd.Request.Io.Stream.{strip}
use nvhttpd.Request.Chunks.Runs.{
  Runs, IsView, IsUpdate, with_reader, bind, bind_where, return-Runs, fail-Runs, crash-Runs, branch,
  update-Same, update-pending,
}

allocate-IsUpdate : IsUpdate (λ r. record r { allocations = (next_allocation r.allocations).1 })
unfolding strip with_reader
allocate-IsUpdate = λ r. refl

module _ {V : Type 0} {view : Request → V} (w : IsView view) {k : ℕ} where
  pub allocate-Runs : Runs view k allocate
  unfolding allocate strip
  allocate-Runs = record {
    agree = λ r s eq less. record {
      outcome = ap (λ q. done (next_allocation q.allocations).0) eq.strip_eq;
      same = update-Same allocate-IsUpdate eq;
      shrinks = omega (arith, ap length (update-pending allocate-IsUpdate r));
      fuelled = λ h. cc;
      kept = w.of_allocations r _;
    };
  }

  pub new_text-Runs : Runs view k new_text
  unfolding new_text
  new_text-Runs = bind (λ got. return-Runs _) allocate-Runs

  pub reserve-Runs : (max : ℕ) (t : Text) → Runs view k (reserve max t)
  unfolding reserve
  reserve-Runs max t = branch (ltb (length t.text) t.size) (return-Runs t) (
      branch (leb max t.size) (fail-Runs error)
        (bind (λ got. branch got (return-Runs _) (fail-Runs error)) allocate-Runs))

  pub put_char-Runs : (c : ℕ) (t : Text) → Runs view k (put_char c t)
  unfolding put_char
  put_char-Runs c t = branch (is_writable t) (return-Runs _) crash-Runs

  pub terminate-Runs : (t : Text) → Runs view k (terminate t)
  unfolding terminate
  terminate-Runs t = branch (is_writable t) (return-Runs tt) crash-Runs

  pub duplicate-Runs : (s : Bytes) → Runs view k (duplicate s)
  unfolding duplicate
  duplicate-Runs s = bind (λ got. branch got (return-Runs _) (fail-Runs error)) allocate-Runs

  -- Text that ends a loop is copied out.
  pub finish-Runs : (t : Text) → Runs view k (terminate t >>= λ _. duplicate t.text)
  finish-Runs t = bind (λ u. duplicate-Runs t.text) (terminate-Runs t)

-- A text of the sizes that the loops reach.
pub record Fits (t : Text) : Type 0 where
  pub sizes : (t.size ≡ 512) ⊎ (t.size ≡ 1024)
  pub within : length t.text ≤ t.size

pub new_text-Fits : (r : Request) (t : Text) → (new_text r).0 ≡ done t → Fits t × (t.text ≡ [])
unfolding new_text ◌>>=◌ allocate return
new_text-Fits r t h = ground arith

pub reserve-Fits :
    (max : ℕ) (t : Text) (r : Request) (u : Text)
    → max ≤ 1024
    → Fits t
    → (reserve max t r).0 ≡ done u
    → Fits u × (u.text ≡ t.text)
unfolding reserve ◌>>=◌ allocate return stop
reserve-Fits max t r u small f h = ground arith

pub put_char-Fits :
    (c : ℕ) (t : Text) (r : Request) (u : Text)
    → Fits t
    → (put_char c t r).0 ≡ done u
    → Fits u × (length u.text ≡ suc (length t.text))
unfolding put_char return stop
put_char-Fits c t r u f h = ground (arith, length-append t.text ((c % 256) ∷ []))

-- A loop over a text that starts anew has rounds enough.
pub fresh_rounds : (t : Text) → Fits t × (t.text ≡ []) → 1025 ≤ text_rounds + length t.text
fresh_rounds t h = omega arith

module _ {V : Type 0} {view : Request → V} (w : IsView view) {k : ℕ} where
  -- One char is stored, and the loop goes on with a round less.
  pub store-Runs :
      {A : Type 0} (fuel c : ℕ) (t t' : Text) (loop : Text → M A)
      → 1025 ≤ suc fuel + length t.text
      → Fits t' × (t'.text ≡ t.text)
      → ((u : Text) → Fits u → 1025 ≤ fuel + length u.text → Runs view k (loop u))
      → Runs view k (put_char c t' >>= loop)
  store-Runs fuel c t t' loop enough f rest =
      bind_where {P = λ u. Fits u × (length u.text ≡ suc (length t'.text))}
        (λ u g. rest u g.0 (omega (arith, ap length f.1))) (λ r u h. put_char-Fits c t' r u f.0 h)
        (put_char-Runs w c t')
