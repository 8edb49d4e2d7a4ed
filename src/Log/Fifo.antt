-- ===== src/Log/Fifo.antt =====
-- The linked queue as a first-in-first-out list.
use mathlib.Core.Path.{subst}
use nvhttpd.Base.{
  ℕ, true, false, List, [], ◌∷◌, ◌++◌, Option, none, some, ◌≡◌, refl, sym, ap, ◌∙◌, arith, ◌==◌,
  if◌then◌else◌,
}
use nvhttpd.Log.{
  Links, link, LogQueue, append_output, enqueue, waits, returns, tail_behind, dequeue_head, dequeue,
}

unfoldable pub Apart : ℕ → List ℕ → Type 0
Apart x [] = Unit {0}
Apart x (y ∷ ys) = (x == y ≡ false) × Apart x ys

-- From `head` the links lead through these outputs, all different, to the last one, `tail`.
unfoldable pub Chain : Links → Option ℕ → Option ℕ → List ℕ → Type 0
Chain next head tail [] = (head ≡ none) × (tail ≡ none)
Chain next head tail (x ∷ []) = (head ≡ some x) × (next x ≡ none) × (tail ≡ some x)
Chain next head tail (x ∷ y ∷ ys) =
    (head ≡ some x) × Apart x (y ∷ ys) × Chain next (next x) tail (y ∷ ys)

abbrev pub Holds : LogQueue → List ℕ → Type 0
Holds queue xs = Chain queue.next queue.head queue.tail xs

same_refl : (x : ℕ) → x == x ≡ true
same_refl x = ground arith

other_sym : (x y : ℕ) → x == y ≡ false → y == x ≡ false
other_sym x y h = ground arith

tail-Apart :
    (next : Links) (head : Option ℕ) (t x y : ℕ) (ys : List ℕ)
    → Chain next head (some t) (y ∷ ys)
    → Apart x (y ∷ ys)
    → x == t ≡ false
unfolding Apart Chain
tail-Apart next head t x y [] c a = let e : t ≡ y = cc in ap (λ z. x == z) e ∙ a.0
tail-Apart next head t x y (z ∷ zs) c a = tail-Apart next (next y) t x z zs c.2 a.1

Apart-append : (x o : ℕ) (xs : List ℕ) → Apart x xs → x == o ≡ false → Apart x (xs ++ o ∷ [])
unfolding Apart
Apart-append x o [] a h = (h, tt)
Apart-append x o (y ∷ ys) a h = (a.0, Apart-append x o ys a.1 h)

Chain-append :
    (next : Links) (head : Option ℕ) (t o x : ℕ) (xs : List ℕ)
    → Chain next head (some t) (x ∷ xs)
    → Apart o (x ∷ xs)
    → Chain (link t (some o) (link o none next)) head (some o) (x ∷ xs ++ o ∷ [])
unfolding Apart Chain
Chain-append next head t o x [] c a =
    let e : t ≡ x = cc in
    let last : link t (some o) (link o none next) x ≡ some o =
      rw (ap (λ z. x == z) e ∙ same_refl x) refl in
    let behind : link t (some o) (link o none next) o ≡ none =
      rw (ap (λ z. o == z) e ∙ a.0, same_refl o) refl in
    (c.0, (other_sym o x a.0, tt), (last, behind, refl))
Chain-append next head t o x (y ∷ ys) c a =
    let kept : link t (some o) (link o none next) x ≡ next x =
      rw (tail-Apart next (next x) t x y ys c.2 c.1, other_sym o x a.0) refl in
    (
      c.0,
      Apart-append x o (y ∷ ys) c.1 (other_sym o x a.0),
      subst (λ h. Chain (link t (some o) (link o none next)) h (some o) (y ∷ ys ++ o ∷ []))
          (sym kept) (Chain-append next (next x) t o y ys c.2 a.1),
    )

Chain-tail :
    (next : Links) (head tail : Option ℕ) (x : ℕ) (xs : List ℕ)
    → Chain next head tail (x ∷ xs)
    → (t : ℕ) × (tail ≡ some t)
unfolding Chain
Chain-tail next head tail x [] c = (x, c.2)
Chain-tail next head tail x (y ∷ ys) c = Chain-tail next (next x) tail y ys c.2

-- On a queue that holds these outputs, enqueue puts an output that is not among them behind the last
-- one.
pub enqueue-appends :
    (queue : LogQueue) (output : ℕ) (xs : List ℕ)
    → Holds queue xs
    → Apart output xs
    → Holds (enqueue queue output) (xs ++ output ∷ [])
unfolding enqueue append_output
enqueue-appends queue output [] h a =
    let empty : (queue.head ≡ none) × (queue.tail ≡ none) = unfold Chain in h in
    rw (empty.1) (unfold Chain in (refl, rw (same_refl output) refl, refl))
enqueue-appends queue output (x ∷ xs) h a =
    let (t, is) = Chain-tail queue.next queue.head queue.tail x xs h in
    rw is (
      Chain-append queue.next queue.head t output x xs
        (subst (λ u. Chain queue.next queue.head u (x ∷ xs)) is h) a)

Chain-head :
    (next : Links) (head tail : Option ℕ) (x : ℕ) (xs : List ℕ)
    → Chain next head tail (x ∷ xs)
    → head ≡ some x
unfolding Chain
Chain-head next head tail x [] c = c.0
Chain-head next head tail x (y ∷ ys) c = c.0

-- The queue behind an output that is taken from it.
abbrev taken : LogQueue → ℕ → LogQueue
taken queue x = record queue { head = queue.next x; tail = tail_behind (queue.next x) queue.tail }

-- What `dequeue` does on a queue that holds these outputs.
abbrev pub Takes : LogQueue → List ℕ → Type 0
Takes queue [] =
    dequeue queue
    ≡ (if queue.stop then returns none (record queue { head = none; tail = none }) else waits)
Takes queue (x ∷ xs) = (q : LogQueue) × (dequeue queue ≡ returns (some x) q) × Holds q xs

-- On a queue that holds these outputs, dequeue returns the first one and the queue then holds the
-- others; on an empty queue it returns NULL if the writer is to stop, and waits if not.
pub dequeue-Takes : (queue : LogQueue) (xs : List ℕ) → Holds queue xs → Takes queue xs
unfolding dequeue dequeue_head
dequeue-Takes queue [] h =
    let empty : (queue.head ≡ none) × (queue.tail ≡ none) = unfold Chain in h in rw (empty.0) refl
dequeue-Takes queue (x ∷ []) h =
    let c : (queue.head ≡ some x) × (queue.next x ≡ none) × (queue.tail ≡ some x) =
      unfold Chain in h in
    (taken queue x, rw (c.0) refl, unfold Chain in (c.1, rw (c.1) refl))
dequeue-Takes queue (x ∷ y ∷ ys) h =
    let c : (queue.head ≡ some x)
        × Apart x (y ∷ ys)
        × Chain queue.next (queue.next x) queue.tail (y ∷ ys) =
      unfold Chain in h in
    let tail : queue.tail ≡ tail_behind (queue.next x) queue.tail =
      rw (Chain-head queue.next (queue.next x) queue.tail y ys c.2) refl in
    (taken queue x, rw (c.0) refl, subst (λ t. Chain queue.next (queue.next x) t (y ∷ ys)) tail c.2)
