-- ===== src/Server/Configure/Fits.antt =====
-- The joined response headers stay in their block.
use nvhttpd.Base.{
  ℕ, suc, ◌+◌, ◌%◌, ◌^◌, ◌≤◌, ◌<◌, true, List, [], ◌∷◌, none, some, ◌++◌, ◌≡◌, refl, ap, ◌∙◌, arith,
  leb, length, take, drop, replicate, length-append, length-take, length-drop,
}
use nvhttpd.Base.Chars.{Bytes}
use nvhttpd.Config.State.{done}
use nvhttpd.Server.Settings.{Settings, is_next_given, allocated}
use nvhttpd.Server.Settings.Headers.{total_length, AreHeld, lines_of-some}
use nvhttpd.Server.Configure.{memcpy, copy_lines, ended_text, joined_text, join_lines, join_headers}
use nvhttpd.Server.Configure.Joined.{concat, joined_text-concat}

memcpy_fits :
    (offset : ℕ) (bytes block : Bytes)
    → offset + length bytes ≤ length block
    → (after : Bytes) × (memcpy offset bytes block ≡ some after) × (length after ≡ length block)
unfolding memcpy
memcpy_fits offset bytes block h =
    let rest = drop (offset + length bytes) block in
    let inside : leb (offset + length bytes) (length block) ≡ true = ground arith in
    (
      take offset block ++ (bytes ++ rest),
      rw inside refl,
      omega (
        arith,
        length-append (take offset block) (bytes ++ rest),
        length-append bytes rest,
        length-take block offset (omega arith),
        length-drop (offset + length bytes) block,
      ),
    )

copy_lines_fit :
    (lines : List Bytes) (offset : ℕ) (block : Bytes)
    → offset + total_length lines ≤ length block
    → (after : Bytes) × (copy_lines lines offset block ≡ some (offset + total_length lines, after))
      × (length after ≡ length block)
unfolding copy_lines
copy_lines_fit [] offset block h =
    let same : offset ≡ offset + total_length [] = omega arith in
    (block, ap (λ k. some (k, block)) same, refl)
copy_lines_fit (line ∷ lines) offset block h =
    let (written, copied, long) = memcpy_fits offset line block (omega arith) in
    let (after, rest, long') = copy_lines_fit lines (offset + length line) written (omega arith) in
    let sum : offset + length line + total_length lines ≡ offset + total_length (line ∷ lines) =
      omega arith in
    (after, rw (copy_lines, copied) (rest ∙ ap (λ k. some (k, after)) sum), long' ∙ long)

joined_text_made :
    (lines : List Bytes) (block written after : Bytes) (offset : ℕ)
    → copy_lines lines 0 block ≡ some (offset, written)
    → memcpy offset (0 ∷ []) written ≡ some after
    → joined_text lines block ≡ some (take offset after)
unfolding joined_text ended_text
joined_text_made lines block written after offset copied closed =
    rw (joined_text, copied) (rw (ended_text, closed) refl)

joined_text_fits :
    (lines : List Bytes) (block : Bytes)
    → total_length lines < length block
    → joined_text lines block ≡ some (concat lines)
joined_text_fits lines block h =
    let (written, copied, long) = copy_lines_fit lines 0 block (omega arith) in
    let (after, closed, long') =
      memcpy_fits (0 + total_length lines) (0 ∷ []) written (omega arith) in
    let made = joined_text_made lines block written after (0 + total_length lines) copied closed in
    made ∙ ap some (joined_text-concat lines block _ made)

length-replicate : (n c : ℕ) → length (replicate n c) ≡ n
length-replicate ℕ.zero c = refl
length-replicate (suc n) c = ap suc (length-replicate n c)

-- Where the lines of the response headers are held as on_headers leaves them (AreHeld), there are any,
-- their bytes and a NUL can be counted by a size_t, and malloc returns memory, joining them writes
-- nothing outside the block of `response_headers_total + 1` bytes and succeeds, and the headers are the
-- lines one after the other.
pub join_headers_fits :
    (s : Settings) (line : Bytes) (lines : List Bytes)
    → AreHeld s
    → s.response_headers_array ≡ some (line ∷ lines)
    → total_length (line ∷ lines) + 1 < 2 ^ 64
    → is_next_given s ≡ true
    → (t : Settings) × (join_headers s ≡ (done tt, t))
      × (t.response_headers ≡ some (concat (line ∷ lines)))
      × (t.response_headers_array ≡ none)
unfolding join_headers join_lines
join_headers_fits s line lines held some_lines small given =
    let size = (s.response_headers_total + 1) % 2 ^ 64 in
    let total : s.response_headers_total ≡ total_length (line ∷ lines) =
      held.total ∙ ap total_length (lines_of-some s (line ∷ lines) some_lines) in
    let room : total_length (line ∷ lines) < length (replicate size 0) =
      omega (arith, length-replicate size 0) in
    let joined = joined_text_fits (line ∷ lines) (replicate size 0) room in
    (
      record (allocated s) {
        response_headers = some (concat (line ∷ lines));
        response_headers_array = none;
        response_headers_size = 0;
      },
      rw (join_headers, some_lines) (rw (join_lines, given, joined) refl),
      refl,
      refl,
    )
