-- ===== src/Server/Configure/Joined.antt =====
-- The loop of `configure` that joins the response headers.
use nvhttpd.Base.{
  ℕ, suc, ◌+◌, Bool, true, false, List, [], ◌∷◌, Option, none, some, ◌++◌, ◌≡◌, refl, sym, ap, ◌∙◌,
  append-nil, append_assoc, if◌then◌else◌, arith, leb, length, take, drop, length-take, take-append,
}
use nvhttpd.Base.Chars.{Bytes}
use nvhttpd.Server.Configure.{memcpy, copy_lines, ended_text, joined_text}

-- The lines, one after the other.
unfoldable pub concat : List Bytes → Bytes
concat [] = []
concat (line ∷ lines) = line ++ concat lines

take-add : (xs ys : Bytes) (n : ℕ) → take (length xs + n) (xs ++ ys) ≡ xs ++ take n ys
take-add [] ys n = ap (λ k. take k ys) (omega arith)
take-add (x ∷ xs) ys n =
    let next : length (x ∷ xs) + n ≡ suc (length xs + n) = omega arith in
    ap (λ k. take k (x ∷ xs ++ ys)) next ∙ ap (◌∷◌ x) (take-add xs ys n)

-- What a write leaves: the bytes in front of it, and those that were written.
record Written (offset : ℕ) (bytes block after : Bytes) : Type 0 where
  front : take offset after ≡ take offset block
  text : take (offset + length bytes) after ≡ take offset block ++ bytes

memcpy-Written :
    (offset : ℕ) (bytes block after : Bytes)
    → memcpy offset bytes block ≡ some after
    → Written offset bytes block after
unfolding memcpy
memcpy-Written offset bytes block after h = fits (leb (offset + length bytes) (length block)) refl h
  where
    rest : Bytes
    rest = drop (offset + length bytes) block

    fits :
        (b : Bool)
        → leb (offset + length bytes) (length block) ≡ b
        → (if b then some (take offset block ++ (bytes ++ rest)) else none) ≡ some after
        → Written offset bytes block after
    fits false e h = absurd cc
    fits true e h =
        let is : after ≡ take offset block ++ (bytes ++ rest) = cc in
        let before : length (take offset block) ≡ offset =
          length-take block offset (ground arith) in
        record {
          front =
              ap (take offset) is
              ∙ ap (λ k. take k (take offset block ++ (bytes ++ rest))) (sym before)
              ∙ take-append (take offset block) (bytes ++ rest);
          text =
              ap (take (offset + length bytes)) is
              ∙ ap (λ k. take (k + length bytes) (take offset block ++ (bytes ++ rest)))
                  (sym before)
              ∙ take-add (take offset block) (bytes ++ rest) (length bytes)
              ∙ ap (◌++◌ (take offset block)) (take-append bytes rest);
        }

copy_lines-concat :
    (lines : List Bytes) (offset offset' : ℕ) (block after : Bytes)
    → copy_lines lines offset block ≡ some (offset', after)
    → take offset' after ≡ take offset block ++ concat lines
unfolding copy_lines concat
copy_lines-concat [] offset offset' block after h =
    let same : offset' ≡ offset = cc in
    let kept : after ≡ block = cc in
    ap (λ k. take k after) same ∙ ap (take offset) kept ∙ sym (append-nil (take offset block))
copy_lines-concat (line ∷ lines) offset offset' block after h =
    went (memcpy offset line block) refl (λ w. copy_lines-concat lines _ offset' w after) h
  where
    went :
        (o : Option Bytes)
        → memcpy offset line block ≡ o
        → ((w : Bytes)
            → copy_lines lines (offset + length line) w ≡ some (offset', after)
            → take offset' after ≡ take (offset + length line) w ++ concat lines)
        → elim o [ none ↦ none | some w ↦ copy_lines lines (offset + length line) w ]
          ≡ some (offset', after)
        → take offset' after ≡ take offset block ++ (line ++ concat lines)
    went none e again h = absurd cc
    went (some w) e again h =
        again w h
        ∙ ap (λ x. x ++ concat lines) (memcpy-Written offset line block w e).text
        ∙ append_assoc (take offset block) line (concat lines)

ended_text-take :
    (offset : ℕ) (block text : Bytes)
    → ended_text offset block ≡ some text
    → text ≡ take offset block
unfolding ended_text
ended_text-take offset block text h = wrote (memcpy offset (0 ∷ []) block) refl h
  where
    wrote :
        (o : Option Bytes)
        → memcpy offset (0 ∷ []) block ≡ o
        → elim o [ none ↦ none | some ended ↦ some (take offset ended) ] ≡ some text
        → text ≡ take offset block
    wrote none e h = absurd cc
    wrote (some ended) e h =
        let is : text ≡ take offset ended = cc in
        is ∙ (memcpy-Written offset (0 ∷ []) block ended e).front

-- Where no write is outside the block, the text is that of the lines in their order.
pub joined_text-concat :
    (lines : List Bytes) (block text : Bytes)
    → joined_text lines block ≡ some text
    → text ≡ concat lines
unfolding joined_text
joined_text-concat lines block text h = copied (copy_lines lines 0 block) refl h
  where
    copied :
        (o : Option (ℕ × Bytes))
        → copy_lines lines 0 block ≡ o
        → elim o [ none ↦ none | some (offset, w) ↦ ended_text offset w ] ≡ some text
        → text ≡ concat lines
    copied none e h = absurd cc
    copied (some (offset, w)) e h =
        ended_text-take offset w text h ∙ copy_lines-concat lines 0 offset block w e
