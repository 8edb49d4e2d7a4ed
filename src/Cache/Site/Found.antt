-- ===== src/Cache/Site/Found.antt =====
-- What `cache_find` finds in the table that `cache_load` makes of a site.
use mathlib.Core.Path.{subst}
use nvhttpd.Base.{
  ℕ, Bool, true, false, List, [], ◌∷◌, Option, some, append-nil, ◌≡◌, refl, sym, ap, ◌∙◌, ◌⊎◌, ◌↔◌,
  inl, inr, ◌==◌, if◌then◌else◌, Bool-cases, ltb, length,
}
use nvhttpd.Base.Chars.{Bytes}
use nvhttpd.Cache.{
  CacheElement, Cache, Result, done, error, same_text, new_element, new_elements, build,
  max_cache_elements, cache_load, cache_find,
}
use nvhttpd.Cache.Probe.{same_text_refl, same_text-eq}
use nvhttpd.Cache.Serves.{lookup, on_done-inv}
use nvhttpd.Cache.Loads.{length-new_elements}
use nvhttpd.Cache.Lookup.{cache_find-finds_loaded}
use nvhttpd.Cache.Site.{
  Directory, load_dir, got_memory, behind_malloc, Loading, fill_table, load_site,
}
use nvhttpd.Cache.Site.Listed.{load_dir-Lists, given, files_of}
use nvhttpd.Cache.Site.Names.{WellNamed, Has-unique}
use nvhttpd.Cache.Site.Walk.{Has, Contains, files_of-Has, Has-files_of}

first_or :
    {A : Type 0} (b : Bool) (a : A) (r : Option A) {e : A}
    → b ≡ true
    → (if b then some a else r) ≡ some e
    → a ≡ e
first_or b a r t h = cc (rw t at h)

later_or :
    {A : Type 0} (b : Bool) (a : A) (r : Option A) {e : A}
    → b ≡ false
    → (if b then some a else r) ≡ some e
    → r ≡ some e
later_or b a r t h = rw t at h

passed :
    {A : Type 0} (many empty got : Bool) (x : Result A) {a : A}
    → (if many then error else if empty then error else if got then x else error) ≡ done a
    → (many ≡ false) × (empty ≡ false) × (x ≡ done a)
passed true empty got x h = cc
passed false true got x h = cc
passed false false true x h = (refl, refl, h)
passed false false false x h = cc

module _ (base_path : Bytes) where
  -- What the first element with a path is made of.
  lookup-Contains :
      (files : List (Bytes × Bytes)) (q : Bytes) (e : CacheElement)
      → lookup (new_elements base_path files) q ≡ some e
      → (content : Bytes) × Contains files q content × (e ≡ new_element base_path (q, content))
  unfolding lookup new_elements Contains
  lookup-Contains [] q e h = cc
  lookup-Contains ((path, text) ∷ files) q e h = elim (Bool-cases (same_text path q)) [
    | inl same ↦
        let is = same_text-eq path q same in
        (
          text,
          inl (is, refl),
          sym (first_or (same_text path q) (new_element base_path (path, text)) _ same h)
              ∙ ap (λ (p : Bytes). new_element base_path (p, text)) is,
        )
    | inr other ↦
        let (content, has, is) =
          lookup-Contains files q e
            (later_or (same_text path q) (new_element base_path (path, text)) _ other h) in
        (content, inr has, is)
  ]

  Contains-lookup :
      (files : List (Bytes × Bytes)) (q content : Bytes)
      → Contains files q content
      → (e : CacheElement) × (lookup (new_elements base_path files) q ≡ some e)
  unfolding lookup new_elements Contains
  Contains-lookup [] q content h = absurd h
  Contains-lookup ((path, text) ∷ files) q content h = elim (Bool-cases (same_text path q)) [
    | inl same ↦ (new_element base_path (path, text), rw same refl)
    | inr other ↦ later (Contains-lookup files q content) other h
  ]
    where
      later :
          (Contains files q content
            → (e : CacheElement) × (lookup (new_elements base_path files) q ≡ some e))
          → same_text path q ≡ false
          → ((path ≡ q) × (text ≡ content)) ⊎ Contains files q content
          → (e : CacheElement) × (lookup (new_elements base_path ((path, text) ∷ files)) q ≡ some e)
      later more other (inl (is, same)) =
          cc (other, subst (λ p. same_text path p ≡ true) is (same_text_refl path))
      later more other (inr h) = let (e, found) = more h in (e, rw other found)

  -- What `load_dir` has listed goes into the table as `cache_load` puts it there.
  fill_table-done :
      (fuel : ℕ) (st : Loading) (files : List (Bytes × Bytes)) (cache : Cache)
      → (st.file_list ≡ new_elements base_path files) × (st.count ≡ length files)
      → fill_table fuel st ≡ done cache
      → cache_load true fuel base_path files ≡ done cache
  unfolding fill_table cache_load
  fill_table-done fuel st files cache l h =
      let count : st.count ≡ length (new_elements base_path files) =
        l.1 ∙ sym (length-new_elements base_path files) in
      let few = ap (λ (n : ℕ). ltb max_cache_elements n) (sym count) in
      let several = ap (λ (n : ℕ). n == 0) (sym count) in
      let (not_many, not_none, built) =
        passed (ltb max_cache_elements st.count) (st.count == 0) (got_memory st)
          (build fuel st.file_list) h in
      rw (few ∙ not_many, several ∙ not_none) (ap (build fuel) (sym (l.0)) ∙ built)

  load_site-loads :
      (served : Bool) (fuel : ℕ) (site : Directory) (allocations : List Bool) (cache : Cache)
      → load_site served fuel (some base_path) site allocations ≡ done cache
      → cache_load true fuel base_path (files_of [] site []) ≡ done cache
  unfolding load_site new_elements
  load_site-loads served fuel site allocations cache h =
      let start : Loading = record { file_list = []; count = 0; allocations = allocations } in
      let (st, loaded, filled) =
        on_done-inv (load_dir served base_path base_path site (behind_malloc start))
          (fill_table fuel) (given _ _ h) in
      fill_table-done fuel st (files_of [] site []) cache
        (load_dir-Lists served base_path [] site (behind_malloc start) st []
          (subst (λ p. load_dir served base_path p site (behind_malloc start) ≡ done st)
            (sym (append-nil base_path)) loaded)
          (refl, refl))
        filled

some_inj : {A : Type 0} {a b : A} → ◌≡◌ {A = Option A} (some a) (some b) → a ≡ b
some_inj h = cc

-- In the table that cache_load makes of a site without a slash in a name and without a name twice in
-- a directory, cache_find, given memory for the copy and the fuel that cache_load had, finds an
-- element with a path and a content exactly if the directories have a file with this content under
-- this path, through no name that begins with a dot.
pub cache_find-load_site :
    (served : Bool) (fuel : ℕ) (base_path : Bytes) (site : Directory) (allocations : List Bool)
    (cache : Cache)
    → WellNamed site
    → load_site served fuel (some base_path) site allocations ≡ done cache
    → (path content : Bytes)
    → (cache_find true fuel (some cache) path ≡ done (some (new_element base_path (path, content))))
      ↔ Has site path content
unfolding new_element Contains
cache_find-load_site served fuel base_path site allocations cache named loaded path content =
    let files = files_of [] site [] in
    let table = load_site-loads base_path served fuel site allocations cache loaded in
    let finds =
      λ (e : CacheElement). cache_find-finds_loaded fuel base_path files cache table path e in
    (
      λ h.
          let (text, listed, is) =
            lookup-Contains base_path files path _
              ((finds (new_element base_path (path, content))).0 h) in
          subst (Has site path) (sym (ap (λ (e : CacheElement). e.content) is))
            (has_listed text listed),
      λ h.
          let (e, found) =
            Contains-lookup base_path files path content (Has-files_of [] site [] path content h) in
          let (text, listed, is) = lookup-Contains base_path files path e found in
          let same = Has-unique site path text content named (has_listed text listed) h in
          (finds (new_element base_path (path, content))).1
            (found ∙ ap some (is ∙ ap (λ (c : Bytes). new_element base_path (path, c)) same)),
    )
  where
    has_listed : (text : Bytes) → Contains (files_of [] site []) path text → Has site path text
    has_listed text listed = below text (files_of-Has [] site [] path text listed)
      where
        below :
            (text : Bytes)
            → ((rest : Bytes) × (path ≡ rest) × Has site rest text) ⊎ ⊥
            → Has site path text
        below text (inl (rest, is, has)) = subst (λ q. Has site q text) (sym is) has
        below text (inr h) = absurd h
