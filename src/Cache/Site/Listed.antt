-- ===== src/Cache/Site/Listed.antt =====
-- The list that `load_dir` makes, against a plain walk through the directories.
use mathlib.Core.Path.{subst}
use nvhttpd.Base.{
  ℕ, suc, ◌+◌, Bool, true, false, List, [], ◌∷◌, append_assoc, ◌≡◌, refl, sym, ap, ◌∙◌, inl, inr,
  arith, ◌++◌, if◌then◌else◌, length, drop, Bool-cases,
}
use nvhttpd.Base.Chars.{Bytes}
use nvhttpd.Cache.{CacheElement, Result, done, error, crash, hash, new_element, new_elements}
use nvhttpd.Cache.Serves.{done_inj, on_done-inv}
use nvhttpd.Cache.Site.{
  SiteFile, Node, no_stat, file, dir, Directory, unreadable, readable, Entries, end, entry, Loading,
  behind_malloc, is_dot, full_path, element_error, read_element, init_element, add_element,
  load_file, load_entry, load_dir, load_entries, load_node,
}

-- The files below a path, each with its path, in front of those before; the entries whose names begin
-- with a dot are left out.
unfoldable mutual
  pub files_of : Bytes → Directory → List (Bytes × Bytes) → List (Bytes × Bytes)
  files_of path unreadable before = before
  files_of path (readable entries) before = files_of_entries path entries before

  pub files_of_entries : Bytes → Entries → List (Bytes × Bytes) → List (Bytes × Bytes)
  files_of_entries path end before = before
  files_of_entries path (entry name node entries) before =
      files_of_entries path entries
        (if is_dot name then before else files_of_node (full_path path name) node before)

  pub files_of_node : Bytes → Node → List (Bytes × Bytes) → List (Bytes × Bytes)
  files_of_node path no_stat before = before
  files_of_node path (file f) before = (path, f.content) ∷ before
  files_of_node path (dir d) before = files_of path d before

drop-append : {A : Type 0} (xs ys : List A) → drop (length xs) (xs ++ ys) ≡ ys
drop-append [] ys = refl
drop-append (x ∷ xs) ys = drop-append xs ys

not_failed :
    {A : Type 0} (b served : Bool) (x : Result A) {a : A}
    → (if b then x else element_error served) ≡ done a
    → x ≡ done a
not_failed true served x h = h
not_failed false true x h = cc
not_failed false false x h = cc

pub given :
    {A : Type 0} (b : Bool) (x : Result A) {a : A} → (if b then x else error) ≡ done a → x ≡ done a
given true x h = h
given false x h = cc

given_or_crash :
    {A : Type 0} (b : Bool) (x : Result A) {a : A} → (if b then x else crash) ≡ done a → x ≡ done a
given_or_crash true x h = h
given_or_crash false x h = cc

add-one_of : (n : ℕ) → n + 1 ≡ suc n
add-one_of n = omega arith

module _ (served : Bool) (base_path : Bytes) where
  -- The list and the count are those of these files.
  abbrev pub Lists : Loading → List (Bytes × Bytes) → Type 0
  Lists st files = (st.file_list ≡ new_elements base_path files) × (st.count ≡ length files)

  init_element-done :
      (path : Bytes) (f : SiteFile) (st : Loading) (r : CacheElement × Loading)
      → init_element served path f st ≡ done r
      → r ≡ (read_element path f, behind_malloc st)
  unfolding init_element
  init_element-done path f st r h = sym (done_inj (not_failed _ served _ (not_failed _ served _ h)))

  load_file-Lists :
      (path : Bytes) (f : SiteFile) (st st' : Loading) (before : List (Bytes × Bytes))
      → load_file served base_path (base_path ++ path) f st ≡ done st'
      → Lists st before
      → Lists st' ((path, f.content) ∷ before)
  unfolding load_file add_element new_elements new_element
  load_file-Lists path f st st' before h l =
      let (r, read, added) =
        on_done-inv (init_element served (base_path ++ path) f _) _ (given _ _ h) in
      let is = init_element-done (base_path ++ path) f _ r read in
      let stored = ap (add_element base_path) (sym is) ∙ added in
      let last = done_inj (given_or_crash _ _ stored) in
      let relative = drop-append base_path path in
      (
        sym (ap (λ (x : Loading). x.file_list) last)
            ∙ ap
                (λ (p : Bytes).
                  record (read_element (base_path ++ path) f) { path = p; hash = hash p }
                  ∷ st.file_list)
                relative
            ∙ ap (◌∷◌ (new_element base_path (path, f.content))) (l.0),
        sym (ap (λ (x : Loading). x.count) last)
            ∙ ap (λ (n : ℕ). n + 1) (l.1)
            ∙ add-one_of (length before),
      )

  entry-Lists :
      (load : Loading → Result Loading) (name : Bytes) (before inside : List (Bytes × Bytes))
      (st st' : Loading)
      → ((s : Loading) → load s ≡ done st' → Lists s before → Lists st' inside)
      → load_entry load name st ≡ done st'
      → Lists st before
      → Lists st' (if is_dot name then before else inside)
  entry-Lists load name before inside st st' each h l = elim (Bool-cases (is_dot name)) [
    | inl dot ↦ rw dot (subst (λ s. Lists s before) (done_inj (rw dot at h)) l)
    | inr other ↦ rw other (each (behind_malloc st) (given _ _ (rw other at h)) l)
  ]

  mutual
    unfolding load_dir load_entries load_node files_of

    pub load_dir-Lists :
        (path : Bytes) (d : Directory) (st st' : Loading) (before : List (Bytes × Bytes))
        → load_dir served base_path (base_path ++ path) d st ≡ done st'
        → Lists st before
        → Lists st' (files_of path d before)
    load_dir-Lists path unreadable st st' before h l = cc
    load_dir-Lists path (readable entries) st st' before h l =
        load_entries-Lists path entries st st' before h l

    load_entries-Lists :
        (path : Bytes) (entries : Entries) (st st' : Loading) (before : List (Bytes × Bytes))
        → load_entries served base_path (base_path ++ path) entries st ≡ done st'
        → Lists st before
        → Lists st' (files_of_entries path entries before)
    load_entries-Lists path end st st' before h l = subst (λ s. Lists s before) (done_inj h) l
    load_entries-Lists path (entry name node entries) st st' before h l =
        let (st₁, first, later) =
          on_done-inv
            (load_entry (load_node served base_path (full_path (base_path ++ path) name) node) name
              st)
            _ h in
        load_entries-Lists path entries st₁ st' _ later (
          entry-Lists (load_node served base_path (full_path (base_path ++ path) name) node) name
            before (files_of_node (full_path path name) node before) st st₁
            (λ s loaded. load_node-Lists (full_path path name) node s st₁ before (
              subst (λ p. load_node served base_path p node s ≡ done st₁)
                (append_assoc base_path path (b'/' ∷ name)) loaded))
            first l)

    load_node-Lists :
        (path : Bytes) (node : Node) (st st' : Loading) (before : List (Bytes × Bytes))
        → load_node served base_path (base_path ++ path) node st ≡ done st'
        → Lists st before
        → Lists st' (files_of_node path node before)
    load_node-Lists path no_stat st st' before h l = cc
    load_node-Lists path (file f) st st' before h l = load_file-Lists path f st st' before h l
    load_node-Lists path (dir d) st st' before h l = load_dir-Lists path d st st' before h l
