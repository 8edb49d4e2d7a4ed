-- ===== src/Cache/Site/Readable.antt =====
-- A load of the site succeeds exactly if everything in it can be read.
use nvhttpd.Base.{
  ◌+◌, Bool, true, false, ◌&&◌, [], ◌∷◌, ◌≡◌, refl, sym, ap, ◌∙◌, inl, inr, arith, if◌then◌else◌,
  length, drop, Bool-cases,
}
use nvhttpd.Base.Chars.{Bytes}
use nvhttpd.Config.State.{next_allocation}
use nvhttpd.Cache.{Result, done, error, on_done, hash}
use nvhttpd.Cache.Site.{
  SiteFile, Node, no_stat, file, dir, Directory, unreadable, readable, Entries, end, entry, Loading,
  got_memory, behind_malloc, is_dot, full_path, is_read, read_element, init_element, add_element,
  load_file, load_entry, load_dir, load_entries, load_node,
}

-- Every call on a directory or file succeeds, but for the entries whose names begin with a dot.
unfoldable mutual
  pub is_readable : Directory → Bool
  is_readable unreadable = false
  is_readable (readable entries) = are_readable entries

  pub are_readable : Entries → Bool
  are_readable end = true
  are_readable (entry name node entries) =
      (if is_dot name then true else is_readable_node node) && are_readable entries

  pub is_readable_node : Node → Bool
  is_readable_node no_stat = false
  is_readable_node (file f) = f.fopen && f.seek_end && is_read f
  is_readable_node (dir d) = is_readable d

-- malloc and strdup always succeed.
abbrev pub HasMemory : Loading → Type 0
HasMemory st = st.allocations ≡ []

pub got : (st : Loading) → HasMemory st → got_memory st ≡ true
unfolding next_allocation
got st m = ap (λ bs. (next_allocation bs).0) m

behind : (st : Loading) → HasMemory st → HasMemory (behind_malloc st)
unfolding next_allocation
behind st m = ap (λ bs. (next_allocation bs).1) m

both : (a b : Bool) → a && b ≡ true → (a ≡ true) × (b ≡ true)
both true b h = (refl, h)
both false b h = cc

and-false : (b : Bool) → b && false ≡ false
and-false true = refl
and-false false = refl

not_dot : (dot b : Bool) → (if dot then true else b) ≡ false → (dot ≡ false) × (b ≡ false)
not_dot true b h = cc
not_dot false b h = (refl, h)

abbrev pub Loads : Result Loading → Type 0
Loads r = (st : Loading) × (r ≡ done st) × HasMemory st

module _ (served : Bool) (base_path : Bytes) where
  load_file-Loads :
      (path : Bytes) (f : SiteFile) (st : Loading)
      → is_readable_node (file f) ≡ true
      → HasMemory st
      → Loads (load_file served base_path path f st)
  unfolding load_file init_element add_element on_done is_readable
  load_file-Loads path f st r m =
      let m₁ = behind st m in
      let m₂ = behind (behind_malloc st) m₁ in
      let opened : f.fopen && f.seek_end ≡ true = ground arith in
      let is : is_read f ≡ true = ground arith in
      let element = read_element path f in
      let relative = drop (length base_path) path in
      let st' : Loading = record {
        file_list = record element { path = relative; hash = hash relative } ∷ st.file_list;
        count = st.count + 1;
        allocations = (next_allocation (behind_malloc (behind_malloc st)).allocations).1;
      } in
      (
        st',
        rw
            (
              got st m,
              opened,
              got (behind_malloc st) m₁,
              is,
              got (behind_malloc (behind_malloc st)) m₂,
            )
            refl,
        behind (behind_malloc (behind_malloc st)) m₂,
      )

  entry-Loads :
      (load : Loading → Result Loading) (name : Bytes) (st : Loading) (b : Bool)
      → ((s : Loading) → b ≡ true → HasMemory s → Loads (load s))
      → (if is_dot name then true else b) ≡ true
      → HasMemory st
      → Loads (load_entry load name st)
  entry-Loads load name st b each r m = elim (Bool-cases (is_dot name)) [
    | inl dot ↦ (st, rw dot refl, m)
    | inr other ↦
        let (st', loaded, m') = each (behind_malloc st) (rw other at r) (behind st m) in
        (st', rw (other, got st m) loaded, m')
  ]

  mutual
    unfolding load_dir on_done is_readable

    pub load_dir-Loads :
        (path : Bytes) (d : Directory) (st : Loading)
        → is_readable d ≡ true
        → HasMemory st
        → Loads (load_dir served base_path path d st)
    load_dir-Loads path unreadable st r m = cc
    load_dir-Loads path (readable entries) st r m = load_entries-Loads path entries st r m

    load_entries-Loads :
        (path : Bytes) (entries : Entries) (st : Loading)
        → are_readable entries ≡ true
        → HasMemory st
        → Loads (load_entries served base_path path entries st)
    load_entries-Loads path end st r m = (st, refl, m)
    load_entries-Loads path (entry name node entries) st r m =
        let (first, rest) = both _ (are_readable entries) r in
        let (st₁, loaded, m₁) =
          entry-Loads (load_node served base_path (full_path path name) node) name st
            (is_readable_node node) (λ s r' m'. load_node-Loads (full_path path name) node s r' m')
            first m in
        let (st₂, later, m₂) = load_entries-Loads path entries st₁ rest m₁ in
        (st₂, rw loaded later, m₂)

    load_node-Loads :
        (path : Bytes) (node : Node) (st : Loading)
        → is_readable_node node ≡ true
        → HasMemory st
        → Loads (load_node served base_path path node st)
    load_node-Loads path no_stat st r m = cc
    load_node-Loads path (file f) st r m = load_file-Loads path f st r m
    load_node-Loads path (dir d) st r m = load_dir-Loads path d st r m

module _ (base_path : Bytes) where
  load_file-error :
      (path : Bytes) (f : SiteFile) (st : Loading)
      → is_readable_node (file f) ≡ false
      → load_file true base_path path f st ≡ error
  unfolding load_file init_element on_done is_readable
  load_file-error path f st r = elim (Bool-cases (got_memory st)) [
    | inr no_memory ↦ rw no_memory refl
    | inl first ↦ elim (Bool-cases (f.fopen && f.seek_end)) [
      | inr closed ↦ rw (first, closed) refl
      | inl opened ↦
          let unread : is_read f ≡ false = ground arith in
          let failed : got_memory (behind_malloc st) && is_read f ≡ false =
            ap (λ b. got_memory (behind_malloc st) && b) unread
            ∙ and-false (got_memory (behind_malloc st)) in
          rw (first, opened, failed) refl
    ]
  ]

  mutual
    unfolding load_dir on_done is_readable

    pub load_dir-error :
        (path : Bytes) (d : Directory) (st : Loading)
        → is_readable d ≡ false
        → HasMemory st
        → load_dir true base_path path d st ≡ error
    load_dir-error path unreadable st r m = refl
    load_dir-error path (readable entries) st r m = load_entries-error path entries st r m

    load_entries-error :
        (path : Bytes) (entries : Entries) (st : Loading)
        → are_readable entries ≡ false
        → HasMemory st
        → load_entries true base_path path entries st ≡ error
    load_entries-error path end st r m = cc
    load_entries-error path (entry name node entries) st r m =
        elim (Bool-cases (if is_dot name then true else is_readable_node node)) [
          | inl first ↦
              let rest : are_readable entries ≡ false =
                ap (λ b. b && are_readable entries) (sym first) ∙ r in
              let (st₁, loaded, m₁) =
                entry-Loads true base_path (load_node true base_path (full_path path name) node)
                  name st (is_readable_node node)
                  (λ s r' m'. load_node-Loads true base_path (full_path path name) node s r' m')
                  first m in
              rw loaded (load_entries-error path entries st₁ rest m₁)
          | inr bad ↦
              let (other, unread) = not_dot (is_dot name) (is_readable_node node) bad in
              rw
                (
                  other,
                  got st m,
                  load_node-error (full_path path name) node (behind_malloc st) unread
                      (behind st m),
                )
                refl
        ]

    load_node-error :
        (path : Bytes) (node : Node) (st : Loading)
        → is_readable_node node ≡ false
        → HasMemory st
        → load_node true base_path path node st ≡ error
    load_node-error path no_stat st r m = refl
    load_node-error path (file f) st r m = load_file-error path f st r
    load_node-error path (dir d) st r m = load_dir-error path d st r m
