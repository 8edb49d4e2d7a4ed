-- ===== src/Cache/Site/Walk.antt =====
-- Which files the directories of a site have, and that the walk lists these.
use mathlib.Core.Path.{subst}
use nvhttpd.Base.{
  Bool, true, false, List, [], ◌∷◌, append-nil, append_assoc, ◌≡◌, refl, sym, ap, ◌∙◌, ◌⊎◌, inl,
  inr, ◌++◌, if◌then◌else◌, Bool-cases,
}
use nvhttpd.Base.Chars.{Bytes}
use nvhttpd.Cache.Site.{
  Node, no_stat, file, dir, Directory, unreadable, readable, Entries, end, entry, is_dot, full_path,
}
use nvhttpd.Cache.Site.Listed.{files_of, files_of_entries, files_of_node}

-- A directory has a file with this content under this path, which begins with a slash; no name on
-- the way begins with a dot.
unfoldable mutual
  pub Has : Directory → Bytes → Bytes → Type 0
  Has unreadable q content = ⊥
  Has (readable entries) q content = HasEntry entries q content

  pub HasEntry : Entries → Bytes → Bytes → Type 0
  HasEntry end q content = ⊥
  HasEntry (entry name node entries) q content =
      ((rest : Bytes) × (is_dot name ≡ false)
        × (q ≡ b'/' ∷ (name ++ rest))
        × IsAt node rest content)
      ⊎ HasEntry entries q content

  pub IsAt : Node → Bytes → Bytes → Type 0
  IsAt no_stat rest content = ⊥
  IsAt (file f) rest content = (rest ≡ []) × (f.content ≡ content)
  IsAt (dir d) rest content = Has d rest content

unfoldable pub Contains : List (Bytes × Bytes) → Bytes → Bytes → Type 0
Contains [] q content = ⊥
Contains ((path, text) ∷ files) q content =
    ((path ≡ q) × (text ≡ content)) ⊎ Contains files q content

-- Below `path`, or in the list before.
abbrev IsBelow : (Bytes → Type 0) → Bytes → Bytes → Type 0
IsBelow has path q = (rest : Bytes) × (q ≡ path ++ rest) × has rest

entry-HasEntry :
    (path name : Bytes) (node : Node) (entries : Entries) (before inside : List (Bytes × Bytes))
    (q content : Bytes)
    → (Contains inside q content
        → IsBelow (λ rest. IsAt node rest content) (full_path path name) q
          ⊎ Contains before q content)
    → IsBelow (λ rest. HasEntry entries rest content) path q
      ⊎ Contains (if is_dot name then before else inside) q content
    → IsBelow (λ rest. HasEntry (entry name node entries) rest content) path q
      ⊎ Contains before q content
unfolding Has
entry-HasEntry path name node entries before inside q content each (inl (rest, is, has)) =
    inl (rest, is, inr has)
entry-HasEntry path name node entries before inside q content each (inr h) =
    elim (Bool-cases (is_dot name)) [
      | inl dot ↦ inr (rw dot at h)
      | inr other ↦ within other (each (rw other at h))
    ]
  where
    within :
        is_dot name ≡ false
        → IsBelow (λ rest. IsAt node rest content) (full_path path name) q
          ⊎ Contains before q content
        → IsBelow (λ rest. HasEntry (entry name node entries) rest content) path q
          ⊎ Contains before q content
    within other (inl (rest, is, at)) = inl (
      b'/' ∷ (name ++ rest),
      is ∙ append_assoc path (b'/' ∷ name) rest,
      inl (rest, other, refl, at),
    )
    within other (inr old) = inr old

either :
    (b : Bool) (xs ys : List (Bytes × Bytes)) (q content : Bytes)
    → Contains xs q content
    → Contains ys q content
    → Contains (if b then xs else ys) q content
either true xs ys q content h k = h
either false xs ys q content h k = k

mutual
  unfolding files_of Has Contains

  pub files_of-Has :
      (path : Bytes) (d : Directory) (before : List (Bytes × Bytes)) (q content : Bytes)
      → Contains (files_of path d before) q content
      → IsBelow (λ rest. Has d rest content) path q ⊎ Contains before q content
  files_of-Has path unreadable before q content h = inr h
  files_of-Has path (readable entries) before q content h =
      files_of_entries-HasEntry path entries before q content h

  files_of_entries-HasEntry :
      (path : Bytes) (entries : Entries) (before : List (Bytes × Bytes)) (q content : Bytes)
      → Contains (files_of_entries path entries before) q content
      → IsBelow (λ rest. HasEntry entries rest content) path q ⊎ Contains before q content
  files_of_entries-HasEntry path end before q content h = inr h
  files_of_entries-HasEntry path (entry name node entries) before q content h =
      entry-HasEntry path name node entries before (files_of_node (full_path path name) node before)
        q content (files_of_node-IsAt (full_path path name) node before q content)
        (files_of_entries-HasEntry path entries
          (if is_dot name then before else files_of_node (full_path path name) node before) q
          content h)

  files_of_node-IsAt :
      (path : Bytes) (node : Node) (before : List (Bytes × Bytes)) (q content : Bytes)
      → Contains (files_of_node path node before) q content
      → IsBelow (λ rest. IsAt node rest content) path q ⊎ Contains before q content
  files_of_node-IsAt path no_stat before q content h = inr h
  files_of_node-IsAt path (file f) before q content (inl (p, t)) =
      inl ([], sym p ∙ sym (append-nil path), (refl, t))
  files_of_node-IsAt path (file f) before q content (inr h) = inr h
  files_of_node-IsAt path (dir d) before q content h = files_of-Has path d before q content h

mutual
  unfolding files_of Contains

  pub files_of_keeps :
      (path : Bytes) (d : Directory) (before : List (Bytes × Bytes)) (q content : Bytes)
      → Contains before q content
      → Contains (files_of path d before) q content
  files_of_keeps path unreadable before q content h = h
  files_of_keeps path (readable entries) before q content h =
      files_of_entries_keeps path entries before q content h

  files_of_entries_keeps :
      (path : Bytes) (entries : Entries) (before : List (Bytes × Bytes)) (q content : Bytes)
      → Contains before q content
      → Contains (files_of_entries path entries before) q content
  files_of_entries_keeps path end before q content h = h
  files_of_entries_keeps path (entry name node entries) before q content h =
      files_of_entries_keeps path entries _ q content (
        either (is_dot name) before (files_of_node (full_path path name) node before) q content h
          (files_of_node_keeps (full_path path name) node before q content h))

  files_of_node_keeps :
      (path : Bytes) (node : Node) (before : List (Bytes × Bytes)) (q content : Bytes)
      → Contains before q content
      → Contains (files_of_node path node before) q content
  files_of_node_keeps path no_stat before q content h = h
  files_of_node_keeps path (file f) before q content h = inr h
  files_of_node_keeps path (dir d) before q content h = files_of_keeps path d before q content h

mutual
  unfolding files_of Has Contains

  pub Has-files_of :
      (path : Bytes) (d : Directory) (before : List (Bytes × Bytes)) (rest content : Bytes)
      → Has d rest content
      → Contains (files_of path d before) (path ++ rest) content
  Has-files_of path unreadable before rest content h = absurd h
  Has-files_of path (readable entries) before rest content h =
      HasEntry-files_of path entries before rest content h

  HasEntry-files_of :
      (path : Bytes) (entries : Entries) (before : List (Bytes × Bytes)) (q content : Bytes)
      → HasEntry entries q content
      → Contains (files_of_entries path entries before) (path ++ q) content
  HasEntry-files_of path end before q content h = absurd h
  HasEntry-files_of path (entry name node entries) before q content (inr h) =
      HasEntry-files_of path entries _ q content h
  HasEntry-files_of path (entry name node entries) before q content (inl (rest, other, is, at)) =
      files_of_entries_keeps path entries _ (path ++ q) content (
        rw other (
          subst (λ p. Contains (files_of_node (full_path path name) node before) p content)
            (append_assoc path (b'/' ∷ name) rest ∙ ap (◌++◌ path) (sym is))
            (IsAt-files_of (full_path path name) node before rest content at)))

  IsAt-files_of :
      (path : Bytes) (node : Node) (before : List (Bytes × Bytes)) (rest content : Bytes)
      → IsAt node rest content
      → Contains (files_of_node path node before) (path ++ rest) content
  IsAt-files_of path no_stat before rest content h = absurd h
  IsAt-files_of path (file f) before rest content (none_left, is) =
      inl (sym (ap (◌++◌ path) none_left ∙ append-nil path), is)
  IsAt-files_of path (dir d) before rest content h = Has-files_of path d before rest content h
