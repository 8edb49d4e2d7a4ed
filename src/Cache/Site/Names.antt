-- ===== src/Cache/Site/Names.antt =====
-- A directory whose names hold no slash and are all different has one file under a path.
use mathlib.Core.Path.{subst}
use nvhttpd.Base.{ℕ, false, [], ◌∷◌, ◌≡◌, refl, sym, ◌∙◌, inl, inr, arith, ◌++◌, ◌==◌}
use nvhttpd.Base.Chars.{Bytes}
use nvhttpd.Cache.Site.{
  Node, no_stat, file, dir, Directory, unreadable, readable, Entries, end, entry,
}
use nvhttpd.Cache.Site.Walk.{Has, HasEntry, IsAt}

unfoldable pub SlashFree : Bytes → Type 0
SlashFree [] = Unit {0}
SlashFree (c ∷ cs) = (c == b'/' ≡ false) × SlashFree cs

unfoldable pub Unlisted : Bytes → Entries → Type 0
Unlisted name end = Unit {0}
Unlisted name (entry other node entries) = (name ≡ other → ⊥) × Unlisted name entries

-- No name holds a slash, and no directory lists a name twice.
unfoldable mutual
  pub WellNamed : Directory → Type 0
  WellNamed unreadable = Unit {0}
  WellNamed (readable entries) = WellNamedEntries entries

  pub WellNamedEntries : Entries → Type 0
  WellNamedEntries end = Unit {0}
  WellNamedEntries (entry name node entries) =
      SlashFree name × Unlisted name entries × WellNamedNode node × WellNamedEntries entries

  pub WellNamedNode : Node → Type 0
  WellNamedNode no_stat = Unit {0}
  WellNamedNode (file f) = Unit {0}
  WellNamedNode (dir d) = WellNamed d

-- Empty, or a slash comes first.
abbrev Starts : Bytes → Type 0
Starts [] = Unit {0}
Starts (c ∷ cs) = c ≡ b'/'

name_split :
    (n m r s : Bytes)
    → SlashFree n
    → SlashFree m
    → Starts r
    → Starts s
    → n ++ r ≡ m ++ s
    → (n ≡ m) × (r ≡ s)
unfolding SlashFree
name_split [] [] r s a b f g h = (refl, h)
name_split [] (d ∷ m) [] s a b f g h = cc
name_split [] (d ∷ m) (c ∷ r) s a b f g h = absurd (ground arith)
name_split (c ∷ n) [] r [] a b f g h = cc
name_split (c ∷ n) [] r (d ∷ s) a b f g h = absurd (ground arith)
name_split (c ∷ n) (d ∷ m) r s a b f g h =
    let same : c ≡ d = cc in
    let tails : n ++ r ≡ m ++ s = cc in
    let (names, rests) = name_split n m r s a.1 b.1 f g tails in (cc, rests)

mutual
  unfolding Has

  Has-Starts : (d : Directory) (q content : Bytes) → Has d q content → Starts q
  Has-Starts unreadable q content h = absurd h
  Has-Starts (readable entries) q content h = HasEntry-Starts entries q content h

  HasEntry-Starts : (entries : Entries) (q content : Bytes) → HasEntry entries q content → Starts q
  HasEntry-Starts end q content h = absurd h
  HasEntry-Starts (entry name node entries) q content (inl (rest, other, is, at)) =
      subst Starts (sym is) refl
  HasEntry-Starts (entry name node entries) q content (inr h) = HasEntry-Starts entries q content h

  IsAt-Starts : (node : Node) (q content : Bytes) → IsAt node q content → Starts q
  IsAt-Starts no_stat q content h = absurd h
  IsAt-Starts (file f) q content h = subst Starts (sym (h.0)) tt
  IsAt-Starts (dir d) q content h = Has-Starts d q content h

tail_eq : {c : ℕ} {xs ys : Bytes} → c ∷ xs ≡ c ∷ ys → xs ≡ ys
tail_eq h = cc

-- No other entry is under a path that begins with this name.
other_entry :
    (entries : Entries) (name rest q content : Bytes)
    → SlashFree name
    → Starts rest
    → Unlisted name entries
    → WellNamedEntries entries
    → q ≡ b'/' ∷ (name ++ rest)
    → HasEntry entries q content
    → ⊥
unfolding Has Unlisted WellNamed
other_entry end name rest q content free starts new named is h = h
other_entry (entry other node entries) name rest q content free starts new named is
      (inl (r, dot, at, in_node)) =
    new.0
      (name_split name other rest r free named.0 starts (IsAt-Starts node r content in_node)
        (tail_eq (sym is ∙ at))).0
other_entry (entry other node entries) name rest q content free starts new named is (inr h) =
    other_entry entries name rest q content free starts new.1 named.3 is h

mutual
  unfolding Has WellNamed

  pub Has-unique :
      (d : Directory) (q content text : Bytes)
      → WellNamed d
      → Has d q content
      → Has d q text
      → content ≡ text
  Has-unique unreadable q content text named h k = absurd h
  Has-unique (readable entries) q content text named h k =
      HasEntry-unique entries q content text named h k

  HasEntry-unique :
      (entries : Entries) (q content text : Bytes)
      → WellNamedEntries entries
      → HasEntry entries q content
      → HasEntry entries q text
      → content ≡ text
  HasEntry-unique end q content text named h k = absurd h
  HasEntry-unique (entry name node entries) q content text named (inr h) (inr k) =
      HasEntry-unique entries q content text named.3 h k
  HasEntry-unique (entry name node entries) q content text named (inl (r, dot, is, at)) (inr k) =
      absurd (
        other_entry entries name r q text named.0 (IsAt-Starts node r content at) named.1 named.3 is
          k)
  HasEntry-unique (entry name node entries) q content text named (inr h) (inl (r, dot, is, at)) =
      absurd (
        other_entry entries name r q content named.0 (IsAt-Starts node r text at) named.1 named.3 is
          h)
  HasEntry-unique (entry name node entries) q content text named (inl (r, dot, is, at))
        (inl (s, dot', is', at')) =
      let same =
        (name_split name name r s named.0 named.0 (IsAt-Starts node r content at)
          (IsAt-Starts node s text at') (tail_eq (sym is ∙ is'))).1 in
      IsAt-unique node s content text named.2 (subst (λ x. IsAt node x content) same at) at'

  IsAt-unique :
      (node : Node) (rest content text : Bytes)
      → WellNamedNode node
      → IsAt node rest content
      → IsAt node rest text
      → content ≡ text
  IsAt-unique no_stat rest content text named h k = absurd h
  IsAt-unique (file f) rest content text named h k = sym (h.1) ∙ k.1
  IsAt-unique (dir d) rest content text named h k = Has-unique d rest content text named h k
