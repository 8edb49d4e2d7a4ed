-- ===== src/Cache/Site.antt =====
-- cache.c: the directories of the site, and how `cache_load` reads them.
pub mod Listed
pub mod Walk
pub mod Names
pub mod Found
pub mod Readable
pub mod Reload
mod Tests
use nvhttpd.Base.{
  ℕ, suc, ◌+◌, Bool, true, false, not, ◌&&◌, List, [], ◌∷◌, Option, none, some, ◌++◌, ltb, ◌==◌,
  if◌then◌else◌, length, drop,
}
use nvhttpd.Base.Chars.{Bytes}
use nvhttpd.Config.State.{next_allocation}
use nvhttpd.Cache.{
  CacheElement, Cache, max_cache_elements, Result, done, error, crash, out_of_fuel, on_done, hash,
  determine_mime, build,
}

-- What the calls on a file give: whether fopen and the two calls of fseek succeed, and what fread
-- returns. ftell gives the length of the content.
pub record SiteFile : Type 0 where
  pub fopen : Bool
  pub seek_end : Bool
  pub seek_set : Bool
  pub fread : ℕ
  pub content : Bytes

-- What stat tells of an entry, what opendir gives, and the entries in the order of readdir. The
-- tree is finite: a directory does not contain itself, through a link.
mutual
  pub data Node : Type 0 where
    no_stat : Node
    file : SiteFile → Node
    dir : Directory → Node

  pub data Directory : Type 0 where
    unreadable : Directory
    readable : Entries → Directory

  pub data Entries : Type 0 where
    end : Entries
    entry : Bytes → Node → Entries → Entries

-- What `load_dir` changes: the list `*list`, `cache->count`, and the results of malloc to come.
pub record Loading : Type 0 where
  pub file_list : List CacheElement
  pub count : ℕ
  pub allocations : List Bool

-- The next result of malloc; behind the list they succeed.
abbrev pub got_memory : Loading → Bool
got_memory st = (next_allocation st.allocations).0

abbrev pub behind_malloc : Loading → Loading
behind_malloc st = record st { allocations = (next_allocation st.allocations).1 }

-- `entry->d_name[0] == '.'`
abbrev pub is_dot : Bytes → Bool
is_dot [] = false
is_dot (c ∷ cs) = c == b'.'

-- The path of an entry: strcpy, strcat and strcat.
abbrev pub full_path : Bytes → Bytes → Bytes
full_path path name = path ++ (b'/' ∷ name)

-- An error in `init_element` is logged through the static variable `cache`, which is NULL until the
-- first load has succeeded.
abbrev pub element_error : {A : Type 0} → Bool → Result A
element_error served = if served then error else crash

abbrev pub is_read : SiteFile → Bool
is_read f = f.seek_set && (f.fread == length f.content)

-- The element before its path is replaced; its hash is not set yet.
abbrev pub read_element : Bytes → SiteFile → CacheElement
read_element path f = record {
  hash = 0;
  len = length f.content;
  path = path;
  mime = determine_mime path;
  content = f.content;
}

-- `served` is whether the static variable `cache` is set.
unfoldable pub init_element : Bool → Bytes → SiteFile → Loading → Result (CacheElement × Loading)
init_element served path f st =
    if f.fopen && f.seek_end
    then if got_memory st && is_read f
      then done (read_element path f, behind_malloc st)
      else element_error served
    else element_error served

-- `strdup(full_path + strlen(base_path))`, the hash, and the list. A NULL path is hashed.
unfoldable pub add_element : Bytes → CacheElement × Loading → Result Loading
add_element base_path (e, st) =
    let path = drop (length base_path) e.path in
    if got_memory st
    then done (record {
      file_list = record e { path = path; hash = hash path } ∷ st.file_list;
      count = st.count + 1;
      allocations = (next_allocation st.allocations).1;
    })
    else crash

unfoldable pub load_file : Bool → Bytes → Bytes → SiteFile → Loading → Result Loading
load_file served base_path path f st =
    if got_memory st
    then on_done (init_element served path f (behind_malloc st)) (add_element base_path)
    else error

-- One round of the loop of `load_dir` up to the test of malloc, and what is done with the entry.
abbrev pub load_entry : (Loading → Result Loading) → Bytes → Loading → Result Loading
load_entry load name st =
    if is_dot name then done st else if got_memory st then load (behind_malloc st) else error

module _ (served : Bool) (base_path : Bytes) where
  unfoldable mutual
    pub load_dir : Bytes → Directory → Loading → Result Loading
    load_dir path unreadable st = error
    load_dir path (readable entries) st = load_entries path entries st

    pub load_entries : Bytes → Entries → Loading → Result Loading
    load_entries path end st = done st
    load_entries path (entry name node entries) st =
        on_done (load_entry (load_node (full_path path name) node) name st)
          (λ st'. load_entries path entries st')

    pub load_node : Bytes → Node → Loading → Result Loading
    load_node path no_stat st = error
    load_node path (file f) st = load_file served base_path path f st
    load_node path (dir d) st = load_dir path d st

-- `cache_load` behind `load_dir`.
unfoldable pub fill_table : ℕ → Loading → Result Cache
fill_table fuel st =
    if ltb max_cache_elements st.count
    then error
    else if st.count == 0
    then error
    else if got_memory st
    then build fuel st.file_list
    else error

-- `cache_load` up to the exchange of the tables. `html_path` may be NULL, which `load_dir` refuses.
unfoldable pub load_site : Bool → ℕ → Option Bytes → Directory → List Bool → Result Cache
load_site served fuel none site allocations = error
load_site served fuel (some path) site allocations =
    let st : Loading = record { file_list = []; count = 0; allocations = allocations } in
    if got_memory st
    then on_done (load_dir served path path site (behind_malloc st)) (fill_table fuel)
    else error

abbrev pub is_served : Option Cache → Bool
is_served none = false
is_served (some cache) = true

-- The result of `cache_load`, and the static variable `cache` behind it.
abbrev pub exchange : Option Cache → Result Cache → Result (ℕ × Option Cache)
exchange old (done new) = done (0, some new)
exchange old error = done (1, old)
exchange old crash = crash
exchange old out_of_fuel = out_of_fuel

unfoldable pub reload_cache :
    ℕ → Option Bytes → Directory → List Bool → Option Cache → Result (ℕ × Option Cache)
reload_cache fuel path site allocations old =
    exchange old (load_site (is_served old) fuel path site allocations)
