-- ===== src/Cache/Site/Reload.antt =====
-- What `cache_load` leaves where it succeeds, and where it fails.
use mathlib.Core.Path.{subst}
use nvhttpd.Base.{
  append-nil, ℕ, ◌≤◌, Bool, true, false, List, [], Option, some, ◌≡◌, refl, sym, ap, ◌∙◌, ltb, ◌==◌,
  if◌then◌else◌, length,
}
use nvhttpd.Base.Chars.{Bytes}
use nvhttpd.Config.State.{next_allocation}
use nvhttpd.Cache.{
  CacheElement, Cache, max_cache_elements, Result, done, error, on_done, new_element, new_elements,
  build, cache_load, cache_find,
}
use nvhttpd.Cache.Loads.{cache_load-done, length-new_elements}
use nvhttpd.Cache.Site.{
  Directory, Loading, got_memory, load_dir, fill_table, load_site, is_served, exchange,
  reload_cache,
}
use nvhttpd.Cache.Site.Listed.{Lists, load_dir-Lists, files_of}
use nvhttpd.Cache.Site.Names.{WellNamed}
use nvhttpd.Cache.Site.Walk.{Has}
use nvhttpd.Cache.Site.Found.{cache_find-load_site}
use nvhttpd.Cache.Site.Readable.{HasMemory, got, is_readable, load_dir-Loads, load_dir-error}

-- The tests of `cache_load` behind `load_dir`.
abbrev checked : ℕ → Bool → Result Cache → Result Cache
checked count memory table =
    if ltb max_cache_elements count
    then error
    else if count == 0
    then error
    else if memory
    then table
    else error

module _ (base_path : Bytes) where
  -- Where a cache is served and malloc does not fail: a site in which a directory cannot be opened, or a
  -- file cannot be read, and no name on the way begins with a dot, is refused, and the cache stays.
  pub reload_cache_keeps :
      (fuel : ℕ) (site : Directory) (old : Cache)
      → is_readable site ≡ false
      → reload_cache fuel (some base_path) site [] (some old) ≡ done (1, some old)
  unfolding reload_cache load_site next_allocation on_done
  reload_cache_keeps fuel site old r =
      rw
        (load_dir-error base_path base_path site
          (record { file_list = []; count = 0; allocations = [] }) r refl)
        refl

  fill_table-cache_load :
      (fuel : ℕ) (st : Loading) (files : List (Bytes × Bytes))
      → Lists true base_path st files
      → HasMemory st
      → fill_table fuel st ≡ cache_load true fuel base_path files
  unfolding fill_table cache_load
  fill_table-cache_load fuel st files l m =
      let count = l.1 ∙ sym (length-new_elements base_path files) in
      ap (λ (n : ℕ). checked n (got_memory st) (build fuel st.file_list)) count
      ∙ ap
          (λ (b : Bool).
            checked (length (new_elements base_path files)) b (build fuel st.file_list))
          (got st m)
      ∙ ap
          (λ (es : List CacheElement).
            checked (length (new_elements base_path files)) true (build fuel es))
          (l.0)

  -- A site of 1 to 32768 files, in which every directory can be opened and every file read, no name
  -- holds a slash and no directory lists a name twice, is loaded where malloc does not fail, whatever
  -- was served before; and cache_find, given memory for the copy, then finds every file of the site
  -- that has no name on its path that begins with a dot, with its content. 65536 rounds for each search
  -- are enough.
  pub reload_cache_serves :
      (fuel : ℕ) (site : Directory) (old : Option Cache)
      → is_readable site ≡ true
      → WellNamed site
      → 1 ≤ length (files_of [] site [])
      → length (files_of [] site []) ≤ 32768
      → 65536 ≤ fuel
      → (cache : Cache) × (reload_cache fuel (some base_path) site [] old ≡ done (0, some cache))
        × ((path content : Bytes)
            → Has site path content
            → cache_find true fuel (some cache) path
              ≡ done (some (new_element base_path (path, content))))
  unfolding reload_cache load_site next_allocation on_done new_elements
  reload_cache_serves fuel site old r named least most enough =
      let start : Loading = record { file_list = []; count = 0; allocations = [] } in
      let served = is_served old in
      let (st, loaded, m) = load_dir-Loads served base_path base_path site start r refl in
      let listed =
        load_dir-Lists served base_path [] site start st []
          (subst (λ p. load_dir served base_path p site start ≡ done st)
            (sym (append-nil base_path)) loaded)
          (refl, refl) in
      let (cache, made) = cache_load-done fuel base_path (files_of [] site []) least most enough in
      let loads : load_site served fuel (some base_path) site [] ≡ done cache =
        rw loaded (fill_table-cache_load fuel st (files_of [] site []) listed m ∙ made) in
      (
        cache,
        ap (exchange old) loads,
        λ path content h.
            (cache_find-load_site served fuel base_path site [] cache named loads path content).1 h,
      )
