-- ===== src/Cache/Site/Tests.antt =====
-- A site with a directory in it, a file that is not served, and one that cannot be read.
use nvhttpd.Base.{true, false, [], none, some, ◌≡◌, ◌↔◌, refl, arith, length}
use nvhttpd.Base.Chars.{Bytes, codes}
use nvhttpd.Config.State.{next_allocation}
use nvhttpd.Cache.{
  Cache, Result, done, on_done, same_text, hash_step, hash_from, hash, extension, same_letters,
  mime_of, determine_mime, new_element, new_elements, smear, cache_mask, cache_capacity, next_index,
  set_slot, probe, fill, insert, insert_all, build, cache_find,
}
use nvhttpd.Cache.Site.{
  Node, no_stat, file, dir, Directory, unreadable, readable, end, entry, init_element, add_element,
  load_file, load_dir, fill_table, load_site, reload_cache,
}
use nvhttpd.Cache.Site.Listed.{files_of}
use nvhttpd.Cache.Site.Walk.{Has}
use nvhttpd.Cache.Site.Names.{SlashFree, Unlisted, WellNamed}
use nvhttpd.Cache.Site.Found.{cache_find-load_site}
use nvhttpd.Cache.Site.Readable.{is_readable}
use nvhttpd.Cache.Site.Reload.{reload_cache_keeps, reload_cache_serves}

program : Unit {0}
unfolding next_allocation on_done same_text hash_step hash_from hash extension same_letters mime_of
    determine_mime new_element new_elements smear cache_mask cache_capacity next_index set_slot
    probe fill insert insert_all build init_element add_element load_file load_dir fill_table
    load_site reload_cache files_of Has SlashFree Unlisted WellNamed is_readable
program = tt

abbrev text_file : Bytes → Node
text_file text =
    file (record {
      fopen = true;
      seek_end = true;
      seek_set = true;
      fread = length text;
      content = text;
    })

abbrev site : Directory
site = readable (
    entry (codes "a.css") (text_file (codes "p {}")) (
      entry (codes ".git") no_stat (
        entry (codes "docs") (dir (readable (entry (codes "b.md") (text_file (codes "# b")) end)))
          end)))

abbrev base_path : Bytes
base_path = codes "/srv"

unfoldable loaded_or : Cache → Result Cache → Cache
loaded_or other (done cache) = cache
loaded_or other _ = other

abbrev table : Cache
table =
    loaded_or (record { capacity = 0; mask = 0; count = 0; slots = [] })
      (load_site false 5 (some base_path) site [])

site-loaded : load_site false 5 (some base_path) site [] ≡ done table
unfolding program loaded_or
site-loaded = refl

site-WellNamed : WellNamed site
unfolding program
site-WellNamed = ground arith

cache_find-load_site_example :
    (cache_find true 5 (some table) (codes "/docs/b.md")
      ≡ done (some (new_element base_path (codes "/docs/b.md", codes "# b"))))
    ↔ Has site (codes "/docs/b.md") (codes "# b")
cache_find-load_site_example =
    cache_find-load_site false 5 base_path site [] table site-WellNamed site-loaded
      (codes "/docs/b.md") (codes "# b")

two_files : length (files_of [] site []) ≡ 2
unfolding program
two_files = refl

site-readable : is_readable site ≡ true
unfolding program
site-readable = refl

reload_cache_serves_example :
    (cache : Cache) × (reload_cache 65536 (some base_path) site [] none ≡ done (0, some cache))
    × ((path content : Bytes)
        → Has site path content
        → cache_find true 65536 (some cache) path
          ≡ done (some (new_element base_path (path, content))))
reload_cache_serves_example =
    reload_cache_serves base_path 65536 site none site-readable site-WellNamed
      (omega (arith, two_files)) (omega (arith, two_files)) (omega arith)

abbrev locked : Directory
locked =
    readable
      (entry (codes "a.css") (text_file (codes "p {}")) (entry (codes "tmp") (dir unreadable) end))

locked-unreadable : is_readable locked ≡ false
unfolding program
locked-unreadable = refl

reload_cache_keeps_example :
    reload_cache 5 (some base_path) locked [] (some table) ≡ done (1, some table)
reload_cache_keeps_example = reload_cache_keeps base_path 5 locked table locked-unreadable
