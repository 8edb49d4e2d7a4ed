-- ===== src/Cache/Tests.antt =====
-- cache.c on a site of three files.
use nvhttpd.Base.{ℕ, ◌*◌, ◌+◌, ◌^◌, ◌≤◌, ◌<◌, true, List, [], ◌∷◌, some, ◌≡◌, refl, ◌⊎◌, ◌↔◌, arith}
use nvhttpd.Base.Chars.{Bytes, codes}
use nvhttpd.Cache.{
  CacheElement, Cache, Result, done, on_done, same_text, hash_step, hash_from, hash, extension,
  same_letters, mime_of, determine_mime, new_element, new_elements, smear, cache_mask,
  cache_capacity, next_index, set_slot, probe, fill, insert, insert_all, find_from, find,
  copy_element, cache_find, build, cache_load,
}
use nvhttpd.Cache.Serves.{lookup}
use nvhttpd.Cache.Lookup.{cache_find-finds_loaded}
use nvhttpd.Cache.Capacity.{cache_capacity-covers}
use nvhttpd.Cache.Loads.{cache_load-done}

program : Unit {0}
unfolding on_done same_text hash_step hash_from hash extension same_letters mime_of determine_mime
    new_element new_elements smear cache_mask cache_capacity next_index set_slot probe fill insert
    insert_all find_from find copy_element cache_find build cache_load lookup
program = tt

abbrev site : List (Bytes × Bytes)
site =
    (codes "/index.html", codes "<p>")
    ∷ (codes "/style.css", codes "p {}")
    ∷ (codes "/a/index.html", codes "<a>")
    ∷ []

abbrev base_path : Bytes
base_path = codes "/srv/html"

unfoldable loaded_or : Cache → Result Cache → Cache
loaded_or other (done cache) = cache
loaded_or other _ = other

abbrev table : Cache
table =
    loaded_or (record { capacity = 0; mask = 0; count = 0; slots = [] })
      (cache_load true 5 base_path site)

site-loaded : cache_load true 5 base_path site ≡ done table
unfolding program loaded_or
site-loaded = refl

table_capacity : table.capacity ≡ 4
unfolding program loaded_or
table_capacity = refl

abbrev style : CacheElement
style = new_element base_path (codes "/style.css", codes "p {}")

style_mime : style.mime ≡ codes "text/css"
unfolding program
style_mime = refl

cache_find-finds_loaded_example :
    (cache_find true 5 (some table) (codes "/style.css") ≡ done (some style))
    ↔ (lookup (new_elements base_path site) (codes "/style.css") ≡ some style)
cache_find-finds_loaded_example =
    cache_find-finds_loaded 5 base_path site table site-loaded (codes "/style.css") style

cache_capacity-covers_example :
    ((5 ≤ 32768)
      × (5 ≤ cache_capacity 5)
      × (cache_capacity 5 < 2 * 5)
      × (cache_mask 5 + 1 ≡ cache_capacity 5)
      × ((j : ℕ) × (j < 16) × (cache_capacity 5 ≡ 2 ^ j)))
    ⊎ ((32768 < 5) × (cache_capacity 5 ≡ 0))
cache_capacity-covers_example = cache_capacity-covers 5 (omega arith) (omega arith)

cache_load-done_example : (cache : Cache) × (cache_load true 65536 base_path site ≡ done cache)
cache_load-done_example =
    cache_load-done 65536 base_path site (omega arith) (omega arith) (omega arith)
