-- ===== src/Lib.antt =====
-- A verification library for nvhttpd, a small HTTP server in C.
--
-- The program. main.c reads the options (option.c) and the configuration (config.c), loads the files
-- of the site into a hash table (cache.c), accepts connections (http.c) and starts a thread for each;
-- the thread parses the request (request.c), looks its URI up in the cache and answers (response.c),
-- and writes to the log through a queue (log.c).
--
-- What is modelled, and where.
--   Base         names of the libraries, Boolean tests, lists, chars (`char` is signed and has 8
--                bits; isspace, isdigit and isxdigit in the C locale; strtol on digits).
--   Http         http.c: `http_read`. The results of recv and of SSL_read that are still to come are
--                two lists on the client; an empty list is the end of the connection. A failed call
--                returns -1, which http_read's size_t turns into the largest size. Connection is
--                `http_accept` and `http_client_close`, by what they hold and release; Listening is
--                `http_init` and `http_close`, with the address and the port that are listened on.
--   Request      request.c and request.h. State is the request record, the outcome of a function and
--                the monad that passes the request on; Io the buffered reader (`io_next`, `io_peek`,
--                `skip_ws`); Text the growing buffers; Method, Uri, Version and Field the functions
--                `get_method`, `get_uri` and `get_uri_fragment`, `get_http_ver`, `parse_var`,
--                `parse_val`, `get_query` and `get_headers`; Parse is `request_get` and
--                `request_parse`.
--   Cache        cache.c: `hash`, `determine_mime`, the table that `cache_load` sizes and fills by linear
--                probing, `cache_find`. The files that `load_dir` finds are a list of paths and bytes.
--                Site is `load_dir` and `init_element` on a tree of directories, and `cache_load` with
--                the exchange of the tables.
--   Config       config.c: the buffered reader (Io), the growing blocks (Block), `parse_key`,
--                `parse_assignment_operator` and `parse_value` (Value), `parse_section` and
--                `parse_comment` (Section), `read_file` and `config_parse` (Parse). The handler is a
--                parameter, a function on what it changes; State is the monad.
--   Log          log.c: `enqueue` and `dequeue` on the linked list of outputs, each in its critical
--                section; an output is its address. Level and Logger are the rest of log.c and the
--                macros of log.h, with the threads that log and the writer as a step relation.
--   Options      option.c: `match_option` and `option_parse_args`, with `validate` as a parameter.
--                Help is `option_show_help`.
--   Server       main.c and response.c. Threads is the loop of `handle_connections` and the ends of the
--                threads, as a step relation; Settings the static variables and `config_handler`;
--                Configure is `configure`, on what `stat`, `open` and `read` give; Response is
--                `http_response_header`; Answer is `handle_client_request` with the `http_write` of
--                http.c, over the request parser and the cache. Process and
--                Start are `main`, over all of these.
--
-- Each function is translated with all of its returns. An outcome is a value, an error code of
-- `request_parse_error_e`, undefined behaviour (`crash`: a read or a write outside a block, a NULL
-- pointer) or, in the model only, the end of the fuel. The results of malloc, realloc and strdup are
-- a list of Booleans on the request; where it is used up, memory is there. The other files do the same
-- with the codes of `config_error_t` and with lists of their own.
--
-- The proofs. Request.Io.Stream gives the reader its meaning on the stream of the bytes to come.
-- Request.Chunks.Runs is a judgement on the parts of the parser (two streams, the fuel, the fields
-- that are kept) with a rule for each construct; the modules beside it apply the rules to every part.
-- Cache.Probe and Cache.Search follow the way of a search through the table, Cache.Round shows that it
-- ends, Cache.Serves ties the table to a map, Cache.Misses shows that a search ends also in a full
-- table. Server.Response.Reads has a reader for the header. Server.Configure.Joined follows the loop
-- of memcpy. Log.Fifo ties the links of the queue to a list. Config.Io.Means and Config.Ends do for
-- config.c what Request.Io.Stream and Request.Chunks do for request.c; Config.RoundTrip has a
-- printer for its files. Server.Threads.Counts and Drains are inductions on the steps.
-- Log.Logger.Ordered states what holds between the queue, the writer and the file, InOrder that
-- every step keeps it, and Drains that the writer comes to its end. Cache.Site.Listed and Walk
-- compare load_dir with a plain walk through a tree of directories; Names shows that a path leads to
-- one file, and Found joins this to the hash table. Server.Start.Steps and Ready say what each step
-- of main does where it goes on, and where it does not; Serving and Released compose them.
--
-- Bounds and fuel. A loop over the input takes the fuel that request_parse is given, a loop that fills
-- a buffer takes `text_rounds` = 1026 rounds, more than the 1024 chars that its buffer can grow to.
-- The loops of config.c take the fuel that config_parse is given, and its theorems show that two more
-- than the bytes of the file are enough; the write loop needs one round more than the answer has bytes.
-- The probing loops of cache.c take a fuel of their own, one round for each slot that they look at.
--
-- Not modelled. Sockets, TLS, signals, the file system, threads and the allocation of memory are calls
-- of other libraries: what they return is a parameter. A text that is logged is a parameter too, and a
-- function other than those of log.c is modelled without what it logs. The read-write lock of the cache,
-- `free_cache`, and the parts of the modelled files that only print or free are left out.
-- In `dequeue` a wait of the writer on its condition is a step after which it looks again, so that a
-- signal that is missing would not show; SSL_new is taken to give a session.
-- Theorems on the readers suppose that recv and read do not fail (`NoFailure`), an assumption on the
-- network and the file system.
pub mod Base
pub mod Cache
pub mod Config
pub mod Http
pub mod Log
pub mod Options
pub mod Request
pub mod Server
