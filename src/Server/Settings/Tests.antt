-- ===== src/Server/Settings/Tests.antt =====
-- A second header in an array that is full.
use nvhttpd.Base.{[], ◌∷◌, some, ◌++◌, ◌≡◌, ◌≢◌, refl, ap, arith, length}
use nvhttpd.Base.Chars.{codes}
use nvhttpd.Config.State.{done, crash}
use nvhttpd.Server.Settings.{Settings, initial, lines_of, header_line, on_headers}
use nvhttpd.Server.Settings.Headers.{AreHeld, lines_of-some, on_headers-AreHeld}

abbrev one_line : Settings
one_line = record (initial [] []) {
  response_headers_array = some (codes "A: 1\r\n" ∷ []);
  response_headers_size = 1;
  response_headers_total = 6;
}

one_line-AreHeld : AreHeld one_line
one_line-AreHeld = record {
  fit = λ lines e. omega (arith, ap length (lines_of-some one_line lines e));
  room = λ lines e. omega arith;
  total = refl;
}

on_headers-AreHeld_example :
    ((on_headers (codes "B") (codes "2") one_line).0 ≢ crash)
    × ((on_headers (codes "B") (codes "2") one_line).0 ≡ done tt
        → AreHeld (on_headers (codes "B") (codes "2") one_line).1
          × (lines_of (on_headers (codes "B") (codes "2") one_line).1
              ≡ lines_of one_line ++ header_line (codes "B") (codes "2") ∷ []))
on_headers-AreHeld_example =
    on_headers-AreHeld (codes "B") (codes "2") one_line (omega arith) (omega arith) one_line-AreHeld
