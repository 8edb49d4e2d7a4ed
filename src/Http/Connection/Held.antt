-- ===== src/Http/Connection/Held.antt =====
-- What is held after `http_accept`.
use nvhttpd.Base.{◌+◌, Bool, true, false, ◌&&◌, not, ◌≡◌, refl, arith}
use nvhttpd.Http.Connection.{
  Resources, Calls, count_of, http_client_close, finish_accept, http_accept,
}

-- The same structures, sockets and sessions.
pub record SameHeld (r s : Resources) : Type 0 where
  pub clients : r.clients ≡ s.clients
  pub sockets : r.sockets ≡ s.sockets
  pub sessions : r.sessions ≡ s.sessions

-- The reload of the cache was asked for and fails.
abbrev pub fails_reload : Calls → Resources → Bool
fails_reload calls r = calls.has_memory && r.reload && not calls.loads

finish_accept-SameHeld :
    (r : Resources) (memory accepts loads ctx ssl reload before : Bool)
    → let c : Calls = record {
      has_memory = memory;
      accepts = accepts;
      loads = loads;
      ssl_ctx = ctx;
      ssl_accepts = ssl;
    } in
      let held : Resources = record r {
        reload = reload;
        clients = r.clients + 1;
        sockets = r.sockets + count_of accepts;
      } in
      SameHeld
        (http_client_close (finish_accept c held).0 (finish_accept c held).1)
        (record r { reload = before; clients = r.clients + 0; sockets = r.sockets + 0 })
unfolding http_client_close finish_accept
finish_accept-SameHeld r m false l c s reload before = record {
  clients = omega arith;
  sockets = omega arith;
  sessions = refl;
}
finish_accept-SameHeld r m true l false s reload before = record {
  clients = omega arith;
  sockets = omega arith;
  sessions = omega arith;
}
finish_accept-SameHeld r m true l true false reload before = record {
  clients = omega arith;
  sockets = omega arith;
  sessions = refl;
}
finish_accept-SameHeld r m true l true true reload before = record {
  clients = omega arith;
  sockets = omega arith;
  sessions = omega arith;
}

-- A client that http_accept returns, or NULL, is closed by http_client_close without a rest: the same
-- structures, sockets and sessions are held as before. Where the reload of the cache fails, a
-- structure is lost, and the socket if one was accepted.
pub http_client_close-http_accept :
    (calls : Calls) (r : Resources)
    → SameHeld (http_client_close (http_accept calls r).0 (http_accept calls r).1) (record r {
      clients = r.clients + count_of (fails_reload calls r);
      sockets = r.sockets + count_of (fails_reload calls r && calls.accepts);
    })
unfolding http_client_close finish_accept http_accept
http_client_close-http_accept calls r =
    go calls.has_memory calls.accepts calls.loads calls.ssl_ctx calls.ssl_accepts r.reload
  where
    go :
        (memory accepts loads ctx ssl reload : Bool)
        → let c : Calls = record {
          has_memory = memory;
          accepts = accepts;
          loads = loads;
          ssl_ctx = ctx;
          ssl_accepts = ssl;
        } in
          let q : Resources = record r { reload = reload } in
          SameHeld (http_client_close (http_accept c q).0 (http_accept c q).1) (record q {
            clients = r.clients + count_of (fails_reload c q);
            sockets = r.sockets + count_of (fails_reload c q && c.accepts);
          })
    go false a l x y z = record {
      clients = omega arith;
      sockets = omega arith;
      sessions = omega arith;
    }
    go true a true x y true = finish_accept-SameHeld r true a true x y false true
    go true a true x y false = finish_accept-SameHeld r true a true x y false false
    go true true false x y true = record {
      clients = omega arith;
      sockets = omega arith;
      sessions = omega arith;
    }
    go true false false x y true = record {
      clients = omega arith;
      sockets = omega arith;
      sessions = omega arith;
    }
    go true a false x y false = finish_accept-SameHeld r true a false x y false false
