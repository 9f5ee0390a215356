-- ===== src/Http/Memory.antt =====
-- The handlers on the in-memory store: what comes from outside in one request, and the sequences of
-- requests that a control plane serves.
use enclout.Prelude.{String, List, [], ◌∷◌}
use enclout.Requests.Model.{Time}
use enclout.Requests.Store
use enclout.Requests.Store.{Draw}
use enclout.Requests.Install
use enclout.Http.{HttpRequest, Response, RequestStore, Server}
use enclout.Http.Routes.{serve}

-- One request with the readings of the clocks, and what `rand.Read` gives.
pub record Event : Type 0 where
  pub request : HttpRequest
  pub now : Time
  pub clock : String → Time
  pub first_draw : Draw
  pub second_draw : Draw
  -- the clock of the handler of bundles
  pub handler_now : Time

-- The in-memory store as a `RequestStore`.
abbrev pub memory : (String → String) → Event → RequestStore Store.Store
memory sha256_hex e = record {
  create = Store.create e.now e.first_draw e.second_draw;
  get = Store.get e.now;
  set_local_decision = Store.set_local_decision e.now;
  set_result = Store.set_result e.now;
  list_pending_for_device = Store.list_pending_for_device e.clock;
  create_install_session =
      Install.create_install_session sha256_hex e.now e.first_draw e.second_draw;
  get_install_session = Install.get_install_session e.now;
  set_install_approval = Install.set_install_approval e.now;
  set_install_identity = Install.set_install_identity e.now;
  set_install_result = Install.set_install_result e.now;
  redeem_install_token = Install.redeem_install_token sha256_hex e.now;
}

unfoldable pub serve_event : Server → Event → Store.Store → Response × Store.Store
serve_event srv e = serve srv (memory srv.sha256_hex e) e.request e.handler_now

-- The store after some requests.
unfoldable pub serve_all : Server → List Event → Store.Store → Store.Store
unfolding serve_event
serve_all srv [] s = s
serve_all srv (e ∷ es) s = serve_all srv es (serve_event srv e s).1
