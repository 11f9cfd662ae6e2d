-- ===== src/Api/Requests.antt =====
-- Every request leaves the invariant of the ledger true.
use double_entry_bank_go.Base.{List, [], ◌∷◌}
use double_entry_bank_go.Money.{DecimalLaws}
use double_entry_bank_go.World.{World}
use double_entry_bank_go.Service.Invariant.{IsLedger}
use double_entry_bank_go.Api.Handling.{Server}
use double_entry_bank_go.Api.Router.{Incoming, serve}
use double_entry_bank_go.Api.Reading.{serve-Keeps}
use double_entry_bank_go.Api.Preserved.{handler-Keeps}

module _ (s : Server) (laws : DecimalLaws s.backend.decimals) where
  -- The requests one after another.
  pub serve_all : List Incoming → World → World
  serve_all [] w = w
  serve_all (i ∷ is) w = serve_all is (serve s i w).1

  -- From tables that satisfy the invariant of the ledger, whatever requests the server is sent, on
  -- any route, with any token and any body, and whichever calls of the database fail, the tables
  -- satisfy the invariant after them.
  pub serve_all-IsLedger :
      (is : List Incoming) (w : World) → IsLedger w.db → IsLedger (serve_all is w).db
  unfolding serve_all
  serve_all-IsLedger [] w l = l
  serve_all-IsLedger (i ∷ is) w l =
      serve_all-IsLedger is (serve s i w).1
        (serve-Keeps s IsLedger i (handler-Keeps s laws i.endpoint) w l)
