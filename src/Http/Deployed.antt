-- ===== src/Http/Deployed.antt =====
-- The server on a database that the migrations have built.
use double_entry_bank_go.Base.{◌≡◌, ℕ, String, List}
use double_entry_bank_go.Errors.{ok}
use double_entry_bank_go.Money.{DecimalLaws}
use double_entry_bank_go.World.{Uuid, Time, Db}
use double_entry_bank_go.Runes.{Casing}
use double_entry_bank_go.Cors.{CorsHandler}
use double_entry_bank_go.Sqlc.Migrations.{absent, present, migrate_up}
use double_entry_bank_go.Service.Invariant.{IsLedger}
use double_entry_bank_go.Service.Migrated.{first_tables, migrate_up-absent, first_tables-IsLedger}
use double_entry_bank_go.Api.Handling.{Server}
use double_entry_bank_go.Http.{Gin, Arrival, answer_all}
use double_entry_bank_go.Http.Kept.{answer_all-IsLedger}

-- The migrations succeed on a database without tables, and from the tables that they leave, whatever
-- requests arrive on whatever paths, with whatever tokens, and whichever calls of the database
-- fail, the tables satisfy the invariant of the ledger.
pub deployed-IsLedger :
    (s : Server) (casing : Casing) (cors : CorsHandler) (gin : Gin) (uptime : ℕ → String)
    → DecimalLaws s.backend.decimals
    → (id : Uuid) (now : Time) (arrivals : List Arrival) (calls slept : ℕ)
    → (db : Db) × (migrate_up id now absent ≡ ok (present db))
      × IsLedger
          (answer_all s casing cors gin uptime arrivals
            (record { db = db; calls = calls; slept = slept })).db
deployed-IsLedger s casing cors gin uptime laws id now arrivals calls slept = (
  first_tables id now,
  migrate_up-absent id now,
  answer_all-IsLedger s casing cors gin uptime laws arrivals
      (record { db = first_tables id now; calls = calls; slept = slept })
      (first_tables-IsLedger id now),
)
