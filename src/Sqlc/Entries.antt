-- ===== src/Sqlc/Entries.antt =====
-- postgres/sqlc/entries.sql.go and the statements of postgres/queries/entries.sql.
use double_entry_bank_go.Base.{ℕ, List, map, ◌==◌, select}
use double_entry_bank_go.Money.{Decimals}
use double_entry_bank_go.Errors.{Result, ok, ◌>>=◌}
use double_entry_bank_go.World.{Uuid, Time, Db, Backend, Action, statement}
use double_entry_bank_go.Sqlc.Models.{Entry, CreateEntryParams, scan_entry}
use double_entry_bank_go.Sqlc.Tables.{insert_entry, sort_by, later, take, drop}

-- `int32` parameters that are never negative.
pub record ListEntriesByAccountParams : Type 0 where
  pub account_id : Uuid
  pub limit : ℕ
  pub offset : ℕ

-- `INSERT INTO entries … RETURNING …`
abbrev pub run_insert : Decimals → CreateEntryParams → Uuid → Time → Db → Result (Entry × Db)
run_insert d arg id now db = do p ← insert_entry d arg id now db; ok (scan_entry d p.0, p.1)

module _ (b : Backend) where
  unfoldable pub create_entry : CreateEntryParams → Action Entry
  create_entry arg = statement b λ n db. run_insert b.decimals arg (b.new_uuid n) (b.now n) db

  unfoldable pub list_entries_by_account : ListEntriesByAccountParams → Action (List Entry)
  list_entries_by_account arg = statement b λ n db. ok (
    map (scan_entry b.decimals) (
        take arg.limit (
          drop arg.offset (
            sort_by (λ r s. later r.created_at s.created_at)
              (select (λ e. e.account_id == arg.account_id) db.entries)))),
    db,
  )

  unfoldable pub list_entries_by_transaction : Uuid → Action (List Entry)
  list_entries_by_transaction id = statement b λ n db. ok (
    map (scan_entry b.decimals) (
        sort_by (λ r s. later s.created_at r.created_at)
          (select (λ e. e.transaction_id == id) db.entries)),
    db,
  )
