-- ===== src/Sqlc/Users.antt =====
-- postgres/sqlc/users.sql.go and the statements of postgres/queries/users.sql.
use double_entry_bank_go.Base.{not, some, String, ◌∷◌, str_eq, ◌==◌, ◌||◌, find, any}
use double_entry_bank_go.Errors.{Result, ok, ◌>>=◌, ◌>>◌, require}
use double_entry_bank_go.World.{Uuid, Time, UserRow, Db, Backend, Action, statement}
use double_entry_bank_go.Sqlc.Models.{User, CreateUserParams, CreateUserRow}
use double_entry_bank_go.Sqlc.Tables.{unique_violation, one}

-- `INSERT INTO users`: both the key and the email are unique.
unfoldable pub insert_user : CreateUserParams → Uuid → Time → Db → Result (UserRow × Db)
insert_user arg id now db = do
  require (not (any (λ u. u.id == id || str_eq u.email arg.email) db.users)) unique_violation
  let row : UserRow = record {
    id = id;
    email = arg.email;
    hashed_password = arg.hashed_password;
    created_at = some now;
  }
  ok (row, record db { users = row ∷ db.users })

-- `INSERT INTO users … RETURNING id, email, created_at`
abbrev pub run_register : CreateUserParams → Uuid → Time → Db → Result (CreateUserRow × Db)
run_register arg id now db = do
  p ← insert_user arg id now db
  ok (record { id = p.0.id; email = p.0.email; created_at = p.0.created_at }, p.1)

module _ (b : Backend) where
  unfoldable pub create_user : CreateUserParams → Action CreateUserRow
  create_user arg = statement b λ n db. run_register arg (b.new_uuid n) (b.now n) db

  unfoldable pub get_user_by_email : String → Action User
  get_user_by_email email = statement b λ n db. do
    row ← one (find (λ u. str_eq u.email email) db.users)
    ok (
      record {
        id = row.id;
        email = row.email;
        hashed_password = row.hashed_password;
        created_at = row.created_at;
      },
      db,
    )
