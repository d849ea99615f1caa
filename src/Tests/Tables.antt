-- ===== src/Tests/Tables.antt =====
-- Calls on the repositories of db/repository.go, on a table with one column.
use blueprint.Prelude.{ℕ, ◌≤◌, pos, refl, some, List, [], ◌∷◌, codes, keep, bytes_eq}
use blueprint.Db.Repository
use blueprint.Db.Functions
use blueprint.Db.Interface.{Transaction}
use blueprint.Db.Open as Open
use blueprint.Db.Instances.{transaction}
use blueprint.Db.Table.{Answers, inserting, deleting_by_key, updating_by_key}
use blueprint.Db.Calls.{Call, writing, counting, looking_for}
use blueprint.Db.Counted.{count-delete_where}
use blueprint.Tests.Cells.{
  Cell, number, goqu, connection, users, users_table, errors, users-IsSelecting, users-IsWriting,
  Store, conn_commit, conn_rollback,
}

-- Insert 7, look for it, set the row 6 to 8, delete the row 5, and count.
abbrev calls : List (Call Cell)
calls =
    writing (inserting (number 7 ∷ []))
    ∷ looking_for (codes "id") (number 7)
    ∷ writing (updating_by_key (some (number 8)) (codes "id") (number 6))
    ∷ writing (deleting_by_key (codes "id") (number 5))
    ∷ counting []
    ∷ []

-- Of the rows 5, 6 and 5, two have the id 5.
count-delete_where_example :
    (2 ≤ 3)
    × Answers (pos 1) (6 ∷ [], [], []) (Repository.count goqu connection users (6 ∷ [], [], []))
    × Answers
        (pos 0)
        (6 ∷ [], [], [])
        (Repository.count_where goqu connection users
          ((codes "id", number 5) ∷ [])
          (6 ∷ [], [], []))
unfolding Repository.count Repository.count_where Repository.delete_where Functions.count
    Functions.where_all Functions.delete_where Functions.delete_where_all Functions.del keep
    bytes_eq
count-delete_where_example =
    count-delete_where goqu connection users users_table errors users-IsSelecting users-IsWriting
      ((codes "id", number 5) ∷ []) 3 2 (5 ∷ 6 ∷ 5 ∷ [], [], []) (6 ∷ [], [], []) refl refl refl

-- The calls in a transaction on the committed rows 5 and 6.
abbrev opened_tx : Open.Tx ℕ
opened_tx = record { conn = 1; table_name = users; dialect = 0 }

abbrev tx : Transaction goqu Store
tx = transaction (λ d. goqu) (λ h. connection) conn_commit conn_rollback opened_tx
