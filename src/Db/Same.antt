-- ===== src/Db/Same.antt =====
-- A repository and a transaction of db/repository.go on the same connection.
use blueprint.Prelude.{◌≡◌, refl, Bytes}
use blueprint.Db.Driver.{Goqu, Conn}
use blueprint.Db.Repository
use blueprint.Db.Tx
use blueprint.Db.Instances.{repository_methods, tx_methods}

-- Every method that a transaction shares with its repository does the same on the same connection:
-- it sends the same queries and returns the same results.
pub methods_same :
    {V S : Type 0} (g : Goqu V) (conn : Conn V S) (table : Bytes)
    → repository_methods g conn table ≡ tx_methods g conn table
unfolding repository_methods tx_methods Tx.sql_select Repository.sql_select Tx.sql_insert
    Repository.sql_insert Tx.sql_update Repository.sql_update Tx.sql_delete Repository.sql_delete
    Tx.fetch_one Repository.fetch_one Tx.fetch_record Repository.fetch_record Tx.fetch
    Repository.fetch Tx.fetch_where Repository.fetch_where Tx.fetch_by_key Repository.fetch_by_key
    Tx.exists Repository.exists Tx.exec Repository.exec Tx.raw_exec Repository.raw_exec Tx.select
    Repository.select Tx.insert Repository.insert Tx.insert_returning Repository.insert_returning
    Tx.delete Repository.delete Tx.delete_where Repository.delete_where Tx.delete_by_key
    Repository.delete_by_key Tx.update Repository.update Tx.update_record Repository.update_record
    Tx.update_by_key Repository.update_by_key Tx.count Repository.count Tx.count_where
    Repository.count_where
methods_same g conn table = refl
