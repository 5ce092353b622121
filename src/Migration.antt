-- ===== src/Migration.antt =====
-- src/url_crawler_service/alembic/versions/20260908_5ae8b1eef917_create_crawl_and_page_tables.py, and the
-- tables that src/url_crawler_service/orm.py declares. A schema is its tables and indexes; a statement
-- that PostgreSQL refuses is `none`, and the transaction of the migration with it.
pub mod Models
mod Matching
mod Examples
use url_crawler.Base.{
  ℕ, List, [], ◌∷◌, ◌++◌, Option, none, some, Bool, true, false, not, ◌&&◌, Text, codes, text_eq,
  any, select, if◌then◌else◌, ◌>>=◌,
}
use Models.{
  ColumnType, uuid, text, jsonb, string, timestamp_tz, integer, big_integer, boolean, Column,
  ForeignKey, Table, Index, Schema,
}

abbrev pub has_table : Text → Schema → Bool
has_table name s = any (λ t. text_eq t.name name) s.tables

abbrev pub has_index : Text → Schema → Bool
has_index name s = any (λ i. text_eq i.name name) s.indexes

-- A foreign key of the table leads to the other one.
abbrev pub refers_to : Text → Table → Bool
refers_to name t = any (λ k. text_eq k.target name) t.foreign_keys

abbrev pub targets_exist : Table → Schema → Bool
targets_exist t s = not (any (λ k. not (has_table k.target s)) t.foreign_keys)

-- `op.create_table`.
unfoldable pub create_table : Table → Schema → Option Schema
create_table t s =
    if not (has_table t.name s) && targets_exist t s
    then some (record s { tables = s.tables ++ t ∷ [] })
    else none

-- `op.create_index`.
unfoldable pub create_index : Index → Schema → Option Schema
create_index i s =
    if has_table i.table s && not (has_index i.name s)
    then some (record s { indexes = s.indexes ++ i ∷ [] })
    else none

-- `op.drop_index`.
unfoldable pub drop_index : Text → Schema → Option Schema
drop_index name s =
    if has_index name s
    then some (record s { indexes = select (λ i. not (text_eq i.name name)) s.indexes })
    else none

-- `op.drop_table`, which drops the indexes of the table and is refused while another refers to it.
unfoldable pub drop_table : Text → Schema → Option Schema
drop_table name s =
    if has_table name s && not (any (λ t. not (text_eq t.name name) && refers_to name t) s.tables)
    then some (record {
      tables = select (λ t. not (text_eq t.name name)) s.tables;
      indexes = select (λ i. not (text_eq i.table name)) s.indexes;
    })
    else none

abbrev column : Text → ColumnType → Bool → Column
column name type nullable = record {
  name = name;
  type = type;
  nullable = nullable;
  server_default = none;
}

abbrev pub crawl_table : Table
crawl_table = record {
  name = codes "crawl";
  columns =
      column (codes "id") uuid false
      ∷ column (codes "seed") text false
      ∷ column (codes "config") jsonb false
      ∷ column (codes "state") (string 16) false
      ∷ (record {
        name = codes "created_at";
        type = timestamp_tz;
        nullable = false;
        server_default = some (codes "now()");
      })
      ∷ column (codes "started_at") timestamp_tz true
      ∷ column (codes "finished_at") timestamp_tz true
      ∷ column (codes "heartbeat_at") timestamp_tz true
      ∷ column (codes "worker_id") text true
      ∷ column (codes "attempts") integer false
      ∷ column (codes "cancel_requested") boolean false
      ∷ column (codes "stats") jsonb true
      ∷ column (codes "error") text true
      ∷ [];
  primary_key = codes "id" ∷ [];
  foreign_keys = [];
}

abbrev pub crawl_index : Index
crawl_index = record {
  name = codes "ix_crawl_state_created";
  table = codes "crawl";
  columns = codes "state" ∷ codes "created_at" ∷ [];
  unique = false;
}

abbrev pub page_table : Table
page_table = record {
  name = codes "page";
  columns =
      column (codes "crawl_id") uuid false
      ∷ column (codes "seq") big_integer false
      ∷ column (codes "url") text false
      ∷ column (codes "status") integer true
      ∷ column (codes "error_kind") text true
      ∷ column (codes "error_message") text true
      ∷ column (codes "links") jsonb false
      ∷ column (codes "fetched_at") timestamp_tz false
      ∷ [];
  primary_key = codes "crawl_id" ∷ codes "seq" ∷ [];
  foreign_keys =
      record {
        columns = codes "crawl_id" ∷ [];
        target = codes "crawl";
        target_columns = codes "id" ∷ [];
        on_delete = some (codes "CASCADE");
      }
      ∷ [];
}

abbrev then_do : Option Schema → (Schema → Option Schema) → Option Schema
then_do none f = none
then_do (some s) f = f s

unfoldable pub upgrade : Schema → Option Schema
unfolding create_table create_index
upgrade s =
    then_do (create_table crawl_table s)
      (λ s. then_do (create_index crawl_index s) (create_table page_table))

unfoldable pub downgrade : Schema → Option Schema
unfolding drop_table drop_index
downgrade s =
    then_do (drop_table (codes "page") s)
      (λ s. then_do (drop_index (codes "ix_crawl_state_created") s) (drop_table (codes "crawl")))
