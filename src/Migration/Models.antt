-- ===== src/Migration/Models.antt =====
-- src/url_crawler_service/orm.py: the tables as SQLAlchemy's metadata, where a column whose annotation is
-- optional is nullable.
use url_crawler.Base.{ℕ, List, [], ◌∷◌, Option, none, some, Bool, true, false, Text, codes}

pub data ColumnType : Type 0 where
  uuid text jsonb timestamp_tz integer big_integer boolean : ColumnType
  string : ℕ → ColumnType

pub record Column : Type 0 where
  pub name : Text
  pub type : ColumnType
  pub nullable : Bool
  pub server_default : Option Text

pub record ForeignKey : Type 0 where
  pub columns : List Text
  pub target : Text
  pub target_columns : List Text
  pub on_delete : Option Text

pub record Table : Type 0 where
  pub name : Text
  pub columns : List Column
  pub primary_key : List Text
  pub foreign_keys : List ForeignKey

pub record Index : Type 0 where
  pub name : Text
  pub table : Text
  pub columns : List Text
  pub unique : Bool

pub record Schema : Type 0 where
  pub tables : List Table
  pub indexes : List Index

-- `Mapped[T]` and `Mapped[T | None]`.
abbrev mapped : Text → ColumnType → Column
mapped name type = record { name = name; type = type; nullable = false; server_default = none }

abbrev optional : Text → ColumnType → Column
optional name type = record { name = name; type = type; nullable = true; server_default = none }

abbrev pub crawl_model : Table
crawl_model = record {
  name = codes "crawl";
  columns =
      mapped (codes "id") uuid
      ∷ mapped (codes "seed") text
      ∷ mapped (codes "config") jsonb
      ∷ mapped (codes "state") (string 16)
      ∷ (record (mapped (codes "created_at") timestamp_tz) {
        server_default = some (codes "now()");
      })
      ∷ optional (codes "started_at") timestamp_tz
      ∷ optional (codes "finished_at") timestamp_tz
      ∷ optional (codes "heartbeat_at") timestamp_tz
      ∷ optional (codes "worker_id") text
      ∷ mapped (codes "attempts") integer
      ∷ mapped (codes "cancel_requested") boolean
      ∷ optional (codes "stats") jsonb
      ∷ optional (codes "error") text
      ∷ [];
  primary_key = codes "id" ∷ [];
  foreign_keys = [];
}

abbrev pub crawl_model_index : Index
crawl_model_index = record {
  name = codes "ix_crawl_state_created";
  table = crawl_model.name;
  columns = codes "state" ∷ codes "created_at" ∷ [];
  unique = false;
}

abbrev pub page_model : Table
page_model = record {
  name = codes "page";
  columns =
      mapped (codes "crawl_id") uuid
      ∷ mapped (codes "seq") big_integer
      ∷ mapped (codes "url") text
      ∷ optional (codes "status") integer
      ∷ optional (codes "error_kind") text
      ∷ optional (codes "error_message") text
      ∷ mapped (codes "links") jsonb
      ∷ mapped (codes "fetched_at") timestamp_tz
      ∷ [];
  primary_key = codes "crawl_id" ∷ codes "seq" ∷ [];
  foreign_keys =
      record {
        columns = codes "crawl_id" ∷ [];
        target = codes "crawl";
        target_columns = codes "id" ∷ [];
        on_delete = some (codes "CASCADE");
      }
      ∷ [];
}
