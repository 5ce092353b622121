-- ===== src/Migration/Matching.antt =====
-- That the migration makes the tables that src/url_crawler_service/orm.py declares, and takes them back.
use url_crawler.Base.{
  List, [], ◌∷◌, ◌++◌, some, Bool, true, false, not, ◌&&◌, ◌||◌, Text, codes, text_eq, any, select,
  ◌≡◌, refl, append-nil, ◌∙◌, arith,
}
use url_crawler.Migration.Models.{Table, Schema, crawl_model, crawl_model_index, page_model}
use url_crawler.Migration.{
  has_table, has_index, refers_to, crawl_table, crawl_index, page_table, create_table, create_index,
  drop_index, drop_table, upgrade, downgrade,
}

-- Nothing in the schema has a name of the migration, or refers to one.
pub record Unrelated (s : Schema) : Type 0 where
  pub no_crawl : has_table (codes "crawl") s ≡ false
  pub no_page : has_table (codes "page") s ≡ false
  pub no_index : has_index (codes "ix_crawl_state_created") s ≡ false
  pub none_refer_crawl : any (refers_to (codes "crawl")) s.tables ≡ false
  pub none_refer_page : any (refers_to (codes "page")) s.tables ≡ false
  pub none_index_crawl : any (λ i. text_eq i.table (codes "crawl")) s.indexes ≡ false
  pub none_index_page : any (λ i. text_eq i.table (codes "page")) s.indexes ≡ false

-- The schema with the tables that the models declare.
abbrev pub with_models : Schema → Schema
with_models s = record {
  tables = (s.tables ++ crawl_model ∷ []) ++ page_model ∷ [];
  indexes = s.indexes ++ crawl_model_index ∷ [];
}

any-append {ℓ} :
    {A : Type ℓ} (p : A → Bool) (xs ys : List A) → any p (xs ++ ys) ≡ (any p xs || any p ys)
unfolding any
any-append p [] ys = refl
any-append p (x ∷ xs) ys = ground (arith, any-append p xs ys)

-- A drop leaves the rows that were there before, of which none is meant.
select-append {ℓ} :
    {A : Type ℓ} (p : A → Bool) (xs ys : List A)
    → any p xs ≡ false
    → select (λ x. not (p x)) (xs ++ ys) ≡ xs ++ select (λ x. not (p x)) ys
unfolding any select
select-append p [] ys h = refl
select-append p (x ∷ xs) ys h = ground (arith, h, select-append p xs ys)

select_same {ℓ} :
    {A : Type ℓ} (p : A → Bool) (xs : List A) → any p xs ≡ false → select (λ x. not (p x)) xs ≡ xs
unfolding any select
select_same p [] h = refl
select_same p (x ∷ xs) h = ground (arith, h, select_same p xs)

none_and {ℓ} :
    {A : Type ℓ} (p q : A → Bool) (xs : List A)
    → any q xs ≡ false
    → any (λ x. p x && q x) xs ≡ false
unfolding any
none_and p q [] h = refl
none_and p q (x ∷ xs) h = ground (arith, h, none_and p q xs)

abbrev with_crawl : Schema → Schema
with_crawl s = record s { tables = s.tables ++ crawl_model ∷ [] }

abbrev with_index : Schema → Schema
with_index s = record (with_crawl s) { indexes = s.indexes ++ crawl_model_index ∷ [] }

module _ (s : Schema) (u : Unrelated s) where
  crawl_created : create_table crawl_table s ≡ some (with_crawl s)
  unfolding create_table any
  crawl_created = rw (create_table, u.no_crawl) refl

  has_crawl : has_table (codes "crawl") (with_crawl s) ≡ true
  unfolding any text_eq
  has_crawl =
      any-append (λ t. text_eq t.name (codes "crawl")) s.tables (crawl_model ∷ [])
      ∙ (rw (u.no_crawl) refl)

  index_created : create_index crawl_index (with_crawl s) ≡ some (with_index s)
  unfolding create_index
  index_created = rw (create_index, has_crawl, u.no_index) refl

  no_page_yet : has_table (codes "page") (with_crawl s) ≡ false
  unfolding any text_eq
  no_page_yet =
      any-append (λ t. text_eq t.name (codes "page")) s.tables (crawl_model ∷ [])
      ∙ (rw (u.no_page) refl)

  page_created : create_table page_table (with_index s) ≡ some (with_models s)
  unfolding create_table any
  page_created = rw (create_table, no_page_yet, has_crawl) refl

  upgrade_lem : upgrade s ≡ some (with_models s)
  unfolding upgrade
  upgrade_lem = rw (upgrade, crawl_created, index_created, page_created) refl

  has_page : has_table (codes "page") (with_models s) ≡ true
  unfolding any text_eq
  has_page =
      any-append (λ t. text_eq t.name (codes "page")) (with_crawl s).tables (page_model ∷ [])
      ∙ (rw (no_page_yet) refl)

  none_refer :
      (name : Text) (t : Table) (tables : List Table)
      → any (λ t. not (text_eq t.name name) && refers_to name t) tables ≡ false
      → (not (text_eq t.name name) && refers_to name t) ≡ false
      → any (λ t. not (text_eq t.name name) && refers_to name t) (tables ++ t ∷ []) ≡ false
  unfolding any
  none_refer name t tables h e =
      any-append (λ t. not (text_eq t.name name) && refers_to name t) tables (t ∷ [])
      ∙ (ground (arith, h, e))

  none_left :
      (name : Text) (t : Table) (tables : List Table)
      → any (λ t. text_eq t.name name) tables ≡ false
      → text_eq t.name name ≡ true
      → select (λ t. not (text_eq t.name name)) (tables ++ t ∷ []) ≡ tables
  unfolding select
  none_left name t tables h e =
      select-append (λ t. text_eq t.name name) tables (t ∷ []) h ∙ (rw e (append-nil tables))

  page_dropped : drop_table (codes "page") (with_models s) ≡ some (with_index s)
  unfolding drop_table text_eq any select
  page_dropped =
      rw
        (
          drop_table,
          has_page,
          none_refer (codes "page") page_model (with_crawl s).tables
              (none_refer (codes "page") crawl_model s.tables
                (none_and (λ t. not (text_eq t.name (codes "page"))) (refers_to (codes "page"))
                  s.tables u.none_refer_page)
                refl)
              refl,
          none_left (codes "page") page_model (with_crawl s).tables no_page_yet refl,
          select-append (λ i. text_eq i.table (codes "page")) s.indexes (crawl_model_index ∷ [])
              u.none_index_page,
        )
        refl

  has_crawl_index : has_index (codes "ix_crawl_state_created") (with_index s) ≡ true
  unfolding any text_eq
  has_crawl_index =
      any-append (λ i. text_eq i.name (codes "ix_crawl_state_created")) s.indexes
        (crawl_model_index ∷ [])
      ∙ (rw (u.no_index) refl)

  index_dropped : drop_index (codes "ix_crawl_state_created") (with_index s) ≡ some (with_crawl s)
  unfolding drop_index select text_eq
  index_dropped =
      rw
        (
          drop_index,
          has_crawl_index,
          select-append (λ i. text_eq i.name (codes "ix_crawl_state_created")) s.indexes
              (crawl_model_index ∷ []) u.no_index,
          append-nil s.indexes,
        )
        refl

  crawl_dropped : drop_table (codes "crawl") (with_crawl s) ≡ some s
  unfolding drop_table text_eq any
  crawl_dropped =
      rw
        (
          drop_table,
          has_crawl,
          none_refer (codes "crawl") crawl_model s.tables
              (none_and (λ t. not (text_eq t.name (codes "crawl"))) (refers_to (codes "crawl"))
                s.tables u.none_refer_crawl)
              refl,
          select_same (λ i. text_eq i.table (codes "crawl")) s.indexes u.none_index_crawl,
          none_left (codes "crawl") crawl_model s.tables u.no_crawl refl,
        )
        refl

  downgrade_lem : downgrade (with_models s) ≡ some s
  unfolding downgrade
  downgrade_lem = rw (downgrade, page_dropped, index_dropped, crawl_dropped) refl

-- On every schema that has nothing of a name of the migration's: `upgrade` succeeds and adds exactly the
-- two tables and the index that the models declare, and `downgrade` then succeeds and gives back the
-- schema as it was.
pub upgrade-downgrade :
    (s : Schema)
    → Unrelated s
    → (upgrade s ≡ some (with_models s)) × (downgrade (with_models s) ≡ some s)
upgrade-downgrade s u = (upgrade_lem s u, downgrade_lem s u)
