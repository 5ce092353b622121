-- ===== src/Migration/Examples.antt =====
-- The migration of a database that Alembic has just made its own table in.
use url_crawler.Base.{[], ◌∷◌, some, none, false, ◌≡◌, refl, codes, any, text_eq}
use url_crawler.Migration.Models.{string, Schema}
use url_crawler.Migration.{upgrade, downgrade}
use url_crawler.Migration.Matching.{with_models, upgrade-downgrade}

abbrev versioned : Schema
versioned = record {
  tables =
      (record {
        name = codes "alembic_version";
        columns =
            record {
              name = codes "version_num";
              type = string 32;
              nullable = false;
              server_default = none;
            }
            ∷ [];
        primary_key = codes "version_num" ∷ [];
        foreign_keys = [];
      })
      ∷ [];
  indexes = [];
}

upgrade-downgrade_example :
    (upgrade versioned ≡ some (with_models versioned))
    × (downgrade (with_models versioned) ≡ some versioned)
unfolding any text_eq
upgrade-downgrade_example = upgrade-downgrade versioned record {
  no_crawl = refl;
  no_page = refl;
  no_index = refl;
  none_refer_crawl = refl;
  none_refer_page = refl;
  none_index_crawl = refl;
  none_index_page = refl;
}
