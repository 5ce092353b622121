-- ===== src/Progress/Examples.antt =====
-- A status line (src/url_crawler/progress.py).
use url_crawler.Base.{◌≡◌, refl, codes}
use url_crawler.Progress.{grouped}

thousands : grouped 1234567 ≡ codes "1,234,567"
unfolding grouped
thousands = refl

small : grouped 12 ≡ codes "12"
unfolding grouped
small = refl
