-- ===== src/Service/Served.antt =====
-- That each thing that happens while a job of src/url_crawler_service runs keeps the invariant.
use url_crawler.Base.{
  ℕ, zero, suc, ◌<◌, List, [], ◌∷◌, ◌++◌, Option, none, some, Bool, true, false, not, drop, length,
  if◌then◌else◌, ◌≡◌, refl, sym, subst, ap, ◌∙◌, arith, Text, ◌==◌, select, Option-cases, inl, inr,
}
use url_crawler.Models.{PageResult}
use url_crawler.Repository.Rows.{running, CrawlRow, PageRow, Page, Db, owned_by, first}
use url_crawler.Repository.{get, claim, claimed_row, leases, insert_rows, insert_pages}
use url_crawler.Repository.Claiming.{Claims, claim-Claims}
use url_crawler.Repository.Transitions.{get-update}
use url_crawler.Repository.Lifecycle.{Reach-AllSound}
use url_crawler.Repository.Steps.{claims, inserts, Reach, next}
use url_crawler.DbReporter.{
  DbReporter, opened, page, insert_returned, react, reported, woken, closed, returned, failed,
  discard, insert_raised, settle, send, lock, wake, close, start_flush, Event,
}
use url_crawler.DbReporter.Delivery.{Kept, react-Kept}
use url_crawler.Service.{
  Job, JobStep, reports, gives_up, wakes, drains, lands, goes_unheard, fails, beside, Run, begun,
  goes_on, numbered,
}
use url_crawler.Service.Stored.{stored, put_all, stored-insert_rows}
use url_crawler.Service.Foreign.{Step-Spared}
use url_crawler.Service.Numbers.{numbered-Numbered, numbered-next}
use url_crawler.Service.Invariant.{
  InTable, page-InTable, wake-InTable, close-InTable, raised-InTable, batch_stored,
  returned-InTable, unheard-InTable,
}

-- The crawl that the worker still owns runs, and the table holds its rows.
abbrev pub Held : ℕ → Text → CrawlRow → Db → DbReporter → Type 0
Held id worker r db d =
    owned_by worker r.worker_id ≡ true → (r.state ≡ running) × InTable id db.pages d

-- What a reporter that throws nothing away and the database hold.
pub record Served (m id : ℕ) (worker : Text) (pages : List (PageResult × ℕ)) (db : Db)
    (d : DbReporter) : Type 0 where
  pub reach : Reach m db
  pub kept : Kept (numbered 0 pages) d
  pub row : CrawlRow
  pub found : get id db ≡ some row
  pub held : Held id worker row db d

-- The reporter `r` of a job is the reporter `d` until it throws its buffer away; then it holds no row
-- but those that it has sent.
abbrev pub Follows : Bool → DbReporter → DbReporter → Type 0
Follows false d r = r ≡ d
Follows true d r = (r.buffer ≡ []) × (r.committed ≡ d.committed) × (r.writing ≡ d.writing)

pub record Tracked (m id : ℕ) (worker : Text) (pages : List (PageResult × ℕ)) (j : Job)
    : Type 0 where
  pub full : DbReporter
  pub served : Served m id worker pages j.db full
  pub follows : Follows j.discarded full j.reporter

pub Follows-same : (b : Bool) (d r : DbReporter) → b ≡ false → Follows b d r → r ≡ d
Follows-same false d r e f = f
Follows-same true d r e f = cc

same-Follows : (b : Bool) (d r : DbReporter) → b ≡ false → r ≡ d → Follows b d r
same-Follows false d r e f = f
same-Follows true d r e f = cc

writing-Follows : (b : Bool) (d r : DbReporter) → Follows b d r → r.writing ≡ d.writing
writing-Follows false d r f = ap (λ x. x.writing) f
writing-Follows true d r f = f.2

discard-Follows : (b : Bool) (d r : DbReporter) → Follows b d r → Follows true d (discard r)
unfolding discard
discard-Follows false d r f = (refl, ap (λ x. x.committed) f, ap (λ x. x.writing) f)
discard-Follows true d r f = (refl, f.1, f.2)

raised-Follows :
    (b : Bool) (d r : DbReporter) → Follows b d r → Follows b (insert_raised d) (insert_raised r)
unfolding insert_raised
raised-Follows false d r f = ap insert_raised f
raised-Follows true d r f = (f.0, f.1, refl)

drop-nil : {A : Type 0} (n : ℕ) → drop {A = A} n [] ≡ []
drop-nil zero = refl
drop-nil (suc n) = refl

settle-Follows :
    (w : Option (List PageRow)) (d r : DbReporter)
    → Follows true d r
    → r.writing ≡ w
    → Follows true (settle w d) (settle w r)
settle-Follows none d r f e = f
settle-Follows (some rows) d r (b, c, w) e =
    (ap (drop (length rows)) b ∙ drop-nil (length rows), ap (λ x. x ++ rows) c, refl)

returned-Follows :
    (b : Bool) (d r : DbReporter)
    → Follows b d r
    → Follows b (insert_returned d) (insert_returned r)
unfolding insert_returned
returned-Follows false d r f = ap insert_returned f
returned-Follows true d r f =
    subst (λ w. Follows true (settle w d) (settle r.writing r)) f.2
      (settle-Follows r.writing d r f refl)

-- A flush of an empty buffer sends nothing.
send-idle : (rows : List PageRow) (d : DbReporter) → rows ≡ [] → send rows d ≡ d
send-idle [] d e = refl
send-idle (row ∷ rows) d e = cc

lock-idle : (w : Option (List PageRow)) (d : DbReporter) → d.buffer ≡ [] → lock w d ≡ d
lock-idle none d e = send-idle d.buffer d e
lock-idle (some rows) d e = refl

if-Follows :
    (b : Bool) (d x y : DbReporter)
    → Follows true d x
    → Follows true d y
    → Follows true d (if b then x else y)
if-Follows true d x y f g = f
if-Follows false d x y f g = g

wake-Follows : (d r : DbReporter) → Follows true d r → Follows true d (wake r)
unfolding wake start_flush
wake-Follows d r f =
    if-Follows r.closing d r (lock r.writing (record r { full = false })) f
      (subst (Follows true d) (sym (lock-idle r.writing (record r { full = false }) f.0)) f)

close-Follows : (d r : DbReporter) → Follows true d r → Follows true d (close r)
unfolding close start_flush
close-Follows d r f =
    subst (Follows true d)
      (sym (lock-idle r.writing (record r { closing = true; full = true }) f.0)) f

-- A batch of the worker's own.
insert_lem :
    (id : ℕ) (worker : Text) (rows : List PageRow) (db after : Db) (r : CrawlRow)
    → insert_pages id worker rows db ≡ some after
    → get id db ≡ some r
    → (get id after ≡ some r) × (stored id after.pages ≡ put_all rows (stored id db.pages))
unfolding insert_pages get put_all
insert_lem id worker [] db after r q e =
    let w : db ≡ after = ground (arith, q) in
    subst (λ a. (get id a ≡ some r) × (stored id a.pages ≡ stored id db.pages)) w (e, refl)
insert_lem id worker (row ∷ rows) db after r q e =
    elim (Option-cases (first (select (leases id worker) db.crawls))) [
      | inl n ↦ ground (arith, q, n)
      | inr (c, n) ↦
          let w : record db { pages = insert_rows id (row ∷ rows) db.pages } ≡ after =
            ground (arith, q, n) in
          subst
            (λ a.
              (get id a ≡ some r) × (stored id a.pages ≡ put_all (row ∷ rows) (stored id db.pages)))
            w (e, stored-insert_rows id (row ∷ rows) db.pages)
    ]

stored-gone :
    (id : ℕ) (pages : List Page) → stored id (select (λ page. not (page.crawl_id == id)) pages) ≡ []
unfolding stored select
stored-gone id [] = refl
stored-gone id (page ∷ pages) = ground (arith, stored-gone id pages)

module _ {m id : ℕ} {worker : Text} where
  -- The crawl is claimed: its row runs and its old pages are gone.
  claimed-Served :
      (r : CrawlRow) (now : ℕ) (locked : ℕ → Bool) (db : Db) (x : Option CrawlRow × Db)
      → Claims worker now locked db x
      → x.0 ≡ some r
      → r.id ≡ id
      → Reach m x.1
      → Served m id worker [] x.1 opened
  unfolding Claims numbered get
  claimed-Served r now locked db (none, after) c e q reach = cc
  claimed-Served r now locked db (some taken, after) (t, found, w, old, is, c) e q reach =
      let whose : t.id ≡ id = ground (arith, is, e, q) in
      let mine : get id db ≡ some t = subst (λ k. get k db ≡ some t) whose found in
      let f = claimed_row worker t.attempts now in
      let there : get id after ≡ some (f t) =
        rw (c, get-update id (λ s. s.id == t.id) f db.crawls t (λ s. refl) mine) (ground arith) in
      let gone : stored id after.pages ≡ [] = rw (c) (
        ap (λ k. stored id (select (λ page. not (page.crawl_id == k)) db.pages)) whose
        ∙ stored-gone id db.pages) in
      record {
        reach = reach;
        kept = record { split = refl; counted = refl; numbered = refl; heads = tt };
        row = f t;
        found = there;
        held = λ o. (refl, ([], [], gone, refl, tt));
      }

  lands-Served :
      {pages : List (PageResult × ℕ)} (rows : List PageRow) (db after : Db) (d : DbReporter)
      → d.writing ≡ some rows
      → insert_pages id worker rows db ≡ some after
      → Served m id worker pages db d
      → Served m id worker pages after (insert_returned d)
  unfolding react
  lands-Served {pages} rows db after d w q s =
      let (found, t) = insert_lem id worker rows db after s.row q s.found in
      record {
        reach = next s.reach (inserts id worker rows db after q);
        kept = react-Kept (numbered 0 pages) 0 returned d s.kept;
        row = s.row;
        found = found;
        held = λ o.
            let (z, h) = s.held o in
            (
              z,
              returned-InTable id rows after.pages d w (
                  batch_stored id (numbered 0 pages) rows db.pages after.pages d s.kept
                    (numbered-Numbered 0 pages) w t h),
            );
      }

  unheard-Served :
      {pages : List (PageResult × ℕ)} (rows : List PageRow) (db after : Db) (d : DbReporter)
      → d.writing ≡ some rows
      → insert_pages id worker rows db ≡ some after
      → Served m id worker pages db d
      → Served m id worker pages after (insert_raised d)
  unfolding react
  unheard-Served {pages} rows db after d w q s =
      let (found, t) = insert_lem id worker rows db after s.row q s.found in
      record {
        reach = next s.reach (inserts id worker rows db after q);
        kept = react-Kept (numbered 0 pages) 0 failed d s.kept;
        row = s.row;
        found = found;
        held = λ o.
            let (z, h) = s.held o in
            (
              z,
              unheard-InTable id rows after.pages d w s.kept.heads (
                  batch_stored id (numbered 0 pages) rows db.pages after.pages d s.kept
                    (numbered-Numbered 0 pages) w t h),
            );
      }

  reports-Served :
      {pages : List (PageResult × ℕ)} (batch_size : ℕ) (result : PageResult) (now : ℕ) (db : Db)
      (d : DbReporter)
      → Served m id worker pages db d
      → Served m id worker (pages ++ (result, now) ∷ []) db (page batch_size result now d)
  unfolding react
  reports-Served {pages} batch_size result now db d s = record {
    reach = s.reach;
    kept =
        subst (λ rows. Kept rows (page batch_size result now d))
          (sym (numbered-next result now pages))
          (react-Kept (numbered 0 pages) batch_size (reported result now) d s.kept);
    row = s.row;
    found = s.found;
    held = λ o. let (q, t) = s.held o in (q, page-InTable id batch_size result now db.pages d t);
  }

  -- A step of the reporter that leaves the database alone.
  calm-Served :
      {pages : List (PageResult × ℕ)} (e : Event) (db : Db) (d : DbReporter)
      → Kept (numbered 0 pages) (react 0 e d)
      → (InTable id db.pages d → InTable id db.pages (react 0 e d))
      → Served m id worker pages db d
      → Served m id worker pages db (react 0 e d)
  calm-Served e db d k keep s = record {
    reach = s.reach;
    kept = k;
    row = s.row;
    found = s.found;
    held = λ o. let (q, t) = s.held o in (q, keep t);
  }

  wakes-Tracked :
      {pages : List (PageResult × ℕ)} (b : Bool) (db : Db) (d r : DbReporter)
      → Served m id worker pages db d
      → Follows b d r
      → Tracked m id worker pages (record { db = db; reporter = wake r; discarded = b })
  unfolding react
  wakes-Tracked true db d r s f = record { full = d; served = s; follows = wake-Follows d r f }
  wakes-Tracked {pages} false db d r s f = record {
    full = wake d;
    served =
        calm-Served woken db d (react-Kept (numbered 0 pages) 0 woken d s.kept)
          (wake-InTable id db.pages d) s;
    follows = ap wake f;
  }

  drains-Tracked :
      {pages : List (PageResult × ℕ)} (b : Bool) (db : Db) (d r : DbReporter)
      → Served m id worker pages db d
      → Follows b d r
      → Tracked m id worker pages (record { db = db; reporter = close r; discarded = b })
  unfolding react
  drains-Tracked true db d r s f = record { full = d; served = s; follows = close-Follows d r f }
  drains-Tracked {pages} false db d r s f = record {
    full = close d;
    served =
        calm-Served closed db d (react-Kept (numbered 0 pages) 0 closed d s.kept)
          (close-InTable id db.pages d) s;
    follows = ap close f;
  }

  step-Tracked :
      {batch_size : ℕ} {pages more : List (PageResult × ℕ)} {j k : Job}
      → 0 < m
      → JobStep m id worker batch_size pages j more k
      → Tracked m id worker pages j
      → Tracked m id worker more k
  unfolding react
  step-Tracked {batch_size} pos (reports result now pages j e) t = record {
    full = page batch_size result now t.full;
    served = reports-Served batch_size result now j.db t.full t.served;
    follows =
        same-Follows j.discarded _ _ e (
          ap (page batch_size result now) (Follows-same j.discarded t.full j.reporter e t.follows));
  }
  step-Tracked pos (wakes pages j) t =
      wakes-Tracked j.discarded j.db t.full j.reporter t.served t.follows
  step-Tracked pos (drains pages j) t =
      drains-Tracked j.discarded j.db t.full j.reporter t.served t.follows
  step-Tracked pos (fails pages j) t = record {
    full = insert_raised t.full;
    served =
        calm-Served failed j.db t.full (react-Kept (numbered 0 pages) 0 failed t.full t.served.kept)
          (raised-InTable id j.db.pages t.full) t.served;
    follows = raised-Follows j.discarded t.full j.reporter t.follows;
  }
  step-Tracked pos (lands rows after pages j w q) t = record {
    full = insert_returned t.full;
    served =
        lands-Served rows j.db after t.full
          (sym (writing-Follows j.discarded t.full j.reporter t.follows) ∙ w) q t.served;
    follows = returned-Follows j.discarded t.full j.reporter t.follows;
  }
  step-Tracked pos (goes_unheard rows after pages j w q) t = record {
    full = insert_raised t.full;
    served =
        unheard-Served rows j.db after t.full
          (sym (writing-Follows j.discarded t.full j.reporter t.follows) ∙ w) q t.served;
    follows = raised-Follows j.discarded t.full j.reporter t.follows;
  }
  step-Tracked pos (gives_up pages j) t = record {
    full = t.full;
    served = t.served;
    follows = discard-Follows j.discarded t.full j.reporter t.follows;
  }
  step-Tracked pos (beside pages j after step f) t =
      let s = t.served in
      let (row, found, keep) =
        Step-Spared id worker step f (Reach-AllSound pos s.reach).unique s.row s.found in
      record {
        full = t.full;
        served = record {
          reach = next s.reach step;
          kept = s.kept;
          row = row;
          found = found;
          held = λ o.
              let (own, run, same) = keep o in
              let (z, (extra, rest, h, b, w)) = s.held own in
              (run z, (extra, rest, same ∙ h, b, w));
        };
        follows = t.follows;
      }

  pub run-Tracked :
      {batch_size : ℕ} {pages : List (PageResult × ℕ)} {j : Job}
      → 0 < m
      → Run m id worker batch_size pages j
      → Tracked m id worker pages j
  run-Tracked pos (begun now locked db r reach e q) = record {
    full = opened;
    served =
        claimed-Served r now locked db (claim worker now locked db)
          (claim-Claims worker now locked db (Reach-AllSound pos reach).unique) e q
          (next reach (claims worker now locked db));
    follows = refl;
  }
  run-Tracked pos (goes_on run t) = step-Tracked pos t (run-Tracked pos run)
