-- ===== src/Repository/Sound.antt =====
-- Sound rows, and that the writes of src/url_crawler_service/repository.py keep them.
use url_crawler.Base.{
  ℕ, ◌≤◌, ◌<◌, List, [], ◌∷◌, ◌++◌, Option, none, some, Bool, true, false, ◌≡◌, refl, subst, arith,
  Text, ◌==◌, any, select, Bool-cases, inl, inr, All, map, ltb,
}
use url_crawler.Repository.Rows.{
  CrawlState, queued, running, finished, failed, aborted, CrawlRow, Db, is_running, is_terminal,
  update, first,
}
use url_crawler.Repository.{beat, is_some, closed_row, released, is_expired, flag_row}
use url_crawler.Repository.Statements.{update-All, update-none}
use url_crawler.Repository.Claiming.{UniqueIds, In}
use url_crawler.Repository.Reaping.{settled}

-- What a row holds in each state.
abbrev pub SoundAt : ℕ → CrawlState → CrawlRow → Type 0
SoundAt max_attempts queued r =
    (r.worker_id ≡ none)
    × (r.heartbeat_at ≡ none)
    × (r.cancel_requested ≡ false)
    × (r.attempts < max_attempts)
SoundAt max_attempts running r =
    (is_some r.worker_id ≡ true)
    × (is_some r.heartbeat_at ≡ true)
    × (is_some r.started_at ≡ true)
    × (r.attempts ≤ max_attempts)
SoundAt max_attempts finished r = (is_some r.finished_at ≡ true) × (r.attempts ≤ max_attempts)
SoundAt max_attempts failed r = (is_some r.finished_at ≡ true) × (r.attempts ≤ max_attempts)
SoundAt max_attempts aborted r = (is_some r.finished_at ≡ true) × (r.attempts ≤ max_attempts)

abbrev pub IsSound : ℕ → CrawlRow → Type 0
IsSound max_attempts r = SoundAt max_attempts r.state r

-- Ids are unique and each row is sound.
pub record AllSound (max_attempts : ℕ) (db : Db) : Type 0 where
  pub unique : UniqueIds db.crawls
  pub sound : All (IsSound max_attempts) db.crawls

pub tries : (m : ℕ) (s : CrawlState) (r : CrawlRow) → SoundAt m s r → r.attempts ≤ m
tries m queued r h = omega (arith, h.3)
tries m running r h = h.3
tries m finished r h = h.1
tries m failed r h = h.1
tries m aborted r h = h.1

-- A write that keeps ids keeps them unique.
any_id-update :
    (k : ℕ) (p : CrawlRow → Bool) (f : CrawlRow → CrawlRow) (rs : List CrawlRow)
    → ((r : CrawlRow) → (f r).id ≡ r.id)
    → any (λ s. s.id == k) rs ≡ false
    → any (λ s. s.id == k) (update p f rs) ≡ false
unfolding any update
any_id-update k p f [] same h = refl
any_id-update k p f (r ∷ rs) same h = ground (arith, h, same r, any_id-update k p f rs same)

pub update-UniqueIds :
    (p : CrawlRow → Bool) (f : CrawlRow → CrawlRow) (rs : List CrawlRow)
    → ((r : CrawlRow) → (f r).id ≡ r.id)
    → UniqueIds rs
    → UniqueIds (update p f rs)
unfolding update
update-UniqueIds p f [] same u = tt
update-UniqueIds p f (r ∷ rs) same u = elim (Bool-cases (p r)) [
  | inl e ↦ rw (e, same r) (any_id-update r.id p f rs same u.0, update-UniqueIds p f rs same u.1)
  | inr e ↦ rw e (any_id-update r.id p f rs same u.0, update-UniqueIds p f rs same u.1)
]

-- One statement that keeps ids, and the soundness of the rows that it changes.
pub update-AllSound :
    (m : ℕ) (p : CrawlRow → Bool) (f : CrawlRow → CrawlRow) (db : Db)
    → ((r : CrawlRow) → (f r).id ≡ r.id)
    → ((r : CrawlRow) → IsSound m r → p r ≡ true → IsSound m (f r))
    → AllSound m db
    → AllSound m (record db { crawls = update p f db.crawls })
update-AllSound m p f db same keep h = record {
  unique = update-UniqueIds p f db.crawls same h.unique;
  sound = update-All (IsSound m) p f db.crawls keep h.sound;
}

pub beat-IsSound :
    (m id : ℕ) (worker stats : Text) (now : ℕ) (s : CrawlState) (r : CrawlRow)
    → SoundAt m s r
    → is_running s ≡ true
    → SoundAt m s (beat stats now r)
beat-IsSound m id worker stats now running r h e = (h.0, refl, h.2, h.3)
beat-IsSound m id worker stats now queued r h e = cc
beat-IsSound m id worker stats now finished r h e = cc
beat-IsSound m id worker stats now failed r h e = cc
beat-IsSound m id worker stats now aborted r h e = cc

pub closed_row-IsSound :
    (m : ℕ) (state : CrawlState) (stats : Text) (error : Option Text) (now : ℕ) (r : CrawlRow)
    → is_terminal state ≡ true
    → r.attempts ≤ m
    → IsSound m (closed_row state stats error now r)
closed_row-IsSound m queued stats error now r e h = cc
closed_row-IsSound m running stats error now r e h = cc
closed_row-IsSound m finished stats error now r e h = (refl, h)
closed_row-IsSound m failed stats error now r e h = (refl, h)
closed_row-IsSound m aborted stats error now r e h = (refl, h)

pub released-IsSound :
    (m : ℕ) (r : CrawlRow)
    → 0 < m
    → r.attempts ≤ m
    → r.cancel_requested ≡ false
    → IsSound m (released r)
released-IsSound m r pos h e = (refl, refl, e, omega arith)

settled-IsSound : (m lease now : ℕ) (r : CrawlRow) → IsSound m r → IsSound m (settled lease m now r)
unfolding settled
settled-IsSound m lease now r h = elim (Bool-cases (is_expired lease now r)) [
  | inr e ↦ rw e h
  | inl e ↦ elim (Bool-cases r.cancel_requested) [
    | inl c ↦ rw (e, c) (refl, tries m r.state r h)
    | inr c ↦ elim (Bool-cases (ltb r.attempts m)) [
      | inl l ↦ rw (e, c, l) (refl, refl, refl, ground arith)
      | inr l ↦ rw (e, c, l) (refl, tries m r.state r h)
    ]
  ]
]

settled_id : (m lease now : ℕ) (r : CrawlRow) → (settled lease m now r).id ≡ r.id
unfolding settled
settled_id m lease now r = ground arith

any_id-settled :
    (k m lease now : ℕ) (rs : List CrawlRow)
    → any (λ s. s.id == k) rs ≡ false
    → any (λ s. s.id == k) (map (settled lease m now) rs) ≡ false
unfolding any
any_id-settled k m lease now [] h = refl
any_id-settled k m lease now (r ∷ rs) h =
    ground (arith, h, settled_id m lease now r, any_id-settled k m lease now rs)

pub settled-AllSound :
    (m lease now : ℕ) (rs : List CrawlRow)
    → UniqueIds rs
    → All (IsSound m) rs
    → UniqueIds (map (settled lease m now) rs) × All (IsSound m) (map (settled lease m now) rs)
settled-AllSound m lease now [] u h = (tt, tt)
settled-AllSound m lease now (r ∷ rs) (u, us) (h, hs) =
    let rest = settled-AllSound m lease now rs us hs in
    (
      (rw (settled_id m lease now r) (any_id-settled r.id m lease now rs u), rest.0),
      (settled-IsSound m lease now r h, rest.1),
    )

flag_row-IsSound :
    (m : ℕ) (s : CrawlState) (r : CrawlRow) → s ≡ running → SoundAt m s r → SoundAt m s (flag_row r)
flag_row-IsSound m running r e h = h
flag_row-IsSound m queued r e h = cc
flag_row-IsSound m finished r e h = cc
flag_row-IsSound m failed r e h = cc
flag_row-IsSound m aborted r e h = cc

-- `flag_row` on the one row of a running crawl.
pub flag_row-All :
    (m id : ℕ) (r : CrawlRow) (rs : List CrawlRow)
    → first (select (λ s. s.id == id) rs) ≡ some r
    → r.state ≡ running
    → UniqueIds rs
    → All (IsSound m) rs
    → All (IsSound m) (update (λ s. s.id == id) flag_row rs)
unfolding first select update
flag_row-All m id r [] e q u h = tt
flag_row-All m id r (s ∷ rs) e q (u, us) (h, hs) = elim (Bool-cases (s.id == id)) [
  | inl t ↦
      let k : s.id ≡ id = ground (arith, t) in
      let state : s.state ≡ running = ground (arith, e, t, q) in
      let none_left : any (λ t. t.id == id) rs ≡ false =
        subst (λ k. any (λ t. t.id == k) rs ≡ false) k u in
      rw (t, update-none (λ s. s.id == id) flag_row rs none_left)
        (flag_row-IsSound m s.state s state h, hs)
  | inr t ↦ rw t (h, flag_row-All m id r rs (ground (arith, e, t)) q us hs)
]

any_id-append :
    (k : ℕ) (row : CrawlRow) (rs : List CrawlRow)
    → any (λ s. s.id == k) rs ≡ false
    → (row.id == k) ≡ false
    → any (λ s. s.id == k) (rs ++ row ∷ []) ≡ false
unfolding any
any_id-append k row [] a e = ground (arith, e)
any_id-append k row (r ∷ rs) a e = ground (arith, a, any_id-append k row rs)

pub append-AllSound :
    (m : ℕ) (row : CrawlRow) (rs : List CrawlRow)
    → IsSound m row
    → any (λ r. r.id == row.id) rs ≡ false
    → UniqueIds rs
    → All (IsSound m) rs
    → UniqueIds (rs ++ row ∷ []) × All (IsSound m) (rs ++ row ∷ [])
unfolding any
append-AllSound m row [] w a u h = ((refl, tt), (w, tt))
append-AllSound m row (r ∷ rs) w a (u, us) (h, hs) =
    let rest = append-AllSound m row rs w (ground (arith, a)) us hs in
    ((any_id-append r.id row rs u (ground (arith, a)), rest.0), (h, rest.1))

In-All : (P : CrawlRow → Type 0) (r : CrawlRow) (rs : List CrawlRow) → In r rs → All P rs → P r
In-All P r [] i h = elim i [ ]
In-All P r (s ∷ rs) (inl e) (h, hs) = subst P e h
In-All P r (s ∷ rs) (inr i) (h, hs) = In-All P r rs i hs
