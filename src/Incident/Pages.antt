-- ===== src/Incident/Pages.antt =====
-- Paging through the incidents (List of pkg/incident/service.go).
use mathlib.Core.Path.{ap₂}
use nightowl.Base.{
  Bool, true, All, Any, Bool-cases, inl, inr, ℕ, zero, suc, ◌+◌, ◌*◌, ◌≤◌, List, [], ◌∷◌, ◌++◌, map,
  ◌≡◌, refl, ap, sym, ◌∙◌, arith, find, ◌==◌, Option, none, some, count, select, take, sort_with,
}
use nightowl.Base.Windows.{drop, length-sort_with, length-select, take-all, windows, windows-take}
use nightowl.Sql.{Result, ok, err, healthy, query, statement, wrap, ◌>>=◌, pure, attempt}
use nightowl.Sql.Outcome.{bind-run}
use nightowl.Schema.{Database, Incident, Runbook}
use nightowl.Roster.Store.{one_row}
use nightowl.Incident.Store.{get_runbook_summary}
use nightowl.Incident.Service.{IncidentError, IncidentResponse, respond, runbook_of, found_runbook}
use nightowl.Base.Sorting.{All-sort_with, Any-sort_with}
use nightowl.Incident.Newest.{AreApart, IsNewestFirst, sort-IsNewestFirst, sort-same}
use nightowl.Incident.Matches.{Matches, passes-Matches}
use nightowl.Incident.Listing.{
  Ties, ListFilters, passes, newest_first, list_filtered, count_filtered, respond_all,
  list_incidents,
}

-- The incidents that pass the filters, as one order of equal times sorts them.
abbrev sorted : (Incident → Incident → Bool) → ListFilters → Database → List Incident
sorted tie f db = sort_with (newest_first tie) (select (passes f) db.incidents)

-- The answer for a row where nothing fails.
abbrev runbook_at : Option ℕ → Database → Option Runbook
runbook_at none db = none
runbook_at (some id) db = found_runbook (one_row (find (λ r. r.id == id) db.runbooks))

abbrev response_of : Database → Incident → IncidentResponse
response_of db row = record { row = row; runbook = runbook_at row.runbook_id db }

runbook_of-healthy :
    (id : Option ℕ) (db : Database)
    → runbook_of id (healthy db) ≡ (ok (runbook_at id db), healthy db)
unfolding attempt get_runbook_summary query statement ◌>>=◌ pure
runbook_of-healthy none db = refl
runbook_of-healthy (some id) db = refl

respond-healthy :
    (row : Incident) (db : Database)
    → respond row (healthy db) ≡ (ok (response_of db row), healthy db)
unfolding respond pure
respond-healthy row db =
    bind-run (runbook_of row.runbook_id) (λ rb. pure (record { row = row; runbook = rb }))
      (healthy db) (runbook_of-healthy row.runbook_id db)

respond_all-healthy :
    (rows : List Incident) (db : Database)
    → respond_all rows (healthy db) ≡ (ok (map (response_of db) rows), healthy db)
unfolding respond_all pure
respond_all-healthy [] db = refl
respond_all-healthy (row ∷ rows) db =
    bind-run (respond row) (λ r. respond_all rows >>= λ rs. pure (r ∷ rs)) (healthy db)
      (respond-healthy row db)
    ∙ bind-run (respond_all rows) (λ rs. pure (response_of db row ∷ rs)) (healthy db)
        (respond_all-healthy rows db)

map-row :
    (db : Database) (rows : List Incident) → map (λ r. r.row) (map (response_of db) rows) ≡ rows
map-row db [] = refl
map-row db (row ∷ rows) = ap (λ rs. row ∷ rs) (map-row db rows)

pub list_incidents-healthy :
    (ties : Ties) (f : ListFilters) (limit offset : ℕ) (db : Database)
    → (list_incidents ties f limit offset (healthy db)).0
      ≡ ok (
        map (response_of db) (take limit (drop offset (sorted (ties limit offset) f db))),
        count (passes f) db.incidents,
      )
unfolding list_incidents list_filtered count_filtered wrap query statement ◌>>=◌ pure
list_incidents-healthy ties f limit offset db =
    let rows = take limit (drop offset (sorted (ties limit offset) f db)) in
    ap (λ r. r.0)
      (bind-run (respond_all rows) (λ items. pure (items, count (passes f) db.incidents))
        (healthy db) (respond_all-healthy rows db))

-- The rows and the total of a page, none if the call fails.
abbrev pub page_rows : Result IncidentError (List IncidentResponse × ℕ) → List Incident
page_rows (ok (items, total)) = map (λ r. r.row) items
page_rows (err e) = []

abbrev pub page_total : Result IncidentError (List IncidentResponse × ℕ) → Option ℕ
page_total (ok (items, total)) = some total
page_total (err e) = none

-- The pages of a size from an offset on, as a client asks for them.
abbrev pub pages : Ties → ListFilters → Database → ℕ → ℕ → ℕ → List Incident
pages ties f db size offset zero = []
pages ties f db size offset (suc n) =
    page_rows (list_incidents ties f size offset (healthy db)).0
    ++ pages ties f db size (offset + size) n

-- The incidents of a list are those that the filters ask for, once each and newest first.
abbrev pub IsListing : ListFilters → List Incident → List Incident → Type 0
IsListing f incidents listed =
    IsNewestFirst listed
    × All (Matches f) listed
    × All (λ i. Matches f i → Any (λ j. i ≡ j) listed) incidents

select-All : (p : Incident → Bool) (xs : List Incident) → All (λ i. p i ≡ true) (select p xs)
select-All p [] = tt
select-All p (x ∷ xs) = elim (Bool-cases (p x)) [
  | inl hit ↦ rw hit (hit, select-All p xs)
  | inr miss ↦ rw miss (select-All p xs)
]

select-Any :
    (p : Incident → Bool) (i : Incident) (xs : List Incident)
    → p i ≡ true
    → Any (λ j. i ≡ j) xs
    → Any (λ j. i ≡ j) (select p xs)
select-Any p i [] h mem = mem
select-Any p i (x ∷ xs) h (inl same) = rw (ap p (sym same) ∙ h) (inl same)
select-Any p i (x ∷ xs) h (inr mem) = elim (Bool-cases (p x)) [
  | inl hit ↦ rw hit (inr (select-Any p i xs h mem))
  | inr miss ↦ rw miss (select-Any p i xs h mem)
]

All-imp :
    {P Q : Incident → Type 0} (xs : List Incident)
    → ((i : Incident) → P i → Q i)
    → All P xs
    → All Q xs
All-imp [] f h = tt
All-imp (x ∷ xs) f (hx, h) = (f x hx, All-imp xs f h)

members : (xs : List Incident) → All (λ i. Any (λ j. i ≡ j) xs) xs
members [] = tt
members (x ∷ xs) = (inl refl, All-imp xs (λ i mem. inr mem) (members xs))

module _ (tie : Incident → Incident → Bool) (f : ListFilters) (db : Database) where
  sorted-IsListing :
      AreApart (select (passes f) db.incidents) → IsListing f db.incidents (sorted tie f db)
  sorted-IsListing apart = (
    sort-IsNewestFirst tie (select (passes f) db.incidents) apart,
    All-sort_with (Matches f) (newest_first tie) (select (passes f) db.incidents) (
        All-imp (select (passes f) db.incidents) (λ i h. (passes-Matches f i).0 h)
          (select-All (passes f) db.incidents)),
    All-imp db.incidents
        (λ i mem matches.
          Any-sort_with (λ j. i ≡ j) (newest_first tie) (select (passes f) db.incidents)
            (select-Any (passes f) i db.incidents ((passes-Matches f i).1 matches) mem))
        (members db.incidents),
  )

module _ (ties : Ties) (f : ListFilters) (db : Database) where
  pages-windows :
      (size offset n : ℕ)
      → AreApart (select (passes f) db.incidents)
      → pages ties f db size offset n ≡ windows size offset n (sorted (ties 0 0) f db)
  pages-windows size offset zero apart = refl
  pages-windows size offset (suc n) apart =
      ap₂ ◌++◌
        (ap page_rows (list_incidents-healthy ties f size offset db)
          ∙ map-row db (take size (drop offset (sorted (ties size offset) f db)))
          ∙ ap (λ is. take size (drop offset is))
              (sort-same (ties size offset) (ties 0 0) (select (passes f) db.incidents) apart))
        (pages-windows size (offset + size) n apart)

  covered :
      (size n total : ℕ)
      → AreApart (select (passes f) db.incidents)
      → page_total (list_incidents ties f size 0 (healthy db)).0 ≡ some total
      → total ≤ n * size
      → pages ties f db size 0 n ≡ sorted (ties 0 0) f db
  covered size n total apart reported enough =
      pages-windows size 0 n apart
      ∙ windows-take size 0 n (sorted (ties 0 0) f db)
      ∙ take-all (n * size) (sorted (ties 0 0) f db) (
          rw
            (
              length-sort_with (newest_first (ties 0 0)) (select (passes f) db.incidents),
              length-select (passes f) db.incidents,
            )
            (omega (arith, enough, counted)))
    where
      some-eq : (a b : ℕ) → ◌≡◌ {A = Option ℕ} (some a) (some b) → a ≡ b
      some-eq a b e = cc

      counted : count (passes f) db.incidents ≡ total
      counted =
          some-eq _ _ (ap page_total (sym (list_incidents-healthy ties f size 0 db)) ∙ reported)

  -- Where nothing fails and no two of the incidents that pass the filters have the same time of
  -- creation, the pages that a client asks for one after the other, as many as the total that the
  -- first reports needs, are together exactly the incidents that are not merged and have what the
  -- given filters ask for, each once and newest first.
  pub pages_cover :
      (size n total : ℕ)
      → AreApart (select (passes f) db.incidents)
      → page_total (list_incidents ties f size 0 (healthy db)).0 ≡ some total
      → total ≤ n * size
      → IsListing f db.incidents (pages ties f db size 0 n)
  pages_cover size n total apart reported enough =
      rw (covered size n total apart reported enough) (sorted-IsListing (ties 0 0) f db apart)
