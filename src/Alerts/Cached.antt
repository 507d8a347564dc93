-- ===== src/Alerts/Cached.antt =====
-- What the deduplication answers where nothing fails.
use mathlib.Core.Option
use nightowl.Base.{
  ℕ, ◌+◌, ◌≡◌, ◌≢◌, ◌≤◌, All, Any, List, refl, ap, ◌∙◌, String, str_eq, true, [], ◌∷◌, ◌++◌, Option,
  none, some, ◌==◌, find, update, find-update_same,
}
use nightowl.Sql.{ok, pure, modify, query, exec, statement, healthy, attempt, wrap, ◌>>=◌}
use nightowl.Sql.Outcome.{bind-run}
use nightowl.Schema.{Database, Alert, CacheEntry, deduplicated}
use nightowl.Alerts.Normalize.{Externals, NormalizedAlert}
use nightowl.Alerts.Store.{get_alert, increment_alert_occurrence}
use nightowl.Alerts.Dedup.{
  AlertError, redis_key, redis_get, is_cached, check_hit, check, increment_and_return,
}
use nightowl.Alerts.Webhook.{respond_row, after_check, create_or_dedup}

-- The row of an alert that fired once more.
abbrev pub fired_again : ℕ → Alert → Alert
fired_again now a = record a {
  occurrence_count = a.occurrence_count + 1;
  last_fired_at = now;
  updated_at = now;
}

-- The state after an alert fired once more.
abbrev pub after_duplicate : ℕ → Database → Database
after_duplicate id db = record db {
  alerts = update (λ a. a.id == id) (fired_again db.now) db.alerts;
  metrics = db.metrics ++ deduplicated ∷ [];
}

-- The alert is one of the list, has the fingerprint and is not resolved, and no alert of the list
-- with these properties fired after it; or no alert of the list has them.
abbrev pub IsLastOpen : String → List Alert → Option Alert → Type 0
IsLastOpen fingerprint alerts none =
    All (λ a. a.fingerprint ≡ fingerprint → a.status ≡ "resolved") alerts
IsLastOpen fingerprint alerts (some a) =
    Any (λ b. b ≡ a) alerts
    × (a.fingerprint ≡ fingerprint)
    × (a.status ≢ "resolved")
    × All
        (λ b.
          b.fingerprint ≡ fingerprint → b.status ≢ "resolved" → b.last_fired_at ≤ a.last_fired_at)
        alerts

module _ (db : Database) where
  check_cached :
      (schema fingerprint : String) (entry : CacheEntry) (id : ℕ)
      → find (is_cached (redis_key schema fingerprint) db.now) db.cache ≡ some entry
      → entry.value ≡ some id
      → attempt {F = AlertError} (check schema fingerprint) (healthy db)
        ≡ (ok (ok (some id)), healthy db)
  unfolding check check_hit redis_get attempt query statement ◌>>=◌ pure
  check_cached schema fingerprint entry id h e = rw (h, e) refl

  increment-run :
      (id : ℕ) (row : Alert)
      → find (λ a. a.id == id) db.alerts ≡ some row
      → increment_and_return id (healthy db)
        ≡ (ok (fired_again db.now row), healthy (after_duplicate id db))
  unfolding increment_and_return increment_alert_occurrence get_alert wrap query exec statement
      ◌>>=◌ pure modify
  increment-run id row h =
      rw
        (find-update_same (λ a. a.id == id) (fired_again db.now) db.alerts (λ a. refl)
          ∙ ap (Option.map (fired_again db.now)) h)
        refl

  -- Where nothing fails and the cache names an alert that exists for the fingerprint, a firing alert
  -- is counted as one more occurrence of that alert, whatever the alert's status: its status is
  -- kept, and no alert is created, grouped or enriched.
  pub cached_duplicate :
      (env : Externals) (schema : String) (n : NormalizedAlert) (entry : CacheEntry) (id : ℕ)
      (row : Alert)
      → str_eq n.status "firing" ≡ true
      → find (is_cached (redis_key schema n.fingerprint) db.now) db.cache ≡ some entry
      → entry.value ≡ some id
      → find (λ a. a.id == id) db.alerts ≡ some row
      → create_or_dedup env schema n (healthy db)
        ≡ (ok (respond_row (fired_again db.now row), true), healthy (after_duplicate id db))
  unfolding create_or_dedup after_check pure
  cached_duplicate env schema n entry id row firing cached named h = rw firing (
      bind-run _ _ (healthy db) (check_cached schema n.fingerprint entry id cached named)
      ∙ bind-run _ _ (healthy db) (increment-run id row h))
