-- ===== src/Alerts/Dedup.antt =====
-- Deduplication by fingerprint, with a Redis cache before the database (pkg/alert/dedup.go). A Redis
-- command can fail as a statement does.
use Prim.Native.String.{◌++◌ as ◌<>◌}
use nightowl.Base.{
  ℕ, ◌+◌, String, str_eq, Bool, ◌&&◌, not, [], ◌∷◌, ◌++◌, Option, none, some, ltb, find, select,
}
use nightowl.Sql.{
  Sql, SqlError, no_rows, failed, Result, ok, err, pure, raise, modify, query, exec, ◌>>=◌, ◌>>◌,
  attempt, wrap,
}
use nightowl.Schema.{Database, Alert, CacheEntry, deduplicated}
use nightowl.Roster.Store.{one_row}
use nightowl.Alerts.Store.{get_alert, get_alert_by_fingerprint, increment_alert_occurrence}

pub data AlertError : Type 0 where
  dedup_lookup incrementing fetching creating_alert : SqlError → AlertError

-- 5 minutes, in seconds.
abbrev pub dedup_ttl : ℕ
dedup_ttl = 300

abbrev pub redis_key : String → String → String
redis_key schema fingerprint = "alert:dedup:" <> (schema <> (":" <> fingerprint))

-- The key's entry, unless it has expired.
abbrev pub is_cached : String → ℕ → CacheEntry → Bool
is_cached key now e = str_eq e.key key && ltb now e.expires_at

unfoldable pub redis_get : String → Sql Database SqlError CacheEntry
redis_get key = query (λ db. one_row (find (is_cached key db.now) db.cache))

unfoldable pub redis_set : String → ℕ → Sql Database SqlError (Unit {0})
redis_set key id = exec λ db. record db {
  cache =
      record { key = key; value = some id; expires_at = db.now + dedup_ttl }
      ∷ select (λ e. not (str_eq e.key key)) db.cache;
}

-- cacheSet: a failure is logged.
unfoldable pub cache_set : String → String → ℕ → Sql Database AlertError (Unit {0})
cache_set schema fingerprint id = do
  done ← attempt (redis_set (redis_key schema fingerprint) id)
  pure tt

-- RecordNew
abbrev pub record_new : String → String → ℕ → Sql Database AlertError (Unit {0})
record_new = cache_set

-- The alert that the cache names: none on a miss, an error or a value that is no UUID.
abbrev pub hit_of : Result SqlError CacheEntry → Option ℕ
hit_of (ok entry) = entry.value
hit_of (err e) = none

-- What the database answered, for a fingerprint that is not cached.
unfoldable pub check_row :
    String → String → Result SqlError Alert → Sql Database AlertError (Option ℕ)
check_row schema fingerprint (ok a) = cache_set schema fingerprint a.id >>= λ _. pure (some a.id)
check_row schema fingerprint (err no_rows) = pure none
check_row schema fingerprint (err failed) = raise (dedup_lookup failed)

unfoldable pub check_hit : String → String → Option ℕ → Sql Database AlertError (Option ℕ)
check_hit schema fingerprint (some id) = pure (some id)
check_hit schema fingerprint none = do
  row ← attempt (get_alert_by_fingerprint fingerprint)
  check_row schema fingerprint row

-- Check: the alert that the fingerprint duplicates, if any.
unfoldable pub check : String → String → Sql Database AlertError (Option ℕ)
check schema fingerprint = do
  cached ← attempt (redis_get (redis_key schema fingerprint))
  check_hit schema fingerprint (hit_of cached)

-- IncrementAndReturn
unfoldable pub increment_and_return : ℕ → Sql Database AlertError Alert
increment_and_return id = do
  wrap incrementing (increment_alert_occurrence id)
  row ← wrap fetching (get_alert id)
  modify (λ db. record db { metrics = db.metrics ++ deduplicated ∷ [] })
  pure row
