-- ===== src/Incident/Refuse.antt =====
-- When a merge is refused.
use nightowl.Base.{
  inl, inr, ◌⊎◌, ℕ, ◌≡◌, refl, ap, ◌∙◌, true, false, Option, some, is_none, ◌==◌, find, Bool-cases,
}
use nightowl.Sql.{SqlError, ok, err, raise, healthy, wrap, wrap_result, query, statement}
use nightowl.Sql.Outcome.{bind-run}
use nightowl.Schema.{Database, Incident}
use nightowl.Roster.Store.{one_row}
use nightowl.Incident.Store.{get_incident}
use nightowl.Incident.Service.{
  IncidentError, getting_target, getting_source, target_merged, source_merged, into_itself,
  merge_source, merge_target, merge,
}

module _ (f : SqlError → IncidentError) (id : ℕ) (row : Incident) (db : Database) where
  pub get-run :
      find (λ i. i.id == id) db.incidents ≡ some row
      → wrap f (get_incident id) (healthy db) ≡ (ok row, healthy db)
  unfolding wrap get_incident query statement
  get-run h = ap (λ o. (wrap_result f (one_row o), healthy db)) h

source_refused :
    (target source : Incident) (db : Database) (user : Option ℕ)
    → find (λ i. i.id == source.id) db.incidents ≡ some source
    → is_none source.merged_into_id ≡ false
    → merge_source target target.id source.id user (healthy db) ≡ (err source_merged, healthy db)
unfolding merge_source raise
source_refused target source db user hs merged =
    bind-run _ _ (healthy db) (get-run getting_source source.id source db hs) ∙ rw merged refl

-- Where both incidents are found and no statement fails, a merge is refused, and changes nothing, if
-- an incident is merged into itself, or if one of the two has been merged or archived before.
pub merge_refuses :
    (target source : Incident) (db : Database) (user : Option ℕ)
    → find (λ i. i.id == target.id) db.incidents ≡ some target
    → find (λ i. i.id == source.id) db.incidents ≡ some source
    → ((target.id == source.id) ≡ true)
      ⊎ ((is_none target.merged_into_id ≡ false) ⊎ (is_none source.merged_into_id ≡ false))
    → (e : IncidentError) × (merge target.id source.id user (healthy db) ≡ (err e, healthy db))
unfolding merge merge_target raise
merge_refuses target source db user ht hs why = elim (Bool-cases (target.id == source.id)) [
  | inl same ↦ (into_itself, rw same refl)
  | inr differ ↦ elim (Bool-cases (is_none target.merged_into_id)) [
    | inr merged ↦ (
      target_merged,
      rw differ (
          bind-run _ _ (healthy db) (get-run getting_target target.id target db ht)
          ∙ rw merged refl),
    )
    | inl live ↦ (
      source_merged,
      rw differ (
          bind-run _ _ (healthy db) (get-run getting_target target.id target db ht)
          ∙ rw live (source_refused target source db user hs (remaining differ live why))),
    )
  ]
]
  where
    remaining :
        (target.id == source.id) ≡ false
        → is_none target.merged_into_id ≡ true
        → ((target.id == source.id) ≡ true)
          ⊎ ((is_none target.merged_into_id ≡ false) ⊎ (is_none source.merged_into_id ≡ false))
        → is_none source.merged_into_id ≡ false
    remaining differ live (inl same) = cc
    remaining differ live (inr (inl merged)) = cc
    remaining differ live (inr (inr merged)) = merged
