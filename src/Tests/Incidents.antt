-- ===== src/Tests/Incidents.antt =====
-- Runs of the incident service.
use nightowl.Base.{
  map, ◌≡◌, refl, ap, true, false, [], ◌∷◌, none, some, inr, arith, find, count, is_some_of, ◌==◌,
}
use nightowl.Sql.{ok, err, healthy}
use nightowl.Schema.{Database, Incident}
use nightowl.Incident.Service.{
  IncidentError, IncidentRequest, IncidentResponse, merged_fields, merge,
}
use nightowl.Incident.Listing.{ListFilters, passes}
use nightowl.Incident.Pages.{page_total, list_incidents-healthy, pages, IsListing, pages_cover}
use nightowl.Incident.Handler.{
  handle_create, handle_update, handle_delete, handle_merge, handle_set_post_mortem_url,
  response_id,
}
use nightowl.Incident.Audited.{IsAudited, changes-IsAudited}
use nightowl.Incident.Final.{IsFinal, merged-IsFinal}
use nightowl.Incident.Combined.{IsCombined}
use nightowl.Incident.Merge.{moved, merge_succeeds}
use nightowl.Incident.Refuse.{merge_refuses}
use nightowl.Incident.Kept.{IsKnown, merge-IsKnown}
use nightowl.Tests.Data.{empty, alert_with, incident_with}

abbrev target : Incident
target = incident_with 1 ("a" ∷ []) none

abbrev source : Incident
source = incident_with 2 ("a" ∷ "b" ∷ []) none

abbrev archived : Incident
archived = incident_with 3 ("c" ∷ []) (some 3)

abbrev known : Database
known = record empty {
  incidents = target ∷ source ∷ archived ∷ [];
  alerts = alert_with 4 "firing" none (some 0) ∷ [];
}

merge_refuses_example :
    (e : IncidentError) × (merge 1 3 none (healthy known) ≡ (err e, healthy known))
merge_refuses_example = merge_refuses target archived known none refl refl (inr (inr refl))

merge_succeeds_example :
    (resp : IncidentResponse) × (after : Database) × (row : Incident) × (merge 1 2 none
        (healthy known)
      ≡ (ok resp, healthy after))
    × (find (λ i. i.id == 1) after.incidents ≡ some row)
    × IsCombined target source 1000 row
    × (find (λ i. i.id == 2) after.incidents
        ≡ some (record source { merged_into_id = some 1; updated_at = 1000 }))
    × (after.alerts ≡ map (moved 2 1 1000) known.alerts)
    × (count (λ a. is_some_of a.matched_incident_id 2) after.alerts ≡ 0)
merge_succeeds_example = merge_succeeds target source none known refl refl refl refl refl

abbrev request : IncidentRequest
request = record { fields = merged_fields target source; runbook_text = none }

merged-IsFinal_example :
    IsFinal 3 3 (merge 1 3 none (record { db = known; faults = false ∷ true ∷ [] })).1.db
merged-IsFinal_example =
    (merged-IsFinal 3 3 (λ _. none) request 1 3 "" none).0.keep
      (record { db = known; faults = false ∷ true ∷ [] })
      (
        ground arith,
        ((λ e. absurd (omega (arith, e))), ((λ e. absurd (omega (arith, e))), ((λ e. refl), tt))),
      )

-- The source has the fingerprint, and marking the source fails.
merge-IsKnown_example :
    IsKnown "b"
      (merge 1 2 none (record { db = known; faults = false ∷ false ∷ false ∷ true ∷ [] })).1.db
merge-IsKnown_example =
    merge-IsKnown "b" 1 2 none (record { db = known; faults = false ∷ false ∷ false ∷ true ∷ [] })
      (2, (source, refl, refl, refl))

abbrev unfiltered : ListFilters
unfiltered = record { severity = ""; category = ""; service = ""; tags = [] }

-- Two incidents of different times.
abbrev listed : Database
listed = record empty { incidents = target ∷ record source { created_at = 1 } ∷ archived ∷ [] }

pages_cover_example :
    IsListing unfiltered listed.incidents (pages (λ l o i j. true) unfiltered listed 1 0 2)
unfolding passes
pages_cover_example =
    pages_cover (λ l o i j. true) unfiltered listed 1 2 2
      (((λ e. absurd (omega (arith, e))), tt), (tt, tt))
      (ap page_total (list_incidents-healthy (λ l o i j. true) unfiltered 1 0 listed)) (omega arith)

changes-IsAudited_example :
    IsAudited "create" response_id (handle_create (λ _. some 1) (some request) none)
    × IsAudited "update" response_id (handle_update (λ _. some 1) "1" (some request) none)
    × IsAudited "delete" (λ _. 1) (handle_delete (λ _. some 1) "1" none)
    × IsAudited "merge" (λ _. 1) (handle_merge (λ _. some 1) "1" (some "2") none)
    × IsAudited "set_post_mortem_url" response_id
        (handle_set_post_mortem_url (λ _. some 1) "1" (some "2") none)
changes-IsAudited_example = changes-IsAudited (λ _. some 1) none (some request) "1" (some "2")
