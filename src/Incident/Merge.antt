-- ===== src/Incident/Merge.antt =====
-- What a merge leaves behind.
use nightowl.Base.{
  inl, inr, ℕ, suc, ◌≡◌, refl, ap, ◌∙◌, String, Bool, true, false, List, [], ◌∷◌, ◌++◌, Option,
  none, some, is_none, is_some_of, ◌==◌, if◌then◌else◌, map, find, update, count, arith, Bool-cases,
  find-update_same, find-update_other,
}
use mathlib.Core.Option
use nightowl.Sql.{ok, pure, exec, healthy, wrap, wrap_result, ◌>>=◌, query, statement, attempt}
use nightowl.Sql.Outcome.{bind-run}
use nightowl.Schema.{Database, Incident, Alert, Runbook}
use nightowl.Incident.Store.{
  with_fields, returning, update_incident_row, is_live, merge_live, set_merged_into,
  reassign_alerts, history_entry, create_history, get_runbook_summary,
}
use nightowl.Incident.Service.{
  IncidentError, IncidentResponse, getting_target, getting_source, updating_target, marking_source,
  runbook_of, respond, record_history, merged_fields, merge_rows, merge_source, merge_target, merge,
}
use nightowl.Incident.Combined.{IsCombined, merged_fields-IsCombined}
use nightowl.Incident.Refuse.{get-run}
use nightowl.Incident.Live.{find-both, find-update_both}

-- No alert refers to the source any more.
count-update_none :
    (p : Alert → Bool) (f : Alert → Alert) (xs : List Alert)
    → ((a : Alert) → p (f a) ≡ false)
    → count p (update p f xs) ≡ 0
count-update_none p f [] moved = refl
count-update_none p f (a ∷ xs) moved = elim (Bool-cases (p a)) [
  | inl hit ↦ rw (hit, moved a) (omega (arith, count-update_none p f xs moved))
  | inr miss ↦ rw (miss, miss) (omega (arith, count-update_none p f xs moved))
]

-- An alert after a merge: one of the source is the target's.
abbrev pub moved : ℕ → ℕ → ℕ → Alert → Alert
moved source target now a =
    if is_some_of a.matched_incident_id source
    then record a { matched_incident_id = some target; updated_at = now }
    else a

update-moved :
    (source target now : ℕ) (xs : List Alert)
    → update
        (λ a. is_some_of a.matched_incident_id source)
        (λ a. record a { matched_incident_id = some target; updated_at = now })
        xs
      ≡ map (moved source target now) xs
update-moved source target now [] = refl
update-moved source target now (a ∷ xs) =
    ap (λ ys. moved source target now a ∷ ys) (update-moved source target now xs)

module _ (target source : Incident) (user : Option ℕ) (db : Database) where
  abbrev merged_target : Incident
  merged_target = with_fields (merged_fields target source) db.now target

  abbrev merged_source : Incident
  merged_source = record source { merged_into_id = some target.id; updated_at = db.now }

  abbrev after_update : Database
  after_update = record db {
    incidents =
        update (λ i. i.id == target.id) (with_fields (merged_fields target source) db.now)
          db.incidents;
  }

  abbrev after_mark : Database
  after_mark = record after_update {
    incidents =
        update (is_live source.id)
          (λ i. record i { merged_into_id = some target.id; updated_at = db.now })
          after_update.incidents;
  }

  abbrev refers : Alert → Bool
  refers a = is_some_of a.matched_incident_id source.id

  abbrev after_alerts : Database
  after_alerts = record after_mark {
    alerts =
        update refers (λ a. record a { matched_incident_id = some target.id; updated_at = db.now })
          db.alerts;
  }

  abbrev with_entry : ℕ → List String → Database → Database
  with_entry id keys s = record s {
    next_id = suc s.next_id;
    incident_history =
        s.incident_history ++ history_entry s.next_id s.now id user "merged" keys ∷ [];
  }

  abbrev after_merge : Database
  after_merge = with_entry source.id ("merged_into_id" ∷ []) (
      with_entry target.id ("merged_source_id" ∷ "reassigned_alerts" ∷ "added_fingerprints" ∷ [])
        after_alerts)

  found_target :
      find (λ i. i.id == target.id) db.incidents ≡ some target
      → find (λ i. i.id == target.id) after_update.incidents ≡ some merged_target
  found_target h =
      find-update_same (λ i. i.id == target.id) (with_fields (merged_fields target source) db.now)
        db.incidents (λ x. refl)
      ∙ ap (Option.map (with_fields (merged_fields target source) db.now)) h

  not_source :
      (i : Incident)
      → (target.id == source.id) ≡ false
      → (i.id == target.id) ≡ true
      → (i.id == source.id) ≡ false
  not_source i other h = ground arith

  not_target :
      (i : Incident)
      → (target.id == source.id) ≡ false
      → is_live source.id i ≡ true
      → (i.id == target.id) ≡ false
  not_target i other h = ground arith

  found_source :
      (target.id == source.id) ≡ false
      → is_none source.merged_into_id ≡ true
      → find (λ i. i.id == source.id) db.incidents ≡ some source
      → find (is_live source.id) after_update.incidents ≡ some source
  found_source other live h =
      find-update_other (is_live source.id) (λ i. i.id == target.id)
        (with_fields (merged_fields target source) db.now) db.incidents
        (λ i hit. rw (not_source i other hit) refl) (λ i hit. rw (not_source i other hit) refl)
      ∙ find-both (λ i. i.id == source.id) (λ i. is_none i.merged_into_id) db.incidents h live

  update-run :
      find (λ i. i.id == target.id) db.incidents ≡ some target
      → wrap updating_target
          (update_incident_row target.id (merged_fields target source))
          (healthy db)
        ≡ (ok merged_target, healthy after_update)
  unfolding wrap update_incident_row statement
  update-run h =
      ap
        (λ o. (
          wrap_result updating_target (returning o db after_update).0,
          healthy (returning o db after_update).1,
        ))
        (found_target h)

  mark-run :
      (target.id == source.id) ≡ false
      → is_none source.merged_into_id ≡ true
      → find (λ i. i.id == source.id) db.incidents ≡ some source
      → wrap marking_source (set_merged_into source.id target.id) (healthy after_update)
        ≡ (ok tt, healthy after_mark)
  unfolding wrap set_merged_into statement
  mark-run other live h =
      ap
        (λ o. (
          wrap_result marking_source (merge_live o source.id target.id after_update).0,
          healthy (merge_live o source.id target.id after_update).1,
        ))
        (found_source other live h)

  reassign-run :
      (E : Type 0)
      → attempt {F = E} (reassign_alerts source.id target.id) (healthy after_mark)
        ≡ (ok (ok (count refers db.alerts)), healthy after_alerts)
  unfolding attempt reassign_alerts statement
  reassign-run E = refl

  history-run :
      (id : ℕ) (keys : List String) (s : Database)
      → record_history id user "merged" keys (healthy s) ≡ (ok tt, healthy (with_entry id keys s))
  unfolding record_history attempt create_history exec statement ◌>>=◌ pure
  history-run id keys s = refl

  runbook_of-run :
      (id : Option ℕ) (s : Database)
      → (rb : Option Runbook) × (runbook_of id (healthy s) ≡ (ok rb, healthy s))
  unfolding attempt get_runbook_summary query statement ◌>>=◌ pure
  runbook_of-run none s = (none, refl)
  runbook_of-run (some id) s = (_, refl)

  respond-run :
      (row : Incident) (s : Database)
      → (resp : IncidentResponse) × (respond row (healthy s) ≡ (ok resp, healthy s))
  unfolding respond pure
  respond-run row s =
      let (rb, e) = runbook_of-run row.runbook_id s in
      (record { row = row; runbook = rb }, bind-run _ _ (healthy s) e)

  marked_source :
      (target.id == source.id) ≡ false
      → is_none source.merged_into_id ≡ true
      → find (λ i. i.id == source.id) db.incidents ≡ some source
      → find (λ i. i.id == source.id) after_merge.incidents ≡ some merged_source
  marked_source other live h =
      find-update_both (λ i. i.id == source.id) (λ i. is_none i.merged_into_id) _
        after_update.incidents (λ i. refl)
        (find-update_other (λ i. i.id == source.id) (λ i. i.id == target.id)
            (with_fields (merged_fields target source) db.now) db.incidents
            (λ i hit. not_source i other hit) (λ i hit. not_source i other hit)
          ∙ h)
        live

  kept_target :
      (target.id == source.id) ≡ false
      → find (λ i. i.id == target.id) db.incidents ≡ some target
      → find (λ i. i.id == target.id) after_merge.incidents ≡ some merged_target
  kept_target other h =
      find-update_other (λ i. i.id == target.id) (is_live source.id) _ after_update.incidents
        (λ i hit. not_target i other hit) (λ i hit. not_target i other hit)
      ∙ found_target h

  rows-run :
      (target.id == source.id) ≡ false
      → is_none source.merged_into_id ≡ true
      → find (λ i. i.id == target.id) db.incidents ≡ some target
      → find (λ i. i.id == source.id) db.incidents ≡ some source
      → (resp : IncidentResponse) × (merge_rows target source target.id source.id user (healthy db)
          ≡ (ok resp, healthy after_merge))
  unfolding merge_rows
  rows-run other live ht hs =
      let (resp, e) = respond-run merged_target after_merge in
      (
        resp,
        bind-run _ _ (healthy db) (update-run ht)
            ∙ bind-run _ _ (healthy after_update) (mark-run other live hs)
            ∙ bind-run _ _ (healthy after_mark) (reassign-run IncidentError)
            ∙ bind-run _ _ (healthy after_alerts) (
                history-run target.id
                  ("merged_source_id" ∷ "reassigned_alerts" ∷ "added_fingerprints" ∷ [])
                  after_alerts)
            ∙ bind-run _ _ (healthy _) (history-run source.id ("merged_into_id" ∷ []) _)
            ∙ e,
      )

  merge-run :
      (target.id == source.id) ≡ false
      → is_none target.merged_into_id ≡ true
      → is_none source.merged_into_id ≡ true
      → find (λ i. i.id == target.id) db.incidents ≡ some target
      → find (λ i. i.id == source.id) db.incidents ≡ some source
      → (resp : IncidentResponse) × (merge target.id source.id user (healthy db)
          ≡ (ok resp, healthy after_merge))
  unfolding merge merge_target merge_source
  merge-run other live_target live ht hs =
      let (resp, e) = rows-run other live ht hs in
      (
        resp,
        rw other (
            bind-run _ _ (healthy db) (get-run getting_target target.id target db ht)
            ∙ rw live_target (
                bind-run _ _ (healthy db) (get-run getting_source source.id source db hs)
                ∙ rw live e)),
      )

  -- Where no statement fails, a merge of two incidents that are not merged yet succeeds: the
  -- target's row combines both, with the union of their lists, the more severe severity, the longer
  -- texts, the runbook of the target or else the source's, and is otherwise as it was; the source is
  -- merged into the target; the alerts of the source, and no other, are now the target's.
  pub merge_succeeds :
      (target.id == source.id) ≡ false
      → is_none target.merged_into_id ≡ true
      → is_none source.merged_into_id ≡ true
      → find (λ i. i.id == target.id) db.incidents ≡ some target
      → find (λ i. i.id == source.id) db.incidents ≡ some source
      → (resp : IncidentResponse) × (after : Database) × (row : Incident) × (merge target.id
            source.id user
            (healthy db)
          ≡ (ok resp, healthy after))
        × (find (λ i. i.id == target.id) after.incidents ≡ some row)
        × IsCombined target source db.now row
        × (find (λ i. i.id == source.id) after.incidents
            ≡ some (record source { merged_into_id = some target.id; updated_at = db.now }))
        × (after.alerts ≡ map (moved source.id target.id db.now) db.alerts)
        × (count (λ a. is_some_of a.matched_incident_id source.id) after.alerts ≡ 0)
  merge_succeeds other live_target live ht hs =
      let (resp, e) = merge-run other live_target live ht hs in
      (
        resp,
        after_merge,
        merged_target,
        e,
        kept_target other ht,
        merged_fields-IsCombined target source db.now,
        marked_source other live hs,
        update-moved source.id target.id db.now db.alerts,
        count-update_none refers _ db.alerts (λ a. other),
      )
