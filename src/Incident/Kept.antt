-- ===== src/Incident/Kept.antt =====
-- No fingerprint is lost.
use mathlib.Core.Option
use nightowl.Base.{
  inl, inr, ℕ, ◌≡◌, refl, sym, ap, ◌∙◌, String, Bool, true, false, ◌||◌, List, [], ◌∷◌, Option,
  some, none, is_none, ◌==◌, ==_iff, find, update, Bool-cases, arith, find-update_same,
  find-update_other, if◌then◌else◌,
}
use nightowl.Sql.{Conn, Sql, SqlError, Result, ok, wrap, raise, ◌>>=◌, ◌>>◌, attempt}
use nightowl.Sql.Outcome.{bind-cases, query-db, query-eq-ok, wrap-eq-ok, statement-cases}
use nightowl.Sql.Preserves.{Preserves, bind-Preserves, wrap-Preserves, attempt-Preserves}
use nightowl.Schema.{Database, Incident}
use nightowl.Roster.Store.{one_row}
use nightowl.Incident.Union.{union_slice-has_string}
use nightowl.Incident.Store.{
  has_string, get_incident, with_fields, set_merged_into, reassign_alerts, update_incident_row,
}
use nightowl.Incident.Service.{
  IncidentError, getting_target, getting_source, respond, record_history, merged_fields, merge_rows,
  merge_source, merge_target, merge, marking_source, updating_target,
}
use nightowl.Incident.Knows.{Knows, mark-Knows, alerts-Knows, history-Knows, respond-Knows}

or_right : (a : Bool) {b : Bool} → b ≡ true → (a || b) ≡ true
or_right true h = refl
or_right false h = h

or_left : (b : Bool) {a : Bool} → a ≡ true → (a || b) ≡ true
or_left b h = rw h refl

one_row-some : (o : Option Incident) (row : Incident) → one_row o ≡ ok row → o ≡ some row
one_row-some none row e = cc
one_row-some (some a) row e = cc

module _ (fingerprint : String) where
  -- Some incident that is not merged has the fingerprint.
  abbrev pub IsKnown : Database → Type 0
  IsKnown db = (id : ℕ) × Knows fingerprint id db

  -- Some such incident is not the source.
  abbrev IsKnownBeside : ℕ → Database → Type 0
  IsKnownBeside source db = (id : ℕ) × ((id == source) ≡ false) × Knows fingerprint id db

  same_row : (o : Option Incident) (a b : Incident) → o ≡ some a → o ≡ some b → a ≡ b
  same_row o a b ha hb = cc

  also_has :
      (id other : ℕ) (db : Database) (a b : Incident)
      → (id == other) ≡ true
      → find (λ i. i.id == id) db.incidents ≡ some a
      → find (λ i. i.id == other) db.incidents ≡ some b
      → has_string fingerprint a.fingerprints ≡ true
      → has_string fingerprint b.fingerprints ≡ true
  also_has id other db a b same ha hb has =
      ap (λ i. has_string fingerprint i.fingerprints)
        (same_row (find (λ i. i.id == other) db.incidents) b a hb
          (ap (λ n. find (λ i. i.id == n) db.incidents) (sym ((==_iff id other).0 same)) ∙ ha))
      ∙ has

  module _ (target source : Incident) (target_id source_id : ℕ) (db : Database)
      (differ : (target_id == source_id) ≡ false)
      (ht : find (λ i. i.id == target_id) db.incidents ≡ some target)
      (live : is_none target.merged_into_id ≡ true)
      (hs : find (λ i. i.id == source_id) db.incidents ≡ some source) where
    abbrev updated : Database
    updated = record db {
      incidents =
          update (λ i. i.id == target_id) (with_fields (merged_fields target source) db.now)
            db.incidents;
    }

    found_updated :
        find (λ i. i.id == target_id) updated.incidents
        ≡ some (with_fields (merged_fields target source) db.now target)
    found_updated =
        find-update_same (λ i. i.id == target_id) (with_fields (merged_fields target source) db.now)
          db.incidents (λ x. refl)
        ∙ ap (Option.map (with_fields (merged_fields target source) db.now)) ht

    target-Knows :
        (has_string fingerprint target.fingerprints || has_string fingerprint source.fingerprints)
          ≡ true
        → IsKnownBeside source_id updated
    unfolding merged_fields
    target-Knows has = (
      target_id,
      differ,
      (
        with_fields (merged_fields target source) db.now target,
        found_updated,
        live,
        union_slice-has_string fingerprint target.fingerprints source.fingerprints ∙ has,
      ),
    )

    elsewhere :
        (id : ℕ) (i : Incident)
        → (id == target_id) ≡ false
        → (i.id == target_id) ≡ true
        → (i.id == id) ≡ false
    elsewhere id i aside hit = ground arith

    updated-Knows : (id : ℕ) → Knows fingerprint id db → IsKnownBeside source_id updated
    updated-Knows id (row, e, row_live, has) = elim (Bool-cases (id == source_id)) [
      | inl is_source ↦ target-Knows (
          or_right (has_string fingerprint target.fingerprints)
            (also_has id source_id db row source is_source e hs has))
      | inr beside ↦ elim (Bool-cases (id == target_id)) [
        | inl is_target ↦ target-Knows (
            or_left (has_string fingerprint source.fingerprints)
              (also_has id target_id db row target is_target e ht has))
        | inr aside ↦ (
          id,
          beside,
          (
            row,
            find-update_other (λ i. i.id == id) (λ i. i.id == target_id)
                  (with_fields (merged_fields target source) db.now) db.incidents
                  (λ i hit. elsewhere id i aside hit) (λ i hit. elsewhere id i aside hit)
                ∙ e,
            row_live,
            has,
          ),
        )
      ]
    ]

    -- The state after the update of the target, whether it ran or failed.
    abbrev AfterUpdate : Result SqlError Incident → Database → Type 0
    AfterUpdate r db' = IsKnown db' × ((row : Incident) → r ≡ ok row → IsKnownBeside source_id db')

    ran-AfterUpdate :
        IsKnownBeside source_id updated
        → AfterUpdate (ok (with_fields (merged_fields target source) db.now target)) updated
    ran-AfterUpdate (id, beside, known) = ((id, known), λ row e. (id, beside, known))

    update_row-AfterUpdate :
        (faults : List Bool)
        → IsKnown db
        → AfterUpdate
            (update_incident_row target_id
              (merged_fields target source)
              (record { db = db; faults = faults })).0
            (update_incident_row target_id
              (merged_fields target source)
              (record { db = db; faults = faults })).1.db
    unfolding update_incident_row
    update_row-AfterUpdate faults (id, known) =
        statement-cases AfterUpdate _ (record { db = db; faults = faults })
          (rw found_updated (ran-AfterUpdate (updated-Knows id known))) ((id, known), λ row e. cc)

  -- The statements after the update keep the fingerprint.
  rest-IsKnown :
      (source_id target_id : ℕ) (user : Option ℕ) (row : Incident) (c : Conn Database)
      → IsKnownBeside source_id c.db
      → IsKnown
          ((wrap marking_source (set_merged_into source_id target_id)
              >> (attempt (reassign_alerts source_id target_id) >>= λ reassigned.
                  record_history target_id user "merged"
                    ("merged_source_id" ∷ "reassigned_alerts" ∷ "added_fingerprints" ∷ [])
                  >> (record_history source_id user "merged" ("merged_into_id" ∷ [])
                      >> respond row)))
            c).1.db
  rest-IsKnown source_id target_id user row c (id, beside, h) =
      let kept : Preserves (Knows fingerprint id) _ =
        bind-Preserves _ _
          (wrap-Preserves _ _ (mark-Knows fingerprint id source_id target_id beside))
          (λ _.
            bind-Preserves _ _
              (attempt-Preserves _ (alerts-Knows fingerprint id source_id target_id))
              (λ _.
                bind-Preserves _ _ (history-Knows fingerprint id target_id user "merged" _) (λ _.
                  bind-Preserves _ _ (history-Knows fingerprint id source_id user "merged" _)
                    (λ _. respond-Knows fingerprint id row)))) in
      (id, kept.keep c h)

  rows-IsKnown :
      (target source : Incident) (target_id source_id : ℕ) (user : Option ℕ) (c : Conn Database)
      → (target_id == source_id) ≡ false
      → find (λ i. i.id == target_id) c.db.incidents ≡ some target
      → is_none target.merged_into_id ≡ true
      → find (λ i. i.id == source_id) c.db.incidents ≡ some source
      → IsKnown c.db
      → IsKnown (merge_rows target source target_id source_id user c).1.db
  unfolding merge_rows wrap
  rows-IsKnown target source target_id source_id user c differ ht live hs known =
      let (after, beside) =
        update_row-AfterUpdate target source target_id source_id c.db differ ht live hs c.faults
          known in
      bind-cases IsKnown
        (wrap updating_target (update_incident_row target_id (merged_fields target source))) _ c
        (λ e failure. after)
        (λ row success. rest-IsKnown source_id target_id user row _ (
          beside row (
            wrap-eq-ok updating_target (update_incident_row target_id (merged_fields target source))
              c success)))

  get-db :
      (f : SqlError → IncidentError) (id : ℕ) (c : Conn Database)
      → (wrap f (get_incident id) c).1.db ≡ c.db
  unfolding wrap get_incident
  get-db f id c = query-db _ c

  get-found :
      (f : SqlError → IncidentError) (id : ℕ) (c : Conn Database) (row : Incident)
      → (wrap f (get_incident id) c).0 ≡ ok row
      → find (λ i. i.id == id) c.db.incidents ≡ some row
  unfolding get_incident
  get-found f id c row e = one_row-some _ row (query-eq-ok _ c (wrap-eq-ok f (get_incident id) c e))

  if-IsKnown :
      {E A : Type 0} (b : Bool) (m n : Sql Database E A) (c : Conn Database)
      → (b ≡ true → IsKnown (m c).1.db)
      → (b ≡ false → IsKnown (n c).1.db)
      → IsKnown ((if b then m else n) c).1.db
  if-IsKnown true m n c hm hn = hm refl
  if-IsKnown false m n c hm hn = hn refl

  source-IsKnown :
      (target : Incident) (target_id source_id : ℕ) (user : Option ℕ) (c : Conn Database)
      → (target_id == source_id) ≡ false
      → find (λ i. i.id == target_id) c.db.incidents ≡ some target
      → is_none target.merged_into_id ≡ true
      → IsKnown c.db
      → IsKnown (merge_source target target_id source_id user c).1.db
  unfolding merge_source raise
  source-IsKnown target target_id source_id user c differ ht live known =
      let same = get-db getting_source source_id c in
      bind-cases IsKnown (wrap getting_source (get_incident source_id)) _ c
        (λ e failure. rw same known)
        (λ source success.
          if-IsKnown (is_none source.merged_into_id) _ _ _
            (λ unmerged.
              rows-IsKnown target source target_id source_id user _ differ (rw same ht) live
                (rw same (get-found getting_source source_id c source success)) (rw same known))
            (λ merged. rw same known))

  target-IsKnown :
      (target_id source_id : ℕ) (user : Option ℕ) (c : Conn Database)
      → (target_id == source_id) ≡ false
      → IsKnown c.db
      → IsKnown (merge_target target_id source_id user c).1.db
  unfolding merge_target raise
  target-IsKnown target_id source_id user c differ known =
      let same = get-db getting_target target_id c in
      bind-cases IsKnown (wrap getting_target (get_incident target_id)) _ c
        (λ e failure. rw same known)
        (λ target success.
          if-IsKnown (is_none target.merged_into_id) _ _ _
            (λ unmerged.
              source-IsKnown target target_id source_id user _ differ
                (rw same (get-found getting_target target_id c target success)) unmerged
                (rw same known))
            (λ merged. rw same known))

  -- A merge loses no fingerprint, at whatever statement it fails: if an incident that is not merged
  -- has it before, one that is not merged has it afterwards.
  pub merge-IsKnown :
      (target_id source_id : ℕ) (user : Option ℕ) (c : Conn Database)
      → IsKnown c.db
      → IsKnown (merge target_id source_id user c).1.db
  unfolding merge raise
  merge-IsKnown target_id source_id user c known =
      if-IsKnown (target_id == source_id) _ _ c (λ same. known)
        (λ differ. target-IsKnown target_id source_id user c differ known)
