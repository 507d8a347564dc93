-- ===== src/Roster/Generate/Locked.antt =====
-- The generator never touches a locked week, whatever fails on the way.
use nightowl.Base.{
  ℕ, zero, suc, ◌+◌, ◌*◌, ◌≤◌, ◌≡◌, ◌≢◌, refl, ap, ◌∙◌, ◌⊎◌, inl, inr, String, true, false, ◌&&◌,
  List, [], ◌∷◌, map, Option, none, some, ltb, leb, ◌==◌, find, arith, if◌then◌else◌, Bool-cases,
  select, sort_by, find-sort_by, find-ext, find-select, find-append_some, find-update_other,
  find-map, is_some_of,
}
use mathlib.Core.Option
use nightowl.Sql.{Conn, SqlError, Result, ok, pure}
use nightowl.Sql.Preserves.{
  Preserves, preserves_rules, statement-Preserves, query-Preserves, bind-Preserves,
  bind-Preserves_post, wrap-Preserves, pure-Preserves, if-Preserves,
}
use nightowl.Sql.Outcome.{query-eq-ok, wrap-eq-ok}
use nightowl.Schema.{Database, Roster, Member, ScheduleRow}
use nightowl.Roster.Pick.{Counts}
use nightowl.Roster.Store.{
  ScheduleEntry, WeekPlan, is_week, is_distinct, store_week, upsert_week_row, entry_of,
  get_user_display_name, list_schedule, get_roster, list_active_members, get_schedule_week,
  count_primary_weeks_before, count_secondary_weeks_before,
}
use nightowl.Roster.Weeks.{display_name_of, upsert_schedule_week}
use nightowl.Roster.Generate.{
  Tracking, load_counts, look_back, seed_from, seed_consecutive, locked_entry, keep_locked,
  generate_week, generate_weeks, generate_window, generate_for, generate_schedule, listing_existing,
  entry_primary, result_or,
}

ok-injective :
    (xs ys : List ScheduleEntry)
    → ◌≡◌ {A = Result SqlError (List ScheduleEntry)} (ok xs) (ok ys)
    → xs ≡ ys
ok-injective xs ys h = cc

module _ (roster_id week : ℕ) (row : ScheduleRow) where
  -- The stored row of the week is `row`.
  abbrev pub HasWeek : Database → Type 0
  HasWeek db = find (is_week roster_id week) db.roster_schedule ≡ some row

  other_week :
      (r : ℕ) (plan : WeekPlan) (x : ScheduleRow)
      → ((r ≢ roster_id) ⊎ (plan.week_start ≢ week))
      → is_week r plan.week_start x ≡ true
      → is_week roster_id week x ≡ false
  other_week r plan x other h = ground arith

  store_week-HasWeek :
      (r : ℕ) (plan : WeekPlan) (db : Database) (old : Option ScheduleRow)
      → ((r ≢ roster_id) ⊎ (plan.week_start ≢ week))
      → HasWeek db
      → HasWeek (store_week r plan db old).1
  store_week-HasWeek r plan db none other h = find-append_some _ db.roster_schedule _ h
  store_week-HasWeek r plan db (some old) other h =
      find-update_other _ _ _ db.roster_schedule (λ x. other_week r plan x other)
        (λ x. other_week r plan x other)
      ∙ h

  upsert_week_row-HasWeek :
      (r : ℕ) (plan : WeekPlan) (db : Database)
      → ((r ≢ roster_id) ⊎ (plan.week_start ≢ week))
      → HasWeek db
      → HasWeek (upsert_week_row r plan db).1
  unfolding upsert_week_row
  upsert_week_row-HasWeek r plan db other h =
      elim (Bool-cases
        (is_distinct plan.primary_uid plan.secondary_uid && ltb plan.week_start plan.week_end)) [
          | inl allowed ↦ rw allowed (store_week-HasWeek r plan db _ other h)
          | inr refused ↦ rw refused h
        ]

  display_name_of-HasWeek :
      (uuid_text : ℕ → String) (id : Option ℕ) → Preserves HasWeek (display_name_of uuid_text id)
  unfolding display_name_of get_user_display_name
  display_name_of-HasWeek uuid_text none = search preserves_rules
  display_name_of-HasWeek uuid_text (some id) = search preserves_rules

  upsert-HasWeek :
      (uuid_text : ℕ → String) (r : ℕ) (plan : WeekPlan)
      → ((r ≢ roster_id) ⊎ (plan.week_start ≢ week))
      → Preserves HasWeek (upsert_schedule_week uuid_text r plan)
  unfolding upsert_schedule_week
  upsert-HasWeek uuid_text r plan other =
      bind-Preserves _ _ (statement-Preserves _ (λ db h. upsert_week_row-HasWeek r plan db other h))
        λ x. search (preserves_rules, display_name_of-HasWeek)

  load_counts-HasWeek :
      (r start : ℕ) (members : List Member) (p s : Counts)
      → Preserves HasWeek (load_counts r start members p s)
  unfolding load_counts count_primary_weeks_before count_secondary_weeks_before
  load_counts-HasWeek r start [] p s = pure-Preserves _
  load_counts-HasWeek r start (m ∷ ms) p s =
      bind-Preserves _ _ (search preserves_rules)
        λ pc. bind-Preserves _ _ (search preserves_rules) λ sc. load_counts-HasWeek r start ms _ _

  look_back-HasWeek :
      (r start last rounds i run : ℕ) → Preserves HasWeek (look_back r start last rounds i run)
  unfolding look_back get_schedule_week
  look_back-HasWeek r start last zero i run = pure-Preserves _
  look_back-HasWeek r start last (suc rounds) i run =
      bind-Preserves _ _ (search preserves_rules) λ pe.
        if-Preserves (is_some_of (entry_primary (result_or pe none)) last) _ (pure run)
          (λ _. look_back-HasWeek r start last rounds (i + 1) (run + 1)) (λ _. pure-Preserves run)

  seed_from-HasWeek :
      (r start limit : ℕ) (last : Option ℕ) → Preserves HasWeek (seed_from r start limit last)
  seed_from-HasWeek r start limit none = pure-Preserves _
  seed_from-HasWeek r start limit (some last) = search (preserves_rules, look_back-HasWeek)

  seed_consecutive-HasWeek :
      (r start limit : ℕ) → Preserves HasWeek (seed_consecutive r start limit)
  unfolding seed_consecutive get_schedule_week
  seed_consecutive-HasWeek r start limit =
      bind-Preserves _ _ (search preserves_rules) λ prev. seed_from-HasWeek r start limit _

  -- The week is among the existing entries, and locked there.
  abbrev IsKept : List ScheduleEntry → Type 0
  IsKept existing = (e : ScheduleEntry) × (locked_entry existing week ≡ some e)

  generate_week-HasWeek :
      (uuid_text : ℕ → String) (members : List Member) (limit : ℕ) (kept : Option ScheduleEntry)
      (start : ℕ) (t : Tracking)
      → (kept ≡ none → start ≢ week)
      → Preserves HasWeek (generate_week uuid_text roster_id members limit kept start t)
  unfolding generate_week
  generate_week-HasWeek uuid_text members limit (some e) start t other = pure-Preserves _
  generate_week-HasWeek uuid_text members limit none start t other =
      bind-Preserves _ _
        (wrap-Preserves _ _ (upsert-HasWeek uuid_text roster_id _ (inr (other refl))))
        λ entry. pure-Preserves _

  generate_weeks-HasWeek :
      (uuid_text : ℕ → String) (members : List Member) (limit : ℕ) (existing : List ScheduleEntry)
      (weeks start : ℕ) (t : Tracking)
      → (start ≤ week → week ≤ start + weeks * 7 → IsKept existing)
      → Preserves HasWeek (generate_weeks uuid_text roster_id members limit existing weeks start t)
  unfolding generate_weeks
  generate_weeks-HasWeek uuid_text members limit existing zero start t kept = pure-Preserves _
  generate_weeks-HasWeek uuid_text members limit existing (suc weeks) start t kept =
      bind-Preserves _ _
        (generate_week-HasWeek uuid_text members limit _ start t (λ free same.
          let (e, found) = kept (omega arith) (omega arith) in absurd (clash e found free same)))
        λ made.
          bind-Preserves _ _
            (generate_weeks-HasWeek uuid_text members limit existing weeks (start + 7) made.1
              (λ low high. kept (omega arith) (omega arith)))
            λ rest. pure-Preserves _
    where
      clash :
          (e : ScheduleEntry)
          → locked_entry existing week ≡ some e
          → locked_entry existing start ≡ none
          → start ≡ week
          → ⊥
      clash e found free same = cc (found, free, ap (locked_entry existing) same)

  in_window :
      (from to : ℕ) (x : ScheduleRow)
      → from ≤ week
      → week ≤ to
      → ((x.roster_id == roster_id && leb from x.week_start && leb x.week_start to)
          && (x.week_start == week))
        ≡ is_week roster_id week x
  in_window from to x low high = ground arith

  -- The rows of the window, in order.
  abbrev in_order : ℕ → ℕ → Database → List ScheduleRow
  in_order from to db =
      sort_by (λ x. x.week_start)
        (select (λ x. x.roster_id == roster_id && leb from x.week_start && leb x.week_start to)
          db.roster_schedule)

  find-window :
      (from to : ℕ) (db : Database)
      → HasWeek db
      → from ≤ week
      → week ≤ to
      → find (λ e. e.week_start == week) (map (entry_of db) (in_order from to db))
        ≡ some (entry_of db row)
  find-window from to db h low high =
      find-map (λ e. e.week_start == week) (entry_of db) (in_order from to db)
      ∙ ap (Option.map (entry_of db)) (
          find-sort_by (λ x. x.week_start) week _
          ∙ find-select (λ x. x.week_start == week) _ db.roster_schedule
          ∙ find-ext _ (is_week roster_id week) db.roster_schedule
              (λ x. in_window from to x low high)
          ∙ h)

  list_schedule-IsKept :
      (from to : ℕ) (c : Conn Database) (existing : List ScheduleEntry)
      → row.is_locked ≡ true
      → HasWeek c.db
      → (list_schedule roster_id from to c).0 ≡ ok existing
      → from ≤ week
      → week ≤ to
      → IsKept existing
  unfolding list_schedule locked_entry
  list_schedule-IsKept from to c existing locked h e low high =
      let same = query-eq-ok _ c e in
      (
        entry_of c.db row,
        cc (
          ok-injective _ existing same,
          ap keep_locked (find-window from to c.db h low high),
          ap (λ b. if b then some (entry_of c.db row) else none) locked,
        ),
      )

  generate_window-HasWeek :
      (uuid_text : ℕ → String) (members : List Member) (limit start weeks : ℕ)
      → row.is_locked ≡ true
      → Preserves HasWeek (generate_window uuid_text roster_id members limit start weeks)
  unfolding generate_window
  generate_window-HasWeek uuid_text members limit start weeks locked =
      bind-Preserves _ _ (load_counts-HasWeek roster_id start members (λ _. 0) (λ _. 0)) λ counts.
        bind-Preserves_post (λ existing. start ≤ week → week ≤ start + weeks * 7 → IsKept existing)
          _ _ (wrap-Preserves _ _ (unfold list_schedule in query-Preserves _))
          (λ c existing h e low high.
            list_schedule-IsKept start (start + weeks * 7) c existing locked h
              (wrap-eq-ok listing_existing _ c e) low high)
          λ existing kept.
            bind-Preserves _ _ (seed_consecutive-HasWeek roster_id start limit)
              λ seed. generate_weeks-HasWeek uuid_text members limit existing weeks start _ kept

  generate_for-HasWeek :
      (uuid_text : ℕ → String) (roster : Roster) (from weeks : ℕ) (members : List Member)
      → row.is_locked ≡ true
      → Preserves HasWeek (generate_for uuid_text roster_id roster from weeks members)
  generate_for-HasWeek uuid_text roster from weeks [] locked = pure-Preserves []
  generate_for-HasWeek uuid_text roster from weeks (m ∷ ms) locked =
      generate_window-HasWeek uuid_text (m ∷ ms) _ _ weeks locked

  -- Generating the schedule of a roster leaves each of its locked weeks as it is stored, in and
  -- outside the window, whichever statements fail.
  pub generate_schedule_keeps_locked :
      (uuid_text : ℕ → String) (from weeks : ℕ)
      → row.is_locked ≡ true
      → Preserves HasWeek (generate_schedule uuid_text roster_id from weeks)
  unfolding generate_schedule get_roster list_active_members
  generate_schedule_keeps_locked uuid_text from weeks locked =
      bind-Preserves _ _ (search preserves_rules) λ roster.
        bind-Preserves _ _ (search preserves_rules)
          λ members. generate_for-HasWeek uuid_text roster from weeks members locked
