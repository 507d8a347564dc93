-- ===== src/Audit/Delivered.antt =====
-- What a flush writes (internal/audit/audit.go) over a pool whose statements all succeed.
use mathlib.Core.List.{append_assoc, append-nil}
use nightowl.Base.{
  ◌≤◌, String, str_eq, eq_iff, List, [], ◌∷◌, ◌++◌, map, ◌≡◌, ◌≢◌, refl, ◌∙◌, ap, sym, inl, inr,
  arith, if◌then◌else◌, Bool-cases,
}
use nightowl.Base.Permutes.{Permutes}
use nightowl.Sql.{ok, pure, statement, exec, ◌>>=◌, attempt, healthy}
use nightowl.Sql.Outcome.{bind-run}
use nightowl.Audit.Flush.{
  Entry, AuditRow, Tables, Groups, row_of, group_from, create_audit_log_entry, connect,
  write_entries, write_group, write_groups, flush,
}
use nightowl.Audit.Groups.{
  for_schema, group_at, groups_at, group_from-IsGrouping, group_at-group_from, group_at-Permutes,
  groups_at-Permutes, IsGrouping,
}

-- The rows of one tenant's table.
abbrev pub rows_for : String → Tables → List AuditRow
rows_for t [] = []
rows_for t ((schema, row) ∷ rest) =
    if str_eq schema t then row ∷ rows_for t rest else rows_for t rest

abbrev under : String → List Entry → Tables
under schema es = map (λ e. (schema, row_of e)) es

-- What the groups write, one after the other.
abbrev written : Groups → Tables
written [] = []
written ((schema, es) ∷ rest) = (if str_eq schema "" then [] else under schema es) ++ written rest

write_entries-healthy :
    (schema : String) (es : List Entry) (rows : Tables)
    → write_entries schema es (healthy rows) ≡ (ok tt, healthy (rows ++ under schema es))
unfolding write_entries create_audit_log_entry exec statement attempt ◌>>=◌ pure
write_entries-healthy schema [] rows = ap (λ r. (ok tt, healthy r)) (sym (append-nil rows))
write_entries-healthy schema (e ∷ es) rows =
    write_entries-healthy schema es (rows ++ (schema, row_of e) ∷ [])
    ∙ ap (λ r. (ok tt, healthy r)) (append_assoc rows ((schema, row_of e) ∷ []) (under schema es))

write_group-healthy :
    (schema : String) (es : List Entry) (rows : Tables)
    → write_group schema es (healthy rows)
      ≡ (ok tt, healthy (rows ++ (if str_eq schema "" then [] else under schema es)))
unfolding write_group connect exec statement attempt ◌>>=◌ pure
write_group-healthy schema es rows = elim (Bool-cases (str_eq schema "")) [
  | inl none_given ↦ rw none_given (ap (λ r. (ok tt, healthy r)) (sym (append-nil rows)))
  | inr given ↦ rw given (write_entries-healthy schema es rows)
]

write_groups-healthy :
    (gs : Groups) (rows : Tables)
    → write_groups gs (healthy rows) ≡ (ok tt, healthy (rows ++ written gs))
unfolding write_groups pure
write_groups-healthy [] rows = ap (λ r. (ok tt, healthy r)) (sym (append-nil rows))
write_groups-healthy ((schema, es) ∷ rest) rows =
    bind-run (write_group schema es) (λ _. write_groups rest) (healthy rows)
      (write_group-healthy schema es rows)
    ∙ write_groups-healthy rest (rows ++ (if str_eq schema "" then [] else under schema es))
    ∙ ap (λ r. (ok tt, healthy r)) (append_assoc rows _ (written rest))

pub rows_for-append :
    (t : String) (xs ys : Tables) → rows_for t (xs ++ ys) ≡ rows_for t xs ++ rows_for t ys
rows_for-append t [] ys = refl
rows_for-append t ((schema, row) ∷ xs) ys = ground (arith, rows_for-append t xs ys)

rows_for-under :
    (t schema : String) (es : List Entry)
    → rows_for t (under schema es) ≡ (if str_eq schema t then map row_of es else [])
rows_for-under t schema [] = ground arith
rows_for-under t schema (e ∷ es) = ground (arith, rows_for-under t schema es)

rows_for-group :
    (t schema : String) (es : List Entry)
    → t ≢ ""
    → rows_for t (if str_eq schema "" then [] else under schema es)
      ≡ (if str_eq schema t then map row_of es else [])
rows_for-group t schema es ht = elim (Bool-cases (str_eq schema "")) [
  | inl unnamed ↦ rw unnamed (elim (Bool-cases (str_eq schema t)) [
    | inl same ↦ absurd (ht (sym ((eq_iff schema t).0 same) ∙ (eq_iff schema "").0 unnamed))
    | inr other ↦ rw other refl
  ])
  | inr named ↦ rw named (rows_for-under t schema es)
]

rows_for-written_none :
    (t : String) (gs : Groups) → t ≢ "" → groups_at t gs ≤ 0 → rows_for t (written gs) ≡ []
rows_for-written_none t [] ht h = refl
rows_for-written_none t ((schema, es) ∷ rest) ht h =
    rw
      (
        rows_for-append t (if str_eq schema "" then [] else under schema es) (written rest),
        rows_for-group t schema es ht,
      )
      (ground (arith, rows_for-written_none t rest ht))

rows_for-written :
    (t : String) (gs : Groups)
    → t ≢ ""
    → groups_at t gs ≤ 1
    → rows_for t (written gs) ≡ map row_of (group_at t gs)
rows_for-written t [] ht h = refl
rows_for-written t ((schema, es) ∷ rest) ht h =
    rw
      (
        rows_for-append t (if str_eq schema "" then [] else under schema es) (written rest),
        rows_for-group t schema es ht,
      )
      (ground (
        arith,
        rows_for-written_none t rest ht,
        rows_for-written t rest ht,
        append-nil (map row_of es),
      ))

module _ (range : Groups → Groups) (visits : (gs : Groups) → Permutes gs (range gs)) where
  pub flush-healthy :
      (es : List Entry) (rows : Tables)
      → flush range es (healthy rows) ≡ healthy (rows ++ written (range (group_from [] es)))
  unfolding flush
  flush-healthy es rows = ap (λ r. r.1) (write_groups-healthy (range (group_from [] es)) rows)

  -- Over a pool whose statements succeed, each entry of the batch becomes a row of its own
  -- tenant's table, in the order of the batch, whatever the order of the groups.
  pub flush-rows :
      (t : String) (es : List Entry) (rows : Tables)
      → t ≢ ""
      → rows_for t (flush range es (healthy rows)).db
        ≡ rows_for t rows ++ map row_of (for_schema t es)
  flush-rows t es rows ht =
      ap (λ c. rows_for t c.db) (flush-healthy es rows)
      ∙ rows_for-append t rows (written (range groups))
      ∙ ap (λ ys. rows_for t rows ++ ys) (rows_for-written t (range groups) ht visited_once)
      ∙ ap (λ ys. rows_for t rows ++ map row_of ys)
          (sym (group_at-Permutes t (visits groups) (once t)) ∙ group_at-group_from t [] es)
    where
      groups : Groups
      groups = group_from [] es

      once : IsGrouping groups
      once = group_from-IsGrouping [] es (λ u. omega arith)

      visited_once : groups_at t (range groups) ≤ 1
      visited_once = rw (groups_at-Permutes t (visits groups)) at (once t)
