-- ===== src/Audit/Flush.antt =====
-- Entry, and the flush of a batch (internal/audit/audit.go). A row is inserted into the tenant
-- schema that the search path names; the id and the time that the table gives a row are left out.
-- A failed acquisition or statement is logged and the flush goes on. Go ranges over a map in no
-- fixed order: the order is the parameter `range`. A flush that runs out of its ten seconds has
-- failing statements.
use nightowl.Base.{ℕ, String, str_eq, List, [], ◌∷◌, ◌++◌, Option, none, some, ◌==◌, if◌then◌else◌}
use nightowl.Sql.{NoError, Sql, SqlError, Result, ok, err, Conn, pure, exec, ◌>>=◌, attempt}

pub record Entry : Type 0 where
  pub tenant_schema : String
  pub user_id : Option ℕ
  pub api_key_id : Option ℕ
  pub action : String
  pub resource : String
  pub resource_id : ℕ
  pub detail : Option String
  pub ip_address : Option String
  pub user_agent : Option String

-- CreateAuditLogEntryParams: the columns of `audit_log`.
pub record AuditRow : Type 0 where
  pub user_id : Option ℕ
  pub api_key_id : Option ℕ
  pub action : String
  pub resource : String
  pub resource_id : Option ℕ
  pub detail : Option String
  pub ip_address : Option String
  pub user_agent : Option String

-- The rows of the tenants' tables, each with its schema, in the order of insertion.
abbrev pub Tables : Type 0
Tables = List (String × AuditRow)

-- pgtype.UUID{Bytes: e.ResourceID, Valid: e.ResourceID != uuid.Nil}
abbrev pub valid_id : ℕ → Option ℕ
valid_id id = if id == 0 then none else some id

unfoldable pub row_of : Entry → AuditRow
row_of e = record {
  user_id = e.user_id;
  api_key_id = e.api_key_id;
  action = e.action;
  resource = e.resource;
  resource_id = valid_id e.resource_id;
  detail = e.detail;
  ip_address = e.ip_address;
  user_agent = e.user_agent;
}

-- bySchema
abbrev pub Groups : Type 0
Groups = List (String × List Entry)

-- bySchema[e.TenantSchema] = append(bySchema[e.TenantSchema], e)
unfoldable pub add_entry : Entry → Groups → Groups
add_entry e [] = (e.tenant_schema, e ∷ []) ∷ []
add_entry e ((schema, es) ∷ rest) =
    if str_eq schema e.tenant_schema
    then (schema, es ++ e ∷ []) ∷ rest
    else (schema, es) ∷ add_entry e rest

unfoldable pub group_from : Groups → List Entry → Groups
group_from groups [] = groups
group_from groups (e ∷ es) = group_from (add_entry e groups) es

unfoldable pub create_audit_log_entry : String → Entry → Sql Tables SqlError (Unit {0})
create_audit_log_entry schema e = exec (λ rows. rows ++ (schema, row_of e) ∷ [])

-- The loop over the entries of a schema.
unfoldable pub write_entries : String → List Entry → Sql Tables NoError (Unit {0})
write_entries schema [] = pure tt
write_entries schema (e ∷ es) = do
  r ← attempt (create_audit_log_entry schema e)
  write_entries schema es

-- `pool.Acquire` and `SET search_path`: they change no table.
unfoldable pub connect : Sql Tables SqlError (Unit {0})
connect = exec (λ rows. rows)

abbrev pub after_path :
    String → List Entry → Result SqlError (Unit {0}) → Sql Tables NoError (Unit {0})
after_path schema es (ok _) = write_entries schema es
after_path schema es (err e) = pure tt

abbrev pub after_acquire :
    String → List Entry → Result SqlError (Unit {0}) → Sql Tables NoError (Unit {0})
after_acquire schema es (ok _) = attempt connect >>= after_path schema es
after_acquire schema es (err e) = pure tt

unfoldable pub write_group : String → List Entry → Sql Tables NoError (Unit {0})
write_group schema es =
    if str_eq schema "" then pure tt else attempt connect >>= after_acquire schema es

unfoldable pub write_groups : Groups → Sql Tables NoError (Unit {0})
write_groups [] = pure tt
write_groups ((schema, es) ∷ rest) = do _ ← write_group schema es; write_groups rest

module _ (range : Groups → Groups) where
  unfoldable pub flush : List Entry → Conn Tables → Conn Tables
  flush entries c = (write_groups (range (group_from [] entries)) c).1
