-- ===== src/Tests/Webhooks.antt =====
-- Runs of the webhooks. The sample deduplicates against an alert that has been resolved.
use mathlib.Core.Option
use nightowl.Base.{Option, ◌≡◌, refl, true, false, [], ◌∷◌, none, some}
use nightowl.Sql.{ok, healthy}
use nightowl.Schema.{Database, Alert, null, CacheEntry}
use nightowl.Alerts.Normalize.{
  Externals, NormalizedAlert, AlertmanagerAlert, KeepPayload, GenericPayload,
  normalize_alertmanager, normalize_keep, normalize_generic,
}
use nightowl.Alerts.Webhook.{respond_row, create_or_dedup, handle_keep}
use nightowl.Alerts.Normal.{IsNormal, normalize-IsNormal}
use nightowl.Alerts.Cached.{fired_again, after_duplicate, cached_duplicate}
use nightowl.Alerts.Unassigned.{IsUnassigned}
use nightowl.Alerts.NeverEscalated.{received-IsUnassigned, unassigned_never_escalated}
use nightowl.Escalation.Engine.{process_tenant}
use nightowl.Tests.Data.{empty, alert_with}

abbrev env : Externals
env = record {
  to_lower = λ s. s;
  sha256_hex = λ s. s;
  compile = λ _. none;
  json_text = λ _. "{}";
  keep_annotations = λ _ id. id;
  uuid_text = λ _. "";
  name_le = λ _ _. true;
  rank = λ _ _. none;
  min_rank = 100;
  bookowl = none;
}

abbrev from_alertmanager : AlertmanagerAlert
from_alertmanager = record {
  status = "resolved";
  labels = some (("alertname", "disk full") ∷ ("severity", "p1") ∷ []);
  annotations = none;
  fingerprint = "";
}

abbrev from_keep : KeepPayload
from_keep = record {
  id = "k";
  name = "disk full";
  status = "firing";
  severity = "crit";
  source = [];
  fingerprint = "fp";
  labels = none;
  description = "";
}

abbrev from_generic : GenericPayload
from_generic = record {
  title = "disk full";
  severity = "";
  fingerprint = "fp";
  description = "sda";
  labels = none;
  source = "";
  agent_metadata = some (record {
    agent_id = "a";
    action_taken = "restart";
    action_result = "ok";
    auto_resolved = true;
    confidence = "0.90";
  });
}

normalize-IsNormal_example :
    IsNormal (normalize_alertmanager env from_alertmanager)
    × IsNormal (normalize_keep env from_keep)
    × IsNormal (normalize_generic env from_generic)
normalize-IsNormal_example = normalize-IsNormal env from_alertmanager from_keep from_generic

abbrev resolved : Alert
resolved = alert_with 3 "resolved" none (some 0)

abbrev entry : CacheEntry
entry = record { key = "alert:dedup:acme:fp"; value = some 3; expires_at = 1200 }

abbrev cached : Database
cached = record empty { alerts = resolved ∷ []; cache = entry ∷ [] }

abbrev incoming : NormalizedAlert
incoming = record {
  fingerprint = "fp";
  status = "firing";
  severity = "major";
  source = "keep";
  title = "disk full";
  description = none;
  labels = null;
  annotations = null;
  resolved_by_agent = false;
  agent_resolution_notes = "";
}

cached_duplicate_example :
    create_or_dedup env "acme" incoming (healthy cached)
    ≡ (ok (respond_row (fired_again 1000 resolved), true), healthy (after_duplicate 3 cached))
cached_duplicate_example =
    cached_duplicate cached env "acme" incoming entry 3 resolved refl refl refl refl

received-IsUnassigned_example :
    IsUnassigned (handle_keep env "acme" from_keep (healthy cached)).1.db
received-IsUnassigned_example =
    (received-IsUnassigned env "acme" (from_alertmanager ∷ []) from_keep from_generic 3 none).1.keep
      (healthy cached) (refl, tt)

abbrev open_alert : Database
open_alert = record empty { alerts = alert_with 3 "firing" none (some 0) ∷ [] }

unassigned_never_escalated_example :
    (process_tenant (record { db = open_alert; faults = false ∷ [] })).1.db ≡ open_alert
unassigned_never_escalated_example = unassigned_never_escalated open_alert (false ∷ []) (refl, tt)
