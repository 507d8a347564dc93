-- ===== src/Alerts/Normal.antt =====
-- What normalization guarantees.
use nightowl.Base.{inl, inr, String, Bool, true, false, ◌≡◌, refl, ◌⊎◌, if◌then◌else◌}
use nightowl.AlertGroup.Severity.{IsSeverity}
use nightowl.Alerts.Normalize.{
  text_at, Externals, NormalizedAlert, AlertmanagerAlert, KeepPayload, GenericPayload, severity_of,
  normalize_severity, normalize_status, normalize_alertmanager, normalize_keep, normalize_generic,
}

if-IsSeverity :
    (b : Bool) (s t : String) → IsSeverity s → IsSeverity t → IsSeverity (if b then s else t)
if-IsSeverity true s t hs ht = hs
if-IsSeverity false s t hs ht = ht

severity_of-IsSeverity : (s : String) → IsSeverity (severity_of s)
severity_of-IsSeverity s = if-IsSeverity _ _ _ (inl (inl refl)) (
    if-IsSeverity _ _ _ (inl (inr refl)) (
      if-IsSeverity _ _ _ (inr (inl refl)) (if-IsSeverity _ _ _ (inr (inr refl)) (inr (inl refl)))))

abbrev pub IsStatus : String → Type 0
IsStatus s = (s ≡ "resolved") ⊎ (s ≡ "firing")

if-IsStatus : (b : Bool) → IsStatus (if b then "resolved" else "firing")
if-IsStatus true = inl refl
if-IsStatus false = inr refl

agent-cases :
    (b : Bool) → (b ≡ false) ⊎ ◌≡◌ {A = String} (if b then "resolved" else "firing") "resolved"
agent-cases true = inr refl
agent-cases false = inl refl

-- A normalized alert has one of the four severities and is firing or resolved; one that an agent
-- resolved is resolved.
abbrev pub IsNormal : NormalizedAlert → Type 0
IsNormal n =
    IsSeverity n.severity
    × IsStatus n.status
    × ((n.resolved_by_agent ≡ false) ⊎ (n.status ≡ "resolved"))

-- Whatever an alert source sends, the alert it is normalized to has one of the four severities and
-- one of the two statuses, and it is resolved if an agent resolved it.
pub normalize-IsNormal :
    (env : Externals) (a : AlertmanagerAlert) (k : KeepPayload) (g : GenericPayload)
    → IsNormal (normalize_alertmanager env a)
      × IsNormal (normalize_keep env k)
      × IsNormal (normalize_generic env g)
unfolding normalize_severity normalize_status normalize_alertmanager normalize_keep
    normalize_generic
normalize-IsNormal env a k g = (
  (severity_of-IsSeverity (env.to_lower (text_at "severity" a.labels)), if-IsStatus _, inl refl),
  (severity_of-IsSeverity (env.to_lower k.severity), if-IsStatus _, inl refl),
  (severity_of-IsSeverity (env.to_lower g.severity), if-IsStatus _, agent-cases _),
)
