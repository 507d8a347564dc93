-- ===== src/Incident/Combined.antt =====
-- The fields that a merge writes to the target (Merge, unionSlice, bestText, bestSeverity and bestUUID
-- of pkg/incident/service.go).
use nightowl.Base.{
  ℕ, suc, ◌≤◌, ◌≡◌, refl, ◌⊎◌, inl, inr, String, ◌||◌, List, Option, none, some, ltb, arith,
  Bool-cases,
}
use nightowl.Schema.{Incident}
use nightowl.Incident.Store.{has_string, with_fields}
use Prim.Native.String.{len}
use nightowl.Incident.Fields.{union_slice, best_text, severity_order, best_severity, best_uuid}
use nightowl.Incident.Union.{IsDistinct, union_slice-has_string, union_slice-IsDistinct}
use nightowl.Incident.Service.{merged_fields}

-- A list with exactly the elements of two lists, each once.
abbrev pub IsUnion : List String → List String → List String → Type 0
IsUnion a b c = ((s : String) → has_string s c ≡ (has_string s a || has_string s b)) × IsDistinct c

-- A text that is not given is shorter than any other.
abbrev pub text_size : Option String → ℕ
text_size none = 0
text_size (some s) = suc (len s)

-- One of two values, and not below either of them in size.
abbrev pub IsGreater : {A : Type 0} → (A → ℕ) → A → A → A → Type 0
IsGreater size a b c = ((c ≡ a) ⊎ (c ≡ b)) × (size a ≤ size c) × (size b ≤ size c)

-- The first of two values that is given.
abbrev pub IsFirst : Option ℕ → Option ℕ → Option ℕ → Type 0
IsFirst none b c = c ≡ b
IsFirst (some a) b c = c ≡ some a

-- A row that combines two incidents: the union of their lists, the more severe severity, the longer
-- texts, the runbook of the target or else the source's, and all else as the target has it.
abbrev pub IsCombined : Incident → Incident → ℕ → Incident → Type 0
IsCombined target source now row =
    IsUnion target.fingerprints source.fingerprints row.fingerprints
    × IsUnion target.tags source.tags row.tags
    × IsUnion target.services source.services row.services
    × IsUnion target.clusters source.clusters row.clusters
    × IsUnion target.namespaces source.namespaces row.namespaces
    × IsUnion target.error_patterns source.error_patterns row.error_patterns
    × IsGreater severity_order target.severity source.severity row.severity
    × IsGreater text_size target.symptoms source.symptoms row.symptoms
    × IsGreater text_size target.root_cause source.root_cause row.root_cause
    × IsGreater text_size target.solution source.solution row.solution
    × IsFirst target.runbook_id source.runbook_id row.runbook_id
    × (row ≡ record target {
      fingerprints = row.fingerprints;
      tags = row.tags;
      services = row.services;
      clusters = row.clusters;
      namespaces = row.namespaces;
      error_patterns = row.error_patterns;
      severity = row.severity;
      symptoms = row.symptoms;
      root_cause = row.root_cause;
      solution = row.solution;
      runbook_id = row.runbook_id;
      updated_at = now;
    })

union : (a b : List String) → IsUnion a b (union_slice a b)
union a b = ((λ s. union_slice-has_string s a b), union_slice-IsDistinct a b)

severity-IsGreater : (a b : String) → IsGreater severity_order a b (best_severity a b)
severity-IsGreater a b = elim (Bool-cases (ltb (severity_order a) (severity_order b))) [
  | inl above ↦ rw above (inr refl, ground arith, omega arith)
  | inr below ↦ rw below (inl refl, omega arith, ground arith)
]

text-IsGreater : (a b : Option String) → IsGreater text_size a b (best_text a b)
text-IsGreater none b = (inr refl, omega arith, omega arith)
text-IsGreater (some a) none = (inl refl, omega arith, omega arith)
text-IsGreater (some a) (some b) = elim (Bool-cases (ltb (len a) (len b))) [
  | inl longer ↦ rw longer (inr refl, ground arith, omega arith)
  | inr shorter ↦ rw shorter (inl refl, omega arith, ground arith)
]

uuid-IsFirst : (a b : Option ℕ) → IsFirst a b (best_uuid a b)
uuid-IsFirst none b = refl
uuid-IsFirst (some a) b = refl

pub merged_fields-IsCombined :
    (target source : Incident) (now : ℕ)
    → IsCombined target source now (with_fields (merged_fields target source) now target)
unfolding merged_fields
merged_fields-IsCombined target source now = (
  union target.fingerprints source.fingerprints,
  union target.tags source.tags,
  union target.services source.services,
  union target.clusters source.clusters,
  union target.namespaces source.namespaces,
  union target.error_patterns source.error_patterns,
  severity-IsGreater target.severity source.severity,
  text-IsGreater target.symptoms source.symptoms,
  text-IsGreater target.root_cause source.root_cause,
  text-IsGreater target.solution source.solution,
  uuid-IsFirst target.runbook_id source.runbook_id,
  refl,
)
