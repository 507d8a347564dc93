-- ===== src/AlertGroup/Severity.antt =====
-- The severity that a group shows.
use nightowl.Base.{String, eq_iff, ◌≡◌, ◌⊎◌, inl, inr, arith}
use nightowl.AlertGroup.Matching.{max_severity_of}
use nightowl.AlertGroup.Store.{case_severity}

-- One of the four severities.
abbrev pub IsSeverity : String → Type 0
IsSeverity s = ((s ≡ "critical") ⊎ (s ≡ "major")) ⊎ ((s ≡ "warning") ⊎ (s ≡ "info"))

-- The `CASE` of the SQL statement computes what maxSeverityOf does: the group keeps the more severe
-- of its severity and the new alert's, whatever text the alert has.
case_severity_lem :
    (severity max_severity : String)
    → IsSeverity max_severity
    → case_severity severity max_severity ≡ max_severity_of max_severity severity
case_severity_lem severity max_severity (inl (inl e)) = rw e (
    ground (
      arith,
      eq_iff severity "critical",
      eq_iff severity "major",
      eq_iff severity "warning",
      eq_iff severity "info",
    ))
case_severity_lem severity max_severity (inl (inr e)) = rw e (
    ground (
      arith,
      eq_iff severity "critical",
      eq_iff severity "major",
      eq_iff severity "warning",
      eq_iff severity "info",
    ))
case_severity_lem severity max_severity (inr (inl e)) = rw e (
    ground (
      arith,
      eq_iff severity "critical",
      eq_iff severity "major",
      eq_iff severity "warning",
      eq_iff severity "info",
    ))
case_severity_lem severity max_severity (inr (inr e)) = rw e (
    ground (
      arith,
      eq_iff severity "critical",
      eq_iff severity "major",
      eq_iff severity "warning",
      eq_iff severity "info",
    ))
