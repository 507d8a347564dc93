-- ===== src/Incident/Fields.antt =====
-- How two incidents are combined and compared (pkg/incident/service.go).
use nightowl.Base.{
  ℕ, String, str_eq, Bool, true, false, ◌||◌, List, [], ◌∷◌, ◌++◌, Option, none, some, ltb, ◌==◌,
  if◌then◌else◌,
}
use Prim.Native.String.{len}
use nightowl.Schema.{Incident}

-- map[string]bool
abbrev pub Seen : Type 0
Seen = String → Bool

abbrev pub mark : String → Seen → Seen
mark s seen t = str_eq t s || seen t

-- One loop of unionSlice: what it appends to the result.
unfoldable pub collect : Seen → List String → List String
collect seen [] = []
collect seen (s ∷ rest) = if seen s then collect seen rest else s ∷ collect (mark s seen) rest

-- The keys seen after the loop.
unfoldable pub collected : Seen → List String → Seen
collected seen [] = seen
collected seen (s ∷ rest) = if seen s then collected seen rest else collected (mark s seen) rest

unfoldable pub union_slice : List String → List String → List String
unfolding collect collected
union_slice a b = collect (λ _. false) a ++ collect (collected (λ _. false) a) b

abbrev pub best_text : Option String → Option String → Option String
best_text none b = b
best_text (some a) none = some a
best_text (some a) (some b) = if ltb (len a) (len b) then some b else some a

-- A missing key of the map reads as 0.
abbrev pub severity_order : String → ℕ
severity_order s =
    if str_eq s "warning"
    then 1
    else if str_eq s "major"
    then 2
    else if str_eq s "critical"
    then 3
    else 0

abbrev pub best_severity : String → String → String
best_severity a b = if ltb (severity_order a) (severity_order b) then b else a

abbrev pub best_uuid : Option ℕ → Option ℕ → Option ℕ
best_uuid (some a) b = some a
best_uuid none b = b

-- reflect.DeepEqual at the types of the fields.
abbrev pub text_eq : Option String → Option String → Bool
text_eq none none = true
text_eq none (some b) = false
text_eq (some a) none = false
text_eq (some a) (some b) = str_eq a b

abbrev pub uuid_eq : Option ℕ → Option ℕ → Bool
uuid_eq none none = true
uuid_eq none (some b) = false
uuid_eq (some a) none = false
uuid_eq (some a) (some b) = a == b

abbrev pub slice_eq : List String → List String → Bool
slice_eq [] [] = true
slice_eq [] (y ∷ ys) = false
slice_eq (x ∷ xs) [] = false
slice_eq (x ∷ xs) (y ∷ ys) = if str_eq x y then slice_eq xs ys else false

abbrev pub add_if_changed : String → Bool → List String → List String
add_if_changed field same rest = if same then rest else field ∷ rest

-- The keys of the map that computeDiff builds, in the order in which it adds them.
unfoldable pub compute_diff : Incident → Incident → List String
compute_diff old new = add_if_changed "title" (str_eq old.title new.title) (
    add_if_changed "fingerprints" (slice_eq old.fingerprints new.fingerprints) (
      add_if_changed "severity" (str_eq old.severity new.severity) (
        add_if_changed "category" (text_eq old.category new.category) (
          add_if_changed "tags" (slice_eq old.tags new.tags) (
            add_if_changed "services" (slice_eq old.services new.services) (
              add_if_changed "clusters" (slice_eq old.clusters new.clusters) (
                add_if_changed "namespaces" (slice_eq old.namespaces new.namespaces) (
                  add_if_changed "symptoms" (text_eq old.symptoms new.symptoms) (
                    add_if_changed "error_patterns" (slice_eq old.error_patterns new.error_patterns)
                      (add_if_changed "root_cause" (text_eq old.root_cause new.root_cause) (
                        add_if_changed "solution" (text_eq old.solution new.solution) (
                          add_if_changed "runbook_id" (uuid_eq old.runbook_id new.runbook_id) (
                            add_if_changed "post_mortem_url"
                              (text_eq old.post_mortem_url new.post_mortem_url) [])))))))))))))
