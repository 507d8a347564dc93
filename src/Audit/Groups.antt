-- ===== src/Audit/Groups.antt =====
-- What the grouping of a batch by tenant schema (bySchema of internal/audit/audit.go) holds under
-- each schema, and what a permutation of the groups leaves.
use mathlib.Core.List.{append_assoc, append-nil}
use nightowl.Base.{
  ℕ, ◌+◌, ◌≤◌, String, str_eq, eq_iff, false, List, [], ◌∷◌, ◌++◌, ◌≡◌, refl, ◌∙◌, sym, inl, inr,
  arith, if◌then◌else◌, select, Bool-cases,
}
use nightowl.Base.Permutes.{Permutes, nil, cons, swap, trans}
use nightowl.Audit.Flush.{Entry, Groups, add_entry, group_from}

abbrev pub for_schema : String → List Entry → List Entry
for_schema t = select λ e. str_eq e.tenant_schema t

-- The entries of the first group under a schema.
abbrev pub group_at : String → Groups → List Entry
group_at t [] = []
group_at t ((schema, es) ∷ rest) = if str_eq schema t then es else group_at t rest

-- The number of groups under a schema.
abbrev pub groups_at : String → Groups → ℕ
groups_at t [] = 0
groups_at t ((schema, es) ∷ rest) = (if str_eq schema t then 1 else 0) + groups_at t rest

abbrev pub IsGrouping : Groups → Type 0
IsGrouping gs = (t : String) → groups_at t gs ≤ 1

group_at-add_entry :
    (t : String) (e : Entry) (gs : Groups)
    → group_at t (add_entry e gs) ≡ group_at t gs ++ for_schema t (e ∷ [])
unfolding add_entry
group_at-add_entry t e [] = ground arith
group_at-add_entry t e ((schema, es) ∷ rest) = elim (Bool-cases (str_eq schema e.tenant_schema)) [
  | inl same ↦ rw same (
      ground (
        arith,
        eq_iff schema e.tenant_schema,
        eq_iff schema t,
        eq_iff e.tenant_schema t,
        append-nil (group_at t rest),
        append-nil es,
      ))
  | inr other ↦ rw other (
      ground (
        arith,
        eq_iff schema e.tenant_schema,
        eq_iff schema t,
        eq_iff e.tenant_schema t,
        group_at-add_entry t e rest,
        append-nil es,
      ))
]

groups_at-add_entry_ne :
    (t : String) (e : Entry) (gs : Groups)
    → str_eq e.tenant_schema t ≡ false
    → groups_at t (add_entry e gs) ≡ groups_at t gs
unfolding add_entry
groups_at-add_entry_ne t e [] h = ground arith
groups_at-add_entry_ne t e ((schema, es) ∷ rest) h =
    ground (arith, groups_at-add_entry_ne t e rest h)

groups_at-add_entry :
    (t : String) (e : Entry) (gs : Groups) → groups_at t gs ≤ 1 → groups_at t (add_entry e gs) ≤ 1
unfolding add_entry
groups_at-add_entry t e [] h = ground arith
groups_at-add_entry t e ((schema, es) ∷ rest) h = ground (
  arith,
  eq_iff schema e.tenant_schema,
  eq_iff schema t,
  eq_iff e.tenant_schema t,
  groups_at-add_entry t e rest,
  groups_at-add_entry_ne t e rest,
)

pub group_from-IsGrouping :
    (gs : Groups) (es : List Entry) → IsGrouping gs → IsGrouping (group_from gs es)
unfolding group_from
group_from-IsGrouping gs [] h = h
group_from-IsGrouping gs (e ∷ es) h =
    group_from-IsGrouping (add_entry e gs) es (λ t. groups_at-add_entry t e gs (h t))

select-append_one :
    (t : String) (e : Entry) (es : List Entry)
    → for_schema t (e ∷ []) ++ for_schema t es ≡ for_schema t (e ∷ es)
select-append_one t e es = ground arith

-- A schema's group has the schema's entries, in the order of the batch.
pub group_at-group_from :
    (t : String) (gs : Groups) (es : List Entry)
    → group_at t (group_from gs es) ≡ group_at t gs ++ for_schema t es
unfolding group_from
group_at-group_from t gs [] = sym (append-nil (group_at t gs))
group_at-group_from t gs (e ∷ es) =
    rw
      (
        group_at-group_from t (add_entry e gs) es,
        group_at-add_entry t e gs,
        append_assoc,
        select-append_one t e es,
      )
      refl

pub groups_at-Permutes :
    (t : String) {gs hs : Groups} → Permutes gs hs → groups_at t gs ≡ groups_at t hs
groups_at-Permutes t nil = refl
groups_at-Permutes t (cons (schema, es) p) = omega (arith, groups_at-Permutes t p)
groups_at-Permutes t (swap (schema, es) (other, fs) rest) = omega arith
groups_at-Permutes t (trans p q) = groups_at-Permutes t p ∙ groups_at-Permutes t q

-- Where each schema has one group, the order of the groups does not matter.
pub group_at-Permutes :
    (t : String) {gs hs : Groups}
    → Permutes gs hs
    → groups_at t gs ≤ 1
    → group_at t gs ≡ group_at t hs
group_at-Permutes t nil h = refl
group_at-Permutes t (cons (schema, es) p) h = ground (arith, group_at-Permutes t p)
group_at-Permutes t (swap (schema, es) (other, fs) rest) h = ground arith
group_at-Permutes t (trans p q) h =
    group_at-Permutes t p h ∙ group_at-Permutes t q (rw (groups_at-Permutes t p) at h)
