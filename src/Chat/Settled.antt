-- ===== src/Chat/Settled.antt =====
-- A row of an alert that stays as it is, and what a look at the alert tells of it.
use mathlib.Core.Path.{subst}
use nightowl.Base.{
  ℕ, ◌≡◌, ◌≢◌, refl, ap, sym, ◌∙◌, inl, inr, Bool, true, false, List, [], ◌∷◌, Option, none, some,
  ◌==◌, ==_iff, find, update, All, Bool-cases,
}
use nightowl.Sql.{Conn, SqlError, NoError, Result, ok, attempt}
use nightowl.Sql.Outcome.{query-eq-ok}
use nightowl.Sql.Preserves.{Preserves, statement-Preserves}
use nightowl.Schema.{Database, Alert}
use nightowl.Roster.Store.{one_row}
use nightowl.Alerts.Store.{get_alert, acknowledge_alert, returning_alert}
use nightowl.Chat.Interactions.{is_settled}

some-eq : (x y : Alert) → ◌≡◌ {A = Option Alert} (some x) (some y) → x ≡ y
some-eq x y e = cc

module _ (P : Alert → Type 0) (p : Alert → Bool) where
  find-All : (xs : List Alert) {x : Alert} → All P xs → find p xs ≡ some x → P x × (p x ≡ true)
  find-All [] h e = cc
  find-All (y ∷ ys) (hy, h) e = elim (Bool-cases (p y)) [
    | inl hit ↦ subst (λ z. P z × (p z ≡ true)) (some-eq y _ (rw hit at e)) (hy, hit)
    | inr miss ↦ find-All ys h (rw miss at e)
  ]

one_row-eq-ok : (o : Option Alert) {a : Alert} → one_row o ≡ ok a → o ≡ some a
one_row-eq-ok none e = cc
one_row-eq-ok (some b) e = cc

ok-injective :
    (x y : Result SqlError Alert)
    → ◌≡◌ {A = Result NoError (Result SqlError Alert)} (ok x) (ok y)
    → x ≡ y
ok-injective x y e = cc

module _ (row : Alert) where
  -- Every alert with the row's number is the row itself.
  abbrev pub Stands : Database → Type 0
  Stands db = All (λ a. a.id ≡ row.id → a ≡ row) db.alerts

  update-Stands :
      (b : ℕ) (f : Alert → Alert) (xs : List Alert)
      → b ≢ row.id
      → All (λ a. a.id ≡ row.id → a ≡ row) xs
      → ((a : Alert) → (f a).id ≡ a.id)
      → All (λ a. a.id ≡ row.id → a ≡ row) (update (λ a. a.id == b) f xs)
  update-Stands b f [] other h same = tt
  update-Stands b f (a ∷ xs) other (ha, h) same = elim (Bool-cases (a.id == b)) [
    | inl hit ↦ rw hit (
      (λ e. absurd (other (sym ((==_iff a.id b).0 hit) ∙ sym (same a) ∙ e))),
      update-Stands b f xs other h same,
    )
    | inr miss ↦ rw miss (ha, update-Stands b f xs other h same)
  ]

  returning-cases :
      (P : Database → Type 0) (o : Option Alert) (f : Alert → Alert) (old new : Database)
      → P old
      → P new
      → P (returning_alert o f old new).1
  returning-cases P none f old new h k = h
  returning-cases P (some a) f old new h k = k

  pub acknowledge-Stands :
      (id : ℕ) (user : Option ℕ) → id ≢ row.id → Preserves Stands (acknowledge_alert id user)
  unfolding acknowledge_alert
  acknowledge-Stands id user other = statement-Preserves _ (λ db h.
      returning-cases Stands (find (λ a. a.id == id) db.alerts) _ db _ h
        (update-Stands id _ db.alerts other h (λ a. refl)))

  -- What a look at the alert tells while the row stands.
  abbrev pub Found : ℕ → Result SqlError Alert → Type 0
  Found id r = (a : Alert) → r ≡ ok a → id ≡ row.id → a ≡ row

  pub get-Found :
      (id : ℕ) (c : Conn Database) (r : Result SqlError Alert)
      → Stands c.db
      → (attempt {F = NoError} (get_alert id) c).0 ≡ ok r
      → Found id r
  unfolding attempt get_alert
  get-Found id c r h e a ea same =
      let (stands, hit) =
        find-All (λ a. a.id ≡ row.id → a ≡ row) (λ a. a.id == id) c.db.alerts h
          (one_row-eq-ok (find (λ a. a.id == id) c.db.alerts)
            (query-eq-ok _ c (ok-injective _ r e ∙ ea))) in
      stands ((==_iff a.id id).0 hit ∙ same)

  pub settled-other :
      (id : ℕ) (a : Alert)
      → is_settled row ≡ true
      → Found id (ok a)
      → is_settled a ≡ false
      → id ≢ row.id
  settled-other id a settled found open_still same =
      true≢false (sym settled ∙ ap is_settled (sym (found a refl same)) ∙ open_still)
    where
      true≢false : ◌≢◌ {A = Bool} true false
      true≢false e = cc
