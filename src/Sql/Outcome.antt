-- ===== src/Sql/Outcome.antt =====
-- Inversion: what a call that succeeded has done on the way.
use nightowl.Base.{Bool, true, false, List, [], ◌∷◌, ◌≡◌, refl, ap}
use nightowl.Sql.{
  Conn, Sql, SqlError, failed, Result, ok, err, bind_result, run_statement, statement, query, ◌>>=◌,
  wrap, wrap_result,
}

module _ {S E A B : Type 0} where
  bind_result-eq-ok :
      (r : Result E A) (c : Conn S) (f : A → Sql S E B) {b : B}
      → (bind_result (r, c) f).0 ≡ ok b
      → (a : A) × (r ≡ ok a) × ((f a c).0 ≡ ok b)
  bind_result-eq-ok (ok a) c f h = (a, refl, h)
  bind_result-eq-ok (err e) c f h = cc

  -- A bind that succeeds ran its first part, and then its second on the connection left behind.
  pub bind-eq-ok :
      (m : Sql S E A) (f : A → Sql S E B) (c : Conn S) {b : B}
      → ((m >>= f) c).0 ≡ ok b
      → (a : A) × ((m c).0 ≡ ok a) × ((f a (m c).1).0 ≡ ok b)
  unfolding ◌>>=◌
  bind-eq-ok m f c h = bind_result-eq-ok (m c).0 (m c).1 f h

module _ {S A : Type 0} where
  run_statement-eq-ok :
      (f : S → Result SqlError A × S) (s : S) (faults : List Bool) {a : A}
      → (run_statement f s faults).0 ≡ ok a
      → (f s).0 ≡ ok a
  run_statement-eq-ok f s [] h = h
  run_statement-eq-ok f s (false ∷ rest) h = h
  run_statement-eq-ok f s (true ∷ rest) h = cc

  -- A statement that succeeds has the result that the tables give.
  pub statement-eq-ok :
      (f : S → Result SqlError A × S) (c : Conn S) {a : A}
      → (statement f c).0 ≡ ok a
      → (f c.db).0 ≡ ok a
  unfolding statement
  statement-eq-ok f c h = run_statement-eq-ok f c.db c.faults h

  pub query-eq-ok :
      (f : S → Result SqlError A) (c : Conn S) {a : A} → (query f c).0 ≡ ok a → f c.db ≡ ok a
  unfolding query
  query-eq-ok f c h = statement-eq-ok (λ s. (f s, s)) c h

wrap_result-eq-ok {ℓ κ} :
    {E F : Type ℓ} {A : Type κ} (f : E → F) (r : Result E A) {a : A}
    → wrap_result f r ≡ ok a
    → r ≡ ok a
wrap_result-eq-ok f (ok b) h = cc
wrap_result-eq-ok f (err e) h = cc

module _ {S E F A : Type 0} where
  pub wrap-eq-ok :
      (f : E → F) (m : Sql S E A) (c : Conn S) {a : A} → (wrap f m c).0 ≡ ok a → (m c).0 ≡ ok a
  unfolding wrap
  wrap-eq-ok f m c h = wrap_result-eq-ok f (m c).0 h

module _ {S E A B : Type 0} where
  -- A bind whose first part succeeds goes on with its second.
  pub bind-run :
      (m : Sql S E A) (f : A → Sql S E B) (c : Conn S) {a : A} {c' : Conn S}
      → m c ≡ (ok a, c')
      → (m >>= f) c ≡ f a c'
  unfolding ◌>>=◌
  bind-run m f c h = ap (λ r. bind_result r f) h

module _ {S E A B : Type 0} (P : S → Type 0) where
  bind_result-cases :
      (r : Result E A) (c : Conn S) (f : A → Sql S E B)
      → ((e : E) → r ≡ err e → P c.db)
      → ((a : A) → r ≡ ok a → P (f a c).1.db)
      → P (bind_result (r, c) f).1.db
  bind_result-cases (ok a) c f fails works = works a refl
  bind_result-cases (err e) c f fails works = fails e refl

  -- What holds after a bind, by the two outcomes of its first part.
  pub bind-cases :
      (m : Sql S E A) (f : A → Sql S E B) (c : Conn S)
      → ((e : E) → (m c).0 ≡ err e → P (m c).1.db)
      → ((a : A) → (m c).0 ≡ ok a → P (f a (m c).1).1.db)
      → P ((m >>= f) c).1.db
  unfolding ◌>>=◌
  bind-cases m f c fails works = bind_result-cases (m c).0 (m c).1 f fails works

module _ {S A : Type 0} where
  run_query-db :
      (f : S → Result SqlError A) (s : S) (faults : List Bool)
      → (run_statement (λ s. (f s, s)) s faults).1.db ≡ s
  run_query-db f s [] = refl
  run_query-db f s (false ∷ rest) = refl
  run_query-db f s (true ∷ rest) = refl

  -- A `SELECT` leaves the tables as they are.
  pub query-db : (f : S → Result SqlError A) (c : Conn S) → (query f c).1.db ≡ c.db
  unfolding query statement
  query-db f c = run_query-db f c.db c.faults

  run_statement-cases :
      (P : Result SqlError A → S → Type 0) (f : S → Result SqlError A × S) (s : S)
      (faults : List Bool)
      → P (f s).0 (f s).1
      → P (err failed) s
      → P (run_statement f s faults).0 (run_statement f s faults).1.db
  run_statement-cases P f s [] runs fails = runs
  run_statement-cases P f s (false ∷ rest) runs fails = runs
  run_statement-cases P f s (true ∷ rest) runs fails = fails

  -- What holds after a statement, whether it runs or fails.
  pub statement-cases :
      (P : Result SqlError A → S → Type 0) (f : S → Result SqlError A × S) (c : Conn S)
      → P (f c.db).0 (f c.db).1
      → P (err failed) c.db
      → P (statement f c).0 (statement f c).1.db
  unfolding statement
  statement-cases P f c runs fails = run_statement-cases P f c.db c.faults runs fails
