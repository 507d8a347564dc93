-- ===== src/Sql/Preserves.antt =====
-- Invariants of the state under every pattern of failures: one rule for each way to build a call.
use nightowl.Base.{Bool, true, false, List, [], ◌∷◌, ◌≡◌, refl, if◌then◌else◌}
use nightowl.Sql.{
  Conn, Sql, SqlError, Result, ok, err, pure, raise, gets, modify, statement, query, exec, ◌>>=◌,
  bind_result, run_statement, attempt, wrap,
}

-- Whatever fails on the way, and whether or not the call succeeds, `P` still holds after it.
pub record Preserves {S E A : Type 0} (P : S → Type 0) (m : Sql S E A) : Type 0 where
  pub keep : (c : Conn S) → P c.db → P (m c).1.db

module _ {S E A : Type 0} {P : S → Type 0} where
  pub pure-Preserves : (a : A) → Preserves P (pure {E = E} a)
  unfolding pure
  pure-Preserves a = record { keep = λ c h. h }

  pub raise-Preserves : (e : E) → Preserves P (raise {A = A} e)
  unfolding raise
  raise-Preserves e = record { keep = λ c h. h }

  pub gets-Preserves : (f : S → A) → Preserves P (gets {E = E} f)
  unfolding gets
  gets-Preserves f = record { keep = λ c h. h }

  pub if-Preserves :
      (b : Bool) (m n : Sql S E A)
      → (b ≡ true → Preserves P m)
      → (b ≡ false → Preserves P n)
      → Preserves P (if b then m else n)
  if-Preserves true m n hm hn = hm refl
  if-Preserves false m n hm hn = hn refl

module _ {S E : Type 0} {P : S → Type 0} where
  pub modify-Preserves : (f : S → S) → ((s : S) → P s → P (f s)) → Preserves P (modify {E = E} f)
  unfolding modify
  modify-Preserves f h = record { keep = λ c hc. h c.db hc }

module _ {S A : Type 0} {P : S → Type 0} where
  run_statement-Preserves :
      (f : S → Result SqlError A × S) (s : S) (faults : List Bool)
      → ((s : S) → P s → P (f s).1)
      → P s
      → P (run_statement f s faults).1.db
  run_statement-Preserves f s [] h hs = h s hs
  run_statement-Preserves f s (false ∷ rest) h hs = h s hs
  run_statement-Preserves f s (true ∷ rest) h hs = hs

  pub statement-Preserves :
      (f : S → Result SqlError A × S) → ((s : S) → P s → P (f s).1) → Preserves P (statement f)
  unfolding statement
  statement-Preserves f h = record { keep = λ c hc. run_statement-Preserves f c.db c.faults h hc }

  pub query-Preserves : (f : S → Result SqlError A) → Preserves P (query f)
  unfolding query
  query-Preserves f = statement-Preserves (λ s. (f s, s)) (λ s h. h)

module _ {S : Type 0} {P : S → Type 0} where
  pub exec-Preserves : (f : S → S) → ((s : S) → P s → P (f s)) → Preserves P (exec f)
  unfolding exec
  exec-Preserves f h = statement-Preserves (λ s. (ok tt, f s)) h

module _ {S E A B : Type 0} {P : S → Type 0} where
  bind_result-Preserves :
      (r : Result E A) (f : A → Sql S E B) (c : Conn S)
      → ((a : A) → Preserves P (f a))
      → P c.db
      → P (bind_result (r, c) f).1.db
  bind_result-Preserves (ok a) f c hf h = (hf a).keep c h
  bind_result-Preserves (err e) f c hf h = h

  pub bind-Preserves :
      (m : Sql S E A) (f : A → Sql S E B)
      → Preserves P m
      → ((a : A) → Preserves P (f a))
      → Preserves P (m >>= f)
  unfolding ◌>>=◌
  bind-Preserves m f hm hf = record {
    keep = λ c h. bind_result-Preserves (m c).0 f (m c).1 hf (hm.keep c h);
  }

module _ {S E A B : Type 0} {P : S → Type 0} (Q : A → Type 0) where
  bind_result-Preserves_post :
      (r : Result E A) (f : A → Sql S E B) (c : Conn S)
      → ((a : A) → r ≡ ok a → Q a)
      → ((a : A) → Q a → Preserves P (f a))
      → P c.db
      → P (bind_result (r, c) f).1.db
  bind_result-Preserves_post (ok a) f c post hf h = (hf a (post a refl)).keep c h
  bind_result-Preserves_post (err e) f c post hf h = h

  -- The same where the rest relies on what the first call found while `P` held.
  pub bind-Preserves_post :
      (m : Sql S E A) (f : A → Sql S E B)
      → Preserves P m
      → ((c : Conn S) (a : A) → P c.db → (m c).0 ≡ ok a → Q a)
      → ((a : A) → Q a → Preserves P (f a))
      → Preserves P (m >>= f)
  unfolding ◌>>=◌
  bind-Preserves_post m f hm post hf = record {
    keep =
        λ c h. bind_result-Preserves_post (m c).0 f (m c).1 (λ a e. post c a h e) hf (hm.keep c h);
  }

module _ {S E F A : Type 0} {P : S → Type 0} where
  pub attempt-Preserves : (m : Sql S E A) → Preserves P m → Preserves P (attempt {F = F} m)
  unfolding attempt
  attempt-Preserves m h = record { keep = λ c hc. h.keep c hc }

  pub wrap-Preserves : (f : E → F) (m : Sql S E A) → Preserves P m → Preserves P (wrap f m)
  unfolding wrap
  wrap-Preserves f m h = record { keep = λ c hc. h.keep c hc }

pub ruleset preserves_rules = (
  pure-Preserves, raise-Preserves, gets-Preserves, if-Preserves, query-Preserves, bind-Preserves,
  attempt-Preserves, wrap-Preserves,
)
