-- ===== src/Sql/Meets.antt =====
-- Postconditions of calls. `Meets Q m`: whatever fails on the way, a result of `m` satisfies `Q`;
-- and where nothing fails, `m` has a result.
use mathlib.Core.Path.{subst}
use nightowl.Base.{Bool, true, false, ◌≡◌, refl, ap, ◌∙◌, if◌then◌else◌}
use nightowl.Sql.{
  Conn, Sql, SqlError, Result, ok, healthy, pure, bind_result, statement, query, ◌>>=◌, attempt,
  wrap, wrap_result,
}
use nightowl.Sql.Outcome.{bind-eq-ok, statement-eq-ok, wrap-eq-ok}

pub record Meets {S E A : Type 0} (Q : A → Type 0) (m : Sql S E A) : Type 0 where
  pub result : (c : Conn S) (a : A) → (m c).0 ≡ ok a → Q a
  pub total : (s : S) → (a : A) × (s' : S) × (m (healthy s) ≡ (ok a, healthy s'))

module _ {S E A : Type 0} {Q : A → Type 0} where
  pub pure-Meets : (a : A) → Q a → Meets Q (pure {S = S} {E = E} a)
  unfolding pure
  pure-Meets a h = record { result = λ c b e. subst Q (cc) h; total = λ s. (a, s, refl) }

module _ {S A : Type 0} {Q : A → Type 0} where
  pub statement-Meets :
      (f : S → Result SqlError A × S)
      → ((s : S) (a : A) → (f s).0 ≡ ok a → Q a)
      → ((s : S) → (a : A) × ((f s).0 ≡ ok a))
      → Meets Q (statement f)
  unfolding statement
  statement-Meets f post returns = record {
    result = λ c a e. post c.db a (statement-eq-ok f c e);
    total = λ s. ((returns s).0, (f s).1, λ i. ((returns s).1 i, healthy (f s).1));
  }

  pub query-Meets :
      (f : S → Result SqlError A)
      → ((s : S) (a : A) → f s ≡ ok a → Q a)
      → ((s : S) → (a : A) × (f s ≡ ok a))
      → Meets Q (query f)
  unfolding query
  query-Meets f post returns = statement-Meets (λ s. (f s, s)) post returns

module _ {S A : Type 0} where
  -- A `SELECT` where nothing fails.
  pub query-healthy :
      (f : S → Result SqlError A) (s : S)
      → (r : Result SqlError A) × (s' : S) × (query f (healthy s) ≡ (r, healthy s'))
  unfolding query statement
  query-healthy f s = (f s, s, refl)

module _ {S E A B : Type 0} {Q : A → Type 0} {R : B → Type 0} where
  bind-total :
      (m : Sql S E A) (f : A → Sql S E B)
      → Meets Q m
      → ((a : A) → Q a → Meets R (f a))
      → (s : S) → (b : B) × (s' : S) × ((m >>= f) (healthy s) ≡ (ok b, healthy s'))
  unfolding ◌>>=◌
  bind-total m f hm hf s =
      let (a, s', e) = hm.total s in
      let q : Q a = hm.result (healthy s) a (ap (λ r. r.0) e) in
      let (b, s'', e') = (hf a q).total s' in (b, s'', ap (λ r. bind_result r f) e ∙ e')

  pub bind-Meets :
      (m : Sql S E A) (f : A → Sql S E B)
      → Meets Q m
      → ((a : A) → Q a → Meets R (f a))
      → Meets R (m >>= f)
  bind-Meets m f hm hf = record {
    result = λ c b e.
        let (a, ea, eb) = bind-eq-ok m f c e in (hf a (hm.result c a ea)).result (m c).1 b eb;
    total = bind-total m f hm hf;
  }

module _ {S E F A : Type 0} {Q : A → Type 0} where
  pub wrap-Meets : (f : E → F) (m : Sql S E A) → Meets Q m → Meets Q (wrap f m)
  unfolding wrap
  wrap-Meets f m h = record {
    result = λ c a e. h.result c a (wrap-eq-ok f m c e);
    total = λ s. let (a, s', e) = h.total s in (a, s', ap (λ r. (wrap_result f r.0, r.1)) e);
  }

module _ {S E F A : Type 0} where
  -- What is tried may fail, also where no statement does.
  pub attempt-Meets :
      (m : Sql S E A)
      → ((s : S) → (r : Result E A) × (s' : S) × (m (healthy s) ≡ (r, healthy s')))
      → Meets (λ _. Unit {0}) (attempt {F = F} m)
  unfolding attempt
  attempt-Meets m h = record {
    result = λ c a e. tt;
    total = λ s. let (r, s', e) = h s in (r, s', ap (λ x. (ok x.0, x.1)) e);
  }

module _ {S E A : Type 0} {Q : A → Type 0} where
  pub if-Meets :
      (b : Bool) (m n : Sql S E A)
      → (b ≡ true → Meets Q m)
      → (b ≡ false → Meets Q n)
      → Meets Q (if b then m else n)
  if-Meets true m n hm hn = hm refl
  if-Meets false m n hm hn = hn refl

  -- A weaker postcondition.
  pub Meets-mono : {R : A → Type 0} (m : Sql S E A) → Meets Q m → ((a : A) → Q a → R a) → Meets R m
  Meets-mono m h f = record { result = λ c a e. f a (h.result c a e); total = h.total }
