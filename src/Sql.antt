-- ===== src/Sql.antt =====
-- The calls that the stores make over a database connection (pkg/*/store.go, and the queries of
-- sqlc/queries, whose generated Go is not in the repository). A call is a function of the whole
-- state; `faults` says of each of the coming statements whether the server or the network fails
-- it, so a statement about every connection holds for every pattern of failures. A list that has
-- run out means no further failure. A failed statement changes nothing.
pub mod Preserves
pub mod Outcome
pub mod Meets
use nightowl.Base.{Bool, true, false, List, [], ◌∷◌, ◌≡◌, refl, ◌⊎◌, inl, inr}

-- `no_rows` is pgx.ErrNoRows; `failed` is any other error of the driver or the server.
pub data SqlError : Type 0 where
  no_rows failed : SqlError

-- The errors of a caller that handles them all.
pub data NoError : Type 0 where

pub data Result {ℓ κ} (E : Type ℓ) (A : Type κ) : Type (ℓ ⊔ κ) where
  ok : A → Result E A
  err : E → Result E A

pub record Conn (S : Type 0) : Type 0 where
  pub db : S
  pub faults : List Bool

abbrev pub Sql : Type 0 → Type 0 → Type 0 → Type 0
Sql S E A = Conn S → Result E A × Conn S

module _ {S E A : Type 0} where
  unfoldable pub pure : A → Sql S E A
  pure a c = (ok a, c)

  unfoldable pub raise : E → Sql S E A
  raise e c = (err e, c)

  -- A read or a write of memory that cannot fail.
  unfoldable pub gets : (S → A) → Sql S E A
  gets f c = (ok (f c.db), c)

module _ {S E : Type 0} where
  unfoldable pub modify : (S → S) → Sql S E (Unit {0})
  modify f c = (ok tt, record c { db = f c.db })

module _ {S A : Type 0} where
  -- One statement sent to the server.
  abbrev pub run_statement :
      (S → Result SqlError A × S) → S → List Bool → Result SqlError A × Conn S
  run_statement f s [] = ((f s).0, record { db = (f s).1; faults = [] })
  run_statement f s (false ∷ rest) = ((f s).0, record { db = (f s).1; faults = rest })
  run_statement f s (true ∷ rest) = (err failed, record { db = s; faults = rest })

  unfoldable pub statement : (S → Result SqlError A × S) → Sql S SqlError A
  statement f c = run_statement f c.db c.faults

module _ {S A : Type 0} where
  -- A `SELECT`: it changes nothing.
  unfoldable pub query : (S → Result SqlError A) → Sql S SqlError A
  unfolding statement
  query f = statement (λ s. (f s, s))

module _ {S : Type 0} where
  -- A statement whose number of affected rows is not read.
  unfoldable pub exec : (S → S) → Sql S SqlError (Unit {0})
  unfolding statement
  exec f = statement (λ s. (ok tt, f s))

abbrev pub wrap_result {ℓ κ} : {E F : Type ℓ} {A : Type κ} → (E → F) → Result E A → Result F A
wrap_result f (ok a) = ok a
wrap_result f (err e) = err (f e)

module _ {S E F A : Type 0} where
  -- `x, err := call`: the caller goes on with the result, whatever it is.
  unfoldable pub attempt : Sql S E A → Sql S F (Result E A)
  attempt m c = (ok (m c).0, (m c).1)

  -- `fmt.Errorf("...: %w", err)`.
  unfoldable pub wrap : (E → F) → Sql S E A → Sql S F A
  wrap f m c = (wrap_result f (m c).0, (m c).1)

module _ {S E A B : Type 0} where
  abbrev pub bind_result : Result E A × Conn S → (A → Sql S E B) → Result E B × Conn S
  bind_result (ok a, c) f = f a c
  bind_result (err e, c) f = (err e, c)

  infixl 5 ◌>>=◌
  unfoldable pub ◌>>=◌ : Sql S E A → (A → Sql S E B) → Sql S E B
  unfolding pure raise gets modify attempt wrap
  ◌>>=◌ m f c = bind_result (m c) f

module _ {S E B : Type 0} where
  infixl 5 ◌>>◌
  abbrev pub ◌>>◌ : Sql S E (Unit {0}) → Sql S E B → Sql S E B
  m >> k = m >>= λ _. k

-- The result of a connection with no failure ahead.
abbrev pub healthy : {S : Type 0} → S → Conn S
healthy s = record { db = s; faults = [] }

pub Result-cases {ℓ κ} :
    {E : Type ℓ} {A : Type κ} (r : Result E A) → ((a : A) × (r ≡ ok a)) ⊎ ((e : E) × (r ≡ err e))
Result-cases (ok a) = inl (a, refl)
Result-cases (err e) = inr (e, refl)
