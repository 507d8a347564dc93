-- ===== src/Http.antt =====
-- What the HTTP handlers share: the answers, and the steps that each of them takes first or last. The
-- decoding of a body is DecodeAndValidate of the HTTP library; a body that it refuses is `none`, and
-- the library answers 400 or 422 itself.
use nightowl.Base.{ℕ, Option, none, some}
use nightowl.Sql.{Sql, SqlError, no_rows, failed, NoError, Result, ok, err, pure}
use nightowl.Schema.{Database}

-- The answer to a request: 200 or 201 with a body or 204, 400, 404, 422 and 500.
pub data Answer (A : Type 0) : Type 0 where
  answered : A → Answer A
  bad_request not_found unprocessable internal_error : Answer A

-- errors.Is(err, pgx.ErrNoRows) answers 404.
abbrev pub not_found_or : {A : Type 0} → Option SqlError → Answer A → Answer A
not_found_or none other = other
not_found_or (some no_rows) other = not_found
not_found_or (some failed) other = other

-- A handler on the tables, whose errors are answers.
abbrev pub Handled : Type 0 → Type 0
Handled A = Sql Database NoError (Answer A)

-- An id of the path, or another text, that was parsed.
abbrev pub with_parsed : {A : Type 0} → Option ℕ → (ℕ → Handled A) → Handled A
with_parsed none k = pure bad_request
with_parsed (some n) k = k n

-- A body that was decoded.
abbrev pub with_body : {A B : Type 0} → Option A → (A → Handled B) → Handled B
with_body none k = pure bad_request
with_body (some a) k = k a

-- The answer to a result, where every error is a 500.
abbrev pub or_internal : {E A : Type 0} → Result E A → Answer A
or_internal (ok a) = answered a
or_internal (err e) = internal_error

-- The answer to a result of the store, where ErrNoRows is a 404.
abbrev pub or_not_found : {A : Type 0} → Result SqlError A → Answer A
or_not_found (ok a) = answered a
or_not_found (err e) = not_found_or (some e) internal_error
