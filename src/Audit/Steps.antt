-- ===== src/Audit/Steps.antt =====
-- The goroutine's steps (internal/audit/audit.go) keep the rows that are promised to a tenant.
use mathlib.Core.List.{append_assoc, append-nil}
use nightowl.Base.{
  String, Bool, true, false, List, [], ◌∷◌, ◌++◌, map, ◌≡◌, ◌≢◌, refl, ◌∙◌, ap, sym, arith,
  if◌then◌else◌, leb, length,
}
use nightowl.Base.Permutes.{Permutes}
use nightowl.Sql.{Conn}
use nightowl.Audit.Flush.{Entry, AuditRow, Tables, Groups, row_of, flush}
use nightowl.Audit.Groups.{for_schema}
use nightowl.Audit.Delivered.{rows_for, flush-healthy, flush-rows}
use nightowl.Audit.Writer.{
  Writer, Phase, looping, draining, returned, flush_batch, flush_pending, flush_unless_empty,
  collect, loop_receive, drain_receive, goroutine_receives, goroutine_ticks, goroutine_stops,
  flush_and_return,
}

-- The rows that a list of entries makes in a tenant's table.
abbrev pub rows_of : String → List Entry → List AuditRow
rows_of t es = map row_of (for_schema t es)

pub rows_of-append :
    (t : String) (xs ys : List Entry) → rows_of t (xs ++ ys) ≡ rows_of t xs ++ rows_of t ys
rows_of-append t [] ys = refl
rows_of-append t (x ∷ xs) ys = ground (arith, rows_of-append t xs ys)

-- The rows that a tenant's table has, and those still to come from the batch and the channel.
abbrev pub promised : String → Writer → List AuditRow
promised t w = rows_for t w.pool.db ++ rows_of t (w.batch ++ w.entries)

abbrev pub IsHealthy : Writer → Type 0
IsHealthy w = w.pool.faults ≡ []

module _ (range : Groups → Groups) (visits : (gs : Groups) → Permutes gs (range gs)) where
  flush-IsHealthy :
      (es : List Entry) (c : Conn Tables) → c.faults ≡ [] → (flush range es c).faults ≡ []
  flush-IsHealthy es c h =
      ap (λ fs. (flush range es (record { db = c.db; faults = fs })).faults) h
      ∙ ap (λ d. d.faults) (flush-healthy range visits es c.db)

  flush-rows_of :
      (t : String) (es : List Entry) (c : Conn Tables)
      → t ≢ ""
      → c.faults ≡ []
      → rows_for t (flush range es c).db ≡ rows_for t c.db ++ rows_of t es
  flush-rows_of t es c ht h =
      ap (λ fs. rows_for t (flush range es (record { db = c.db; faults = fs })).db) h
      ∙ flush-rows range visits t es c.db ht

  -- What a step that accepts nothing keeps.
  abbrev pub Keeps : String → Writer → Writer → Type 0
  Keeps t w w' = IsHealthy w' × (promised t w' ≡ promised t w)

  flush_unless_empty-rows :
      (t : String) (es : List Entry) (c : Conn Tables)
      → t ≢ ""
      → c.faults ≡ []
      → ((flush_unless_empty range es c).faults ≡ [])
        × (rows_for t (flush_unless_empty range es c).db ≡ rows_for t c.db ++ rows_of t es)
  unfolding flush_unless_empty
  flush_unless_empty-rows t [] c ht h = (h, sym (append-nil (rows_for t c.db)))
  flush_unless_empty-rows t (e ∷ es) c ht h =
      (flush-IsHealthy (e ∷ es) c h, flush-rows_of t (e ∷ es) c ht h)

  flush_pending-Keeps :
      (t : String) (w : Writer) → t ≢ "" → IsHealthy w → Keeps t w (flush_pending range w)
  unfolding flush_pending
  flush_pending-Keeps t w ht h =
      let (h', k) = flush_unless_empty-rows t w.batch w.pool ht h in
      (
        h',
        ap (λ rows. rows ++ rows_of t w.entries) k
            ∙ append_assoc (rows_for t w.pool.db) (rows_of t w.batch) (rows_of t w.entries)
            ∙ ap (λ rows. rows_for t w.pool.db ++ rows) (sym (rows_of-append t w.batch w.entries)),
      )

  if-Keeps :
      (t : String) (w : Writer) (b : Bool) (x y : Writer)
      → Keeps t w x
      → Keeps t w y
      → Keeps t w (if b then x else y)
  if-Keeps t w true x y hx hy = hx
  if-Keeps t w false x y hx hy = hy

  -- An entry moves from the channel to the batch.
  moved-Keeps :
      (t : String) (e : Entry) (rest : List Entry) (w : Writer)
      → IsHealthy w
      → w.entries ≡ e ∷ rest
      → Keeps t w (record w { entries = rest; batch = w.batch ++ e ∷ [] })
  moved-Keeps t e rest w h same = (
    h,
    ap (λ es. rows_for t w.pool.db ++ rows_of t es)
        (append_assoc w.batch (e ∷ []) rest ∙ ap (λ es. w.batch ++ es) (sym same)),
  )

  collect-Keeps :
      (t : String) (e : Entry) (rest : List Entry) (w : Writer)
      → t ≢ ""
      → IsHealthy w
      → w.entries ≡ e ∷ rest
      → Keeps t w (collect range e rest w)
  unfolding collect
  collect-Keeps t e rest w ht h same =
      let w' : Writer = record w { entries = rest; batch = w.batch ++ e ∷ [] } in
      let (h', k) = moved-Keeps t e rest w h same in
      let (h'', k') = flush_pending-Keeps t w' ht h' in
      if-Keeps t w (leb flush_batch (length w'.batch)) (flush_pending range w') w' (h'', k' ∙ k)
        (h', k)

  loop_receive-Keeps :
      (t : String) (es : List Entry) (w : Writer)
      → t ≢ ""
      → IsHealthy w
      → w.entries ≡ es
      → Keeps t w (loop_receive range es w)
  loop_receive-Keeps t (e ∷ rest) w ht h same = collect-Keeps t e rest w ht h same
  loop_receive-Keeps t [] w ht h same =
      if-Keeps t w w.closed (flush_and_return range w) w (flush_pending-Keeps t w ht h) (h, refl)

  drain_receive-Keeps :
      (t : String) (es : List Entry) (w : Writer)
      → t ≢ ""
      → IsHealthy w
      → w.entries ≡ es
      → Keeps t w (drain_receive range es w)
  drain_receive-Keeps t (e ∷ rest) w ht h same = moved-Keeps t e rest w h same
  drain_receive-Keeps t [] w ht h same = flush_pending-Keeps t w ht h

  pub receives-Keeps :
      (t : String) (phase : Phase) (w : Writer)
      → t ≢ ""
      → IsHealthy w
      → Keeps t w (goroutine_receives range phase w)
  receives-Keeps t looping w ht h = loop_receive-Keeps t w.entries w ht h refl
  receives-Keeps t draining w ht h = drain_receive-Keeps t w.entries w ht h refl
  receives-Keeps t returned w ht h = (h, refl)

  pub ticks-Keeps :
      (t : String) (phase : Phase) (w : Writer)
      → t ≢ ""
      → IsHealthy w
      → Keeps t w (goroutine_ticks range phase w)
  ticks-Keeps t looping w ht h = flush_pending-Keeps t w ht h
  ticks-Keeps t draining w ht h = (h, refl)
  ticks-Keeps t returned w ht h = (h, refl)

  pub stops-Keeps :
      (t : String) (phase : Phase) (w : Writer)
      → IsHealthy w
      → Keeps t w (goroutine_stops range phase w)
  stops-Keeps t looping w h =
      if-Keeps t w w.cancelled (record w { phase = draining }) w (h, refl) (h, refl)
  stops-Keeps t draining w h = (h, refl)
  stops-Keeps t returned w h = (h, refl)
