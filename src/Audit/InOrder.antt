-- ===== src/Audit/InOrder.antt =====
-- No entry that Log accepts is lost, doubled or overtaken on its way through the channel and the
-- batch to its tenant's table (internal/audit/audit.go).
use mathlib.Core.List.{append_assoc, append-nil}
use nightowl.Base.{
  String, Bool, true, false, List, [], ◌∷◌, ◌++◌, ◌≡◌, ◌≢◌, refl, ◌∙◌, ap, sym, if◌then◌else◌, ltb,
  length,
}
use nightowl.Base.Permutes.{Permutes}
use nightowl.Audit.Flush.{Entry, Groups}
use nightowl.Audit.Delivered.{rows_for}
use nightowl.Audit.Steps.{
  rows_of, rows_of-append, promised, IsHealthy, receives-Keeps, ticks-Keeps, stops-Keeps,
}
use nightowl.Audit.Writer.{
  Writer, Event, log_called, close_called, cancel, receive, tick, done_seen, log, LogOutcome,
  queued, dropped, panicked, buffer_size, step, run, accepted, kept, after_event,
}

kept-append :
    (t : String) (o : LogOutcome) (e : Entry) (es : List Entry)
    → rows_of t (kept o e []) ++ rows_of t es ≡ rows_of t (kept o e es)
kept-append t queued e es = sym (rows_of-append t (e ∷ []) es)
kept-append t dropped e es = refl
kept-append t panicked e es = refl

module _ (range : Groups → Groups) (visits : (gs : Groups) → Permutes gs (range gs)) where
  -- What is promised, together with what is still to be accepted.
  abbrev Grows : String → Event → Writer → Type 0
  Grows t e w =
      IsHealthy (step range e w)
      × (promised t (step range e w) ≡ promised t w ++ rows_of t (after_event e w []))

  log-Grows :
      (t : String) (e : Entry) (w : Writer) (closed room : Bool)
      → let w' : Writer = record w { entries = w.entries ++ e ∷ [] } in
        let r : LogOutcome × Writer =
          if closed then (panicked, w) else if room then (queued, w') else (dropped, w) in
        IsHealthy w → IsHealthy r.1 × (promised t r.1 ≡ promised t w ++ rows_of t (kept r.0 e []))
  log-Grows t e w true room h = (h, sym (append-nil (promised t w)))
  log-Grows t e w false false h = (h, sym (append-nil (promised t w)))
  log-Grows t e w false true h = (
    h,
    ap (λ es. rows_for t w.pool.db ++ rows_of t es) (sym (append_assoc w.batch w.entries (e ∷ [])))
        ∙ ap (λ rows. rows_for t w.pool.db ++ rows)
            (rows_of-append t (w.batch ++ w.entries) (e ∷ []))
        ∙ sym (append_assoc (rows_for t w.pool.db) _ _),
  )

  step-Grows : (t : String) (e : Event) (w : Writer) → t ≢ "" → IsHealthy w → Grows t e w
  unfolding step log
  step-Grows t (log_called e) w ht h =
      log-Grows t e w w.closed (ltb (length w.entries) buffer_size) h
  step-Grows t close_called w ht h = (h, sym (append-nil (promised t w)))
  step-Grows t cancel w ht h = (h, sym (append-nil (promised t w)))
  step-Grows t receive w ht h =
      let (h', k) = receives-Keeps range visits t w.phase w ht h in
      (h', k ∙ sym (append-nil (promised t w)))
  step-Grows t tick w ht h =
      let (h', k) = ticks-Keeps range visits t w.phase w ht h in
      (h', k ∙ sym (append-nil (promised t w)))
  step-Grows t done_seen w ht h =
      let (h', k) = stops-Keeps range visits t w.phase w h in
      (h', k ∙ sym (append-nil (promised t w)))

  pub run-IsHealthy :
      (t : String) (es : List Event) (w : Writer)
      → t ≢ ""
      → IsHealthy w
      → IsHealthy (run range es w)
  unfolding run
  run-IsHealthy t [] w ht h = h
  run-IsHealthy t (e ∷ es) w ht h = run-IsHealthy t es (step range e w) ht (step-Grows t e w ht h).0

  after_event-append :
      (t : String) (e : Event) (w : Writer) (es : List Entry)
      → rows_of t (after_event e w []) ++ rows_of t es ≡ rows_of t (after_event e w es)
  after_event-append t (log_called e) w es = kept-append t (log e w).0 e es
  after_event-append t close_called w es = refl
  after_event-append t cancel w es = refl
  after_event-append t receive w es = refl
  after_event-append t tick w es = refl
  after_event-append t done_seen w es = refl

  pub run-promised :
      (t : String) (es : List Event) (w : Writer)
      → t ≢ ""
      → IsHealthy w
      → promised t (run range es w) ≡ promised t w ++ rows_of t (accepted range es w)
  unfolding run accepted
  run-promised t [] w ht h = sym (append-nil (promised t w))
  run-promised t (e ∷ es) w ht h =
      let (h', k) = step-Grows t e w ht h in
      let rest = accepted range es (step range e w) in
      run-promised t es (step range e w) ht h'
      ∙ ap (λ rows. rows ++ rows_of t rest) k
      ∙ append_assoc (promised t w) (rows_of t (after_event e w [])) (rows_of t rest)
      ∙ ap (λ rows. promised t w ++ rows) (after_event-append t e w rest)
