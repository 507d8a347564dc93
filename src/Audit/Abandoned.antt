-- ===== src/Audit/Abandoned.antt =====
-- The channel after the goroutine has returned (Log, Close and `run` of internal/audit/audit.go).
use mathlib.Core.List.{append_assoc, append-nil}
use nightowl.Base.{
  Bool, true, false, List, [], ◌∷◌, ◌++◌, ◌≡◌, refl, ◌∙◌, ap, sym, if◌then◌else◌, ltb, length,
}
use nightowl.Audit.Flush.{Entry, Groups}
use nightowl.Audit.Writer.{
  Writer, Event, log_called, close_called, cancel, receive, tick, done_seen, returned, log,
  LogOutcome, queued, dropped, panicked, buffer_size, step, run, accepted, after_event, kept,
}

kept-split : (o : LogOutcome) (e : Entry) (es : List Entry) → kept o e [] ++ es ≡ kept o e es
kept-split queued e es = refl
kept-split dropped e es = refl
kept-split panicked e es = refl

module _ (range : Groups → Groups) where
  -- What a step of a goroutine that has returned leaves alone, and what it adds to the channel.
  abbrev IsIdle : Event → Writer → Writer → Type 0
  IsIdle e w w' =
      (w'.phase ≡ w.phase) × (w'.pool ≡ w.pool) × (w'.entries ≡ w.entries ++ after_event e w [])

  log-idle :
      (e : Entry) (w : Writer) (closed room : Bool)
      → let w' : Writer = record w { entries = w.entries ++ e ∷ [] } in
        let r : LogOutcome × Writer =
          if closed then (panicked, w) else if room then (queued, w') else (dropped, w) in
        (r.1.phase ≡ w.phase) × (r.1.pool ≡ w.pool) × (r.1.entries ≡ w.entries ++ kept r.0 e [])
  log-idle e w true room = (refl, refl, sym (append-nil w.entries))
  log-idle e w false true = (refl, refl, refl)
  log-idle e w false false = (refl, refl, sym (append-nil w.entries))

  step-IsIdle : (e : Event) (w : Writer) → w.phase ≡ returned → IsIdle e w (step range e w)
  unfolding step log
  step-IsIdle (log_called e) w at = log-idle e w w.closed (ltb (length w.entries) buffer_size)
  step-IsIdle close_called w at = (refl, refl, sym (append-nil w.entries))
  step-IsIdle cancel w at = (refl, refl, sym (append-nil w.entries))
  step-IsIdle receive w at = rw at (refl, refl, sym (append-nil w.entries))
  step-IsIdle tick w at = rw at (refl, refl, sym (append-nil w.entries))
  step-IsIdle done_seen w at = rw at (refl, refl, sym (append-nil w.entries))

  after_event-split :
      (e : Event) (w : Writer) (es : List Entry) → after_event e w [] ++ es ≡ after_event e w es
  after_event-split (log_called e) w es = kept-split (log e w).0 e es
  after_event-split close_called w es = refl
  after_event-split cancel w es = refl
  after_event-split receive w es = refl
  after_event-split tick w es = refl
  after_event-split done_seen w es = refl

  -- Once the goroutine has returned, no table changes any more, also when Close is called later:
  -- the entries that Log goes on accepting stay in the channel, in order.
  pub returned-abandons :
      (es : List Event) (w : Writer)
      → w.phase ≡ returned
      → let w' = run range es w in
        (w'.pool ≡ w.pool) × (w'.entries ≡ w.entries ++ accepted range es w)
  unfolding run accepted
  returned-abandons [] w at = (refl, sym (append-nil w.entries))
  returned-abandons (e ∷ es) w at =
      let (same_phase, same_pool, grown) = step-IsIdle e w at in
      let (pool_kept, left) = returned-abandons es (step range e w) (same_phase ∙ at) in
      (
        pool_kept ∙ same_pool,
        left
            ∙ ap (λ xs. xs ++ accepted range es (step range e w)) grown
            ∙ append_assoc w.entries (after_event e w []) (accepted range es (step range e w))
            ∙ ap (λ xs. w.entries ++ xs)
                (after_event-split e w (accepted range es (step range e w))),
      )
