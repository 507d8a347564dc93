-- ===== src/Audit/Shutdown.antt =====
-- The end of the goroutine (Close and the two ways out of `run` in internal/audit/audit.go).
use mathlib.Core.Path.{subst}
use nightowl.Base.{
  ℕ, suc, ◌<◌, Bool, true, false, List, [], ◌∷◌, ◌++◌, ◌≡◌, ◌≢◌, refl, ◌∙◌, ap, sym, arith,
  if◌then◌else◌, ltb, leb, length,
}
use nightowl.Audit.Flush.{Entry, Groups}
use nightowl.Audit.Writer.{
  Writer, Event, log_called, close_called, cancel, receive, tick, done_seen, Phase, looping,
  draining, returned, log, LogOutcome, queued, dropped, panicked, buffer_size, flush_batch,
  flush_pending, collect, step, run, accepted, after_event, kept, loop_receive, drain_receive,
  goroutine_receives, goroutine_ticks, goroutine_stops,
}

-- How often the goroutine gets to receive in a run.
abbrev pub is_receive : Event → Bool
is_receive (log_called e) = false
is_receive close_called = false
is_receive cancel = false
is_receive receive = true
is_receive tick = false
is_receive done_seen = false

abbrev pub receives : List Event → ℕ
receives [] = 0
receives (e ∷ es) = if is_receive e then suc (receives es) else receives es

-- A closed channel that `n` more receives bring to its end.
abbrev pub EndsWithin : ℕ → Phase → List Entry → List Entry → Type 0
EndsWithin n looping entries batch = length entries < n
EndsWithin n draining entries batch = length entries < n
EndsWithin n returned entries batch = (entries ≡ []) × (batch ≡ [])

abbrev pub IsEnding : ℕ → Writer → Type 0
IsEnding n w = (w.closed ≡ true) × EndsWithin n w.phase w.entries w.batch

log-IsEnding :
    (n : ℕ) (e : Entry) (w : Writer) (room : Bool)
    → let w' : Writer = record w { entries = w.entries ++ e ∷ [] } in
      let r : LogOutcome × Writer =
        if w.closed then (panicked, w) else if room then (queued, w') else (dropped, w) in
      IsEnding n w → (r.0 ≡ panicked) × (r.1 ≡ w)
log-IsEnding n e w room (shut, h) = simp shut (refl, refl)

module _ (range : Groups → Groups) where
  if-IsEnding :
      (n : ℕ) (b : Bool) (x y : Writer)
      → IsEnding n x
      → IsEnding n y
      → IsEnding n (if b then x else y)
  if-IsEnding n true x y hx hy = hx
  if-IsEnding n false x y hx hy = hy

  loop_receive-IsEnding :
      (n : ℕ) (es : List Entry) (w : Writer)
      → w.entries ≡ es
      → w.closed ≡ true
      → w.phase ≡ looping
      → length es < suc n
      → IsEnding n (loop_receive range es w)
  unfolding collect flush_pending
  loop_receive-IsEnding n (e ∷ rest) w same shut at h =
      let w' : Writer = record w { entries = rest; batch = w.batch ++ e ∷ [] } in
      if-IsEnding n (leb flush_batch (length w'.batch)) (flush_pending range w') w'
        (shut, rw at (omega (arith, h))) (shut, rw at (omega (arith, h)))
  loop_receive-IsEnding n [] w same shut at h = simp shut (refl, (same, refl))

  drain_receive-IsEnding :
      (n : ℕ) (es : List Entry) (w : Writer)
      → w.entries ≡ es
      → w.closed ≡ true
      → w.phase ≡ draining
      → length es < suc n
      → IsEnding n (drain_receive range es w)
  unfolding flush_pending
  drain_receive-IsEnding n (e ∷ rest) w same shut at h = (shut, rw at (omega (arith, h)))
  drain_receive-IsEnding n [] w same shut at h = (shut, (same, refl))

  receives-IsEnding :
      (n : ℕ) (phase : Phase) (w : Writer)
      → w.phase ≡ phase
      → w.closed ≡ true
      → EndsWithin (suc n) phase w.entries w.batch
      → IsEnding n (goroutine_receives range phase w)
  receives-IsEnding n looping w at shut h = loop_receive-IsEnding n w.entries w refl shut at h
  receives-IsEnding n draining w at shut h = drain_receive-IsEnding n w.entries w refl shut at h
  receives-IsEnding n returned w at shut h = (shut, rw at h)

  ticks-IsEnding :
      (n : ℕ) (phase : Phase) (w : Writer)
      → w.phase ≡ phase
      → w.closed ≡ true
      → EndsWithin n phase w.entries w.batch
      → IsEnding n (goroutine_ticks range phase w)
  unfolding flush_pending
  ticks-IsEnding n looping w at shut h = (shut, rw at h)
  ticks-IsEnding n draining w at shut h = (shut, rw at h)
  ticks-IsEnding n returned w at shut h = (shut, rw at h)

  stops-IsEnding :
      (n : ℕ) (phase : Phase) (w : Writer)
      → w.phase ≡ phase
      → w.closed ≡ true
      → EndsWithin n phase w.entries w.batch
      → IsEnding n (goroutine_stops range phase w)
  stops-IsEnding n looping w at shut h =
      if-IsEnding n w.cancelled (record w { phase = draining }) w (shut, h) (shut, rw at h)
  stops-IsEnding n draining w at shut h = (shut, rw at h)
  stops-IsEnding n returned w at shut h = (shut, rw at h)

  step-IsEnding :
      (n : ℕ) (e : Event) (w : Writer)
      → IsEnding (if is_receive e then suc n else n) w
      → IsEnding n (step range e w)
  unfolding step log
  step-IsEnding n (log_called e) w h =
      let (_, same) = log-IsEnding n e w (ltb (length w.entries) buffer_size) h in
      subst (IsEnding n) (sym same) h
  step-IsEnding n close_called w (shut, h) = (refl, h)
  step-IsEnding n cancel w h = h
  step-IsEnding n receive w (shut, h) = receives-IsEnding n w.phase w refl shut h
  step-IsEnding n tick w (shut, h) = ticks-IsEnding n w.phase w refl shut h
  step-IsEnding n done_seen w (shut, h) = stops-IsEnding n w.phase w refl shut h

  run-IsEnding :
      (es : List Event) (w : Writer) → IsEnding (receives es) w → IsEnding 0 (run range es w)
  unfolding run
  run-IsEnding [] w h = h
  run-IsEnding (e ∷ es) w h = run-IsEnding es (step range e w) (step-IsEnding (receives es) e w h)

  after_event-ending :
      (n : ℕ) (e : Event) (w : Writer) (es : List Entry) → IsEnding n w → after_event e w es ≡ es
  unfolding log
  after_event-ending n (log_called e) w es h =
      ap (λ o. kept o e es) (log-IsEnding n e w (ltb (length w.entries) buffer_size) h).0
  after_event-ending n close_called w es h = refl
  after_event-ending n cancel w es h = refl
  after_event-ending n receive w es h = refl
  after_event-ending n tick w es h = refl
  after_event-ending n done_seen w es h = refl

  -- No entry is accepted once the channel is closed.
  pub accepted-ending :
      (es : List Event) (w : Writer) → IsEnding (receives es) w → accepted range es w ≡ []
  unfolding accepted
  accepted-ending [] w h = refl
  accepted-ending (e ∷ es) w h =
      after_event-ending _ e w (accepted range es (step range e w)) h
      ∙ accepted-ending es (step range e w) (step-IsEnding (receives es) e w h)

  EndsWithin-zero :
      (phase : Phase) (entries batch : List Entry)
      → EndsWithin 0 phase entries batch
      → (phase ≡ returned) × (entries ≡ []) × (batch ≡ [])
  EndsWithin-zero looping entries batch h = absurd (omega (arith, h))
  EndsWithin-zero draining entries batch h = absurd (omega (arith, h))
  EndsWithin-zero returned entries batch (he, hb) = (refl, he, hb)

  EndsWithin-start :
      (n : ℕ) (phase : Phase) (entries batch : List Entry)
      → phase ≢ returned
      → length entries < n
      → EndsWithin n phase entries batch
  EndsWithin-start n looping entries batch p h = h
  EndsWithin-start n draining entries batch p h = h
  EndsWithin-start n returned entries batch p h = absurd (p refl)

  pub close-IsEnding :
      (es : List Event) (w : Writer)
      → w.phase ≢ returned
      → length w.entries < receives es
      → IsEnding (receives es) (step range close_called w)
  unfolding step
  close-IsEnding es w p h = (refl, EndsWithin-start (receives es) w.phase w.entries w.batch p h)

  -- When Close is called and the goroutine has not returned, it returns once it has received one
  -- time more than there are entries waiting, whatever else happens meanwhile, and leaves no entry
  -- in the channel or the batch.
  pub close-returns :
      (es : List Event) (w : Writer)
      → w.phase ≢ returned
      → length w.entries < receives es
      → let w' = run range (close_called ∷ es) w in
        (w'.phase ≡ returned) × (w'.entries ≡ []) × (w'.batch ≡ [])
  unfolding run
  close-returns es w p h =
      let w' = run range es (step range close_called w) in
      EndsWithin-zero w'.phase w'.entries w'.batch
        (run-IsEnding es (step range close_called w) (close-IsEnding es w p h)).1
