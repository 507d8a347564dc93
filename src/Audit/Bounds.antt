-- ===== src/Audit/Bounds.antt =====
-- The sizes of the channel and of the batch (internal/audit/audit.go).
use nightowl.Base.{
  ◌≤◌, ◌<◌, Bool, true, false, List, [], ◌∷◌, ◌++◌, ◌≡◌, refl, ap, arith, if◌then◌else◌, ltb,
  length, length-append, ltb→lt,
}
use nightowl.Audit.Flush.{Entry, Groups}
use nightowl.Audit.Writer.{
  Writer, Event, log_called, close_called, cancel, receive, tick, done_seen, Phase, looping,
  draining, returned, log, LogOutcome, queued, dropped, panicked, buffer_size, flush_batch,
  flush_pending, collect, step, run, loop_receive, drain_receive, goroutine_receives,
  goroutine_ticks, goroutine_stops,
}

-- The size that a batch may have between two steps.
abbrev pub BatchFits : Phase → List Entry → Type 0
BatchFits looping batch = length batch < flush_batch
BatchFits draining batch = Unit
BatchFits returned batch = batch ≡ []

abbrev pub IsBounded : Writer → Type 0
IsBounded w = (length w.entries ≤ buffer_size) × BatchFits w.phase w.batch

if-IsBounded :
    (b : Bool) (x y : Writer)
    → (b ≡ true → IsBounded x)
    → (b ≡ false → IsBounded y)
    → IsBounded (if b then x else y)
if-IsBounded true x y hx hy = hx refl
if-IsBounded false x y hx hy = hy refl

log-IsBounded :
    (e : Entry) (w : Writer) (closed room : Bool)
    → let w' : Writer = record w { entries = w.entries ++ e ∷ [] } in
      let r : LogOutcome × Writer =
        if closed then (panicked, w) else if room then (queued, w') else (dropped, w) in
      (room ≡ true → length w.entries < buffer_size) → IsBounded w → IsBounded r.1
log-IsBounded e w true room fits h = h
log-IsBounded e w false false fits h = h
log-IsBounded e w false true fits (h, k) =
    (omega (arith, length-append w.entries (e ∷ []), fits refl), k)

module _ (range : Groups → Groups) where
  collect-IsBounded :
      (e : Entry) (rest : List Entry) (w : Writer)
      → length rest ≤ buffer_size
      → w.phase ≡ looping
      → IsBounded (collect range e rest w)
  unfolding collect flush_pending
  collect-IsBounded e rest w h at_loop =
      if-IsBounded _ _ _ (λ full. (h, rw at_loop (omega arith)))
        (λ room. (h, rw at_loop (ground (arith, room))))

  loop_receive-IsBounded :
      (es : List Entry) (w : Writer)
      → IsBounded w
      → w.entries ≡ es
      → w.phase ≡ looping
      → IsBounded (loop_receive range es w)
  unfolding flush_pending
  loop_receive-IsBounded (e ∷ rest) w (h, k) same at_loop =
      collect-IsBounded e rest w (omega (arith, ap length same)) at_loop
  loop_receive-IsBounded [] w (h, k) same at_loop =
      if-IsBounded w.closed _ _ (λ shut. (h, refl)) (λ still. (h, k))

  drain_receive-IsBounded :
      (es : List Entry) (w : Writer)
      → IsBounded w
      → w.entries ≡ es
      → w.phase ≡ draining
      → IsBounded (drain_receive range es w)
  unfolding flush_pending
  drain_receive-IsBounded (e ∷ rest) w (h, k) same drains =
      (omega (arith, ap length same), rw drains tt)
  drain_receive-IsBounded [] w (h, k) same drains = (h, refl)

  receives-IsBounded :
      (phase : Phase) (w : Writer)
      → w.phase ≡ phase
      → IsBounded w
      → IsBounded (goroutine_receives range phase w)
  receives-IsBounded looping w at h = loop_receive-IsBounded w.entries w h refl at
  receives-IsBounded draining w at h = drain_receive-IsBounded w.entries w h refl at
  receives-IsBounded returned w at h = h

  ticks-IsBounded :
      (phase : Phase) (w : Writer)
      → w.phase ≡ phase
      → IsBounded w
      → IsBounded (goroutine_ticks range phase w)
  unfolding flush_pending
  ticks-IsBounded looping w at (h, k) = (h, rw at (omega arith))
  ticks-IsBounded draining w at h = h
  ticks-IsBounded returned w at h = h

  stops-IsBounded :
      (phase : Phase) (w : Writer) → IsBounded w → IsBounded (goroutine_stops range phase w)
  stops-IsBounded looping w (h, k) = if-IsBounded w.cancelled _ _ (λ stop. (h, tt)) (λ go. (h, k))
  stops-IsBounded draining w h = h
  stops-IsBounded returned w h = h

  step-IsBounded : (e : Event) (w : Writer) → IsBounded w → IsBounded (step range e w)
  unfolding step log
  step-IsBounded (log_called e) w h =
      log-IsBounded e w w.closed (ltb (length w.entries) buffer_size) (ltb→lt _ _) h
  step-IsBounded close_called w h = h
  step-IsBounded cancel w h = h
  step-IsBounded receive w h = receives-IsBounded w.phase w refl h
  step-IsBounded tick w h = ticks-IsBounded w.phase w refl h
  step-IsBounded done_seen w h = stops-IsBounded w.phase w h

  -- The channel never holds more than its capacity of 256 entries, the batch of the running loop
  -- is below 32 entries whenever it waits, and a goroutine that has returned leaves no batch.
  pub run-IsBounded : (es : List Event) (w : Writer) → IsBounded w → IsBounded (run range es w)
  unfolding run
  run-IsBounded [] w h = h
  run-IsBounded (e ∷ es) w h = run-IsBounded es (step range e w) (step-IsBounded e w h)
