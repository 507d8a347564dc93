-- ===== src/Audit/Writer.antt =====
-- Writer, Log, Close and the goroutine's loop `run` (internal/audit/audit.go) as a machine whose
-- events are the steps that the scheduler of the goroutines may take next. A step whose case of
-- `select` is not ready does nothing.
use nightowl.Base.{ℕ, Bool, true, false, List, [], ◌∷◌, ◌++◌, length, ltb, leb, if◌then◌else◌}
use nightowl.Sql.{Conn}
use nightowl.Audit.Flush.{Entry, Groups, Tables, flush}

abbrev pub buffer_size : ℕ
buffer_size = 256

abbrev pub flush_batch : ℕ
flush_batch = 32

-- Where the goroutine stands: in its outer loop, in the loop that drains the channel once the
-- context is done, or returned.
pub data Phase : Type 0 where
  looping draining returned : Phase

pub record Writer : Type 0 where
  pub pool : Conn Tables
  pub entries : List Entry
  pub closed : Bool
  pub cancelled : Bool
  pub batch : List Entry
  pub phase : Phase

-- NewWriter and Start
abbrev pub new_writer : Conn Tables → Writer
new_writer pool = record {
  pool = pool;
  entries = [];
  closed = false;
  cancelled = false;
  batch = [];
  phase = looping;
}

-- What the caller of Log meets: a send on a closed channel panics.
pub data LogOutcome : Type 0 where
  queued dropped panicked : LogOutcome

unfoldable pub log : Entry → Writer → LogOutcome × Writer
log e w =
    if w.closed
    then (panicked, w)
    else if ltb (length w.entries) buffer_size
    then (queued, record w { entries = w.entries ++ e ∷ [] })
    else (dropped, w)

pub data Event : Type 0 where
  log_called : Entry → Event
  close_called cancel receive tick done_seen : Event

abbrev pub kept : LogOutcome → Entry → List Entry → List Entry
kept queued e rest = e ∷ rest
kept dropped e rest = rest
kept panicked e rest = rest

-- What Log adds to the entries that are accepted.
abbrev pub after_event : Event → Writer → List Entry → List Entry
after_event (log_called e) w rest = kept (log e w).0 e rest
after_event close_called w rest = rest
after_event cancel w rest = rest
after_event receive w rest = rest
after_event tick w rest = rest
after_event done_seen w rest = rest

module _ (range : Groups → Groups) where
  -- The closure `flush` of `run`: an empty batch makes no call, and stays empty.
  unfoldable pub flush_unless_empty : List Entry → Conn Tables → Conn Tables
  flush_unless_empty [] pool = pool
  flush_unless_empty (e ∷ es) pool = flush range (e ∷ es) pool

  unfoldable pub flush_pending : Writer → Writer
  unfolding flush_unless_empty
  flush_pending w = record w { pool = flush_unless_empty w.batch w.pool; batch = [] }

  -- A full batch is flushed at once.
  unfoldable pub collect : Entry → List Entry → Writer → Writer
  unfolding flush_pending
  collect e rest w =
      let w' : Writer = record w { entries = rest; batch = w.batch ++ e ∷ [] } in
      if leb flush_batch (length w'.batch) then flush_pending w' else w'

  abbrev pub flush_and_return : Writer → Writer
  flush_and_return w = record (flush_pending w) { phase = returned }

  -- `entry, ok := <-w.entries` in the outer loop.
  abbrev pub loop_receive : List Entry → Writer → Writer
  loop_receive (e ∷ rest) w = collect e rest w
  loop_receive [] w = if w.closed then flush_and_return w else w

  -- The same in the inner loop, whose `default` flushes and returns like a closed channel.
  abbrev pub drain_receive : List Entry → Writer → Writer
  drain_receive (e ∷ rest) w = record w { entries = rest; batch = w.batch ++ e ∷ [] }
  drain_receive [] w = flush_and_return w

  abbrev pub goroutine_receives : Phase → Writer → Writer
  goroutine_receives looping w = loop_receive w.entries w
  goroutine_receives draining w = drain_receive w.entries w
  goroutine_receives returned w = w

  abbrev pub goroutine_ticks : Phase → Writer → Writer
  goroutine_ticks looping w = flush_pending w
  goroutine_ticks draining w = w
  goroutine_ticks returned w = w

  -- `<-ctx.Done()` in the outer loop.
  abbrev pub goroutine_stops : Phase → Writer → Writer
  goroutine_stops looping w = if w.cancelled then record w { phase = draining } else w
  goroutine_stops draining w = w
  goroutine_stops returned w = w

  unfoldable pub step : Event → Writer → Writer
  unfolding log collect flush_pending
  step (log_called e) w = (log e w).1
  step close_called w = record w { closed = true }
  step cancel w = record w { cancelled = true }
  step receive w = goroutine_receives w.phase w
  step tick w = goroutine_ticks w.phase w
  step done_seen w = goroutine_stops w.phase w

  unfoldable pub run : List Event → Writer → Writer
  unfolding step
  run [] w = w
  run (e ∷ es) w = run es (step e w)

  -- The entries that Log queues along a run, in order.
  unfoldable pub accepted : List Event → Writer → List Entry
  unfolding step
  accepted [] w = []
  accepted (e ∷ es) w = after_event e w (accepted es (step e w))
