-- ===== src/Audit/Closing.antt =====
-- Close delivers what was accepted (Close and `run` of internal/audit/audit.go).
use mathlib.Core.List.{append-nil}
use nightowl.Base.{◌<◌, String, List, [], ◌∷◌, ◌++◌, ◌≡◌, ◌≢◌, ◌∙◌, ap, sym, length}
use nightowl.Base.Permutes.{Permutes}
use nightowl.Audit.Flush.{Groups}
use nightowl.Audit.Delivered.{rows_for}
use nightowl.Audit.Steps.{rows_of, promised, IsHealthy}
use nightowl.Audit.InOrder.{run-promised, run-IsHealthy}
use nightowl.Audit.Shutdown.{receives, close-returns, accepted-ending, close-IsEnding}
use nightowl.Audit.Writer.{Writer, Event, close_called, returned, step, run, accepted}

module _ (range : Groups → Groups) (visits : (gs : Groups) → Permutes gs (range gs)) where
  -- Over a pool whose statements succeed: when the goroutine has not returned before Close is
  -- called, then after Close each tenant's table has gained the rows of all the entries that Log
  -- accepted for it since the start, once each and in order.
  pub close-delivers :
      (t : String) (before after : List Event) (start : Writer)
      → t ≢ ""
      → IsHealthy start
      → (start.entries ≡ [])
      → (start.batch ≡ [])
      → (run range before start).phase ≢ returned
      → length (run range before start).entries < receives after
      → rows_for t (run range (close_called ∷ after) (run range before start)).pool.db
        ≡ rows_for t start.pool.db ++ rows_of t (accepted range before start)
  unfolding accepted
  close-delivers t before after start ht healthy_pool no_entries no_batch p h =
      all_written
      ∙ run-promised range visits t (close_called ∷ after) w ht
          (run-IsHealthy range visits t before start ht healthy_pool)
      ∙ ap (λ es. promised t w ++ rows_of t es) none_later
      ∙ append-nil (promised t w)
      ∙ run-promised range visits t before start ht healthy_pool
      ∙ ap (λ rows. rows ++ rows_of t (accepted range before start)) nothing_due
    where
      w : Writer
      w = run range before start

      all_written :
          rows_for t (run range (close_called ∷ after) w).pool.db
          ≡ promised t (run range (close_called ∷ after) w)
      all_written =
          let (_, no_more, no_rest) = close-returns range after w p h in
          rw (no_more, no_rest) (sym (append-nil _))

      none_later : accepted range (close_called ∷ after) w ≡ []
      none_later =
          accepted-ending range after (step range close_called w) (close-IsEnding range after w p h)

      nothing_due : promised t start ≡ rows_for t start.pool.db
      nothing_due = rw (no_entries, no_batch) (append-nil _)
