-- ===== src/Tests/Audits.antt =====
-- Runs of the audit writer.
use nightowl.Base.{◌≡◌, refl, String, eq_iff, true, List, [], ◌∷◌, ◌++◌, none, arith}
use nightowl.Base.Permutes.{identity}
use nightowl.Sql.{healthy}
use nightowl.Audit.Flush.{Entry, Groups}
use nightowl.Audit.Delivered.{rows_for}
use nightowl.Audit.Writer.{
  Writer, Event, log_called, close_called, receive, tick, returned, new_writer, run, accepted,
}
use nightowl.Audit.Steps.{rows_of}
use nightowl.Audit.Bounds.{IsBounded, run-IsBounded}
use nightowl.Audit.Shutdown.{close-returns}
use nightowl.Audit.Closing.{close-delivers}
use nightowl.Audit.Abandoned.{returned-abandons}

abbrev entry : String → String → Entry
entry schema action = record {
  tenant_schema = schema;
  user_id = none;
  api_key_id = none;
  action = action;
  resource = "alert";
  resource_id = 7;
  detail = none;
  ip_address = none;
  user_agent = none;
}

abbrev same_order : Groups → Groups
same_order gs = gs

abbrev started : Writer
started = new_writer (healthy [])

abbrev busy : List Event
busy =
    log_called (entry "tenant_a" "create")
    ∷ log_called (entry "tenant_b" "resolve")
    ∷ receive
    ∷ log_called (entry "tenant_a" "delete")
    ∷ tick
    ∷ []

abbrev fair : List Event
fair = receive ∷ tick ∷ receive ∷ receive ∷ []

abbrev stopped : Writer
stopped = record started { phase = returned; cancelled = true }

run-IsBounded_example : IsBounded (run same_order busy started)
run-IsBounded_example = run-IsBounded same_order busy started (omega arith, omega arith)

close-returns_example :
    let w =
      run same_order
        (close_called ∷ fair)
        (record started { entries = entry "tenant_a" "create" ∷ [] }) in
    (w.phase ≡ returned) × (w.entries ≡ []) × (w.batch ≡ [])
close-returns_example =
    close-returns same_order fair (record started { entries = entry "tenant_a" "create" ∷ [] })
      (ground arith) (omega arith)

close-delivers_example :
    rows_for "tenant_a" (run same_order (close_called ∷ fair) (run same_order busy started)).pool.db
    ≡ rows_for "tenant_a" started.pool.db ++ rows_of "tenant_a" (accepted same_order busy started)
unfolding run
close-delivers_example =
    close-delivers same_order identity "tenant_a" busy fair started
      (ground (arith, eq_iff "tenant_a" "")) refl refl refl (ground arith) (omega arith)

returned-abandons_example :
    let w =
      run same_order
        (log_called (entry "tenant_a" "create") ∷ close_called ∷ receive ∷ [])
        stopped in
    (w.pool ≡ stopped.pool)
    × (w.entries
        ≡ stopped.entries
          ++ accepted same_order
              (log_called (entry "tenant_a" "create") ∷ close_called ∷ receive ∷ [])
              stopped)
returned-abandons_example =
    returned-abandons same_order
      (log_called (entry "tenant_a" "create") ∷ close_called ∷ receive ∷ []) stopped refl
