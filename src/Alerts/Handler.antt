-- ===== src/Alerts/Handler.antt =====
-- Acknowledging and resolving an alert (pkg/alert/handler.go), for a well-formed id.
use nightowl.Base.{ℕ, String, Option}
use nightowl.Sql.{Sql, SqlError, no_rows, failed, Result, ok, err, pure, ◌>>=◌, attempt}
use nightowl.Schema.{Database, Alert}
use nightowl.Alerts.Store.{acknowledge_alert, resolve_alert}
use nightowl.Alerts.Dedup.{AlertError}
use nightowl.Alerts.Webhook.{audit}

pub data HandlerReply : Type 0 where
  done : Alert → HandlerReply
  not_found server_error : HandlerReply

unfoldable pub answer : String → Result SqlError Alert → Sql Database AlertError HandlerReply
answer action (ok row) = audit action row.id >>= λ _. pure (done row)
answer action (err no_rows) = pure not_found
answer action (err failed) = pure server_error

unfoldable pub handle_acknowledge : ℕ → Option ℕ → Sql Database AlertError HandlerReply
handle_acknowledge id user = do r ← attempt (acknowledge_alert id user); answer "acknowledge" r

unfoldable pub handle_resolve : ℕ → Option ℕ → Sql Database AlertError HandlerReply
handle_resolve id user = do r ← attempt (resolve_alert id user); answer "resolve" r
