-- ===== src/Chat/Buttons.antt =====
-- The buttons of Mattermost (pkg/mattermost/interactions.go) and of Slack (pkg/slack/handler.go) on
-- an alert that is acknowledged or resolved.
use nightowl.Base.{ℕ, ◌≡◌, ◌≢◌, String, Bool, true, List, [], ◌∷◌, Option, none, some}
use nightowl.Sql.{SqlError, Result, ok, err}
use nightowl.Sql.Preserves.{
  Preserves, preserves_rules, exec-Preserves, bind-Preserves, bind-Preserves_post,
  attempt-Preserves, if-Preserves,
}
use nightowl.Schema.{Alert, MessageMapping, Post}
use nightowl.Alerts.Store.{get_alert}
use nightowl.Chat.Settled.{Stands, Found, acknowledge-Stands, get-Found, settled-other}
use nightowl.Chat.Queries.{Externals, acquire_tenant_conn}
use nightowl.Chat.Interactions.{
  ActionPayload, is_settled, ack_found, ack_connected, ack_parsed, handle_ack_action,
  handle_actions, handle_escalate_action,
}
use nightowl.Chat.SlackActions.{
  Callback, post, slack_mapping, reply_in_thread, after_ack, ack_loaded, ack_open, slack_ack_parsed,
  slack_ack_action, open_modal, modal_open, modal_parsed, handle_create_incident_modal,
  slack_escalate_action, block_action, block_actions, handle_block_actions,
}

module _ (row : Alert) (settled : is_settled row ≡ true) where
  ack_found-Stands :
      (id : ℕ) (user : String) (r : Result SqlError Alert)
      → Found row id r
      → Preserves (Stands row) (ack_found id user r)
  unfolding ack_found
  ack_found-Stands id user (err e) found = search preserves_rules
  ack_found-Stands id user (ok a) found =
      if-Preserves (is_settled a) _ _ (λ _. search preserves_rules)
        (λ open_still.
          let other : id ≢ row.id = settled-other row id a settled found open_still in
          bind-Preserves _ _ (attempt-Preserves _ (acknowledge-Stands row id none other))
            (λ r. search preserves_rules))

  post-Stands : (enabled : Bool) (p : Post) → Preserves (Stands row) (post enabled p)
  post-Stands enabled p =
      if-Preserves enabled _ _
        (λ _.
          bind-Preserves _ _ (attempt-Preserves _ (exec-Preserves _ (λ db h. h)))
            (λ r. search preserves_rules))
        (λ _. search preserves_rules)

  reply-Stands :
      (enabled : Bool) (user : String) (r : Result SqlError MessageMapping)
      → Preserves (Stands row) (reply_in_thread enabled user r)
  unfolding reply_in_thread
  reply-Stands enabled user (err e) = search preserves_rules
  reply-Stands enabled user (ok m) = search (preserves_rules, post-Stands)

  after-Stands :
      (enabled : Bool) (ic : Callback) (id : ℕ) (r : Result SqlError Alert)
      → Preserves (Stands row) (after_ack enabled ic id r)
  unfolding after_ack slack_mapping
  after-Stands enabled ic id (err e) = search preserves_rules
  after-Stands enabled ic id (ok a) =
      bind-Preserves _ _ (search preserves_rules)
        (λ m. bind-Preserves _ _ (reply-Stands enabled ic.user_id m) (λ _. post-Stands enabled _))

  ack_loaded-Stands :
      (enabled : Bool) (ic : Callback) (id : ℕ) (r : Result SqlError Alert)
      → Found row id r
      → Preserves (Stands row) (ack_loaded enabled ic id r)
  unfolding ack_loaded
  ack_loaded-Stands enabled ic id (err e) found = search preserves_rules
  ack_loaded-Stands enabled ic id (ok a) found =
      if-Preserves (is_settled a) _ _ (λ _. post-Stands enabled _)
        (λ open_still.
          let other : id ≢ row.id = settled-other row id a settled found open_still in
          bind-Preserves _ _ (attempt-Preserves _ (acknowledge-Stands row id none other))
            (λ r. after-Stands enabled ic id r))

  get-Stands : (id : ℕ) → Preserves (Stands row) (get_alert id)
  unfolding get_alert
  get-Stands id = search preserves_rules

  acquire-Stands : Preserves (Stands row) acquire_tenant_conn
  unfolding acquire_tenant_conn
  acquire-Stands =
      bind-Preserves _ _ (exec-Preserves _ (λ db h. h)) (λ _. exec-Preserves _ (λ db h. h))

  connected-Stands :
      (id : ℕ) (user : String) (r : Result SqlError (Unit {0}))
      → Preserves (Stands row) (ack_connected id user r)
  connected-Stands id user (err e) = search preserves_rules
  connected-Stands id user (ok _) =
      bind-Preserves_post (Found row id) _ _ (attempt-Preserves _ (get-Stands id))
        (get-Found row id) (ack_found-Stands id user)

  opened-Stands :
      (enabled : Bool) (ic : Callback) (id : ℕ) (r : Result SqlError (Unit {0}))
      → Preserves (Stands row) (ack_open enabled ic id r)
  opened-Stands enabled ic id (err e) = search preserves_rules
  opened-Stands enabled ic id (ok _) =
      bind-Preserves_post (Found row id) _ _ (attempt-Preserves _ (get-Stands id))
        (get-Found row id) (ack_loaded-Stands enabled ic id)

  parsed-Stands : (user : String) (id : Option ℕ) → Preserves (Stands row) (ack_parsed user id)
  parsed-Stands user none = search preserves_rules
  parsed-Stands user (some id) = search (preserves_rules, acquire-Stands, connected-Stands)

  slack_parsed-Stands :
      (enabled : Bool) (ic : Callback) (id : Option ℕ)
      → Preserves (Stands row) (slack_ack_parsed enabled ic id)
  slack_parsed-Stands enabled ic none = search preserves_rules
  slack_parsed-Stands enabled ic (some id) = search (preserves_rules, acquire-Stands, opened-Stands)

  mattermost-Stands :
      (ext : Externals) (p : ActionPayload) → Preserves (Stands row) (handle_ack_action ext p)
  unfolding handle_ack_action
  mattermost-Stands ext p = parsed-Stands p.user_name (ext.parse_id p.alert_id)

  slack-Stands :
      (ext : Externals) (enabled : Bool) (ic : Callback) (value : String)
      → Preserves (Stands row) (slack_ack_action ext enabled ic value)
  unfolding slack_ack_action
  slack-Stands ext enabled ic value = slack_parsed-Stands enabled ic (ext.parse_id value)

  modal_opened-Stands :
      (enabled : Bool) (value : String) (r : Result SqlError Alert)
      → Preserves (Stands row) (open_modal enabled value r)
  modal_opened-Stands enabled value (ok a) = post-Stands enabled _
  modal_opened-Stands enabled value (err e) = post-Stands enabled _

  modal_open-Stands :
      (enabled : Bool) (value : String) (id : ℕ) (r : Result SqlError (Unit {0}))
      → Preserves (Stands row) (modal_open enabled value id r)
  modal_open-Stands enabled value id (ok _) =
      search (preserves_rules, get-Stands, modal_opened-Stands)
  modal_open-Stands enabled value id (err e) = post-Stands enabled _

  modal_parsed-Stands :
      (enabled : Bool) (value : String) (id : Option ℕ)
      → Preserves (Stands row) (modal_parsed enabled value id)
  modal_parsed-Stands enabled value none = post-Stands enabled _
  modal_parsed-Stands enabled value (some id) =
      search (preserves_rules, acquire-Stands, modal_open-Stands)

  modal-Stands :
      (ext : Externals) (enabled : Bool) (ic : Callback)
      → Preserves (Stands row) (handle_create_incident_modal ext enabled ic)
  unfolding handle_create_incident_modal
  modal-Stands ext enabled ic = search (preserves_rules, post-Stands, modal_parsed-Stands)

  escalate-Stands :
      (enabled : Bool) (ic : Callback) (value : String)
      → Preserves (Stands row) (slack_escalate_action enabled ic value)
  unfolding slack_escalate_action
  escalate-Stands enabled ic value = post-Stands enabled _

  block_action-Stands :
      (ext : Externals) (enabled : Bool) (ic : Callback) (id value : String)
      → Preserves (Stands row) (block_action ext enabled ic id value)
  unfolding block_action
  block_action-Stands ext enabled ic id value =
      search (preserves_rules, slack-Stands, escalate-Stands, modal-Stands)

  block_actions-Stands :
      (ext : Externals) (enabled : Bool) (ic : Callback) (actions : List (String × String))
      → Preserves (Stands row) (block_actions ext enabled ic actions)
  unfolding block_actions
  block_actions-Stands ext enabled ic [] = search preserves_rules
  block_actions-Stands ext enabled ic ((id, value) ∷ rest) =
      bind-Preserves _ _ (block_action-Stands ext enabled ic id value)
        (λ _. block_actions-Stands ext enabled ic rest)

  -- An alert that is acknowledged or resolved is left exactly as it is by every button of
  -- Mattermost and of Slack, whichever statements and posts fail.
  pub buttons-Stands :
      (ext : Externals) (enabled : Bool) (p : ActionPayload) (ic : Callback)
      → Preserves (Stands row) (handle_actions ext p)
        × Preserves (Stands row) (handle_block_actions ext enabled ic)
  unfolding handle_actions handle_escalate_action handle_block_actions
  buttons-Stands ext enabled p ic =
      (search (preserves_rules, mattermost-Stands), block_actions-Stands ext enabled ic ic.actions)
