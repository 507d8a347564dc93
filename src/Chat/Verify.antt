-- ===== src/Chat/Verify.antt =====
-- The checks in front of the chat handlers (pkg/mattermost/verify.go and pkg/slack/verify.go).
-- The Slack library's SecretsVerifier is a parameter: whether the headers are those of a signature,
-- and whether the signature over the body is the secret's.
use nightowl.Base.{String, str_eq, Bool, not, if◌then◌else◌}

-- Whether a request reaches the handler, or the status of the refusal.
pub data Gate : Type 0 where
  served unauthorized : Gate

-- `token` is the form value, empty if there is none.
unfoldable pub verify_token : String → String → Gate
verify_token webhook_secret token =
    if str_eq webhook_secret ""
    then served
    else if str_eq token ""
    then served
    else if not (str_eq token webhook_secret)
    then unauthorized
    else served

module _ {Header : Type 0} (has_signature : Header → String → Bool)
    (signed : Header → String → String → Bool) where
  -- The write of the body into the verifier's hash does not fail.
  unfoldable pub verify_signature : String → Header → String → Gate
  verify_signature signing_secret header body =
      if str_eq signing_secret ""
      then served
      else if not (has_signature header signing_secret)
      then unauthorized
      else if not (signed header signing_secret body)
      then unauthorized
      else served
