-- ===== src/Audit/Request.antt =====
-- LogFromRequest and clientIP (internal/audit/audit.go): the entry that is made of a request. What
-- `netip.ParseAddr` and `net.SplitHostPort` make of a text are parameters; an address is its text.
use nightowl.Base.{ℕ, String, str_eq, Option, none, some, if◌then◌else◌}
use nightowl.Base.Texts.{before_comma, trim_space}
use nightowl.Audit.Flush.{Entry}
use nightowl.Audit.Writer.{Writer, LogOutcome, log}

-- auth.FromContext: the user and the API key of a caller.
pub record Identity : Type 0 where
  pub user_id : Option ℕ
  pub api_key_id : Option ℕ

-- What is read from the request and its context; a missing header is an empty text.
pub record Request : Type 0 where
  pub tenant_schema : Option String
  pub identity : Option Identity
  pub forwarded_for : String
  pub real_ip : String
  pub remote_addr : String
  pub user_agent : String

abbrev pub schema_or_empty : Option String → String
schema_or_empty none = ""
schema_or_empty (some schema) = schema

abbrev pub user_of : Option Identity → Option ℕ
user_of none = none
user_of (some id) = id.user_id

abbrev pub api_key_of : Option Identity → Option ℕ
api_key_of none = none
api_key_of (some id) = id.api_key_id

abbrev pub first_address : Option String → Option String → Option String
first_address none fallback = fallback
first_address (some addr) fallback = some addr

abbrev pub host_or : Option String → String → String
host_or none addr = addr
host_or (some host) addr = host

module _ (parse_addr : String → Option String) (split_host_port : String → Option String) where
  -- An empty header is not parsed.
  abbrev pub header_address : String → String → Option String
  header_address header value = if str_eq header "" then none else parse_addr (trim_space value)

  unfoldable pub client_ip : Request → Option String
  client_ip r = first_address (header_address r.forwarded_for (before_comma r.forwarded_for)) (
      first_address (header_address r.real_ip r.real_ip)
        (parse_addr (host_or (split_host_port r.remote_addr) r.remote_addr)))

  unfoldable pub request_entry : Request → String → String → ℕ → Option String → Entry
  request_entry r action resource id detail = record {
    tenant_schema = schema_or_empty r.tenant_schema;
    user_id = user_of r.identity;
    api_key_id = api_key_of r.identity;
    action = action;
    resource = resource;
    resource_id = id;
    detail = detail;
    ip_address = client_ip r;
    user_agent = if str_eq r.user_agent "" then none else some r.user_agent;
  }

  unfoldable pub log_from_request :
      Request → String → String → ℕ → Option String → Writer → LogOutcome × Writer
  log_from_request r action resource id detail w = log (request_entry r action resource id detail) w
