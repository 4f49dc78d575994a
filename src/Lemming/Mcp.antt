-- ===== src/Lemming/Mcp.antt =====
-- The tools of internal/lemming/mcp.go and the calls of the control API that they make.
pub mod Intended
use hamsterd.Common.{Option, none, some, [], ◌++◌, Text, codes, text_eq, ◌&&◌, if◌then◌else◌}
use hamsterd.Common.Int.{ℤ, pos, eq_ℤ}
use hamsterd.Common.Strings.{cut_first}
use hamsterd.Common.Numbers.{format_int}
use hamsterd.Config.Rule.{RedirectRule}
use hamsterd.Control.Client.{ClientCall}
use hamsterd.Lemming.Api.{
  Call, get_status, get_rules, post_merge, post_rules, post_route, delete_rules, get_requests,
}

-- A call of a tool, with its input.
pub data Tool : Type 0 where
  status list_rules : Tool
  test_route : Text → Tool
  recent_requests : ℤ → Tool
  add_rule : RedirectRule → Tool
  remove_rule : Text → Tool

-- json.Marshal of the two bodies, url.QueryEscape, and url.Values.Get at a raw query.
pub record McpFunctions : Type 0 where
  pub encode_rule : RedirectRule → Text
  pub encode_url : Text → Text
  pub query_escape : Text → Text
  pub query_get : Text → Text → Text

abbrev get_call : Text → ClientCall
get_call path = record { method = codes "GET"; path = path; body = none }

abbrev post_call : Text → Text → ClientCall
post_call path body = record { method = codes "POST"; path = path; body = some (some body) }

-- The limit that a tool asks for, 50 if it is not given.
unfoldable pub tool_limit : ℤ → ℤ
tool_limit limit = if eq_ℤ limit (pos 0) then pos 50 else limit

-- What the tool passes to `Do`.
unfoldable pub tool_call : McpFunctions → Tool → ClientCall
tool_call f status = get_call (codes "/v1/status")
tool_call f list_rules = get_call (codes "/v1/rules")
tool_call f (test_route url) = post_call (codes "/v1/route") (f.encode_url url)
tool_call f (recent_requests limit) =
    get_call (codes "/v1/requests?limit=" ++ f.query_escape (format_int (tool_limit limit)))
tool_call f (add_rule rule) = post_call (codes "/v1/rules") (f.encode_rule rule)
tool_call f (remove_rule domain) = record {
  method = codes "DELETE";
  path = codes "/v1/rules?domain=" ++ f.query_escape domain;
  body = none;
}

abbrev path_and_query : Text → Option (Text × Text) → Text × Text
path_and_query path none = (path, [])
path_and_query path (some parts) = parts

abbrev body_text : Option (Option Text) → Text
body_text none = []
body_text (some none) = []
body_text (some (some text)) = text

-- The patterns of `Handler` in service.go, at a method, a path, a raw query and a body.
unfoldable pub pattern_of : McpFunctions → Text → Text → Text → Text → Option Call
pattern_of f method path query body =
    if text_eq method (codes "GET") && text_eq path (codes "/v1/status")
    then some get_status
    else if text_eq method (codes "GET") && text_eq path (codes "/v1/rules")
    then some get_rules
    else if text_eq method (codes "POST") && text_eq path (codes "/v1/rules")
    then some (post_rules body)
    else if text_eq method (codes "DELETE") && text_eq path (codes "/v1/rules")
    then some (delete_rules (f.query_get (codes "domain") query))
    else if text_eq method (codes "POST") && text_eq path (codes "/v1/route")
    then some (post_route body)
    else if text_eq method (codes "GET") && text_eq path (codes "/v1/requests")
    then some (get_requests (f.query_get (codes "limit") query))
    else if text_eq method (codes "POST") && text_eq path (codes "/v1/merge")
    then some post_merge
    else none

-- The handler that a call reaches; `none` is a page that is not there.
unfoldable pub called : McpFunctions → ClientCall → Option Call
called f call =
    let (path, query) = path_and_query call.path (cut_first b'?' call.path) in
    pattern_of f call.method path query (body_text call.body)
