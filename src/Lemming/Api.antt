-- ===== src/Lemming/Api.antt =====
-- The control API of internal/lemming/service.go: `Rules`, `Status` and the handlers of `Handler`.
-- Which handler a method and a path belong to is net/http's.
pub mod Effects
use hamsterd.Common.{
  ℕ, ◌+◌, Bool, true, false, Option, none, some, List, [], ◌∷◌, ◌++◌, Text, codes, text_eq, not,
  ◌||◌, if◌then◌else◌, map, length,
}
use hamsterd.Common.Int.{ℤ, pos, pos_part, ltb_ℤ}
use hamsterd.Common.Clock.{Time}
use hamsterd.Common.Numbers.{parse_int}
use hamsterd.Config.Rule.{RedirectRule}
use hamsterd.Config.AutoRules.{
  ConfigCodec, Files, FileFaults, MergeError, MergeResult, merge_failed, merged, storage, refused,
  invalid_merge,
}
use hamsterd.Redirect.{Router}
use hamsterd.Lemming.Recent.{RequestView, Ring, recent, recent_requests}
use hamsterd.Lemming.Route.{UrlFunctions, RouteView, route}
use hamsterd.Lemming.Service.{
  Service, Change, skipped, too_many, invalid, taken, not_built, storage_error, no_domain,
  config_rule, no_rule, done, add_rule, remove_rule, merge,
}

pub record Info : Type 0 where
  pub version : Text
  pub listen : Text
  pub proxy_url : Text
  pub config_file : Text
  pub auto_rules_file : Text
  pub ca_cert_file : Text
  pub ca_fingerprint : Text
  pub ca_not_after : Time

-- An absent list and an empty one are the same here.
pub record RuleView : Type 0 where
  pub source : Text
  pub target : Text
  pub domains : List Text
  pub include : List Text
  pub exclude : List Text

unfoldable pub view : Text → RedirectRule → RuleView
view source rule = record {
  source = source;
  target = rule.target;
  domains = rule.domains;
  include = rule.include;
  exclude = rule.exclude;
}

abbrev pub source_config : Text
source_config = codes "config"

abbrev pub source_auto : Text
source_auto = codes "auto"

unfoldable pub rules : Service → List RuleView
rules s = map (view source_config) s.base ++ map (view source_auto) s.auto

pub record StatusView : Type 0 where
  pub info : Info
  pub allow_remote_targets : Bool
  pub allow_remote_clients : Bool
  pub config_rules : ℕ
  pub auto_rules : ℕ
  -- whether there is an error to report
  pub auto_rules_error : Bool

-- The fields of a service that its changes leave alone, and those that they share.
pub record Api : Type 0 where
  pub info : Info
  pub remote_client : Bool
  pub service : Service
  pub ring : Ring
  pub files : Files

unfoldable pub status : Api → StatusView
status a = record {
  info = a.info;
  allow_remote_targets = a.service.allow_remote;
  allow_remote_clients = a.remote_client;
  config_rules = length a.service.base;
  auto_rules = length a.service.auto;
  auto_rules_error = a.service.auto_err;
}

-- A call, by the pattern that it belongs to, with what the handler reads of it.
pub data Call : Type 0 where
  get_status get_rules post_merge : Call
  -- the body
  post_rules post_route : Text → Call
  -- the query's `domain` and `limit`
  delete_rules get_requests : Text → Call

pub data Body : Type 0 where
  error_body : Body
  status_body : StatusView → Body
  rules_body : List RuleView → Body
  rule_body : RuleView → Body
  route_body : RouteView → Body
  requests_body : List RequestView → Body
  merge_body : ℕ → Body

pub record Reply : Type 0 where
  pub code : ℕ
  pub body : Body

abbrev error_reply : ℕ → Reply
error_reply code = record { code = code; body = error_body }

-- control.DecodeJSON at the two bodies, with its errors as `none`.
pub record BodyCodec : Type 0 where
  pub decode_rule : Text → Option RedirectRule
  pub decode_url : Text → Option Text

unfoldable pub added_reply : Change → Reply
added_reply (done rule) = record { code = 201; body = rule_body (view source_auto rule) }
added_reply storage_error = error_reply 500
added_reply skipped = error_reply 409
added_reply too_many = error_reply 422
added_reply (invalid e) = error_reply 422
added_reply (taken domain) = error_reply 422
added_reply not_built = error_reply 422
added_reply no_domain = error_reply 422
added_reply config_rule = error_reply 422
added_reply no_rule = error_reply 422

unfoldable pub removed_reply : Change → Reply
removed_reply (done rule) = record { code = 200; body = rule_body (view source_auto rule) }
removed_reply no_domain = error_reply 400
removed_reply config_rule = error_reply 409
removed_reply skipped = error_reply 409
removed_reply no_rule = error_reply 404
removed_reply storage_error = error_reply 500
removed_reply too_many = error_reply 500
removed_reply (invalid e) = error_reply 500
removed_reply (taken domain) = error_reply 500
removed_reply not_built = error_reply 500

unfoldable pub merged_reply : Option MergeResult → Reply
merged_reply none = error_reply 409
merged_reply (some (merge_failed invalid_merge)) = error_reply 422
merged_reply (some (merge_failed refused)) = error_reply 409
merged_reply (some (merge_failed storage)) = error_reply 500
merged_reply (some (merged n)) = record { code = 200; body = merge_body n }

-- The limit of a call of /v1/requests, 50 if it is not given; `none` is an error.
unfoldable pub request_limit : Text → Option ℕ
request_limit raw = if text_eq raw [] then some 50 else elim (parse_int raw) [
  | none ↦ none
  | some n ↦ if ltb_ℤ n (pos 1) || ltb_ℤ (pos recent_requests) n then none else some (pos_part n)
]

unfoldable pub after_change : Api → Service × Files × Change → (Change → Reply) → Api × Reply
after_change a (s, files, change) reply = (record a { service = s; files = files }, reply change)

module _ (codec : ConfigCodec) (faults : FileFaults) (bodies : BodyCodec)
    (urls : UrlFunctions) where
  unfoldable pub handle_add : Option RedirectRule → Api → Api × Reply
  handle_add none a = (a, error_reply 400)
  handle_add (some rule) a =
      after_change a (add_rule codec faults rule a.service a.files) added_reply

  unfoldable pub handle_route : Option Text → Api → Reply
  handle_route none a = error_reply 400
  handle_route (some raw) a = elim (route urls a.service.router raw) [
    | none ↦ error_reply 400
    | some v ↦ record { code = 200; body = route_body v }
  ]

  unfoldable pub handle_requests : Option ℕ → Api → Reply
  handle_requests none a = error_reply 400
  handle_requests (some limit) a = record { code = 200; body = requests_body (recent limit a.ring) }

  unfoldable pub handle_merge : Api → Api × Reply
  handle_merge a =
      let (s, files, result) = merge codec faults a.service a.files in
      (record a { service = s; files = files }, merged_reply result)

  unfoldable pub handle : Call → Api → Api × Reply
  handle get_status a = (a, record { code = 200; body = status_body (status a) })
  handle get_rules a = (a, record { code = 200; body = rules_body (rules a.service) })
  handle (post_rules body) a = handle_add (bodies.decode_rule body) a
  handle (delete_rules domain) a =
      after_change a (remove_rule codec faults domain a.service a.files) removed_reply
  handle (post_route body) a = (a, handle_route (bodies.decode_url body) a)
  handle (get_requests raw) a = (a, handle_requests (request_limit raw) a)
  handle post_merge a = handle_merge a
