-- ===== src/Lemming/Mcp/Intended.antt =====
-- What the tools of internal/lemming/mcp.go do.
use hamsterd.Common.{
  ℕ, ◌≡◌, refl, false, Option, none, some, [], ◌++◌, codes, text_eq, text_eq_iff, Bool-cases, inl,
  inr, arith, if◌then◌else◌, ◌||◌,
}
use hamsterd.Common.Int.{ℤ, pos, negsuc, eq_ℤ, pos_part, ltb_ℤ, ◌≤ℤ◌, min_int64, max_int64}
use hamsterd.Common.Strings.{cut_first}
use hamsterd.Common.Numbers.{parse_int, format_int}
use hamsterd.Common.Numbers.RoundTrip.{parse_int-format_int, parse_int-format_int_negative}
use hamsterd.Config.AutoRules.{ConfigCodec, FileFaults}
use hamsterd.Lemming.Route.{UrlFunctions}
use hamsterd.Lemming.Service as S
use hamsterd.Lemming.Api.{
  Call, get_status, get_rules, Api, Reply, BodyCodec, request_limit, handle_add, handle_route,
  handle_requests, after_change, removed_reply, handle,
}
use hamsterd.Lemming.Mcp.{
  Tool, status, list_rules, test_route, recent_requests, add_rule, remove_rule, McpFunctions,
  tool_limit, tool_call, pattern_of, called,
}

-- The body or the query of a tool's call is read back, as encoding/json and net/url document.
abbrev pub ReadsBack : McpFunctions → BodyCodec → Tool → Type 0
ReadsBack f bodies status = Unit
ReadsBack f bodies list_rules = Unit
ReadsBack f bodies (test_route url) = bodies.decode_url (f.encode_url url) ≡ some url
ReadsBack f bodies (recent_requests limit) =
    let text = format_int (tool_limit limit) in
    f.query_get (codes "limit") (codes "limit=" ++ f.query_escape text) ≡ text
ReadsBack f bodies (add_rule rule) = bodies.decode_rule (f.encode_rule rule) ≡ some rule
ReadsBack f bodies (remove_rule domain) =
    f.query_get (codes "domain") (codes "domain=" ++ f.query_escape domain) ≡ domain

-- The number of requests that a limit of the tool gives; `none` is refused.
abbrev pub intended_limit : ℤ → Option ℕ
intended_limit limit =
    if eq_ℤ limit (pos 0)
    then some 50
    else if ltb_ℤ limit (pos 1) || ltb_ℤ (pos 200) limit
    then none
    else some (pos_part limit)

-- What a tool is for, with no texts between.
abbrev pub intended : ConfigCodec → FileFaults → BodyCodec → UrlFunctions → Tool → Api → Api × Reply
intended codec faults bodies urls status a = handle codec faults bodies urls get_status a
intended codec faults bodies urls list_rules a = handle codec faults bodies urls get_rules a
intended codec faults bodies urls (test_route url) a =
    (a, handle_route codec faults bodies urls (some url) a)
intended codec faults bodies urls (recent_requests limit) a =
    (a, handle_requests codec faults bodies urls (intended_limit limit) a)
intended codec faults bodies urls (add_rule rule) a =
    handle_add codec faults bodies urls (some rule) a
intended codec faults bodies urls (remove_rule domain) a =
    after_change a (S.remove_rule codec faults domain a.service a.files) removed_reply

-- The reply to the call of a tool, if it reaches a handler.
abbrev pub handled :
    ConfigCodec → FileFaults → BodyCodec → UrlFunctions → Option Call → Api → Option (Api × Reply)
handled codec faults bodies urls none a = none
handled codec faults bodies urls (some call) a = some (handle codec faults bodies urls call a)

parse_int-format_int_any :
    (z : ℤ) → min_int64 ≤ℤ z → z ≤ℤ max_int64 → parse_int (format_int z) ≡ some z
parse_int-format_int_any (pos n) l h = parse_int-format_int n (ground arith)
parse_int-format_int_any (negsuc n) l h = parse_int-format_int_negative n (ground arith)

format_int_not_empty : (z : ℤ) → min_int64 ≤ℤ z → z ≤ℤ max_int64 → text_eq (format_int z) [] ≡ false
unfolding parse_int
format_int_not_empty z l h = elim (Bool-cases (text_eq (format_int z) [])) [
  | inr e ↦ e
  | inl e ↦
      let empty : format_int z ≡ [] = (text_eq_iff (format_int z) []).0 e in
      absurd (ground (arith, empty, parse_int-format_int_any z l h))
]

request_limit-tool_limit :
    (limit : ℤ)
    → min_int64 ≤ℤ limit
    → limit ≤ℤ max_int64
    → request_limit (format_int (tool_limit limit)) ≡ intended_limit limit
unfolding request_limit tool_limit
request_limit-tool_limit limit l h = elim (Bool-cases (eq_ℤ limit (pos 0))) [
  | inl e ↦
      rw
        (
          tool_limit,
          e,
          request_limit,
          format_int_not_empty (pos 50) (ground arith) (ground arith),
          parse_int-format_int 50 (ground arith),
        )
        refl
  | inr e ↦
      rw
        (
          tool_limit,
          e,
          request_limit,
          format_int_not_empty limit l h,
          parse_int-format_int_any limit l h,
        )
        refl
]

-- A limit fits in a signed word.
abbrev pub Fits : Tool → Type 0
Fits status = Unit
Fits list_rules = Unit
Fits (test_route url) = Unit
Fits (recent_requests limit) = (min_int64 ≤ℤ limit) × (limit ≤ℤ max_int64)
Fits (add_rule rule) = Unit
Fits (remove_rule domain) = Unit

-- If encoding/json and net/url read back what they write for it, then the call that a tool makes reaches a
-- handler of the control API, which does what the tool is for: it reports the status or the rules,
-- explains the URL, adds the rule, removes the rule of the domain, or lists the newest requests: 50 for
-- the limit 0, as many as a limit between 1 and 200 says, and an error at any other 64-bit limit.
pub handled-called :
    (f : McpFunctions) (codec : ConfigCodec) (faults : FileFaults) (bodies : BodyCodec)
    (urls : UrlFunctions) (tool : Tool) (a : Api)
    → ReadsBack f bodies tool
    → Fits tool
    → handled codec faults bodies urls (called f (tool_call f tool)) a
      ≡ some (intended codec faults bodies urls tool a)
unfolding called tool_call pattern_of text_eq cut_first handle
handled-called f codec faults bodies urls status a r h = refl
handled-called f codec faults bodies urls list_rules a r h = refl
handled-called f codec faults bodies urls (test_route url) a r h = rw r refl
handled-called f codec faults bodies urls (recent_requests limit) a r (l, h) =
    rw (r, request_limit-tool_limit limit l h) refl
handled-called f codec faults bodies urls (add_rule rule) a r h = rw r refl
handled-called f codec faults bodies urls (remove_rule domain) a r h = rw r refl
