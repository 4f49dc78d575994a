-- ===== src/Proxycore/Trust.antt =====
-- `TrustList` of internal/proxycore/proxy.go and the names of hosts of internal/proxycore/mitm.go.
use hamsterd.Common.{Bool, false, Option, none, some, List, Text, text_eq, any, map}
use hamsterd.Common.Strings.{to_lower, trim_space, trim_last}

unfoldable pub normalize_hostname : Text → Text
normalize_hostname host = trim_last b'.' (to_lower (trim_space host))

-- The two sets of a TrustList.
pub record TrustSets : Type 0 where
  pub targets : List Text
  pub hosts : List Text

-- `Set`
unfoldable pub trust_set : List Text → List Text → TrustSets
trust_set targets hosts = record {
  targets = map to_lower targets;
  hosts = map normalize_hostname hosts;
}

-- `target` and `HasTarget`; no list is a list that trusts nothing.
unfoldable pub has_target : Option TrustSets → Text → Bool
has_target none host_port = false
has_target (some sets) host_port = any (text_eq (to_lower host_port)) sets.targets

-- `host`
unfoldable pub has_host : Option TrustSets → Text → Bool
has_host none host = false
has_host (some sets) host = any (text_eq host) sets.hosts
