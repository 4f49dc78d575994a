-- ===== src/Proxycore/Headers.antt =====
-- `removeConnectionHeaders` of internal/proxycore/proxy.go.
pub mod Removal
use hamsterd.Common.{
  Bool, true, false, List, [], ◌∷◌, ◌++◌, Text, codes, text_eq, ◌||◌, if◌then◌else◌,
}
use hamsterd.Common.Strings.{to_lower, trim_space, split}
use hamsterd.Common.Http.{Header, header_values, header_del}

-- The names that the `switch` skips.
unfoldable pub is_kept : Text → Bool
is_kept name =
    let lower = to_lower name in
    text_eq lower []
    || (text_eq lower (codes "close")
        || (text_eq lower (codes "keep-alive") || text_eq lower (codes "upgrade")))

unfoldable pub remove_names : List Text → Header → Header
remove_names [] header = header
remove_names (raw ∷ names) header =
    let name = trim_space raw in
    remove_names names (if is_kept name then header else header_del name header)

unfoldable pub remove_values : List Text → Header → Header
remove_values [] header = header
remove_values (value ∷ values) header =
    remove_values values (remove_names (split b',' value) header)

-- The values are read before any field is removed.
unfoldable pub remove_connection_headers : Header → Header
remove_connection_headers header =
    header_del (codes "Keep-Alive")
      (remove_values (header_values (codes "Connection") header) header)
