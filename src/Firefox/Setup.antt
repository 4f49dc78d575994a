-- ===== src/Firefox/Setup.antt =====
-- The settings, the programs and the preferences of internal/firefox/firefox.go.
pub mod Concrete
use hamsterd.Common.{
  ℕ, ◌+◌, ◌-◌, Bool, true, false, Option, none, some, List, [], ◌∷◌, ◌++◌, Text, codes, text_eq,
  not, ◌&&◌, ◌||◌, ltb, ◌==◌, if◌then◌else◌, is_some,
}
use hamsterd.Common.Int.{ℤ, pos, ltb_ℤ}
use hamsterd.Common.Http.{Url}
use hamsterd.Common.Ip.{Ip, parse_ip, is_unspecified, is_ipv4}
use hamsterd.Common.Net.{split_host_port}
use hamsterd.Common.Numbers.{parse_int, format_int}
use hamsterd.Control.Server.{hex_text}

-- `Config`
pub record FirefoxConfig : Type 0 where
  pub profile : Text
  pub ca_certificate : Text
  pub proxy_address : Text
  pub url : Text
  pub binary : Text
  pub nss_certutil : Text

-- What the package asks of the system: runtime.GOOS, exec.LookPath, os.Stat (whether it is a
-- directory), os.Getenv, os.UserHomeDir, filepath.Join and url.ParseRequestURI.
pub record Host : Type 0 where
  pub goos : Text
  pub look_path : Text → Option Text
  pub stat : Text → Option Bool
  pub getenv : Text → Text
  pub home : Option Text
  pub join_path : List Text → Text
  pub parse_request_uri : Text → Option Url

-- The errors of `prepareAndLaunch`.
pub data LaunchError : Type 0 where
  required unreadable_ca ca_directory invalid_address invalid_url : LaunchError
  no_certutil no_firefox : LaunchError
  not_created not_protected preparing_elsewhere in_use lock_unknown : LaunchError
  no_lease no_preferences no_database not_trusted not_started : LaunchError
  not_locked not_recorded : LaunchError

abbrev valid_ca : Option Bool → Option LaunchError
valid_ca none = some unreadable_ca
valid_ca (some directory) = if directory then some ca_directory else none

-- An absolute URL of HTTP or HTTPS.
abbrev valid_url : Option Url → Bool
valid_url none = false
valid_url (some u) =
    (text_eq u.scheme (codes "http") || text_eq u.scheme (codes "https")) && not (text_eq u.host [])

-- `validate`; `none` is no error.
unfoldable pub validate : Host → FirefoxConfig → Option LaunchError
validate host c =
    if text_eq c.profile []
      || (text_eq c.ca_certificate [] || (text_eq c.proxy_address [] || text_eq c.url []))
    then some required
    else elim (valid_ca (host.stat c.ca_certificate)) [
      | some e ↦ some e
      | none ↦
          if not (is_some (split_host_port c.proxy_address))
          then some invalid_address
          else if valid_url (host.parse_request_uri c.url)
          then none
          else some invalid_url
    ]

-- `findCertutil`
unfoldable pub find_certutil : Host → Text → Option Text
find_certutil host binary =
    if not (text_eq binary [])
    then some binary
    else if text_eq host.goos (codes "windows")
    then host.look_path (codes "nss-certutil")
    else host.look_path (codes "certutil")

-- The candidate below a home directory.
abbrev home_candidate : Host → Option Text → List Text
home_candidate host none = []
home_candidate host (some home) =
    host.join_path (
      home
      ∷ codes "Applications"
      ∷ codes "Firefox.app"
      ∷ codes "Contents"
      ∷ codes "MacOS"
      ∷ codes "firefox"
      ∷ [])
    ∷ []

-- The candidates below the directories that the variables name.
unfoldable pub variable_candidates : Host → List Text → List Text
variable_candidates host [] = []
variable_candidates host (variable ∷ variables) =
    let rest = variable_candidates host variables in
    if text_eq (host.getenv variable) []
    then rest
    else host.join_path (host.getenv variable ∷ codes "Mozilla Firefox" ∷ codes "firefox.exe" ∷ [])
      ∷ rest

-- `firefoxCandidates`
unfoldable pub firefox_candidates : Host → List Text
firefox_candidates host =
    if text_eq host.goos (codes "darwin")
    then codes "/Applications/Firefox.app/Contents/MacOS/firefox" ∷ home_candidate host host.home
    else if text_eq host.goos (codes "windows")
    then variable_candidates host
        (codes "ProgramFiles" ∷ codes "ProgramFiles(x86)" ∷ codes "LOCALAPPDATA" ∷ [])
    else []

abbrev is_file : Option Bool → Bool
is_file none = false
is_file (some directory) = not directory

-- The first candidate that is a file.
unfoldable pub first_file : Host → List Text → Option Text
first_file host [] = none
first_file host (path ∷ paths) =
    let rest = first_file host paths in if is_file (host.stat path) then some path else rest

-- `findFirefox`
unfoldable pub find_firefox : Host → Text → Option Text
find_firefox host binary =
    if not (text_eq binary []) then some binary else elim (host.look_path (codes "firefox")) [
      | some path ↦ some path
      | none ↦ first_file host (firefox_candidates host)
    ]

-- One byte in strconv.Quote; bytes above ASCII stand for printable characters.
unfoldable pub quote_byte : ℕ → Text
quote_byte c =
    if c == b'"' || c == b'\\'
    then b'\\' ∷ c ∷ []
    else if c == 7
    then codes "\\a"
    else if c == 8
    then codes "\\b"
    else if c == 9
    then codes "\\t"
    else if c == 10
    then codes "\\n"
    else if c == 11
    then codes "\\v"
    else if c == 12
    then codes "\\f"
    else if c == 13
    then codes "\\r"
    else if ltb c 32 || c == 127
    then codes "\\x" ++ hex_text (c ∷ [])
    else c ∷ []

unfoldable pub quote_bytes : Text → Text
quote_bytes [] = []
quote_bytes (c ∷ s) = quote_byte c ++ quote_bytes s

-- strconv.Quote
unfoldable pub quote : Text → Text
quote s = b'"' ∷ (quote_bytes s ++ (b'"' ∷ []))

unfoldable pub concrete_ip : Text → Option Ip → Text
concrete_ip host none = host
concrete_ip host (some ip) =
    if is_unspecified ip then if is_ipv4 ip then codes "127.0.0.1" else codes "::1" else host

-- The host that Firefox connects to.
unfoldable pub concrete_host : Text → Text
concrete_host host = if text_eq host [] then codes "127.0.0.1" else concrete_ip host (parse_ip host)

abbrev pub preference_port : Text → Option ℤ → Option (Text × ℤ)
preference_port host none = none
preference_port host (some port) =
    if ltb_ℤ port (pos 1) || ltb_ℤ (pos 65535) port then none else some (concrete_host host, port)

-- The host and the port of the preferences; `none` is an error.
unfoldable pub preference_target : Text → Option (Text × ℤ)
preference_target address = elim (split_host_port address) [
  | none ↦ none
  | some (host, port) ↦ preference_port host (parse_int port)
]

-- The text of user.js.
unfoldable pub preferences : Text → ℤ → Text
preferences host port =
    codes "// Managed by lemmingd. Do not edit while Firefox is running.\n"
    ++ (codes "user_pref(\"network.proxy.type\", 1);\n"
        ++ (codes "user_pref(\"network.proxy.share_proxy_settings\", true);\n"
            ++ (codes "user_pref(\"network.proxy.http\", "
                ++ (quote host
                    ++ (codes ");\nuser_pref(\"network.proxy.http_port\", "
                        ++ (format_int port
                            ++ (codes ");\nuser_pref(\"network.proxy.ssl\", "
                                ++ (quote host
                                    ++ (codes ");\nuser_pref(\"network.proxy.ssl_port\", "
                                        ++ (format_int port
                                            ++ codes
                                                ");\nuser_pref(\"network.proxy.no_proxies_on\", \"localhost, 127.0.0.1, ::1\");\n// lemmingd closes Firefox when it stops. A quit warning would stop that.\nuser_pref(\"browser.warnOnQuit\", false);\n"))))))))))
