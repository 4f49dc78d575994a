-- ===== src/Lib.antt =====
-- Verification of hamsterd, a caching HTTP proxy, and of lemmingd, a proxy that redirects requests
-- by host and path. Both are built from the packages under internal/.
--
-- The parts and their files:
--   * Cache: internal/cache/cache.go, the disk cache of hamsterd. Cache/Request has
--     `cacheableRequest` and `cacheKey`, which say what is answered from the cache and under which
--     key; Cache/Expiration has `responseExpiration`, which says what is stored and for how long;
--     Cache/Store has the index by recency with `removeLocked` and `evictLocked`; Cache/Disk the
--     files and `replace`; Cache/Load has `load` and `endRefresh`; Cache/Commit has `commit`;
--     Cache/Capture has `capture` and the `Read` and `Close` of a download that is stored while a
--     client reads it, and Cache/Capture/Steps any interleaving of these over one store;
--     Cache/Scan has `NewTransport` and `scan`, which make the store from the directory;
--     Cache/Transport has `RoundTrip` and `refresh`, which join all of these.
--   * Config: internal/config. Config/Target and Config/Rule have `ParseTarget`, `ValidateRule` and
--     `ValidateRules`; Config/Settings has `Validate` and the defaults; Config/Files has the private
--     reads and the atomic writes; Config/Load has `DefaultPaths` and `LoadOrCreate`;
--     Config/AutoRules has rules.auto.json and its merge into config.json.
--   * Redirect: internal/redirect/redirect.go, the router of lemmingd; Redirect/Spelling has the
--     spellings of a host that it makes one.
--   * Lemming: internal/lemming. Of service.go, Lemming/Service has the rules, the router and the
--     trust list with `New`, `AddRule`, `RemoveRule` and `Merge`, and Lemming/Service/Runs any
--     sequence of these; Lemming/Route has `Route`; Lemming/Api has `Rules`, `Status` and the calls
--     of the control API; Lemming/Recent has the ring of recent requests. Lemming/Mcp has the tools
--     of mcp.go.
--   * Proxycore: internal/proxycore, the HTTP proxy that both share. Proxycore/Trust has the trust
--     list, Proxycore/Guard the destination guard and the CONNECT checks of proxy.go,
--     Proxycore/Headers its `removeConnectionHeaders`, Proxycore/Mitm the intercepted tunnels of
--     mitm.go, Proxycore/Listener the connection limit of listener.go, Proxycore/Deadlines its
--     idle timeout, and Proxycore/Serve `ServeAfterListen` and `stopServer`.
--   * Control: internal/control, the control API. Control/Endpoint has its endpoint file and
--     `checkOwner`, Control/Server `Start`, `Close` and `authorize`, Control/Client `Client.Do`.
--   * Pki: internal/pki. Pki/Leaf has `sign` and `fresh` of leaf.go, Pki/Issuer its cache of
--     certificates with any number of callers of `Certificate`, and Pki/Authority `LoadOrCreate`
--     and what it calls in pki.go.
--   * Firefox: internal/firefox/firefox.go, the Firefox of `lemmingd firefox`. Firefox/Setup has the
--     settings, the search for the programs and user.js, Firefox/Lease the preparation lock and the
--     lease of the profile, Firefox/Launch `prepareAndLaunch` and Firefox/Close `Browser.Close`.
--   * Cmd: cmd. Cmd/Hamsterd has the handlers of cmd/hamsterd and its `run` up to the server;
--     Cmd/Lemmingd the handlers of cmd/lemmingd, Cmd/Lemmingd/Commands its commands `config` and
--     `mcp`, and Cmd/Lemmingd/Start its `run`, with the launch and the end of Firefox.
--   * Common: what these use of Go's library, written as lists of bytes, integers with their 64-bit
--     wrap-around, headers and addresses. Tests: runs at concrete inputs.
--
-- A Go struct is a record, a map an association list, a text its list of bytes. A method that
-- changes its receiver takes and returns the record. An error is `none` or a value of its own type.
-- What the operating system decides (whether a file opens, a write or a rename succeeds, a file can
-- be removed) is an argument of each operation, a record of faults, so that a theorem holds for all
-- answers. The base transport, encoding/json, time.ParseDuration, http.ParseTime, SHA-256, url.Parse
-- and the text of a URL, net.Dialer, the text of an address and crypto/x509 are parameters.
--
-- The loop of `evictLocked` runs on fuel, one round for each element of the list, which is enough
-- since each round removes one. In Common, strconv.FormatInt runs on fuel too, n + 1 rounds for the
-- number n, which are more than its digits. All other loops are structural.
--
-- Texts are taken as ASCII where the code changes their case or splits them at white space. Sorting
-- of the lists that the router returns is left out, as they become sets. The wait for the native lock
-- of a Firefox profile is a list of rounds that the timeout ends.
--
-- Not modelled: the servers and the TLS handshakes themselves, their timeouts and the wiring of
-- goproxy (the rest of internal/proxycore), the parser of the flags and the texts of the log (cmd),
-- and os/exec and the native locks (internal/firefox), which all belong to Go's library, to goproxy
-- or to the system.
pub mod Common
pub mod Cache
pub mod Config
pub mod Redirect
pub mod Proxycore
pub mod Control
pub mod Pki
pub mod Firefox
pub mod Lemming
pub mod Cmd
pub mod Tests
