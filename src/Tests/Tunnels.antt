-- ===== src/Tests/Tunnels.antt =====
-- Runs of the sessions of intercepted tunnels of internal/proxycore/mitm.go.
use hamsterd.Common.{◌≡◌, ◌⊎◌, refl, true, false, none, some, [], Text, codes, text_eq}
use hamsterd.Common.Strings.{
  lower_byte, is_space, trim_left, trim_right, trim_space, trim_last, cut_first, cut_last, has_byte,
  is_digit,
}
use hamsterd.Common.Net.{split_host_port, join_host_port}
use hamsterd.Common.Http.{Url, Request}
use hamsterd.Proxycore.Trust.{normalize_hostname}
use hamsterd.Proxycore.Mitm.{
  Session, host_only, authority_of, session_of, connect_parts, serve_mitm, refused, forwarded,
  mitm_handler,
}
use hamsterd.Common.Net.Plain.{IsPlain}
use hamsterd.Proxycore.Mitm.SameHost.{connect_name, mitm-same_host}

abbrev session : Session
session = record {
  host = codes "www.example.com";
  scheme = codes "https";
  authority = codes "www.example.com:8443";
}

abbrev page : Url
page = record {
  scheme = [];
  user = none;
  host = [];
  path = codes "/a";
  raw_path = [];
  force_query = false;
  raw_query = [];
  fragment = [];
}

abbrev get_page : Text → Request
get_page host = record { method = codes "GET"; url = some page; header = []; host = host }

abbrev sent_page : Request
sent_page = record (get_page (codes "WWW.example.com:8443")) {
  url = some (record page { scheme = codes "https"; host = codes "www.example.com:8443" });
}

program : Unit {0}
unfolding serve_mitm session_of authority_of connect_parts host_only mitm_handler normalize_hostname
    split_host_port join_host_port cut_first cut_last has_byte is_digit trim_last trim_space
    trim_left trim_right is_space lower_byte text_eq connect_name
program = tt

opened : serve_mitm true (some 0x16) (codes "WWW.Example.com:8443") ≡ some session
unfolding program
opened = refl

passed_on :
    mitm_handler session.scheme session.authority (get_page (codes "WWW.example.com:8443")) page
    ≡ forwarded sent_page
unfolding program
passed_on = refl

-- A request for another host is misdirected.
misdirected :
    mitm_handler session.scheme session.authority (get_page (codes "api.example.com")) page
    ≡ refused 421
unfolding program
misdirected = refl

IsPlain-name : IsPlain (connect_name (codes "WWW.Example.com:8443"))
unfolding program
IsPlain-name = record { no_colon = refl; no_open = refl; no_close = refl }

IsPlain-port : IsPlain (connect_parts (codes "WWW.Example.com:8443")).1
unfolding program
IsPlain-port = record { no_colon = refl; no_open = refl; no_close = refl }

mitm-same_host_example :
    (sent_page.url ≡ some (record page { scheme = session.scheme; host = session.authority }))
    × (host_only session.authority ≡ connect_name (codes "WWW.Example.com:8443"))
    × (text_eq (codes "GET") (codes "CONNECT") ≡ false)
    × ((codes "WWW.example.com:8443" ≡ [])
        ⊎ (normalize_hostname (host_only (codes "WWW.example.com:8443"))
            ≡ normalize_hostname (connect_name (codes "WWW.Example.com:8443"))))
mitm-same_host_example =
    mitm-same_host true (some 0x16) (codes "WWW.Example.com:8443") session
      (get_page (codes "WWW.example.com:8443")) sent_page page IsPlain-name IsPlain-port opened
      passed_on

-- An IPv6 host at the default port: the authority has no brackets.
bare_ipv6 :
    serve_mitm true (some 0x16) (codes "[2001:db8::1]:443")
    ≡ some (record {
      host = codes "2001:db8::1";
      scheme = codes "https";
      authority = codes "2001:db8::1";
    })
unfolding program
bare_ipv6 = refl
