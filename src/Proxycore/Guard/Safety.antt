-- ===== src/Proxycore/Guard/Safety.antt =====
-- Where a remote client of the proxy of internal/proxycore/proxy.go can be connected to.
use hamsterd.Common.{
  none, refl, ap, map, subst, [], ◌∷◌, ◌∙◌, text_eq_iff, ◌≡◌, ◌⊎◌, inl, inr, Bool, true, false,
  Option, some, List, Text, text_eq, any, arith, Option-cases, Bool-cases,
}
use hamsterd.Common.Ip.{Ip, parse_ip, is_unspecified}
use hamsterd.Common.Int.{ℤ, pos, eq_ℤ}
use hamsterd.Common.Numbers.{parse_int}
use hamsterd.Common.Net.{split_host_port, join_host_port}
use hamsterd.Proxycore.Trust.{has_target}
use hamsterd.Proxycore.Guard.{
  Options, self_addresses, denied_destination, control, new_guard, connected, Dialers, dial_context,
  connect_port_allowed, ports_or_default, on_connect, tunnel,
}

-- A net.Dialer asks its `Control` about the resolved address before it connects to it.
abbrev pub AsksControl : Dialers → Type 0
AsksControl d =
    (allowed : Text → Bool) (address resolved : Text)
    → d.controlled allowed address ≡ connected resolved
    → allowed resolved ≡ true

abbrev pub IsIn : {A : Type 0} → A → List A → Type 0
IsIn a [] = ⊥
IsIn a (b ∷ bs) = (a ≡ b) ⊎ IsIn a bs

-- The port of an address is one of a list of numbers.
abbrev pub HasPort : Text → List ℤ → Type 0
HasPort address ports =
    (host : Text) × (raw : Text) × (port : ℤ) × (split_host_port address ≡ some (host, raw))
    × (parse_int raw ≡ some port)
    × IsIn port ports

-- The configured ports, or 443 if there are none.
abbrev pub allowed_ports : List ℤ → List ℤ
allowed_ports [] = pos 443 ∷ []
allowed_ports (p ∷ ps) = p ∷ ps

-- An address that leads to the proxy itself: the one it listens on, or, where it listens on a name
-- or on all addresses, its port at an address of an interface.
pub data IsOwn (ip_text : Ip → Text) (interfaces : Option (List Ip)) (listen address : Text)
    : Type 0 where
  own_ip :
      (host port : Text) (l : Ip)
      → split_host_port listen ≡ some (host, port)
      → parse_ip host ≡ some l
      → is_unspecified l ≡ false
      → address ≡ join_host_port (ip_text l) port
      → IsOwn ip_text interfaces listen address
  own_interface :
      (host port : Text) (ips : List Ip) (ip : Ip)
      → split_host_port listen ≡ some (host, port)
      → (parse_ip host ≡ none) ⊎ ((l : Ip) × (parse_ip host ≡ some l) × (is_unspecified l ≡ true))
      → interfaces ≡ some ips
      → IsIn ip ips
      → address ≡ join_host_port (ip_text ip) port
      → IsOwn ip_text interfaces listen address

-- An address of a literal IP that is neither refused nor the proxy's own.
pub record IsPublic (ip_text : Ip → Text) (interfaces : Option (List Ip)) (listen address : Text)
    : Type 0 where
  pub host : Text
  pub port : Text
  pub ip : Ip
  pub splits : split_host_port address ≡ some (host, port)
  pub literal : parse_ip host ≡ some ip
  pub allowed : denied_destination ip ≡ false
  pub no_loop : ¬ IsOwn ip_text interfaces listen (join_host_port (ip_text ip) port)

module _ (ip_text : Ip → Text) where
  interface_self :
      (port address : Text) (ip : Ip) (ips : List Ip)
      → IsIn ip ips
      → address ≡ join_host_port (ip_text ip) port
      → any (text_eq address) (map (λ i. join_host_port (ip_text i) port) ips) ≡ true
  interface_self port address ip [] m e = elim m [ ]
  interface_self port address ip (i ∷ ips) (inl same) e =
      let here =
        (text_eq_iff address (join_host_port (ip_text i) port)).1
          (e ∙ ap (λ j. join_host_port (ip_text j) port) same) in
      ground (arith, here)
  interface_self port address ip (i ∷ ips) (inr later) e =
      ground (arith, interface_self port address ip ips later e)

  IsOwn-self :
      (interfaces : Option (List Ip)) (listen address : Text)
      → IsOwn ip_text interfaces listen address
      → any (text_eq address) (self_addresses ip_text interfaces listen) ≡ true
  unfolding self_addresses
  IsOwn-self interfaces listen address (own_ip host port l s f u e) =
      let same = (text_eq_iff address (join_host_port (ip_text l) port)).1 e in
      rw (self_addresses, s, f, u) (ground (arith, same))
  IsOwn-self interfaces listen address (own_interface host port ips ip s (inl f) i m e) =
      rw (self_addresses, s, f, i) (interface_self port address ip ips m e)
  IsOwn-self interfaces listen address (own_interface host port ips ip s (inr (l, f, u)) i m e) =
      rw (self_addresses, s, f, u, i) (interface_self port address ip ips m e)

  any-IsIn : (port : ℤ) (ports : List ℤ) → any (eq_ℤ port) ports ≡ true → IsIn port ports
  any-IsIn port [] h = absurd (cc)
  any-IsIn port (p ∷ ps) h = elim (Bool-cases (eq_ℤ port p)) [
    | inl same ↦ inl (ground arith)
    | inr other ↦ inr (any-IsIn port ps (ground (arith, other, h)))
  ]

  ports_lem : (ports : List ℤ) → ports_or_default ports ≡ allowed_ports ports
  ports_lem [] = refl
  ports_lem (p ∷ ps) = refl

  connect_port_allowed-HasPort :
      (host : Text) (ports : List ℤ) → connect_port_allowed host ports ≡ true → HasPort host ports
  unfolding connect_port_allowed
  connect_port_allowed-HasPort host ports h = elim (Option-cases (split_host_port host)) [
    | inl bad ↦ absurd (ground arith)
    | inr ((name, raw), splits) ↦ elim (Option-cases (parse_int raw)) [
      | inl word ↦ absurd (ground arith)
      | inr (port, number) ↦ (name, raw, port, splits, number, any-IsIn port ports (ground arith))
    ]
  ]

  control-IsPublic :
      (interfaces : Option (List Ip)) (options : Options) (address : Text)
      → control ip_text (new_guard ip_text interfaces options) address ≡ true
      → IsPublic ip_text interfaces options.listen_address address
  unfolding control new_guard
  control-IsPublic interfaces options address h = elim (Option-cases (split_host_port address)) [
    | inl bad ↦ absurd (ground arith)
    | inr ((host, port), splits) ↦ elim (Option-cases (parse_ip host)) [
      | inl name ↦ absurd (ground arith)
      | inr (ip, literal) ↦ record {
        host = host;
        port = port;
        ip = ip;
        splits = splits;
        literal = literal;
        allowed = ground arith;
        no_loop = λ own.
            let loop = IsOwn-self interfaces options.listen_address _ own in absurd (ground arith);
      }
    ]
  ]

  -- If a CONNECT of a remote client leads to a connection, then its port is one of the configured
  -- ones, or 443 if none is configured, and either its destination is a trusted target or the
  -- address that is reached is a literal IP that is not refused and not one that the proxy listens on,
  -- where a proxy that listens on a name or on all addresses does so at those of its interfaces;
  -- provided that the dialer asks its `Control` before it connects.
  pub tunnel-IsPublic :
      (d : Dialers) (interfaces : Option (List Ip)) (options : Options) (host resolved : Text)
      → AsksControl d
      → options.remote_clients ≡ true
      → tunnel ip_text d options (new_guard ip_text interfaces options) host ≡ connected resolved
      → HasPort host (allowed_ports options.connect_ports)
        × ((has_target options.trusted host ≡ true)
            ⊎ IsPublic ip_text interfaces options.listen_address resolved)
  unfolding tunnel on_connect dial_context new_guard
  tunnel-IsPublic d interfaces options host resolved asks remote h =
      elim (Bool-cases (connect_port_allowed host (ports_or_default options.connect_ports))) [
        | inr closed ↦ absurd (ground arith)
        | inl open_port ↦ (
          subst (HasPort host) (ports_lem options.connect_ports) (
              connect_port_allowed-HasPort host (ports_or_default options.connect_ports) open_port),
          elim (Bool-cases (has_target options.trusted host)) [
            | inl trusted ↦ inl trusted
            | inr other ↦
                let g = new_guard ip_text interfaces options in
                inr (
                  control-IsPublic interfaces options resolved
                    (asks (control ip_text g) host resolved (ground arith)))
          ],
        )
      ]
