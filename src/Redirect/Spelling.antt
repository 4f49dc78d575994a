-- ===== src/Redirect/Spelling.antt =====
-- The spellings of a host that `NormalizeHost` of internal/redirect/redirect.go makes one.
use hamsterd.Common.{
  ℕ, ◌≡◌, refl, sym, ap, subst, ◌∙◌, Bool, true, false, Option, none, some, [], ◌∷◌, ◌++◌, Text,
  ◌==◌, All, All-append, arith,
}
use hamsterd.Common.Strings.{
  to_lower, lower_byte, is_space, is_digit, has_byte, trim_left, trim_right, trim_space, trim_last,
}
use hamsterd.Common.Net.{split_host_port, join_host_port}
use hamsterd.Common.Net.Plain.{IsPlain, has_byte-append, split_host_port-none, split_host_port-join}
use hamsterd.Redirect.{normalize_host}
use mathlib.Core.List.{map-append, append-nil, append_assoc}

abbrev pub ends_in_dot : Text → Bool
ends_in_dot [] = false
ends_in_dot (c ∷ []) = c == b'.'
ends_in_dot (c ∷ d ∷ s) = ends_in_dot (d ∷ s)

abbrev pub NoSpace : ℕ → Type 0
NoSpace c = is_space c ≡ false

abbrev pub Digit : ℕ → Type 0
Digit c = is_digit c ≡ true

-- A name or an IPv4 address in lower case: no colon, bracket or white space, and no dot at the end.
pub record IsName (name : Text) : Type 0 where
  pub plain : IsPlain name
  pub lower : to_lower name ≡ name
  pub no_space : All NoSpace name
  pub no_dot : ends_in_dot name ≡ false

abbrev pub dot : Bool → Text
dot false = []
dot true = b'.' ∷ []

abbrev pub port_part : Option Text → Text
port_part none = []
port_part (some port) = b':' ∷ port

abbrev pub IsPort : Option Text → Type 0
IsPort none = Unit {0}
IsPort (some port) = All Digit port

-- The name in some case, with or without a dot behind it, and with or without a port of digits.
pub record Spells (name host_port : Text) : Type 0 where
  pub cased : Text
  pub same : to_lower cased ≡ name
  pub dotted : Bool
  pub port : Option Text
  pub digits : IsPort port
  pub spelled : host_port ≡ cased ++ (dot dotted ++ port_part port)

lower-NoSpace : (s : Text) → All NoSpace (to_lower s) → All NoSpace s
unfolding lower_byte is_space
lower-NoSpace [] h = tt
lower-NoSpace (c ∷ s) (p, h) = (ground arith, lower-NoSpace s h)

trim_left-NoSpace : (s : Text) → All NoSpace s → trim_left s ≡ s
unfolding trim_left
trim_left-NoSpace [] h = refl
trim_left-NoSpace (c ∷ s) (p, h) = ground (arith, p)

trim_right-NoSpace : (s : Text) → All NoSpace s → trim_right s ≡ s
unfolding trim_right
trim_right-NoSpace [] h = refl
trim_right-NoSpace (c ∷ []) (p, h) = ground (arith, p)
trim_right-NoSpace (c ∷ d ∷ s) (p, h) = ground (arith, trim_right-NoSpace (d ∷ s) h)

trim_space-NoSpace : (s : Text) → All NoSpace s → trim_space s ≡ s
unfolding trim_space
trim_space-NoSpace s h = ap trim_right (trim_left-NoSpace s h) ∙ trim_right-NoSpace s h

trim_last-no_dot : (s : Text) → ends_in_dot s ≡ false → trim_last b'.' s ≡ s
unfolding trim_last
trim_last-no_dot [] h = refl
trim_last-no_dot (c ∷ []) h = ground (arith, h)
trim_last-no_dot (c ∷ d ∷ s) h = ap (λ t. c ∷ t) (trim_last-no_dot (d ∷ s) h)

trim_last-dot : (s : Text) → trim_last b'.' (s ++ b'.' ∷ []) ≡ s
unfolding trim_last
trim_last-dot [] = refl
trim_last-dot (c ∷ []) = refl
trim_last-dot (c ∷ d ∷ s) = ap (λ t. c ∷ t) (trim_last-dot (d ∷ s))

trim_last-name :
    (name : Text) (dotted : Bool)
    → ends_in_dot name ≡ false
    → trim_last b'.' (name ++ dot dotted) ≡ name
trim_last-name name false h = rw (append-nil name) (trim_last-no_dot name h)
trim_last-name name true h = trim_last-dot name

digits-no_dot : (p : Text) → All Digit p → ends_in_dot p ≡ false
unfolding is_digit
digits-no_dot [] h = refl
digits-no_dot (c ∷ []) (d, h) = ground arith
digits-no_dot (c ∷ e ∷ p) (d, h) = digits-no_dot (e ∷ p) h

port-no_dot : (s p : Text) → All Digit p → ends_in_dot (s ++ b':' ∷ p) ≡ false
port-no_dot [] [] h = refl
port-no_dot [] (c ∷ p) h = digits-no_dot (c ∷ p) h
port-no_dot (c ∷ []) p h = port-no_dot [] p h
port-no_dot (c ∷ d ∷ s) p h = port-no_dot (d ∷ s) p h

digits-lower : (p : Text) → All Digit p → to_lower p ≡ p
unfolding is_digit lower_byte
digits-lower [] h = refl
digits-lower (c ∷ p) (d, h) =
    let same : lower_byte c ≡ c = ground arith in ground (arith, same, digits-lower p h)

digits-NoSpace : (p : Text) → All Digit p → All NoSpace p
unfolding is_digit is_space
digits-NoSpace [] h = tt
digits-NoSpace (c ∷ p) (d, h) = (ground arith, digits-NoSpace p h)

digits-no_byte : (b : ℕ) (p : Text) → is_digit b ≡ false → All Digit p → has_byte b p ≡ false
unfolding has_byte is_digit
digits-no_byte b [] n h = refl
digits-no_byte b (c ∷ p) n (d, h) = ground (arith, digits-no_byte b p n h)

module _ (raw : Text) where
  normalize_host-none :
      (host_port : Text)
      → trim_last b'.' (to_lower (trim_space raw)) ≡ host_port
      → split_host_port host_port ≡ none
      → normalize_host raw ≡ host_port
  unfolding normalize_host
  normalize_host-none host_port e f = rw (normalize_host, e, f) e

  normalize_host-some :
      (host_port host port : Text)
      → trim_last b'.' (to_lower (trim_space raw)) ≡ host_port
      → split_host_port host_port ≡ some (host, port)
      → normalize_host raw ≡ trim_last b'.' (to_lower host)
  unfolding normalize_host
  normalize_host-some host_port host port e f = rw (normalize_host, e, f) refl

module _ (name : Text) (valid : IsName name) where
  dotted-IsPlain : (dotted : Bool) → IsPlain (name ++ dot dotted)
  unfolding has_byte
  dotted-IsPlain false = rw (append-nil name) valid.plain
  dotted-IsPlain true = record {
    no_colon = has_byte-append b':' name (dot true) ∙ ground (arith, valid.plain.no_colon);
    no_open = has_byte-append b'[' name (dot true) ∙ ground (arith, valid.plain.no_open);
    no_close = has_byte-append b']' name (dot true) ∙ ground (arith, valid.plain.no_close);
  }

  dotted-lower : (dotted : Bool) → to_lower (name ++ dot dotted) ≡ name ++ dot dotted
  unfolding lower_byte
  dotted-lower false = map-append lower_byte name [] ∙ ap (λ t. t ++ []) valid.lower
  dotted-lower true = map-append lower_byte name (dot true) ∙ ap (λ t. t ++ dot true) valid.lower

  port-IsPlain : (port : Text) → All Digit port → IsPlain port
  unfolding is_digit
  port-IsPlain port h = record {
    no_colon = digits-no_byte b':' port refl h;
    no_open = digits-no_byte b'[' port refl h;
    no_close = digits-no_byte b']' port refl h;
  }

  split-dotted_port :
      (dotted : Bool) (port : Text)
      → All Digit port
      → split_host_port ((name ++ dot dotted) ++ b':' ∷ port) ≡ some (name ++ dot dotted, port)
  unfolding join_host_port
  split-dotted_port dotted port h =
      let p = dotted-IsPlain dotted in
      let joined : join_host_port (name ++ dot dotted) port ≡ (name ++ dot dotted) ++ b':' ∷ port =
        ground (arith, p.no_colon) in
      subst (λ t. split_host_port t ≡ some (name ++ dot dotted, port)) joined
        (split_host_port-join (name ++ dot dotted) port p (port-IsPlain port h))

  suffix-NoSpace :
      (dotted : Bool) (port : Option Text)
      → IsPort port
      → All NoSpace (dot dotted ++ port_part port)
  unfolding is_space
  suffix-NoSpace false none h = tt
  suffix-NoSpace true none h = (refl, tt)
  suffix-NoSpace false (some port) h = (refl, digits-NoSpace port h)
  suffix-NoSpace true (some port) h = (refl, (refl, digits-NoSpace port h))

  suffix-lower :
      (dotted : Bool) (port : Option Text)
      → IsPort port
      → to_lower (dot dotted ++ port_part port) ≡ dot dotted ++ port_part port
  unfolding lower_byte
  suffix-lower false none h = refl
  suffix-lower true none h = refl
  suffix-lower false (some port) h = ap (λ t. b':' ∷ t) (digits-lower port h)
  suffix-lower true (some port) h = ap (λ t. b'.' ∷ b':' ∷ t) (digits-lower port h)

  normalize_spelled :
      (raw : Text) (dotted : Bool) (port : Option Text)
      → IsPort port
      → to_lower (trim_space raw) ≡ name ++ (dot dotted ++ port_part port)
      → normalize_host raw ≡ name
  normalize_spelled raw dotted none h e =
      let whole : dot dotted ++ [] ≡ dot dotted = append-nil (dot dotted) in
      normalize_host-none raw name
        (ap (trim_last b'.') (e ∙ ap (λ t. name ++ t) whole)
          ∙ trim_last-name name dotted valid.no_dot)
        (split_host_port-none name valid.plain)
  normalize_spelled raw dotted (some port) h e =
      let full = (name ++ dot dotted) ++ b':' ∷ port in
      normalize_host-some raw full (name ++ dot dotted) port
        (ap (trim_last b'.') (e ∙ sym (append_assoc name (dot dotted) (b':' ∷ port)))
          ∙ trim_last-no_dot full (port-no_dot (name ++ dot dotted) port h))
        (split-dotted_port dotted port h)
      ∙ (ap (trim_last b'.') (dotted-lower dotted) ∙ trim_last-name name dotted valid.no_dot)

  -- All spellings of a name are normalised to the name.
  pub normalize_host-Spells :
      (host_port : Text) → Spells name host_port → normalize_host host_port ≡ name
  normalize_host-Spells host_port sp =
      let suffix = dot sp.dotted ++ port_part sp.port in
      let parts : All NoSpace (sp.cased ++ suffix) =
        All-append NoSpace sp.cased suffix
          (lower-NoSpace sp.cased (subst (All NoSpace) (sym sp.same) valid.no_space))
          (suffix-NoSpace sp.dotted sp.port sp.digits) in
      let trimmed : trim_space host_port ≡ sp.cased ++ suffix =
        ap trim_space sp.spelled ∙ trim_space-NoSpace (sp.cased ++ suffix) parts in
      normalize_spelled host_port sp.dotted sp.port sp.digits (
        ap to_lower trimmed
        ∙ (map-append lower_byte sp.cased suffix
            ∙ (ap (λ t. t ++ to_lower suffix) sp.same
                ∙ ap (λ t. name ++ t) (suffix-lower sp.dotted sp.port sp.digits))))
