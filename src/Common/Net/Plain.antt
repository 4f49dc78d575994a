-- ===== src/Common/Net/Plain.antt =====
-- net.SplitHostPort at names and ports without brackets.
use mathlib.Core.Path.{◌≡◌, refl}
use mathlib.Core.Bool.{false, ◌||◌}
use mathlib.Core.List.{[], ◌∷◌, ◌++◌}
use mathlib.Core.Option.{none, some}
use Prim.Native.Nat.{ℕ}
use native.Mathlib.Omega.{arith}
use hamsterd.Common.Strings.{Text, has_byte, cut_last}
use hamsterd.Common.Net.{split_host_port, join_host_port}

-- No colon and no bracket, as in a registered name, an IPv4 address or a port.
pub record IsPlain (s : Text) : Type 0 where
  pub no_colon : has_byte b':' s ≡ false
  pub no_open : has_byte b'[' s ≡ false
  pub no_close : has_byte b']' s ≡ false

cut_last-none : (b : ℕ) (s : Text) → has_byte b s ≡ false → cut_last b s ≡ none
unfolding cut_last has_byte
cut_last-none b [] h = refl
cut_last-none b (c ∷ s) h = ground (arith, cut_last-none b s)

cut_last-append :
    (b : ℕ) (s t : Text) → has_byte b t ≡ false → cut_last b (s ++ b ∷ t) ≡ some (s, t)
unfolding cut_last has_byte
cut_last-append b [] t h = ground (arith, cut_last-none b t)
cut_last-append b (c ∷ s) t h = ground (arith, cut_last-append b s t)

pub has_byte-append : (b : ℕ) (s t : Text) → has_byte b (s ++ t) ≡ has_byte b s || has_byte b t
unfolding has_byte
has_byte-append b [] t = refl
has_byte-append b (c ∷ s) t = ground (arith, has_byte-append b s t)

pub split_host_port-none : (s : Text) → IsPlain s → split_host_port s ≡ none
unfolding split_host_port has_byte
split_host_port-none [] p = refl
split_host_port-none (c ∷ s) p = ground (arith, p.no_open, p.no_colon, cut_last-none b':' (c ∷ s))

pub split_host_port-join :
    (host port : Text)
    → IsPlain host
    → IsPlain port
    → split_host_port (join_host_port host port) ≡ some (host, port)
unfolding split_host_port join_host_port has_byte
split_host_port-join [] port p q =
    ground (arith, q.no_open, q.no_close, q.no_colon, cut_last-append b':' [] port)
split_host_port-join (c ∷ host) port p q = ground (
  arith,
  p.no_open,
  p.no_close,
  p.no_colon,
  q.no_open,
  q.no_close,
  q.no_colon,
  cut_last-append b':' (c ∷ host) port,
  has_byte-append b'[' host (b':' ∷ port),
  has_byte-append b']' host (b':' ∷ port),
)
