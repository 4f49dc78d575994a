-- ===== src/Cache/Expiration/Laws.antt =====
-- What a stored response satisfies, and where the 64-bit arithmetic of the lifetimes is exact.
use hamsterd.Common.{
  ℕ, ◌+◌, ◌-◌, ◌*◌, ◌≤◌, ◌<◌, ◌^◌, ◌≡◌, ◌∙◌, ap, false, Option, none, some, [], Text, codes,
  text_eq_iff, arith, Option-cases, inl, inr,
}
use hamsterd.Common.Int.{
  ℤ, pos, negsuc, pos_part, neg_part, ◌+ℤ◌, ◌-ℤ◌, ◌*ℤ◌, ◌<ℤ◌, wrap64, wrap64_id, +ℤ_parts, -ℤ_parts,
}
use hamsterd.Common.Clock.{Time, Duration, second, seconds_duration}
use hamsterd.Common.Dict.{lookup}
use hamsterd.Common.Http.{header_get, Response}
use hamsterd.Cache.Metadata.{response_age}
use hamsterd.Cache.Request.{Directives, parse_cache_control}
use hamsterd.Cache.Expiration.{
  Expiration, directive_seconds, fresh_from_age, fresh_from_max_age, fresh_until, stale_until,
  refused_response, refused_directives, response_expiration,
}

-- The largest number of whole seconds that a time.Duration holds.
abbrev pub max_seconds : ℕ
max_seconds = 9_223_372_036

pub seconds_duration_exact :
    (n : ℤ)
    → pos_part n ≤ max_seconds
    → neg_part n ≤ max_seconds
    → seconds_duration n ≡ n *ℤ pos second
unfolding seconds_duration ◌*ℤ◌
seconds_duration_exact (pos n) h k = wrap64_id _ (ground arith) (ground arith)
seconds_duration_exact (negsuc n) h k = wrap64_id _ (ground arith) (ground arith)

-- Above that the product wraps to a negative duration.
pub seconds_duration_wraps :
    (n : ℕ) → max_seconds < n → n ≤ 2 * max_seconds → seconds_duration (pos n) <ℤ pos 0
unfolding seconds_duration ◌*ℤ◌ wrap64
seconds_duration_wraps n h k = ground arith

difference : (n a : ℕ) → a ≤ n → pos n -ℤ pos a ≡ pos (n - a)
unfolding ◌-ℤ◌
difference n a h = ground arith

difference_parts : (n a : ℕ) → (pos_part (pos n -ℤ pos a) ≤ n) × (neg_part (pos n -ℤ pos a) ≤ a)
unfolding ◌-ℤ◌
difference_parts n a = ground arith

not_extended :
    (d : Directives) (fresh stale : Time)
    → lookup (codes "stale-while-revalidate") d ≡ none
    → stale_until d fresh ≡ some stale
    → stale ≡ fresh
unfolding stale_until
not_extended d fresh stale h e = ground arith

future_past : (now t u : Time) → t ≡ u → now <ℤ t → u <ℤ now → ⊥
future_past now t u e h k = absurd (ground arith)

fresh_from_age-wraps :
    (now : Time) (n a : ℕ)
    → max_seconds + a < n
    → n ≤ 2 * max_seconds + a
    → n < 2 ^ 63
    → fresh_from_age now (pos n) (pos a) <ℤ now
unfolding fresh_from_age
fresh_from_age-wraps now n a above below small =
    let e : pos n -ℤ pos a ≡ pos (n - a) = difference n a (omega arith) in
    let f : wrap64 (pos (n - a)) ≡ pos (n - a) = wrap64_id _ (omega arith) (omega arith) in
    rw (e, f)
      (omega (
        arith,
        +ℤ_parts now (seconds_duration (pos (n - a))),
        seconds_duration_wraps (n - a) (omega arith) (omega arith),
      ))

abbrev pub directives_of : Response → Directives
directives_of r = parse_cache_control (header_get (codes "Cache-Control") r.header)

-- What the code asks of a response before it stores it.
pub record IsStorable (parse_time : Text → Option Time) (r : Response) (now : Time)
    (default_ttl : Duration) (e : Expiration) : Type 0 where
  pub allowed : refused_response r ≡ false
  pub shared : refused_directives (directives_of r) ≡ false
  pub fresh : fresh_until parse_time r.header (directives_of r) now default_ttl ≡ some e.fresh_until
  pub stale : stale_until (directives_of r) e.fresh_until ≡ some e.stale_until
  pub future : now <ℤ e.stale_until

module _ (parse_time : Text → Option Time) (r : Response) (now : Time)
    (default_ttl : Duration) where
  response_expiration-IsStorable :
      (e : Expiration)
      → response_expiration parse_time r now default_ttl ≡ some e
      → IsStorable parse_time r now default_ttl e
  unfolding response_expiration
  response_expiration-IsStorable e h = ground arith

  -- A response that is stored has status 200 and neither Set-Cookie nor Content-Range, its
  -- Cache-Control has none of no-store, no-cache and private, and it can be served at some time
  -- after it is stored.
  pub response_expiration_sound :
      (e : Expiration)
      → response_expiration parse_time r now default_ttl ≡ some e
      → (r.status_code ≡ 200)
        × (header_get (codes "Set-Cookie") r.header ≡ codes "")
        × (header_get (codes "Content-Range") r.header ≡ codes "")
        × (lookup (codes "no-store") (directives_of r) ≡ none)
        × (lookup (codes "no-cache") (directives_of r) ≡ none)
        × (lookup (codes "private") (directives_of r) ≡ none)
        × (now <ℤ e.stale_until)
  unfolding refused_response refused_directives
  response_expiration_sound e h =
      let s = response_expiration-IsStorable e h in
      let a = s.allowed in
      let b = s.shared in
      ground (
        arith,
        text_eq_iff (header_get (codes "Set-Cookie") r.header) [],
        text_eq_iff (header_get (codes "Content-Range") r.header) [],
        s.future,
      )

  module _ (raw : Text) (n a : ℕ) (given : lookup (codes "max-age") (directives_of r) ≡ some raw)
      (parsed : directive_seconds raw ≡ some (pos n))
      (aged : response_age r.header ≡ some (pos a)) where
    fresh_until_of_max_age :
        fresh_until parse_time r.header (directives_of r) now default_ttl
        ≡ some (fresh_from_age now (pos n) (pos a))
    unfolding fresh_until fresh_from_max_age
    fresh_until_of_max_age = ground arith

    -- A stored response with `max-age` n and `Age` a, both of at most 292 years, is fresh for
    -- exactly n - a seconds from the time it is stored.
    pub max_age_exact :
        (e : Expiration)
        → n ≤ max_seconds
        → a ≤ max_seconds
        → response_expiration parse_time r now default_ttl ≡ some e
        → e.fresh_until ≡ now +ℤ (pos n -ℤ pos a) *ℤ pos second
    unfolding fresh_from_age
    max_age_exact e hn ha h =
        let fresh = (response_expiration-IsStorable e h).fresh in
        let same : e.fresh_until ≡ fresh_from_age now (pos n) (pos a) =
          cc (fresh, fresh_until_of_max_age) in
        let d = pos n -ℤ pos a in
        let fits : wrap64 d ≡ d = wrap64_id d (omega (arith, -ℤ_parts)) (omega (arith, -ℤ_parts)) in
        same
        ∙ ap (λ x. now +ℤ x)
            (ap seconds_duration fits
              ∙ seconds_duration_exact d (omega (arith, difference_parts n a))
                  (omega (arith, difference_parts n a)))

    -- A response whose lifetime n - a is above 292 and at most 584 years, and which has no
    -- stale-while-revalidate, is not stored, since its lifetime wraps to a negative duration.
    pub max_age_wraps :
        max_seconds + a < n
        → n ≤ 2 * max_seconds + a
        → n < 2 ^ 63
        → lookup (codes "stale-while-revalidate") (directives_of r) ≡ none
        → response_expiration parse_time r now default_ttl ≡ none
    unfolding fresh_from_age
    max_age_wraps above below small plain =
        elim (Option-cases (response_expiration parse_time r now default_ttl)) [
          | inl refused ↦ refused
          | inr (e, h) ↦
              let s = response_expiration-IsStorable e h in
              let fresh = s.fresh in
              let same : e.fresh_until ≡ fresh_from_age now (pos n) (pos a) =
                cc (fresh, fresh_until_of_max_age) in
              let stale : e.stale_until ≡ e.fresh_until = not_extended _ _ _ plain s.stale in
              let d = fresh_from_age-wraps now n a above below small in
              absurd (future_past now _ _ (stale ∙ same) s.future d)
        ]
