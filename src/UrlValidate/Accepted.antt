-- ===== src/UrlValidate/Accepted.antt =====
-- The guards of Validate that an address has passed when it is accepted.
use browzer_cli.Prelude.{
  Bool, true, false, not, ◌&&◌, ◌||◌, none, some, [], ◌≡◌, ◌≢◌, ◌⊎◌, inl, inr, refl, subst, sym,
  ◌∙◌, ltb, if_split, Option-cases, arith,
}
use browzer_cli.Prelude.Text.{Text, codes, text_eq, trim_space, has_prefix}
use browzer_cli.Prelude.Text.Laws.{text_eq_iff}
use browzer_cli.UrlValidate.{
  Url, World, UrlRefusal, Verdict, accepted, refused, is_reserved_suffix, is_railway_internal,
  colons, ip_refusal, is_loopback_host, scheme_rules, check_host, check_url, validate, unbracketed,
  reserved, bad_scheme, missing_host, userinfo, invalid,
}

or_either : (a b c : Bool) → (a || b) ≡ true → (a ≡ true) ⊎ (b ≡ true) ⊎ (c ≡ true)
or_either a b c h = ground arith

one_holds : (a b : Bool) → (not a && not b) ≡ false → (a ≡ true) ⊎ (b ≡ true)
one_holds a b h = ground arith

nonempty : (s : Text) → text_eq s [] ≡ false → s ≢ []
nonempty s h = ground (arith, text_eq_iff s [])

module _ (w : World) (u : Url) where
  -- The scheme is https, or plain http is let through by the host or by the environment.
  unfoldable pub IsSchemeAllowed : Type 0
  unfolding text_eq is_loopback_host is_railway_internal
  IsSchemeAllowed =
      (u.scheme ≡ codes "https")
      ⊎ (is_loopback_host w u.hostname ≡ true)
      ⊎ (is_railway_internal u.hostname ≡ true)
      ⊎ (w.allow_insecure ≡ true)

  unfoldable pub IsHostChecked : Verdict → Type 0
  unfolding is_reserved_suffix ip_refusal is_loopback_host IsSchemeAllowed has_prefix
  IsHostChecked (refused r) = Unit
  IsHostChecked (accepted u') =
      (u' ≡ u)
      × IsSchemeAllowed
      × ((not (ltb (colons u.hostname) 2) && not (has_prefix u.host (codes "["))) ≡ false)
      × (is_reserved_suffix u.hostname ≡ false)
      × (ip_refusal (is_loopback_host w u.hostname) (w.parse_ip u.hostname) ≡ none)

  refused-IsHostChecked : (r : UrlRefusal) → IsHostChecked (refused r)
  unfolding IsHostChecked
  refused-IsHostChecked r = tt

  scheme_rules-IsHostChecked :
      (not (ltb (colons u.hostname) 2) && not (has_prefix u.host (codes "["))) ≡ false
      → is_reserved_suffix u.hostname ≡ false
      → ip_refusal (is_loopback_host w u.hostname) (w.parse_ip u.hostname) ≡ none
      → IsHostChecked (scheme_rules w u)
  unfolding scheme_rules IsHostChecked IsSchemeAllowed
  scheme_rules-IsHostChecked c r i =
      if_split IsHostChecked (text_eq u.scheme (codes "https"))
        (λ e. (refl, inl ((text_eq_iff u.scheme (codes "https")).0 e), c, r, i))
        (λ e.
          if_split IsHostChecked (is_loopback_host w u.hostname || is_railway_internal u.hostname)
            (λ h. (
              refl,
              inr (
                  or_either (is_loopback_host w u.hostname) (is_railway_internal u.hostname)
                    w.allow_insecure h),
              c,
              r,
              i,
            ))
            (λ h.
              if_split IsHostChecked w.allow_insecure (λ a. (refl, inr (inr (inr a)), c, r, i))
                (λ a. tt)))

  check_host-IsHostChecked : IsHostChecked (check_host w u)
  unfolding check_host
  check_host-IsHostChecked =
      if_split IsHostChecked
        (not (ltb (colons u.hostname) 2) && not (has_prefix u.host (codes "[")))
        (λ c. refused-IsHostChecked unbracketed)
        (λ c.
          if_split IsHostChecked (is_reserved_suffix u.hostname)
            (λ r. refused-IsHostChecked reserved)
            (λ r.
              elim (Option-cases
                (ip_refusal (is_loopback_host w u.hostname) (w.parse_ip u.hostname))) [
                  | inl i ↦ rw (check_host, i) (scheme_rules-IsHostChecked c r i)
                  | inr (x, i) ↦ rw (check_host, i) (refused-IsHostChecked x)
                ]))

  unfoldable pub IsChecked : Verdict → Type 0
  unfolding IsHostChecked
  IsChecked (refused r) = Unit
  IsChecked (accepted u') =
      ((u.scheme ≡ codes "http") ⊎ (u.scheme ≡ codes "https"))
      × (u.host ≢ [])
      × (u.hostname ≢ [])
      × (u.has_user ≡ false)
      × IsHostChecked (accepted u')

  refused-IsChecked : (r : UrlRefusal) → IsChecked (refused r)
  unfolding IsChecked
  refused-IsChecked r = tt

  with_host-IsChecked :
      (v : Verdict)
      → (u.scheme ≡ codes "http") ⊎ (u.scheme ≡ codes "https")
      → u.host ≢ []
      → u.hostname ≢ []
      → u.has_user ≡ false
      → IsHostChecked v
      → IsChecked v
  unfolding IsChecked
  with_host-IsChecked (refused r) s a b c h = tt
  with_host-IsChecked (accepted u') s a b c h = (s, a, b, c, h)

  either_scheme :
      (not (text_eq u.scheme (codes "http")) && not (text_eq u.scheme (codes "https"))) ≡ false
      → (u.scheme ≡ codes "http") ⊎ (u.scheme ≡ codes "https")
  either_scheme h =
      elim (one_holds (text_eq u.scheme (codes "http")) (text_eq u.scheme (codes "https")) h) [
        | inl a ↦ inl ((text_eq_iff u.scheme (codes "http")).0 a)
        | inr b ↦ inr ((text_eq_iff u.scheme (codes "https")).0 b)
      ]

  check_url-IsChecked : IsChecked (check_url w u)
  unfolding check_url
  check_url-IsChecked =
      if_split IsChecked
        (not (text_eq u.scheme (codes "http")) && not (text_eq u.scheme (codes "https")))
        (λ s. refused-IsChecked bad_scheme)
        (λ s.
          if_split IsChecked (text_eq u.host []) (λ a. refused-IsChecked missing_host)
            (λ a.
              if_split IsChecked u.has_user (λ c. refused-IsChecked userinfo)
                (λ c.
                  if_split IsChecked (text_eq u.hostname []) (λ b. refused-IsChecked missing_host)
                    (λ b.
                      with_host-IsChecked (check_host w u) (either_scheme s) (nonempty u.host a)
                        (nonempty u.hostname b) c check_host-IsHostChecked))))

refused-accepted : (r : UrlRefusal) (u : Url) → refused r ≢ accepted u
refused-accepted r u = λ e. cc e

module _ (w : World) (raw : Text) (u : Url) where
  checked :
      (v : Url)
      → w.parse (trim_space raw) ≡ some v
      → check_url w v ≡ accepted u
      → (w.parse (trim_space raw) ≡ some u) × IsChecked w u (accepted u)
  unfolding IsChecked IsHostChecked
  checked v p e =
      let facts : IsChecked w v (accepted u) = subst (IsChecked w v) e (check_url-IsChecked w v) in
      let same : v ≡ u = sym facts.4.0 in
      (
        subst (λ x. w.parse (trim_space raw) ≡ some x) same p,
        subst (λ x. IsChecked w x (accepted u)) same facts,
      )

  -- The guards that an accepted address has passed.
  pub validate-IsChecked :
      validate w raw ≡ accepted u → (w.parse (trim_space raw) ≡ some u) × IsChecked w u (accepted u)
  unfolding validate
  validate-IsChecked e = elim (Option-cases (w.parse (trim_space raw))) [
    | inl p ↦ absurd (refused-accepted invalid u (sym (rw (validate, p) refl) ∙ e))
    | inr (v, p) ↦ checked v p (sym (rw (validate, p) refl) ∙ e)
  ]
