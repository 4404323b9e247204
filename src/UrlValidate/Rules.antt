-- ===== src/UrlValidate/Rules.antt =====
-- The rules for the scheme and the host of an address that Validate accepts.
use browzer_cli.Prelude.{
  ◌<◌, Bool, true, false, not, ◌&&◌, ◌||◌, Option, none, some, List, [], ◌∷◌, ◌++◌, ◌≡◌, ◌≢◌, ◌⊎◌,
  inl, inr, refl, ap, ◌∙◌, ltb, ltb→lt, any, if◌then◌else◌, All, arith,
}
use browzer_cli.Prelude.Text.{Text, codes, text_eq, trim_space, lower, has_prefix, has_suffix}
use browzer_cli.Prelude.Text.Laws.{text_eq_iff, has_prefix_inv, has_suffix_inv, has_suffix-append}
use browzer_cli.UrlValidate.{
  Ip, v4, v6, Url, World, accepted, tail_of_one, is_loopback, loopback_ip, is_loopback_host,
  is_railway_internal, is_reserved_suffix, colons, validate,
}
use browzer_cli.UrlValidate.Accepted.{IsChecked, IsHostChecked, IsSchemeAllowed, validate-IsChecked}

-- 127.0.0.0/8 and ::1.
abbrev pub IsLoopbackIp : Ip → Type 0
IsLoopbackIp (v4 a b c d) = a ≡ 127
IsLoopbackIp (v6 a b bs) = (a ≡ 0) × (b ≡ 0) × (bs ≡ tail_of_one)

abbrev pub EndsIn : Text → Text → Type 0
EndsIn s suffix = (front : Text) × (s ≡ front ++ suffix)

-- The host names this machine, in any case of its letters or as an IP address.
abbrev pub IsLoopbackHost : World → Text → Type 0
unfolding lower
IsLoopbackHost w host =
    (lower host ≡ codes "127.0.0.1")
    ⊎ (lower host ≡ codes "::1")
    ⊎ (lower host ≡ codes "localhost")
    ⊎ ((ip : Ip) × (w.parse_ip host ≡ some ip) × IsLoopbackIp ip)

-- The scheme is https, or it is http and the host or the environment lets it through.
abbrev pub IsSchemeJustified : World → Url → Type 0
unfolding IsLoopbackHost lower
IsSchemeJustified w u =
    (u.scheme ≡ codes "https")
    ⊎ ((u.scheme ≡ codes "http")
        × (IsLoopbackHost w u.hostname
            ⊎ EndsIn (lower u.hostname) (codes ".railway.internal")
            ⊎ (w.allow_insecure ≡ true)))

abbrev pub reserved_suffixes : List Text
reserved_suffixes =
    codes ".local" ∷ codes ".localhost" ∷ codes ".test" ∷ codes ".invalid" ∷ codes ".example" ∷ []

unfoldable pub IsAllowed : World → Url → Type 0
unfolding IsSchemeJustified lower
IsAllowed w u =
    IsSchemeJustified w u
    × (u.host ≢ [])
    × (u.hostname ≢ [])
    × (u.has_user ≡ false)
    × ((colons u.hostname < 2) ⊎ ((rest : Text) × (u.host ≡ codes "[" ++ rest)))
    × (lower u.hostname ≢ codes "0")
    × All (λ suffix. (front : Text) → lower u.hostname ≢ front ++ suffix) reserved_suffixes

is_loopback-IsLoopbackIp : (ip : Ip) → is_loopback ip ≡ true → IsLoopbackIp ip
unfolding is_loopback
is_loopback-IsLoopbackIp (v4 a b c d) h = ground arith
is_loopback-IsLoopbackIp (v6 a b bs) h = ground (arith, text_eq_iff bs tail_of_one)

loopback_ip-IsLoopbackIp :
    (o : Option Ip) → loopback_ip o ≡ true → (ip : Ip) × (o ≡ some ip) × IsLoopbackIp ip
unfolding loopback_ip
loopback_ip-IsLoopbackIp none h = cc
loopback_ip-IsLoopbackIp (some ip) h = (ip, refl, is_loopback-IsLoopbackIp ip h)

one_of_four :
    (a b c d : Bool)
    → (if a || b || c then true else d) ≡ true
    → (a ≡ true) ⊎ (b ≡ true) ⊎ (c ≡ true) ⊎ (d ≡ true)
one_of_four a b c d h = ground arith

is_loopback_host-IsLoopbackHost :
    (w : World) (host : Text) → is_loopback_host w host ≡ true → IsLoopbackHost w host
unfolding is_loopback_host IsLoopbackHost
is_loopback_host-IsLoopbackHost w host h =
    elim (one_of_four (text_eq (lower host) (codes "127.0.0.1"))
      (text_eq (lower host) (codes "::1")) (text_eq (lower host) (codes "localhost"))
      (loopback_ip (w.parse_ip host)) h) [
        | inl e ↦ inl ((text_eq_iff (lower host) (codes "127.0.0.1")).0 e)
        | inr (inl e) ↦ inr (inl ((text_eq_iff (lower host) (codes "::1")).0 e))
        | inr (inr (inl e)) ↦ inr (inr (inl ((text_eq_iff (lower host) (codes "localhost")).0 e)))
        | inr (inr (inr e)) ↦ inr (inr (inr (loopback_ip-IsLoopbackIp (w.parse_ip host) e)))
      ]

few_or_bracket :
    (few bracket : Bool) → (not few && not bracket) ≡ false → (few ≡ true) ⊎ (bracket ≡ true)
few_or_bracket few bracket h = ground arith

or_none : (a b : Bool) → (a || b) ≡ false → (a ≡ false) × (b ≡ false)
or_none a b h = ground arith

if_none : (a b : Bool) → (if a then true else b) ≡ false → (a ≡ false) × (b ≡ false)
if_none a b h = ground arith

differ_of_test : (s t : Text) → text_eq s t ≡ false → s ≢ t
differ_of_test s t h = ground (arith, text_eq_iff s t)

true_and_false : (b : Bool) → b ≡ true → b ≢ false
true_and_false b h = λ k. cc

-- No suffix of the list fits.
none_fits :
    (s : Text) (suffixes : List Text)
    → any (has_suffix s) suffixes ≡ false
    → All (λ suffix. (front : Text) → s ≢ front ++ suffix) suffixes
none_fits s [] h = tt
none_fits s (x ∷ xs) h =
    let parts = or_none (has_suffix s x) (any (has_suffix s) xs) h in
    (
      λ front e.
          true_and_false (has_suffix s x) (ap (λ t. has_suffix t x) e ∙ has_suffix-append front x)
            parts.0,
      none_fits s xs parts.1,
    )

not_reserved :
    (host : Text)
    → is_reserved_suffix host ≡ false
    → (lower host ≢ codes "0")
      × All (λ suffix. (front : Text) → lower host ≢ front ++ suffix) reserved_suffixes
unfolding is_reserved_suffix
not_reserved host h =
    let parts =
      if_none (text_eq (lower host) (codes "0")) (any (has_suffix (lower host)) reserved_suffixes)
        h in
    (
      differ_of_test (lower host) (codes "0") parts.0,
      none_fits (lower host) reserved_suffixes parts.1,
    )

scheme-justified :
    (w : World) (u : Url)
    → (u.scheme ≡ codes "http") ⊎ (u.scheme ≡ codes "https")
    → IsSchemeAllowed w u
    → IsSchemeJustified w u
unfolding is_railway_internal IsSchemeAllowed IsSchemeJustified
scheme-justified w u s (inl e) = inl e
scheme-justified w u (inr e) a = inl e
scheme-justified w u (inl e) (inr (inl l)) =
    inr (e, inl (is_loopback_host-IsLoopbackHost w u.hostname l))
scheme-justified w u (inl e) (inr (inr (inl r))) =
    inr (e, inr (inl (has_suffix_inv (lower u.hostname) (codes ".railway.internal") r)))
scheme-justified w u (inl e) (inr (inr (inr i))) = inr (e, inr (inr i))

bracketed :
    (u : Url)
    → (not (ltb (colons u.hostname) 2) && not (has_prefix u.host (codes "["))) ≡ false
    → (colons u.hostname < 2) ⊎ ((rest : Text) × (u.host ≡ codes "[" ++ rest))
bracketed u h =
    elim (few_or_bracket (ltb (colons u.hostname) 2) (has_prefix u.host (codes "[")) h) [
      | inl few ↦ inl (ltb→lt (colons u.hostname) 2 few)
      | inr b ↦ inr (has_prefix_inv u.host (codes "[") b)
    ]

-- An address that Validate accepts is the one that was parsed from the text without its outer blanks.
-- Its scheme is https, or it is http and the host is 127.0.0.1, ::1 or localhost in any case of its
-- letters, or an IP address of 127.0.0.0/8 or ::1, or ends in .railway.internal, or
-- BROWZER_ALLOW_INSECURE is set. It has a host and no user; if the host name has two colons or more,
-- the host begins with a bracket; and the host name is not 0 and ends in none of .local, .localhost,
-- .test, .invalid and .example, in any case of its letters.
pub validate-IsAllowed :
    (w : World) (raw : Text) (u : Url)
    → validate w raw ≡ accepted u
    → (w.parse (trim_space raw) ≡ some u) × IsAllowed w u
unfolding IsAllowed IsChecked IsHostChecked
validate-IsAllowed w raw u e =
    let facts = validate-IsChecked w raw u e in
    let host = not_reserved u.hostname facts.1.4.3 in
    (
      facts.0,
      (
        scheme-justified w u facts.1.0 facts.1.4.1,
        facts.1.1,
        facts.1.2,
        facts.1.3,
        bracketed u facts.1.4.2,
        host.0,
        host.1,
      ),
    )
