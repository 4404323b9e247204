-- ===== src/UrlValidate.antt =====
-- Validate of internal/urlvalidate/validate.go, with the methods of Go's net.IP that it uses. Parsing an
-- address (url.Parse), parsing an IP address (net.ParseIP) and the environment are arguments.
pub mod Ranges
pub mod Accepted
pub mod Rules
mod Samples
use browzer_cli.Prelude.{
  ℕ, Bool, true, false, not, ◌&&◌, ◌||◌, ◌/◌, ◌%◌, suc, Option, none, some, List, [], ◌∷◌,
  if◌then◌else◌, ltb, any, ◌==◌,
}
use browzer_cli.Prelude.Text.{Text, codes, text_eq, trim_space, lower, has_prefix, has_suffix}

-- net.IP: four bytes, or the first two bytes of sixteen and the rest.
pub data Ip : Type 0 where
  v4 : ℕ → ℕ → ℕ → ℕ → Ip
  v6 : ℕ → ℕ → List ℕ → Ip

-- url.URL: `host` may have brackets and a port, `hostname` has neither.
pub record Url : Type 0 where
  pub scheme : Text
  pub host : Text
  pub hostname : Text
  pub has_user : Bool

pub record World : Type 0 where
  pub parse : Text → Option Url
  pub parse_ip : Text → Option Ip
  pub allow_insecure : Bool

pub data UrlRefusal : Type 0 where
  invalid bad_scheme missing_host userinfo unbracketed reserved metadata unsafe insecure :
      UrlRefusal

pub data Verdict : Type 0 where
  accepted : Url → Verdict
  refused : UrlRefusal → Verdict

abbrev pub all_zero : List ℕ → Bool
all_zero [] = true
all_zero (b ∷ bs) = b == 0 && all_zero bs

-- The bytes of ::1 behind the first two.
abbrev pub tail_of_one : List ℕ
tail_of_one = 0 ∷ (0 ∷ (0 ∷ (0 ∷ (0 ∷ (0 ∷ (0 ∷ (0 ∷ (0 ∷ (0 ∷ (0 ∷ (0 ∷ (0 ∷ (1 ∷ [])))))))))))))

-- Those of fd00:ec2::254.
abbrev pub tail_of_metadata : List ℕ
tail_of_metadata =
    14 ∷ (194 ∷ (0 ∷ (0 ∷ (0 ∷ (0 ∷ (0 ∷ (0 ∷ (0 ∷ (0 ∷ (0 ∷ (0 ∷ (2 ∷ (84 ∷ [])))))))))))))

unfoldable pub is_unspecified : Ip → Bool
is_unspecified (v4 a b c d) = a == 0 && b == 0 && c == 0 && d == 0
is_unspecified (v6 a b bs) = a == 0 && b == 0 && all_zero bs

unfoldable pub is_loopback : Ip → Bool
unfolding text_eq
is_loopback (v4 a b c d) = a == 127
is_loopback (v6 a b bs) = a == 0 && b == 0 && text_eq bs tail_of_one

unfoldable pub is_link_local_unicast : Ip → Bool
is_link_local_unicast (v4 a b c d) = a == 169 && b == 254
is_link_local_unicast (v6 a b bs) = a == 254 && b / 64 == 2

unfoldable pub is_link_local_multicast : Ip → Bool
is_link_local_multicast (v4 a b c d) = a == 224 && b == 0 && c == 0
is_link_local_multicast (v6 a b bs) = a == 255 && b % 16 == 2

unfoldable pub is_interface_local_multicast : Ip → Bool
is_interface_local_multicast (v4 a b c d) = false
is_interface_local_multicast (v6 a b bs) = a == 255 && b % 16 == 1

unfoldable pub is_multicast : Ip → Bool
is_multicast (v4 a b c d) = a / 16 == 14
is_multicast (v6 a b bs) = a == 255

unfoldable pub is_private : Ip → Bool
is_private (v4 a b c d) = a == 10 || (a == 172 && b / 16 == 1) || (a == 192 && b == 168)
is_private (v6 a b bs) = a / 2 == 126

unfoldable pub is_metadata_ip : Ip → Bool
unfolding text_eq
is_metadata_ip (v4 a b c d) = a == 169 && b == 254 && c == 169 && d == 254
is_metadata_ip (v6 a b bs) = a == 253 && b == 0 && text_eq bs tail_of_metadata

abbrev is_broadcast : Ip → Bool
is_broadcast (v4 a b c d) = a == 255 && b == 255 && c == 255 && d == 255
is_broadcast (v6 a b bs) = false

unfoldable pub is_unsafe_ip : Ip → Bool
unfolding is_unspecified is_link_local_unicast is_link_local_multicast is_interface_local_multicast
    is_multicast is_private
is_unsafe_ip ip =
    if is_unspecified ip
      || is_link_local_unicast ip
      || is_link_local_multicast ip
      || is_interface_local_multicast ip
      || is_multicast ip
    then true
    else if is_private ip
    then true
    else is_broadcast ip

unfoldable pub is_railway_internal : Text → Bool
unfolding lower has_suffix
is_railway_internal host = has_suffix (lower host) (codes ".railway.internal")

unfoldable pub is_reserved_suffix : Text → Bool
unfolding lower has_suffix text_eq
is_reserved_suffix host =
    if text_eq (lower host) (codes "0")
    then true
    else any (has_suffix (lower host)) (
        codes ".local"
        ∷ (codes ".localhost" ∷ (codes ".test" ∷ (codes ".invalid" ∷ (codes ".example" ∷ [])))))

-- strings.Count(host, ":")
abbrev pub colons : Text → ℕ
colons [] = 0
colons (c ∷ s) = let n = colons s in if c == b':' then suc n else n

abbrev pub loopback_ip : Option Ip → Bool
unfolding is_loopback
loopback_ip none = false
loopback_ip (some ip) = is_loopback ip

-- The guard of IP literals: a refusal, or none.
unfoldable pub ip_refusal : Bool → Option Ip → Option UrlRefusal
unfolding is_metadata_ip is_unsafe_ip
ip_refusal loopback none = none
ip_refusal loopback (some ip) =
    if is_metadata_ip ip
    then some metadata
    else if not loopback && is_unsafe_ip ip
    then some unsafe
    else none

module _ (w : World) where
  unfoldable pub is_loopback_host : Text → Bool
  unfolding lower text_eq loopback_ip
  is_loopback_host host =
      if text_eq (lower host) (codes "127.0.0.1")
        || text_eq (lower host) (codes "::1")
        || text_eq (lower host) (codes "localhost")
      then true
      else loopback_ip (w.parse_ip host)

  -- The rules for the scheme and the host.
  unfoldable pub scheme_rules : Url → Verdict
  unfolding is_loopback_host is_railway_internal text_eq
  scheme_rules u =
      if text_eq u.scheme (codes "https")
      then accepted u
      else if is_loopback_host u.hostname || is_railway_internal u.hostname
      then accepted u
      else if w.allow_insecure
      then accepted u
      else refused insecure

  unfoldable pub check_host : Url → Verdict
  unfolding is_loopback_host ip_refusal scheme_rules is_reserved_suffix has_prefix
  check_host u =
      if not (ltb (colons u.hostname) 2) && not (has_prefix u.host (codes "["))
      then refused unbracketed
      else if is_reserved_suffix u.hostname
      then refused reserved
      else elim (ip_refusal (is_loopback_host u.hostname) (w.parse_ip u.hostname)) [
        | some r ↦ refused r
        | none ↦ scheme_rules u
      ]

  unfoldable pub check_url : Url → Verdict
  unfolding check_host text_eq
  check_url u =
      if not (text_eq u.scheme (codes "http")) && not (text_eq u.scheme (codes "https"))
      then refused bad_scheme
      else if text_eq u.host []
      then refused missing_host
      else if u.has_user
      then refused userinfo
      else if text_eq u.hostname []
      then refused missing_host
      else check_host u

  unfoldable pub validate : Text → Verdict
  unfolding check_url trim_space
  validate raw = elim (w.parse (trim_space raw)) [ none ↦ refused invalid | some u ↦ check_url u ]
