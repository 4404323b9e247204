-- ===== src/UrlValidate/Samples.antt =====
-- Addresses as url.Parse and net.ParseIP read them.
use browzer_cli.Prelude.{true, false, Option, none, some, [], ◌≡◌, ◌⊎◌, refl}
use browzer_cli.Prelude.Text.{Text, codes, trim_space}
use browzer_cli.UrlValidate.{
  Ip, v4, Url, World, accepted, refused, metadata, unsafe, is_loopback_host, validate,
}
use browzer_cli.UrlValidate.Rules.{IsAllowed, validate-IsAllowed}
use browzer_cli.UrlValidate.Ranges.{IsNoMetadata, IsPublic, validate-IsPublic}

abbrev address : Text → Text → Url
address scheme host = record { scheme = scheme; host = host; hostname = host; has_user = false }

-- A world in which a text is read as one address.
abbrev world : Url → Option Ip → World
world u ip = record { parse = λ raw. some u; parse_ip = λ host. ip; allow_insecure = true }

abbrev public_url : Url
public_url = address (codes "http") (codes "93.184.215.14")

abbrev public_world : World
public_world = world public_url (some (v4 93 184 215 14))

public_is_accepted : validate public_world [] ≡ accepted public_url
unfolding validate
public_is_accepted = refl

metadata_is_refused :
    validate
      (world (address (codes "https") (codes "169.254.169.254")) (some (v4 169 254 169 254)))
      []
    ≡ refused metadata
unfolding validate
metadata_is_refused = refl

private_is_refused :
    validate (world (address (codes "https") (codes "172.31.0.1")) (some (v4 172 31 0 1))) []
    ≡ refused unsafe
unfolding validate
private_is_refused = refl

-- A host with a zone is none of the texts that net.ParseIP reads.
abbrev zone_url : Url
zone_url = record {
  scheme = codes "https";
  host = codes "[fe80::1%eth0]";
  hostname = codes "fe80::1%eth0";
  has_user = false;
}

zone_is_accepted : validate (world zone_url none) [] ≡ accepted zone_url
unfolding validate
zone_is_accepted = refl

validate-IsAllowed_example :
    (public_world.parse (trim_space []) ≡ some public_url) × IsAllowed public_world public_url
validate-IsAllowed_example = validate-IsAllowed public_world [] public_url public_is_accepted

validate-IsPublic_example :
    IsNoMetadata (v4 93 184 215 14)
    × ((is_loopback_host public_world (codes "93.184.215.14") ≡ true) ⊎ IsPublic (v4 93 184 215 14))
validate-IsPublic_example =
    validate-IsPublic public_world [] public_url (v4 93 184 215 14) public_is_accepted refl
