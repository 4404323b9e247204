-- ===== src/UrlValidate/Ranges.antt =====
-- Which IP addresses Validate accepts as a host.
use browzer_cli.Prelude.{
  ℕ, Bool, true, false, none, some, List, [], ◌∷◌, ◌==◌, refl, Bool-cases, ◌≡◌, ◌≢◌, ◌⊎◌, inl, inr,
  sym, ap, ◌∙◌, ◌<◌, arith,
}
use browzer_cli.Prelude.Text.{Text}
use browzer_cli.Prelude.Text.Laws.{text_eq_iff}
use browzer_cli.UrlValidate.{
  Ip, v4, v6, Url, World, accepted, tail_of_metadata, all_zero, is_metadata_ip, is_unsafe_ip,
  ip_refusal, is_loopback_host, is_unspecified, is_link_local_unicast, is_link_local_multicast,
  is_interface_local_multicast, is_multicast, is_private, validate,
}
use browzer_cli.UrlValidate.Accepted.{IsChecked, IsHostChecked, validate-IsChecked}

-- The address is not one of the two at which cloud providers serve metadata.
unfoldable pub IsNoMetadata : Ip → Type 0
IsNoMetadata (v4 a b c d) = (a ≢ 169) ⊎ (b ≢ 254) ⊎ (c ≢ 169) ⊎ (d ≢ 254)
IsNoMetadata (v6 a b bs) = (a ≢ 253) ⊎ (b ≢ 0) ⊎ (bs ≢ tail_of_metadata)

-- A byte of the list is not zero.
unfoldable pub HasNonzero : List ℕ → Type 0
HasNonzero [] = ⊥
HasNonzero (b ∷ bs) = (b ≢ 0) ⊎ HasNonzero bs

not_all_zero : (bs : List ℕ) → all_zero bs ≡ false → HasNonzero bs
unfolding HasNonzero
not_all_zero [] h = cc
not_all_zero (b ∷ bs) h = elim (Bool-cases (b == 0)) [
  | inl e ↦ inr (not_all_zero bs (sym (rw e refl) ∙ h))
  | inr e ↦ inl (ground arith)
]

-- An address that is not unspecified has a byte that is not zero.
some_byte :
    (a b : ℕ) (bs : List ℕ) → is_unspecified (v6 a b bs) ≡ false → (a ≢ 0) ⊎ (b ≢ 0) ⊎ HasNonzero bs
unfolding is_unspecified
some_byte a b bs h = elim (Bool-cases (a == 0)) [
  | inl e ↦ elim (Bool-cases (b == 0)) [
    | inl e' ↦ inr (inr (not_all_zero bs (sym (rw (e, e') refl) ∙ h)))
    | inr e' ↦ inr (inl (ground arith))
  ]
  | inr e ↦ inl (ground arith)
]

-- The address is none of 10.0.0.0/8, 172.16.0.0/12, 192.168.0.0/16, 169.254.0.0/16, 224.0.0.0/4,
-- 0.0.0.0 and 255.255.255.255; of sixteen bytes, none of fc00::/7, fe80::/10, ff00::/8 and ::.
unfoldable pub IsPublic : Ip → Type 0
IsPublic (v4 a b c d) =
    (a ≢ 10)
    × ((a ≢ 172) ⊎ (b < 16) ⊎ (31 < b))
    × ((a ≢ 192) ⊎ (b ≢ 168))
    × ((a ≢ 169) ⊎ (b ≢ 254))
    × ((a < 224) ⊎ (239 < a))
    × ((a ≢ 0) ⊎ (b ≢ 0) ⊎ (c ≢ 0) ⊎ (d ≢ 0))
    × ((a ≢ 255) ⊎ (b ≢ 255) ⊎ (c ≢ 255) ⊎ (d ≢ 255))
IsPublic (v6 a b bs) =
    ((a < 252) ⊎ (253 < a))
    × ((a ≢ 254) ⊎ (b < 128) ⊎ (191 < b))
    × (a ≢ 255)
    × ((a ≢ 0) ⊎ (b ≢ 0) ⊎ HasNonzero bs)

is_metadata_ip-IsNoMetadata : (ip : Ip) → is_metadata_ip ip ≡ false → IsNoMetadata ip
unfolding is_metadata_ip IsNoMetadata
is_metadata_ip-IsNoMetadata (v4 a b c d) h = ground arith
is_metadata_ip-IsNoMetadata (v6 a b bs) h = ground (arith, text_eq_iff bs tail_of_metadata)

-- The tests behind the range of an address of sixteen bytes.
v6_tests :
    (a b : ℕ) (bs : List ℕ)
    → is_unsafe_ip (v6 a b bs) ≡ false
    → ((a < 252) ⊎ (253 < a))
      × ((a ≢ 254) ⊎ (b < 128) ⊎ (191 < b))
      × (a ≢ 255)
      × (is_unspecified (v6 a b bs) ≡ false)
unfolding is_unsafe_ip is_unspecified is_link_local_unicast is_multicast is_private
    is_link_local_multicast is_interface_local_multicast
v6_tests a b bs h = ground arith

is_unsafe_ip-IsPublic : (ip : Ip) → is_unsafe_ip ip ≡ false → IsPublic ip
unfolding is_unsafe_ip IsPublic is_unspecified is_link_local_unicast is_multicast is_private
    is_link_local_multicast is_interface_local_multicast
is_unsafe_ip-IsPublic (v4 a b c d) h = ground arith
is_unsafe_ip-IsPublic (v6 a b bs) h =
    let tests = v6_tests a b bs h in (tests.0, tests.1, tests.2, some_byte a b bs tests.3)

ip_refusal-none :
    (loopback : Bool) (ip : Ip)
    → ip_refusal loopback (some ip) ≡ none
    → (is_metadata_ip ip ≡ false) × ((loopback ≡ true) ⊎ (is_unsafe_ip ip ≡ false))
unfolding ip_refusal
ip_refusal-none loopback ip h = ground arith

not_refused-IsPublic :
    (loopback : Bool) (ip : Ip)
    → ip_refusal loopback (some ip) ≡ none
    → IsNoMetadata ip × ((loopback ≡ true) ⊎ IsPublic ip)
not_refused-IsPublic loopback ip h =
    let tests = ip_refusal-none loopback ip h in
    (
      is_metadata_ip-IsNoMetadata ip tests.0,
      (elim tests.1 [ inl l ↦ inl l | inr s ↦ inr (is_unsafe_ip-IsPublic ip s) ]),
    )

-- If Validate accepts an address whose host net.ParseIP reads as an IP address, then that is neither
-- 169.254.169.254 nor fd00:ec2::254, and it lies in none of the private, link-local, multicast,
-- unspecified and broadcast ranges, unless the host is a loopback host; with
-- BROWZER_ALLOW_INSECURE set and without.
pub validate-IsPublic :
    (w : World) (raw : Text) (u : Url) (ip : Ip)
    → validate w raw ≡ accepted u
    → w.parse_ip u.hostname ≡ some ip
    → IsNoMetadata ip × ((is_loopback_host w u.hostname ≡ true) ⊎ IsPublic ip)
unfolding IsChecked IsHostChecked
validate-IsPublic w raw u ip e p =
    let facts = validate-IsChecked w raw u e in
    not_refused-IsPublic (is_loopback_host w u.hostname) ip
      (sym (ap (ip_refusal (is_loopback_host w u.hostname)) p) ∙ facts.1.4.4)
