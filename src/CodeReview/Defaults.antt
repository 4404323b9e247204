-- ===== src/CodeReview/Defaults.antt =====
-- fillFindingDefaults of internal/codereview/aggregate.go.
use browzer_cli.Prelude.{◌≡◌, ◌≢◌, refl, [], ◌∷◌, arith, if◌then◌else◌}
use browzer_cli.Prelude.Text.{Text, codes, text_eq, lower}
use browzer_cli.CodeReview.{Finding}

abbrev pub fallback_finding_description : Text
fallback_finding_description = codes "(no description provided)"

unfoldable pub domain_of_member : Text → Text
unfolding text_eq lower
domain_of_member member_name =
    let name : Text = lower member_name in
    if text_eq name (codes "senior-engineer")
    then codes "complexity"
    else if text_eq name (codes "software-architect")
    then codes "architecture"
    else if text_eq name (codes "qa")
    then codes "qa"
    else if text_eq name (codes "regression-tester")
    then codes "regression"
    else member_name

-- if field == "" { field = value }
abbrev or_default : Text → Text → Text
or_default [] value = value
or_default (c ∷ s) value = c ∷ s

unfoldable pub fill_finding_defaults : Finding → Text → Finding
unfolding domain_of_member
fill_finding_defaults f member_name = record f {
  status = or_default f.status (codes "open");
  domain = or_default f.domain (domain_of_member member_name);
  description = or_default f.description (or_default f.suggested_fix fallback_finding_description);
  category = or_default f.category (codes "review-finding");
}

-- The fields that the consolidated review requires are there.
pub record IsFilled (f : Finding) : Type 0 where
  pub has_status : f.status ≢ []
  pub has_domain : f.domain ≢ []
  pub has_description : f.description ≢ []
  pub has_category : f.category ≢ []

or_default-ne-nil : (s value : Text) → value ≢ [] → or_default s value ≢ []
or_default-ne-nil [] value h = h
or_default-ne-nil (c ∷ s) value h = λ e. cc

or_default-keeps : (s value : Text) → s ≢ [] → or_default s value ≡ s
or_default-keeps [] value h = absurd (h refl)
or_default-keeps (c ∷ s) value h = refl

domain_of_member-ne-nil : (name : Text) → name ≢ [] → domain_of_member name ≢ []
unfolding domain_of_member
domain_of_member-ne-nil name h = ground arith

-- For a member with a name, every required field of a filled finding is there, whatever the member
-- wrote; and a field that the member wrote is kept.
pub fill_finding_defaults_lem :
    (f : Finding) (member_name : Text)
    → member_name ≢ []
    → IsFilled (fill_finding_defaults f member_name)
      × (f.status ≢ [] → (fill_finding_defaults f member_name).status ≡ f.status)
      × (f.domain ≢ [] → (fill_finding_defaults f member_name).domain ≡ f.domain)
      × (f.description ≢ [] → (fill_finding_defaults f member_name).description ≡ f.description)
      × (f.category ≢ [] → (fill_finding_defaults f member_name).category ≡ f.category)
      × ((fill_finding_defaults f member_name).severity ≡ f.severity)
      × ((fill_finding_defaults f member_name).file ≡ f.file)
      × ((fill_finding_defaults f member_name).line ≡ f.line)
unfolding fill_finding_defaults
fill_finding_defaults_lem f member_name h = (
  record {
    has_status = or_default-ne-nil f.status _ (λ e. cc);
    has_domain = or_default-ne-nil f.domain _ (domain_of_member-ne-nil member_name h);
    has_description =
        or_default-ne-nil f.description _ (or_default-ne-nil f.suggested_fix _ (λ e. cc));
    has_category = or_default-ne-nil f.category _ (λ e. cc);
  },
  or_default-keeps f.status _,
  or_default-keeps f.domain _,
  or_default-keeps f.description _,
  or_default-keeps f.category _,
  refl,
  refl,
  refl,
)
