-- ===== src/Walker/Delimited.antt =====
-- Which names match_sensitive_name finds.
use browzer_cli.Prelude.{
  ℕ, Bool, true, false, not, ◌&&◌, ◌||◌, Option, none, some, List, [], ◌∷◌, ◌++◌, ◌≡◌, ◌↔◌, refl,
  sym, ap, ◌∙◌, if◌then◌else◌, any, drop, length, Bool-cases, inl, inr, arith,
}
use browzer_cli.Prelude.Text.{Text, text_eq, lower, has_prefix}
use browzer_cli.Prelude.Text.Laws.{text_eq_iff, text_eq_refl, has_prefix-append, has_prefix_inv}
use browzer_cli.Walker.Sensitive.{
  letter_before, letter_after, has_delimited, needles, match_sensitive_name,
}

-- The last character of a text, behind another.
abbrev pub last : Option ℕ → Text → Option ℕ
last before [] = before
last before (c ∷ s) = last (some c) s

-- A text stands in another, with no letter directly before it or behind it.
abbrev pub IsDelimited : Text → Option ℕ → Text → Type 0
IsDelimited needle before s =
    (pre : Text) × (post : Text) × (s ≡ pre ++ (needle ++ post))
    × (letter_before (last before pre) ≡ false)
    × (letter_after post ≡ false)

drop-length : (needle post : Text) → drop (length needle) (needle ++ post) ≡ post
drop-length [] post = refl
drop-length (c ∷ needle) post = drop-length needle post

-- The test of one place.
abbrev test : Text → Option ℕ → Text → Bool
test needle before s =
    has_prefix s needle && not (letter_before before) && not (letter_after (drop (length needle) s))

all_three : (a b c : Bool) → (a && not b && not c) ≡ true → (a ≡ true) × (b ≡ false) × (c ≡ false)
all_three a b c h = ground arith

test-IsDelimited :
    (needle : Text) (before : Option ℕ) (s : Text)
    → test needle before s ≡ true
    → IsDelimited needle before s
test-IsDelimited needle before s h =
    let tests =
      all_three (has_prefix s needle) (letter_before before) (letter_after (drop (length needle) s))
        h in
    let inverse = has_prefix_inv s needle tests.0 in
    (
      [],
      inverse.0,
      inverse.1,
      tests.1,
      sym (ap letter_after (ap (drop (length needle)) inverse.1 ∙ drop-length needle inverse.0))
          ∙ tests.2,
    )

has_delimited-IsDelimited :
    (needle : Text) (before : Option ℕ) (s : Text)
    → has_delimited needle before s ≡ true
    → IsDelimited needle before s
unfolding has_delimited
has_delimited-IsDelimited needle before [] h = cc
has_delimited-IsDelimited needle before (c ∷ s) h = elim (Bool-cases (test needle before (c ∷ s))) [
  | inl t ↦ test-IsDelimited needle before (c ∷ s) t
  | inr f ↦
      let (pre, post, e, l, a) =
        has_delimited-IsDelimited needle (some c) s
          (sym (ap (λ b. if b then true else has_delimited needle (some c) s) f) ∙ h) in
      (c ∷ pre, post, ap (λ t. c ∷ t) e, l, a)
]

if_true : (b r : Bool) → b ≡ true → (if b then true else r) ≡ true
if_true b r h = ground arith

if_rest : (b r : Bool) → r ≡ true → (if b then true else r) ≡ true
if_rest b r h = ground arith

test-append :
    (needle post : Text) (before : Option ℕ)
    → letter_before before ≡ false
    → letter_after post ≡ false
    → test needle before (needle ++ post) ≡ true
test-append needle post before l a =
    rw (has_prefix-append needle post, l, drop-length needle post, a) refl

has_delimited-append :
    (d : ℕ) (needle : Text) (before : Option ℕ) (pre post : Text)
    → letter_before (last before pre) ≡ false
    → letter_after post ≡ false
    → has_delimited (d ∷ needle) before (pre ++ ((d ∷ needle) ++ post)) ≡ true
unfolding has_delimited
has_delimited-append d needle before [] post l a =
    if_true (test (d ∷ needle) before ((d ∷ needle) ++ post)) _
      (test-append (d ∷ needle) post before l a)
has_delimited-append d needle before (c ∷ pre) post l a =
    if_rest (test (d ∷ needle) before (c ∷ (pre ++ ((d ∷ needle) ++ post)))) _
      (has_delimited-append d needle (some c) pre post l a)

-- A needle of a list, that is in a name and delimited there.
abbrev pub HasNeedle : List Text → Text → Type 0
unfolding text_eq
HasNeedle ns name =
    (needle : Text) × (any (text_eq needle) ns ≡ true) × IsDelimited needle none name

if_or : (a b : Bool) → a ≡ true → (a || b) ≡ true
if_or a b h = ground arith

or_rest : (a b : Bool) → b ≡ true → (a || b) ≡ true
or_rest a b h = ground arith

any-find :
    (p : Text → Bool) (ns : List Text)
    → any p ns ≡ true
    → (n : Text) × (any (text_eq n) ns ≡ true) × (p n ≡ true)
any-find p [] h = cc
any-find p (n ∷ ns) h = elim (Bool-cases (p n)) [
  | inl t ↦ (n, if_or (text_eq n n) _ (text_eq_refl n), t)
  | inr f ↦
      let (m, i, t) = any-find p ns (sym (ap (λ b. b || any p ns) f) ∙ h) in
      (m, or_rest (text_eq m n) _ i, t)
]

any-member :
    (p : Text → Bool) (ns : List Text) (n : Text)
    → any (text_eq n) ns ≡ true
    → p n ≡ true
    → any p ns ≡ true
any-member p [] n i h = i
any-member p (m ∷ ns) n i h = elim (Bool-cases (text_eq n m)) [
  | inl e ↦ if_or (p m) _ (sym (ap p ((text_eq_iff n m).0 e)) ∙ h)
  | inr f ↦ or_rest (p m) _ (any-member p ns n (sym (ap (λ b. b || any (text_eq n) ns) f) ∙ i) h)
]

has_needle→match : (name : Text) → HasNeedle needles (lower name) → match_sensitive_name name ≡ true
unfolding match_sensitive_name HasNeedle text_eq
has_needle→match name ([], i, d) = cc
has_needle→match name (c ∷ needle, i, (pre, post, e, l, a)) =
    any-member (λ n. has_delimited n none (lower name)) needles (c ∷ needle) i
      (ap (has_delimited (c ∷ needle) none) e ∙ has_delimited-append c needle none pre post l a)

match→has_needle : (name : Text) → match_sensitive_name name ≡ true → HasNeedle needles (lower name)
unfolding match_sensitive_name HasNeedle
match→has_needle name h =
    let (n, i, t) = any-find (λ n. has_delimited n none (lower name)) needles h in
    (n, i, has_delimited-IsDelimited n none (lower name) t)

-- A name is found sensitive exactly if, in lower case, one of credential, credentials, secret,
-- secrets, token and tokens stands in it with no letter directly before it and none directly
-- behind it, at whatever place.
pub match_sensitive_name_iff :
    (name : Text) → (match_sensitive_name name ≡ true) ↔ HasNeedle needles (lower name)
match_sensitive_name_iff name = (match→has_needle name, has_needle→match name)
