-- ===== src/Diagnostic/Levenshtein/Distance.antt =====
-- The table holds the edit distances of the prefixes, and its last entry is the least number of edits.
use Prim.Native.Nat.{min}
use browzer_cli.Prelude.{
  ℕ, ◌+◌, ◌≤◌, List, [], ◌∷◌, ◌++◌, ◌≡◌, refl, sym, ap, ap₂, ◌∙◌, subst, subst₂, arith,
  if◌then◌else◌, ◌==◌, length, length-append, append_assoc, append-nil, ==_iff, ◌⊎◌, inl, inr,
  Bool-cases,
}
use browzer_cli.Prelude.Text.{Text}
use browzer_cli.Diagnostic.Levenshtein.{fill_row, rows, first_row, last, levenshtein}
use browzer_cli.Diagnostic.Levenshtein.Edits.{Edits, rev, rev-rev, Edits-rev}

-- The recursive definition of the distance.
abbrev dist : Text → Text → ℕ
dist [] t = length t
dist (c ∷ s) [] = length (c ∷ s)
dist (c ∷ s) (d ∷ t) =
    min (min (dist (c ∷ s) t + 1) (dist s (d ∷ t) + 1)) (dist s t + (if c == d then 0 else 1))

dist-nil : (s : Text) → dist s [] ≡ length s
dist-nil [] = refl
dist-nil (c ∷ s) = refl

-- A row behind its first entry, for the reversed prefixes `xs` and `ys`.
abbrev row_tail : Text → Text → Text → List ℕ
row_tail xs ys [] = []
row_tail xs ys (d ∷ rb) = dist xs (d ∷ ys) ∷ row_tail xs (d ∷ ys) rb

abbrev rev_onto : Text → Text → Text
rev_onto [] ys = ys
rev_onto (c ∷ s) ys = rev_onto s (c ∷ ys)

rev_onto-rev : (s ys : Text) → rev_onto s ys ≡ rev s ++ ys
rev_onto-rev [] ys = refl
rev_onto-rev (c ∷ s) ys = rev_onto-rev s (c ∷ ys) ∙ sym (append_assoc (rev s) (c ∷ []) ys)

length-rev : (s : Text) → length (rev s) ≡ length s
length-rev [] = refl
length-rev (c ∷ s) = omega (arith, length-append (rev s) (c ∷ []), length-rev s)

fill_row-row_tail :
    (c : ℕ) (xs ys rb : Text)
    → fill_row c (dist xs ys) (dist (c ∷ xs) ys) (row_tail xs ys rb) rb ≡ row_tail (c ∷ xs) ys rb
unfolding fill_row
fill_row-row_tail c xs ys [] = refl
fill_row-row_tail c xs ys (d ∷ rb) =
    ap (λ t. dist (c ∷ xs) (d ∷ ys) ∷ t) (fill_row-row_tail c xs (d ∷ ys) rb)

first_row-row_tail : (ys rb : Text) → first_row (length ys) rb ≡ length ys ∷ row_tail [] ys rb
unfolding first_row
first_row-row_tail ys [] = refl
first_row-row_tail ys (d ∷ rb) =
    let e : length ys + 1 ≡ length (d ∷ ys) = omega arith in rw (e, first_row-row_tail (d ∷ ys) rb)

rows-row_tail :
    (ra xs rb : Text)
    → rows (length xs + 1) ra (length xs ∷ row_tail xs [] rb) rb
      ≡ length (rev_onto ra xs) ∷ row_tail (rev_onto ra xs) [] rb
unfolding rows
rows-row_tail [] xs rb = refl
rows-row_tail (c ∷ ra) xs rb =
    let e : length xs + 1 ≡ length (c ∷ xs) = omega arith in
    let f : fill_row c (length xs) (length (c ∷ xs)) (row_tail xs [] rb) rb
        ≡ row_tail (c ∷ xs) [] rb =
      subst (λ k. fill_row c k (length (c ∷ xs)) (row_tail xs [] rb) rb ≡ row_tail (c ∷ xs) [] rb)
        (dist-nil xs) (fill_row-row_tail c xs [] rb) in
    rw (e, f) (rows-row_tail ra (c ∷ xs) rb)

last-row_tail : (xs ys rb : Text) → last (dist xs ys ∷ row_tail xs ys rb) ≡ dist xs (rev_onto rb ys)
last-row_tail xs ys [] = refl
last-row_tail xs ys (d ∷ rb) = last-row_tail xs (d ∷ ys) rb

levenshtein-dist : (a b : Text) → levenshtein a b ≡ dist (rev a) (rev b)
unfolding levenshtein
levenshtein-dist [] b = sym (length-rev b)
levenshtein-dist (c ∷ a) [] = sym (length-rev (c ∷ a)) ∙ sym (dist-nil (rev (c ∷ a)))
levenshtein-dist (c ∷ a) (d ∷ b) = table (c ∷ a) (d ∷ b)
  where
    table : (a b : Text) → last (rows 1 a (first_row 0 b) b) ≡ dist (rev a) (rev b)
    table a b =
        let xs = rev_onto a [] in
        ap last (ap (λ r. rows 1 a r b) (first_row-row_tail [] b) ∙ rows-row_tail a [] b)
        ∙ ap (λ k. last (k ∷ row_tail xs [] b)) (sym (dist-nil xs))
        ∙ last-row_tail xs [] b
        ∙ ap₂ dist (rev_onto-rev a [] ∙ append-nil (rev a)) (rev_onto-rev b [] ∙ append-nil (rev b))

min3-cases : (a b c : ℕ) → (min (min a b) c ≡ a) ⊎ ((min (min a b) c ≡ b) ⊎ (min (min a b) c ≡ c))
min3-cases a b c = grind arith

-- Some script has as many operations as the distance says.
Edits-dist : (s t : Text) → Edits (dist s t) s t
Edits-dist [] [] = Edits.done
Edits-dist [] (d ∷ t) = Edits.insert d (Edits-dist [] t)
Edits-dist (c ∷ s) [] = Edits.delete c (subst (λ n. Edits n s []) (dist-nil s) (Edits-dist s []))
Edits-dist (c ∷ s) (d ∷ t) =
    let inserted = Edits.insert d (Edits-dist (c ∷ s) t) in
    let deleted = Edits.delete c (Edits-dist s (d ∷ t)) in
    let rest = Edits-dist s t in
    let ends : ℕ → Type 0 = λ n. Edits n (c ∷ s) (d ∷ t) in
    let cost : ℕ = if c == d then 0 else 1 in
    elim (min3-cases (dist (c ∷ s) t + 1) (dist s (d ∷ t) + 1) (dist s t + cost)) [
      | inl e ↦ subst ends (omega (arith, e)) inserted
      | inr (inl e) ↦ subst ends (omega (arith, e)) deleted
      | inr (inr e) ↦ subst ends (sym e) (last_pair c d rest)
    ]
  where
    last_pair :
        {n : ℕ} {s t : Text} (c d : ℕ)
        → Edits n s t
        → Edits (n + (if c == d then 0 else 1)) (c ∷ s) (d ∷ t)
    last_pair {n} {s} {t} c d e = elim (Bool-cases (c == d)) [
      | inl same ↦
          let kept : Edits n (c ∷ s) (d ∷ t) =
            subst (λ x. Edits n (c ∷ s) (x ∷ t)) ((==_iff c d).0 same) (Edits.keep c e) in
          subst (λ k. Edits k (c ∷ s) (d ∷ t)) (ground arith) kept
      | inr other ↦ subst (λ k. Edits k (c ∷ s) (d ∷ t)) (ground arith) (Edits.replace c d e)
    ]

-- No script has fewer.
dist-le : {n : ℕ} {s t : Text} → Edits n s t → dist s t ≤ n
dist-le Edits.done = omega arith
dist-le (Edits.keep c e) = ground (arith, dist-le e)
dist-le (Edits.insert {s = []} c e) = omega (arith, dist-le e)
dist-le (Edits.insert {s = x ∷ s} c e) = omega (arith, dist-le e)
dist-le (Edits.delete {s = s} {t = []} c e) = omega (arith, dist-le e, dist-nil s)
dist-le (Edits.delete {t = y ∷ t} c e) = omega (arith, dist-le e)
dist-le (Edits.replace c d e) = ground (arith, dist-le e)

-- `levenshtein` is the least number of insertions, deletions and replacements of one code point that
-- turn the first text into the second: a script of that length exists, and no script is shorter.
pub levenshtein_least :
    (a b : Text) → Edits (levenshtein a b) a b × ((n : ℕ) → Edits n a b → levenshtein a b ≤ n)
levenshtein_least a b =
    let e = levenshtein-dist a b in
    let script = Edits-rev (Edits-dist (rev a) (rev b)) in
    (
      subst₂ (λ s t. Edits (levenshtein a b) s t) (rev-rev a) (rev-rev b) (rw e script),
      λ n x. rw e (dist-le (Edits-rev x)),
    )
