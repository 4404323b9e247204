-- ===== src/Diagnostic/Levenshtein/Edits.antt =====
-- Scripts of insertions, deletions and replacements that turn one text into another.
use browzer_cli.Prelude.{ℕ, suc, [], ◌∷◌, ◌++◌, ◌≡◌, refl, sym, append_assoc, append-nil}
use browzer_cli.Prelude.Text.{Text}

-- `Edits n s t`: n operations turn `s` into `t`.
pub data Edits : ℕ → Text → Text → Type 0 where
  done : Edits 0 [] []
  keep : {n : ℕ} {s t : Text} (c : ℕ) → Edits n s t → Edits n (c ∷ s) (c ∷ t)
  insert : {n : ℕ} {s t : Text} (c : ℕ) → Edits n s t → Edits (suc n) s (c ∷ t)
  delete : {n : ℕ} {s t : Text} (c : ℕ) → Edits n s t → Edits (suc n) (c ∷ s) t
  replace : {n : ℕ} {s t : Text} (c d : ℕ) → Edits n s t → Edits (suc n) (c ∷ s) (d ∷ t)

-- The same operations at the end of the texts.
keep_end : {n : ℕ} {s t : Text} (c : ℕ) → Edits n s t → Edits n (s ++ c ∷ []) (t ++ c ∷ [])
keep_end c done = keep c done
keep_end c (keep d e) = keep d (keep_end c e)
keep_end c (insert d e) = insert d (keep_end c e)
keep_end c (delete d e) = delete d (keep_end c e)
keep_end c (replace d f e) = replace d f (keep_end c e)

insert_end : {n : ℕ} {s t : Text} (c : ℕ) → Edits n s t → Edits (suc n) s (t ++ c ∷ [])
insert_end c done = insert c done
insert_end c (keep d e) = keep d (insert_end c e)
insert_end c (insert d e) = insert d (insert_end c e)
insert_end c (delete d e) = delete d (insert_end c e)
insert_end c (replace d f e) = replace d f (insert_end c e)

delete_end : {n : ℕ} {s t : Text} (c : ℕ) → Edits n s t → Edits (suc n) (s ++ c ∷ []) t
delete_end c done = delete c done
delete_end c (keep d e) = keep d (delete_end c e)
delete_end c (insert d e) = insert d (delete_end c e)
delete_end c (delete d e) = delete d (delete_end c e)
delete_end c (replace d f e) = replace d f (delete_end c e)

replace_end :
    {n : ℕ} {s t : Text} (c d : ℕ) → Edits n s t → Edits (suc n) (s ++ c ∷ []) (t ++ d ∷ [])
replace_end c d done = replace c d done
replace_end c d (keep x e) = keep x (replace_end c d e)
replace_end c d (insert x e) = insert x (replace_end c d e)
replace_end c d (delete x e) = delete x (replace_end c d e)
replace_end c d (replace x y e) = replace x y (replace_end c d e)

abbrev pub rev : Text → Text
rev [] = []
rev (c ∷ s) = rev s ++ c ∷ []

pub Edits-rev : {n : ℕ} {s t : Text} → Edits n s t → Edits n (rev s) (rev t)
Edits-rev done = done
Edits-rev (keep c e) = keep_end c (Edits-rev e)
Edits-rev (insert c e) = insert_end c (Edits-rev e)
Edits-rev (delete c e) = delete_end c (Edits-rev e)
Edits-rev (replace c d e) = replace_end c d (Edits-rev e)

rev-append : (s t : Text) → rev (s ++ t) ≡ rev t ++ rev s
rev-append [] t = sym (append-nil (rev t))
rev-append (c ∷ s) t = rw (rev-append s t) (append_assoc (rev t) (rev s) (c ∷ []))

pub rev-rev : (s : Text) → rev (rev s) ≡ s
rev-rev [] = refl
rev-rev (c ∷ s) = rw (rev-append (rev s) (c ∷ []), rev-rev s)
