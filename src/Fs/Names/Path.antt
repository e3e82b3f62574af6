-- ===== src/Fs/Names/Path.antt =====
-- A path as its parts: the names of the directories to go through and the last name.
use linux.Common.{
  ℕ, ◌<◌, ◌≡◌, refl, sym, ap, ◌∙◌, Bool, true, false, Option, none, some, List, [], ◌∷◌, ◌==◌,
  if◌then◌else◌, arith, length, Bool-cases, inl, inr,
}
use linux.Fs.Names.{slash, scan, basename}

-- `c` goes in front of the first name of the parts.
abbrev pub push : ℕ → List (List ℕ) × List ℕ → List (List ℕ) × List ℕ
push c (dirs, last) = elim dirs [ [] ↦ ([], c ∷ last) | d ∷ more ↦ ((c ∷ d) ∷ more, last) ]

-- Every slash ends a name, also an empty one.
pub parts : List ℕ → List (List ℕ) × List ℕ
parts [] = ([], [])
parts (c ∷ path) =
    let (dirs, last) = parts path in if c == slash then ([] ∷ dirs, last) else push c (dirs, last)

-- The parts that a scan finds, with those of the path after it.
abbrev pub of_scan : List ℕ × Option (List ℕ) → List (List ℕ) × List ℕ
of_scan (name, none) = ([], name)
of_scan (name, some rest) = (name ∷ (parts rest).0, (parts rest).1)

push-of_scan : (c : ℕ) (p : List ℕ × Option (List ℕ)) → push c (of_scan p) ≡ of_scan (c ∷ p.0, p.1)
push-of_scan c (name, none) = refl
push-of_scan c (name, some rest) = refl

module _ (c : ℕ) (path : List ℕ) where
  pub parts-slash : (c == slash) ≡ true → parts (c ∷ path) ≡ ([] ∷ (parts path).0, (parts path).1)
  unfolding parts
  parts-slash h = rw (h, if◌then◌else◌) refl

  scan-slash : (c == slash) ≡ true → scan (c ∷ path) ≡ ([], some path)
  unfolding scan
  scan-slash h = rw (h, if◌then◌else◌) refl

  parts-char : (c == slash) ≡ false → parts (c ∷ path) ≡ push c (parts path)
  unfolding parts
  parts-char h = rw (h, if◌then◌else◌) refl

  scan-char : (c == slash) ≡ false → scan (c ∷ path) ≡ (c ∷ (scan path).0, (scan path).1)
  unfolding scan
  scan-char h = rw (h, if◌then◌else◌) refl

-- What scan finds is the first of the parts.
pub parts-scan : (path : List ℕ) → parts path ≡ of_scan (scan path)
unfolding parts scan
parts-scan [] = refl
parts-scan (c ∷ path) = elim (Bool-cases (c == slash)) [
  | inl here ↦ parts-slash c path here ∙ ap of_scan (sym (scan-slash c path here))
  | inr later ↦
      parts-char c path later
      ∙ ap (push c) (parts-scan path)
      ∙ push-of_scan c (scan path)
      ∙ ap of_scan (sym (scan-char c path later))
]

-- What follows a slash is shorter than the path.
pub scan-shorter : (path rest : List ℕ) → (scan path).1 ≡ some rest → length rest < length path
unfolding scan
scan-shorter [] rest h = cc
scan-shorter (c ∷ path) rest h = elim (Bool-cases (c == slash)) [
  | inl here ↦ omega (arith, ap length (some_inj (rw (here, if◌then◌else◌) at h)))
  | inr later ↦ omega (arith, scan-shorter path rest (rw (later, if◌then◌else◌) at h))
]
  where
    some_inj : {a b : List ℕ} → some a ≡ some b → a ≡ b
    some_inj q = cc

has_dir : List (List ℕ) → Bool
has_dir [] = false
has_dir (d ∷ dirs) = true

last_or : List ℕ → List (List ℕ) × List ℕ → List ℕ
last_or base (dirs, last) = if has_dir dirs then last else base

last_or-push :
    (base : List ℕ) (c : ℕ) (p : List (List ℕ) × List ℕ) → last_or base p ≡ last_or base (push c p)
unfolding last_or has_dir
last_or-push base c ([], last) = refl
last_or-push base c (d ∷ dirs, last) = refl

no_slash :
    (c : ℕ) (path : List ℕ) (p : List (List ℕ) × List ℕ)
    → last_or path p ≡ p.1
    → last_or (c ∷ path) (push c p) ≡ (push c p).1
unfolding last_or has_dir
no_slash c path ([], last) h = ap (λ l. c ∷ l) h
no_slash c path (d ∷ dirs, last) h = refl

last_or_self : (path : List ℕ) → last_or path (parts path) ≡ (parts path).1
unfolding last_or has_dir parts
last_or_self [] = refl
last_or_self (c ∷ path) = elim (Bool-cases (c == slash)) [
  | inl here ↦
      ap (last_or (c ∷ path)) (parts-slash c path here)
      ∙ ap (λ p. p.1) (sym (parts-slash c path here))
  | inr later ↦
      ap (last_or (c ∷ path)) (parts-char c path later)
      ∙ no_slash c path (parts path) (last_or_self path)
      ∙ ap (λ p. p.1) (sym (parts-char c path later))
]

basename-last_or : (path base : List ℕ) → basename base path ≡ last_or base (parts path)
unfolding basename parts last_or has_dir
basename-last_or [] base = refl
basename-last_or (c ∷ path) base = elim (Bool-cases (c == slash)) [
  | inl here ↦
      ap (λ b. basename b path) (if_true here)
      ∙ basename-last_or path path
      ∙ last_or_self path
      ∙ ap (last_or base) (sym (parts-slash c path here))
  | inr later ↦
      ap (λ b. basename b path) (if_false later)
      ∙ basename-last_or path base
      ∙ last_or-push base c (parts path)
      ∙ ap (last_or base) (sym (parts-char c path later))
]
  where
    if_true : (c == slash) ≡ true → (if c == slash then path else base) ≡ path
    if_true h = rw (h, if◌then◌else◌) refl

    if_false : (c == slash) ≡ false → (if c == slash then path else base) ≡ base
    if_false h = rw (h, if◌then◌else◌) refl

-- The base name of a path is the last of its parts.
pub basename-parts : (path : List ℕ) → basename path path ≡ (parts path).1
basename-parts path = basename-last_or path path ∙ last_or_self path
