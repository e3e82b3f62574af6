-- ===== src/Fs/Names/Walk.antt =====
-- namei is a walk along the parts of the path.
use linux.Common.{
  ℕ, zero, suc, ◌<◌, ◌≡◌, refl, sym, ap, ◌∙◌, Bool, true, false, Option, none, some, List, [], ◌∷◌,
  ◌==◌, ◌||◌, if◌then◌else◌, arith, length, Bool-cases, inl, inr, Option-cases,
}
use linux.Fs.Names.{
  InodeTable, Walker, Found, found, missing, panic, slash, scan, basename, enter, can_search,
  dir_loop, not_held, start_of, get_dir, namei,
}
use linux.Fs.Names.Path.{parts, of_scan, parts-slash, parts-scan, scan-shorter, basename-parts}

module _ {t : InodeTable} where
  open t use {State, iput, hold, touch}

  -- From the inode `i` through the directories `dirs`: each inode on the way, the last one too, has to be
  -- a directory that the process may search.
  pub walk : Walker t → List (List ℕ) → ℕ → State → Found t
  walk w [] i s = if can_search t w i s then found i s else missing (iput i s)
  walk w (d ∷ dirs) i s =
      if can_search t w i s
      then elim (enter t w i d s).0 [
        | none ↦ missing (enter t w i d s).1
        | some i' ↦ walk w dirs i' (enter t w i d s).1
      ]
      else missing (iput i s)

  -- The last name of the path in the directory that the walk ends in; an empty one is the directory.
  pub last_step : Walker t → List ℕ → Found t → Found t
  last_step w name panic = panic
  last_step w name (missing s) = missing s
  last_step w name (found i s) =
      if length name == 0 then found i s else elim (enter t w i name s).0 [
        | none ↦ missing (enter t w i name s).1
        | some i' ↦ found i' (touch i' (enter t w i name s).1)
      ]

  -- A path from the root starts with a slash, and any other from the current directory.
  pub resolve : Walker t → List ℕ → State → Found t
  unfolding walk last_step
  resolve w [] s = if not_held t w.root s || not_held t w.pwd s then panic else missing s
  resolve w (c ∷ path) s =
      if not_held t w.root s || not_held t w.pwd s
      then panic
      else if c == slash
      then last_step w (parts path).1
          (walk w (parts path).0 (start_of w.root) (hold (start_of w.root) s))
      else last_step w (parts (c ∷ path)).1
          (walk w (parts (c ∷ path)).0 (start_of w.pwd) (hold (start_of w.pwd) s))

  -- The rest of the walk from an inode that may be searched.
  abbrev walk_in : Walker t → List (List ℕ) → ℕ → State → Found t
  walk_in w dirs i s = elim dirs [
    | [] ↦ found i s
    | d ∷ more ↦ elim (enter t w i d s).0 [
      | none ↦ missing (enter t w i d s).1
      | some i' ↦ walk w more i' (enter t w i d s).1
    ]
  ]

  walk-search :
      (w : Walker t) (dirs : List (List ℕ)) (i : ℕ) (s : State)
      → can_search t w i s ≡ true
      → walk w dirs i s ≡ walk_in w dirs i s
  unfolding walk
  walk-search w [] i s h = rw (h, if◌then◌else◌) refl
  walk-search w (d ∷ dirs) i s h = rw (h, if◌then◌else◌) refl

  walk-stop :
      (w : Walker t) (dirs : List (List ℕ)) (i : ℕ) (s : State)
      → can_search t w i s ≡ false
      → walk w dirs i s ≡ missing (iput i s)
  unfolding walk
  walk-stop w [] i s h = rw (h, if◌then◌else◌) refl
  walk-stop w (d ∷ dirs) i s h = rw (h, if◌then◌else◌) refl

  abbrev loop_in : ℕ → Walker t → ℕ → State → List ℕ × Option (List ℕ) → Found t
  loop_in n w i s p = elim p.1 [
    | none ↦ found i s
    | some path ↦ elim (enter t w i p.0 s).0 [
      | none ↦ missing (enter t w i p.0 s).1
      | some i' ↦ dir_loop n w path i' (enter t w i p.0 s).1
    ]
  ]

  dir_loop-search :
      (n : ℕ) (w : Walker t) (path : List ℕ) (i : ℕ) (s : State)
      → can_search t w i s ≡ true
      → dir_loop (suc n) w path i s ≡ loop_in n w i s (scan path)
  unfolding dir_loop
  dir_loop-search n w path i s h = rw (h, dir_loop) refl

  dir_loop-stop :
      (n : ℕ) (w : Walker t) (path : List ℕ) (i : ℕ) (s : State)
      → can_search t w i s ≡ false
      → dir_loop (suc n) w path i s ≡ missing (iput i s)
  unfolding dir_loop
  dir_loop-stop n w path i s h = rw (h, dir_loop) refl

  -- One round of dir_loop, on what scan finds.
  round :
      (n : ℕ) (w : Walker t) (i : ℕ) (s : State) (p : List ℕ × Option (List ℕ))
      → ((path : List ℕ) (i' : ℕ) (s' : State)
          → p.1 ≡ some path
          → dir_loop n w path i' s' ≡ walk w (parts path).0 i' s')
      → loop_in n w i s p ≡ walk_in w (of_scan p).0 i s
  round n w i s (name, none) rest = refl
  round n w i s (name, some path) rest = elim (Option-cases (enter t w i name s).0) [
    | inl gone ↦ rw (gone, loop_in, walk_in) refl
    | inr (i', there) ↦ rw (there, loop_in, walk_in) (rest path i' (enter t w i name s).1 refl)
  ]

  dir_loop-walk :
      (n : ℕ) (w : Walker t) (path : List ℕ) (i : ℕ) (s : State)
      → length path < n
      → dir_loop n w path i s ≡ walk w (parts path).0 i s
  dir_loop-walk zero w path i s b = absurd (omega arith)
  dir_loop-walk (suc n) w path i s b = elim (Bool-cases (can_search t w i s)) [
    | inl free ↦
        dir_loop-search n w path i s free
        ∙ round n w i s (scan path) (λ path' i' s' e.
          dir_loop-walk n w path' i' s' (omega (arith, scan-shorter path path' e)))
        ∙ ap (λ p. walk_in w p.0 i s) (sym (parts-scan path))
        ∙ sym (walk-search w (parts path).0 i s free)
    | inr refused ↦
        dir_loop-stop n w path i s refused ∙ sym (walk-stop w (parts path).0 i s refused)
  ]

  abbrev after_dir : Walker t → List ℕ → Found t → Found t
  after_dir w name f = elim f [
    | panic ↦ panic
    | missing s ↦ missing s
    | found i s ↦ if length name == 0 then found i s else elim (enter t w i name s).0 [
      | none ↦ missing (enter t w i name s).1
      | some i' ↦ found i' (touch i' (enter t w i name s).1)
    ]
  ]

  after_dir-last :
      (w : Walker t) (name : List ℕ) (f : Found t) → after_dir w name f ≡ last_step w name f
  unfolding last_step
  after_dir-last w name panic = refl
  after_dir-last w name (missing s) = refl
  after_dir-last w name (found i s) = refl

  namei-after :
      (w : Walker t) (path : List ℕ) (s : State)
      → namei w path s ≡ after_dir w (basename path path) (get_dir w path s)
  unfolding namei
  namei-after w path s = refl

  module _ (w : Walker t) (c : ℕ) (path : List ℕ) (s : State) where
    unheld : Bool
    unheld = not_held t w.root s || not_held t w.pwd s

    get_dir-walk : Found t
    unfolding unheld
    get_dir-walk =
        if unheld
        then panic
        else if c == slash
        then walk w (parts path).0 (start_of w.root) (hold (start_of w.root) s)
        else walk w (parts (c ∷ path)).0 (start_of w.pwd) (hold (start_of w.pwd) s)

    get_dir-eq : get_dir w (c ∷ path) s ≡ get_dir-walk
    unfolding get_dir get_dir-walk unheld
    get_dir-eq =
        rw
          (
            dir_loop-walk (suc (length path)) w path (start_of w.root) (hold (start_of w.root) s)
                (omega arith),
            dir_loop-walk (suc (length (c ∷ path))) w (c ∷ path) (start_of w.pwd)
                (hold (start_of w.pwd) s) (omega arith),
          )
          refl

  last_step-if :
      (w : Walker t) (u b : Bool) (name name' : List ℕ) (f g : Found t)
      → (b ≡ true → name ≡ name')
      → last_step w name (if u then panic else if b then f else g)
        ≡ (if u then panic else if b then last_step w name' f else last_step w name g)
  unfolding last_step
  last_step-if w true b name name' f g h = refl
  last_step-if w false true name name' f g h = ap (λ n. last_step w n f) (h refl)
  last_step-if w false false name name' f g h = refl

  namei-step :
      (w : Walker t) (path : List ℕ) (s : State)
      → namei w path s ≡ last_step w (parts path).1 (get_dir w path s)
  namei-step w path s =
      namei-after w path s
      ∙ after_dir-last w (basename path path) (get_dir w path s)
      ∙ ap (λ n. last_step w n (get_dir w path s)) (basename-parts path)

  namei-walk : (w : Walker t) (path : List ℕ) (s : State) → namei w path s ≡ resolve w path s
  unfolding get_dir resolve get_dir-walk
  namei-walk w [] s = namei-step w [] s ∙ empty (not_held t w.root s || not_held t w.pwd s)
    where
      empty :
          (b : Bool)
          → last_step w (parts []).1 (if b then panic else missing s)
            ≡ (if b then panic else missing s)
      empty true = refl
      empty false = refl
  namei-walk w (c ∷ path) s =
      namei-step w (c ∷ path) s
      ∙ ap (last_step w (parts (c ∷ path)).1) (get_dir-eq w c path s)
      ∙ last_step-if w (not_held t w.root s || not_held t w.pwd s) (c == slash) (parts (c ∷ path)).1
          (parts path).1 _ _ (λ h. ap (λ p. p.1) (parts-slash c path h))

-- namei gives what the walk along the parts of the path gives, where every slash ends a part: from the
-- root for a path that starts with a slash and from the current directory for any other, through
-- directories that the process may search, to the entry of the last name, or to the last directory
-- where that name is empty. The loop ends for every path, whatever the table of inodes answers.
pub namei-resolve :
    {t : InodeTable} (w : Walker t) (path : List ℕ) (s : t.State)
    → namei w path s ≡ resolve w path s
namei-resolve w path s = namei-walk w path s
