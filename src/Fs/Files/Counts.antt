-- ===== src/Fs/Files/Counts.antt =====
-- The reference counts of the file table: how many descriptors name each file.
use linux.Common.{
  ℕ, zero, suc, ◌+◌, ◌-◌, ◌^◌, ◌≤◌, ◌<◌, ◌≡◌, Option, none, some, List, [], ◌∷◌, arith, ◌==◌,
  ==_iff, if◌then◌else◌, Bool-cases, inl, inr, ◌∙◌, length, length-set, get_or, set,
  get_or-set_self, get_or-set_ne,
}
use linux.Fs.Files.{
  File, no_file, Files, file, file_at, set_file, set_filp, nr_open, nr_file, more_count, less_count,
}

-- 1 if a descriptor names file `i`.
abbrev pub hit : ℕ → Option ℕ → ℕ
hit i none = 0
hit i (some j) = if j == i then 1 else 0

unfoldable pub count_refs : ℕ → List (Option ℕ) → ℕ
count_refs i [] = 0
count_refs i (v ∷ filp) = hit i v + count_refs i filp

-- The count of each file is the number of this process's descriptors for it and of those that the
-- other processes hold; the descriptors name files of the table; and no count can overflow.
pub record IsCounted (others : ℕ → ℕ) (s : Files) : Type 0 where
  pub slots : length s.filp ≡ nr_open
  pub files : length s.file_table ≡ nr_file
  pub counts : (i : ℕ) → i < nr_file → (file s i).f_count ≡ count_refs i s.filp + others i
  pub named : (fd i : ℕ) → file_at s fd ≡ some i → i < nr_file
  pub small : (i : ℕ) → others i < 2 ^ 16 - 21

pub count_refs-le : (i : ℕ) (filp : List (Option ℕ)) → count_refs i filp ≤ length filp
unfolding count_refs
count_refs-le i [] = omega arith
count_refs-le i (none ∷ filp) = omega (arith, count_refs-le i filp)
count_refs-le i (some j ∷ filp) = ground (arith, count_refs-le i filp)

-- Changing one descriptor changes the references by what it named and what it names.
pub count_refs-set :
    (i : ℕ) (filp : List (Option ℕ)) (fd : ℕ) (v : Option ℕ)
    → fd < length filp
    → count_refs i (set filp fd v) + hit i (get_or filp fd none) ≡ count_refs i filp + hit i v
unfolding count_refs
count_refs-set i [] fd v h = absurd (omega arith)
count_refs-set i (w ∷ filp) zero v h = omega arith
count_refs-set i (w ∷ filp) (suc fd) v h = omega (arith, count_refs-set i filp fd v (omega arith))

-- A descriptor that names a file is one of its references.
pub hit-le-count_refs :
    (i : ℕ) (filp : List (Option ℕ)) (fd : ℕ) → hit i (get_or filp fd none) ≤ count_refs i filp
unfolding count_refs
hit-le-count_refs i [] fd = omega arith
hit-le-count_refs i (w ∷ filp) zero = omega arith
hit-le-count_refs i (w ∷ filp) (suc fd) = omega (arith, hit-le-count_refs i filp fd)

pub hit_self : (i : ℕ) → hit i (some i) ≡ 1
hit_self i = ground arith

pub file-set_file :
    (s : Files) (i j : ℕ) (f : File)
    → i < length s.file_table
    → file (set_file i f s) j ≡ (if i == j then f else file s j)
unfolding set_file
file-set_file s i j f h = elim (Bool-cases (i == j)) [
  | inl here ↦
      let e : i ≡ j = (==_iff i j).0 here in
      rw here (rw (← e) (get_or-set_self s.file_table i f no_file h))
  | inr apart ↦ rw apart (get_or-set_ne s.file_table {i = i} {j = j} f no_file (ground arith))
]

pub file_at-set_filp :
    (s : Files) (fd k : ℕ) (v : Option ℕ)
    → fd < length s.filp
    → file_at (set_filp fd v s) k ≡ (if fd == k then v else file_at s k)
unfolding set_filp
file_at-set_filp s fd k v h = elim (Bool-cases (fd == k)) [
  | inl here ↦
      let e : fd ≡ k = (==_iff fd k).0 here in
      rw here (rw (← e) (get_or-set_self s.filp fd v none h))
  | inr apart ↦ rw apart (get_or-set_ne s.filp {i = fd} {j = k} v none (ground arith))
]

module _ {others : ℕ → ℕ} {s : Files} (v : IsCounted others s) where
  -- A new reference to file `i` in a free slot.
  pub add-IsCounted :
      (i slot : ℕ)
      → i < nr_file
      → slot < nr_open
      → file_at s slot ≡ none
      → IsCounted others (set_file i (more_count (file s i)) (set_filp slot (some i) s))
  unfolding set_file set_filp
  add-IsCounted i slot hi hs free =
      let s₁ = set_filp slot (some i) s in
      record {
        slots = length-set s.filp slot (some i) ∙ v.slots;
        files = length-set s.file_table i _ ∙ v.files;
        counts = λ j hj.
            let refs = count_refs-set j s.filp slot (some i) (omega (arith, v.slots)) in
            let refs' = rw free at refs in
            rw (file-set_file s₁ i j (more_count (file s i)) (omega (arith, v.files)))
              (elim (Bool-cases (i == j)) [
                | inl here ↦
                    let e : i ≡ j = (==_iff i j).0 here in
                    rw here (
                      rw e (
                        omega (
                          arith,
                          v.counts j hj,
                          v.small j,
                          rw (e, hit_self) at refs',
                          count_refs-le j s.filp,
                          v.slots,
                        )))
                | inr apart ↦ rw apart (omega (arith, v.counts j hj, rw apart at refs'))
              ]);
        named = λ fd j e.
            names fd j (rw (file_at-set_filp s slot fd (some i) (omega (arith, v.slots))) at e);
        small = v.small;
      }
    where
      names : (fd j : ℕ) → (if slot == fd then some i else file_at s fd) ≡ some j → j < nr_file
      names fd j e = elim (Bool-cases (slot == fd)) [
        | inl here ↦ ground (arith, rw here at e)
        | inr apart ↦ v.named fd j (rw apart at e)
      ]

  -- One reference to file `i` less.
  pub remove-IsCounted :
      (i fd : ℕ)
      → fd < nr_open
      → file_at s fd ≡ some i
      → IsCounted others (set_file i (less_count (file s i)) (set_filp fd none s))
  unfolding set_file set_filp
  remove-IsCounted i fd hf here_i =
      let s₁ = set_filp fd none s in
      let hi : i < nr_file = v.named fd i here_i in
      record {
        slots = length-set s.filp fd none ∙ v.slots;
        files = length-set s.file_table i _ ∙ v.files;
        counts = λ j hj.
            let refs = rw here_i at (count_refs-set j s.filp fd none (omega (arith, v.slots))) in
            rw (file-set_file s₁ i j (less_count (file s i)) (omega (arith, v.files)))
              (elim (Bool-cases (i == j)) [
                | inl here ↦
                    let e : i ≡ j = (==_iff i j).0 here in
                    rw here (
                      rw e (
                        omega (
                          arith,
                          v.counts j hj,
                          v.small j,
                          rw (e, hit_self) at refs,
                          count_refs-le j s.filp,
                          v.slots,
                        )))
                | inr apart ↦ rw apart (omega (arith, v.counts j hj, rw apart at refs))
              ]);
        named =
            λ k j e. names k j (rw (file_at-set_filp s fd k none (omega (arith, v.slots))) at e);
        small = v.small;
      }
    where
      names : (k j : ℕ) → (if fd == k then none else file_at s k) ≡ some j → j < nr_file
      names k j e = elim (Bool-cases (fd == k)) [
        | inl here ↦ ground (arith, rw here at e)
        | inr apart ↦ v.named k j (rw apart at e)
      ]

  -- A file that a descriptor names has a count above 0.
  pub count-pos : (i fd : ℕ) → file_at s fd ≡ some i → 0 < (file s i).f_count
  count-pos i fd e =
      omega
        (arith, v.counts i (v.named fd i e), rw (e, hit_self) at (hit-le-count_refs i s.filp fd))

  -- The flags of exec do not matter to the counts.
  pub exec-IsCounted : (w : ℕ) → IsCounted others (record s { close_on_exec = w })
  exec-IsCounted w = record {
    slots = v.slots;
    files = v.files;
    counts = v.counts;
    named = v.named;
    small = v.small;
  }

  pub iput-IsCounted : (l : List (Option ℕ)) → IsCounted others (record s { iputs = l })
  iput-IsCounted l = record {
    slots = v.slots;
    files = v.files;
    counts = v.counts;
    named = v.named;
    small = v.small;
  }
