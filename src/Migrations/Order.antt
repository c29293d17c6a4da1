-- ===== src/Migrations/Order.antt =====
-- The order of the migration files of engine/db/migrations/runner.py.
use v10_engine.Prelude.{
  ◌≡◌, refl, ◌⊎◌, inl, inr, Bool, true, false, List, [], ◌∷◌, keep, arith, All, Bool-cases,
}
use v10_engine.Store.{Text}
use v10_engine.Migrations.{SqlFile, text_ltb, insert_file, sorted_files}

text_ltb_trans : (s t u : Text) → text_ltb t s ≡ false → text_ltb u t ≡ false → text_ltb u s ≡ false
unfolding text_ltb
text_ltb_trans [] t u h k = refl
text_ltb_trans (c ∷ s) [] u h k = absurd (ground (arith, h))
text_ltb_trans (c ∷ s) (d ∷ t) [] h k = absurd (ground (arith, k))
text_ltb_trans (c ∷ s) (d ∷ t) (e ∷ u) h k = ground (arith, text_ltb_trans s t u)

text_ltb_asym : (s t : Text) → text_ltb s t ≡ true → text_ltb t s ≡ false
unfolding text_ltb
text_ltb_asym s [] h = absurd (ground (arith, h))
text_ltb_asym [] (d ∷ t) h = refl
text_ltb_asym (c ∷ s) (d ∷ t) h = ground (arith, text_ltb_asym s t)

-- The name of the file g does not come before that of f.
abbrev pub NotBefore : SqlFile → SqlFile → Type 0
NotBefore f g = text_ltb g.file_name f.file_name ≡ false

abbrev pub Ordered : List SqlFile → Type 0
Ordered [] = Unit
Ordered (f ∷ files) = All (NotBefore f) files × Ordered files

abbrev pub In : SqlFile → List SqlFile → Type 0
In f [] = ⊥
In f (g ∷ files) = (g ≡ f) ⊎ In f files

module _ (P : SqlFile → Type 0) where
  All-insert_file :
      (f : SqlFile) (files : List SqlFile) → P f → All P files → All P (insert_file f files)
  unfolding insert_file
  All-insert_file f [] h a = (h, tt)
  All-insert_file f (g ∷ files) h a = elim (Bool-cases (text_ltb g.file_name f.file_name)) [
    | inl e ↦ rw e (a.0, All-insert_file f files h a.1)
    | inr e ↦ rw e (h, a)
  ]

  pub All-sorted_files : (files : List SqlFile) → All P files → All P (sorted_files files)
  unfolding sorted_files
  All-sorted_files [] a = tt
  All-sorted_files (f ∷ files) a =
      All-insert_file f (sorted_files files) a.0 (All-sorted_files files a.1)

  All-of-insert_file :
      (f : SqlFile) (files : List SqlFile) → All P (insert_file f files) → P f × All P files
  unfolding insert_file
  All-of-insert_file f [] a = a
  All-of-insert_file f (g ∷ files) a = elim (Bool-cases (text_ltb g.file_name f.file_name)) [
    | inl e ↦
        let a' = rw e at a in let (h, rest) = All-of-insert_file f files a'.1 in (h, (a'.0, rest))
    | inr e ↦ rw e at a
  ]

  pub All-of-sorted_files : (files : List SqlFile) → All P (sorted_files files) → All P files
  unfolding sorted_files
  All-of-sorted_files [] a = tt
  All-of-sorted_files (f ∷ files) a =
      let (h, rest) = All-of-insert_file f (sorted_files files) a in
      (h, All-of-sorted_files files rest)

  pub All-kept : (q : SqlFile → Bool) (files : List SqlFile) → All P files → All P (keep q files)
  All-kept q [] a = tt
  All-kept q (f ∷ files) a = elim (Bool-cases (q f)) [
    | inl e ↦ rw e (a.0, All-kept q files a.1)
    | inr e ↦ rw e (All-kept q files a.1)
  ]

pub All-mono_files :
    (P Q : SqlFile → Type 0) (files : List SqlFile)
    → ((f : SqlFile) → P f → Q f)
    → All P files
    → All Q files
All-mono_files P Q [] h a = tt
All-mono_files P Q (f ∷ files) h a = (h f a.0, All-mono_files P Q files h a.1)

insert_file-Ordered :
    (f : SqlFile) (files : List SqlFile) → Ordered files → Ordered (insert_file f files)
unfolding insert_file
insert_file-Ordered f [] o = (tt, tt)
insert_file-Ordered f (g ∷ files) o = elim (Bool-cases (text_ltb g.file_name f.file_name)) [
  | inl e ↦ rw e (
    All-insert_file (NotBefore g) f files (text_ltb_asym g.file_name f.file_name e) o.0,
    insert_file-Ordered f files o.1,
  )
  | inr e ↦ rw e (
    (
      e,
      All-mono_files (NotBefore g) (NotBefore f) files
          (λ h k. text_ltb_trans f.file_name g.file_name h.file_name e k) o.0,
    ),
    o,
  )
]

pub sorted_files-Ordered : (files : List SqlFile) → Ordered (sorted_files files)
unfolding sorted_files
sorted_files-Ordered [] = tt
sorted_files-Ordered (f ∷ files) =
    insert_file-Ordered f (sorted_files files) (sorted_files-Ordered files)

pub keep-Ordered :
    (q : SqlFile → Bool) (files : List SqlFile) → Ordered files → Ordered (keep q files)
keep-Ordered q [] o = tt
keep-Ordered q (f ∷ files) o = elim (Bool-cases (q f)) [
  | inl e ↦ rw e (All-kept (NotBefore f) q files o.0, keep-Ordered q files o.1)
  | inr e ↦ rw e (keep-Ordered q files o.1)
]

pub All-In :
    (files more : List SqlFile)
    → ((f : SqlFile) → In f files → In f more)
    → All (λ f. In f more) files
All-In [] more h = tt
All-In (f ∷ files) more h = (h f (inl refl), All-In files more (λ g m. h g (inr m)))
