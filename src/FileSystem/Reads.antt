-- ===== src/FileSystem/Reads.antt =====
-- Paths and files: what a read gives after a write, and where a path lies.
use boba_claw.Prelude.{
  ◌||◌, Result, ok, err, ◌≡◌, refl, ap, inl, inr, true, false, Option, none, some, ◌∙◌, [], ◌∷◌,
  ◌++◌, if◌then◌else◌, Text, text_eq_refl, text_eq_sound, last?, Bool-cases, arith,
}
use boba_claw.FileSystem.{
  FilePath, Files, Disk, directory, path_eq, below, parent, within, read, write, exists, with_dir,
  with_parent, kept_outside, without_dir, under_file, create_dir_all, write_text, when_allowed,
  is_dir, under_other_file, refused,
}

pub path_eq_refl : (p : FilePath) → path_eq p p ≡ true
path_eq_refl [] = refl
path_eq_refl (a ∷ p) = ground (arith, text_eq_refl a, path_eq_refl p)

pub path_eq_sound : (p q : FilePath) → path_eq p q ≡ true → p ≡ q
path_eq_sound [] [] h = refl
path_eq_sound [] (b ∷ q) h = absurd (ground arith)
path_eq_sound (a ∷ p) [] h = absurd (ground arith)
path_eq_sound (a ∷ p) (b ∷ q) h =
    let rest : p ≡ q = path_eq_sound p q (ground arith) in
    let first : a ≡ b = text_eq_sound a b (ground arith) in rw (first, rest)

pub below-append : (d p : FilePath) → below d (d ++ p) ≡ true
below-append [] p = refl
below-append (a ∷ d) p = ground (arith, text_eq_refl a, below-append d p)

pub below-append_more : (d p q : FilePath) → below d p ≡ true → below d (p ++ q) ≡ true
below-append_more [] p q h = refl
below-append_more (a ∷ d) [] q h = absurd (ground arith)
below-append_more (a ∷ d) (b ∷ p) q h = ground (arith, below-append_more d p q)

pub parent-append : (d : FilePath) (a : Text) → parent (d ++ a ∷ []) ≡ some d
parent-append [] a = refl
parent-append (b ∷ []) a = refl
parent-append (b ∷ c ∷ d) a = ap (within b) (parent-append (c ∷ d) a)

pub last-append : (d : FilePath) (a : Text) → last? (d ++ a ∷ []) ≡ some a
last-append [] a = refl
last-append (b ∷ []) a = refl
last-append (b ∷ c ∷ d) a = last-append (c ∷ d) a

pub read-write :
    (fs : Files) (p : FilePath) (content : Text) → read (write fs p content) p ≡ some content
unfolding read write
read-write [] p content = rw (path_eq_refl p)
read-write ((q, before) ∷ fs) p content = elim (Bool-cases (path_eq q p)) [
  | inl here ↦ rw (here, path_eq_refl p)
  | inr later ↦ rw (later, later) (read-write fs p content)
]

pub read-write_other :
    (fs : Files) (p q : FilePath) (content : Text)
    → path_eq p q ≡ false
    → read (write fs p content) q ≡ read fs q
unfolding read write
read-write_other [] p q content h = rw h
read-write_other ((o, before) ∷ fs) p q content h = elim (Bool-cases (path_eq o p)) [
  | inl here ↦ let same : o ≡ p = path_eq_sound o p here in rw (here, h, same, h)
  | inr later ↦ rw (later, read-write_other fs p q content h)
]

read-kept_outside :
    (fs : Files) (dir p : FilePath)
    → read (kept_outside fs dir) p ≡ (if below dir p then none else read fs p)
unfolding read
read-kept_outside [] dir p = ground arith
read-kept_outside ((q, node) ∷ fs) dir p =
    let ih = read-kept_outside fs dir p in
    elim (Bool-cases (path_eq q p)) [
      | inl here ↦ elim (Bool-cases (below dir p)) [
        | inl inside ↦ rw (path_eq_sound q p here, inside) (rw inside at ih)
        | inr outside ↦ rw (path_eq_sound q p here, outside, path_eq_refl p) refl
      ]
      | inr later ↦ elim (Bool-cases (below dir q)) [
        | inl inside ↦ rw (inside, later) ih
        | inr outside ↦ rw (outside, later) ih
      ]
    ]

-- A directory more or less in the list changes no file.
read-listed : (fs : Files) (dir p : FilePath) → read (fs ++ (dir, directory) ∷ []) p ≡ read fs p
unfolding read
read-listed [] dir p = elim (Bool-cases (path_eq dir p)) [
  | inl here ↦ rw here refl
  | inr other ↦ rw other refl
]
read-listed ((q, node) ∷ fs) dir p = elim (Bool-cases (path_eq q p)) [
  | inl here ↦ rw here refl
  | inr later ↦ rw later (read-listed fs dir p)
]

pub read-with_dir : (fs : Files) (dir p : FilePath) → read (with_dir fs dir) p ≡ read fs p
unfolding with_dir
read-with_dir fs dir p = elim (Bool-cases (exists fs dir)) [
  | inl there ↦ rw there refl
  | inr missing ↦ rw missing (read-listed fs dir p)
]

pub read-with_parent :
    (fs : Files) (o : Option FilePath) (p : FilePath) → read (with_parent fs o) p ≡ read fs p
unfolding with_parent
read-with_parent fs none p = refl
read-with_parent fs (some dir) p = read-with_dir fs dir p

pub read-without_dir :
    (fs : Files) (dir p : FilePath)
    → read (without_dir fs dir) p ≡ (if below dir p then none else read fs p)
unfolding without_dir
read-without_dir fs dir p =
    read-with_parent (kept_outside fs dir) (parent dir) p ∙ read-kept_outside fs dir p

allowed : (fs fs' : Files) (r : Result Text (Unit {0})) → when_allowed fs r ≡ ok fs' → fs ≡ fs'
allowed fs fs' (ok _) h = ground arith
allowed fs fs' (err e) h = absurd (ground arith)

pub create_dir_all_ok :
    (disk : Disk) (fs fs' : Files) (dir : FilePath)
    → create_dir_all disk fs dir ≡ ok fs'
    → with_dir fs dir ≡ fs'
unfolding create_dir_all
create_dir_all_ok disk fs fs' dir h = elim (Bool-cases (under_file fs dir)) [
  | inl blocked ↦ absurd (ground (arith, rw blocked at h))
  | inr free ↦
      allowed (with_dir fs dir) fs' (if exists fs dir then ok tt else refused (disk.denied dir))
        (rw free at h)
]

pub write_text_ok :
    (disk : Disk) (fs fs' : Files) (p : FilePath) (content : Text)
    → write_text disk fs p content ≡ ok fs'
    → write fs p content ≡ fs'
unfolding write_text
write_text_ok disk fs fs' p content h = elim (Bool-cases (is_dir fs p || under_other_file fs p)) [
  | inl kept ↦ absurd (ground (arith, rw kept at h))
  | inr free ↦ allowed (write fs p content) fs' (refused (disk.denied p)) (rw free at h)
]
