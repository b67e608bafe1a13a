-- ===== src/FileTools/Placed.antt =====
-- Where a path of the workspace is resolved to, and what `file_write` changes.
use boba_claw.Prelude.{
  ◌≡◌, refl, sym, ap, ◌∙◌, subst, inl, inr, true, false, Option, none, some, [], ◌∷◌, ◌++◌, map,
  any, Text, codes, trim, Bool-cases, ◌⊎◌, Result, ok, err, bind-ok, arith,
}
use boba_claw.FileSystem.{
  FilePath, Files, path_eq, components, join, below, parent, file_name, read, write,
}
use boba_claw.FileSystem.Reads.{
  read-with_dir, create_dir_all_ok, read-write, read-write_other, write_text_ok,
}
use boba_claw.FileTools.{
  System, to_slash, is_parent_dir, validate_trimmed, validate_relative_path, map_err, is_there,
  canonicalize, parent_or, new_place, resolve_target, kept_inside, resolve_in_workspace, fs_write,
}
use boba_claw.FileTools.Handlers.{parent_made, handle_file_write}

abbrev pub first_of : {A : Type 0} → Result Text (A × Text) → A → A
first_of (ok (a, _)) b = a
first_of (err e) b = b

pub ok_same : {A : Type 0} {r : Result Text A} {a b : A} → r ≡ ok a → r ≡ ok b → a ≡ b
ok_same h k = let both = sym h ∙ k in ground arith

map_err_ok :
    {A : Type 0} (message : Text) (r : Result Text A) (a : A) → map_err message r ≡ ok a → r ≡ ok a
map_err_ok message (ok b) a h = h
map_err_ok message (err e) a h = absurd (ground arith)

trimmed_ok :
    (t rel : Text)
    → validate_trimmed t ≡ ok rel
    → (t ≡ rel) × (any is_parent_dir (components t) ≡ false)
trimmed_ok t rel h = (ground arith, ground arith)

validated_no_parent :
    (path rel : Text)
    → validate_relative_path path ≡ ok rel
    → any is_parent_dir (components rel) ≡ false
unfolding validate_relative_path
validated_no_parent path rel h =
    let (same, forward) = trimmed_ok (map to_slash (trim path)) rel h in
    subst (λ r. any is_parent_dir (components r) ≡ false) same forward

module _ (sys : System) where
  canonical :
      (fs : Files) (p q : FilePath)
      → canonicalize sys fs p ≡ ok q
      → (is_there sys fs p ≡ true) × (q ≡ sys.real p)
  unfolding canonicalize
  canonical fs p q h = elim (Bool-cases (is_there sys fs p)) [
    | inl there ↦
        let taken : ◌≡◌ {A = Result Text FilePath} (ok (sys.real p)) (ok q) = rw there at h in
        let same : sys.real p ≡ q = ground arith in (there, sym same)
    | inr missing ↦ absurd (ground (arith, rw missing at h))
  ]

  inside :
      (ws q r : FilePath) (rel : Text)
      → kept_inside sys ws rel q ≡ ok r
      → (q ≡ r) × (below ws r ≡ true)
  inside ws q r rel h = elim (Bool-cases (below ws q)) [
    | inl within ↦
        let taken : ◌≡◌ {A = Result Text FilePath} (ok q) (ok r) = rw within at h in
        let same : q ≡ r = ground arith in (same, subst (λ x. below ws x ≡ true) same within)
    | inr out ↦ absurd (ground (arith, rw out at h))
  ]

  -- Where the target of a relative path is: its own place if something is there, else a file of its
  -- name in the place of its directory if that is there, else one in the workspace itself.
  abbrev pub Place : Files → FilePath → FilePath → FilePath → Type 0
  Place fs ws target q =
      ((is_there sys fs target ≡ true) × (q ≡ sys.real target))
      ⊎ ((is_there sys fs target ≡ false)
          × (name : Text) × (file_name target ≡ some name)
          × (q ≡ parent_or sys fs (parent target) ws ++ name ∷ []))

  new_placed :
      (dir q : FilePath) (o : Option Text) (rel : Text)
      → new_place sys dir o rel ≡ ok q
      → (name : Text) × (o ≡ some name) × (q ≡ dir ++ name ∷ [])
  new_placed dir q none rel h = absurd (ground arith)
  new_placed dir q (some name) rel h =
      let same : dir ++ name ∷ [] ≡ q = ground arith in (name, refl, sym same)

  placed :
      (fs : Files) (ws target q : FilePath) (rel : Text)
      → resolve_target sys fs ws target rel ≡ ok q
      → Place fs ws target q
  placed fs ws target q rel h = elim (Bool-cases (is_there sys fs target)) [
    | inl there ↦
        let message = codes "cannot resolve path '" ++ rel ++ codes "': " in
        let resolved : map_err message (canonicalize sys fs target) ≡ ok q = rw there at h in
        inl (
          there,
          (canonical fs target q (map_err_ok message (canonicalize sys fs target) q resolved)).1,
        )
    | inr missing ↦
        let resolved : new_place sys (parent_or sys fs (parent target) ws) (file_name target) rel
            ≡ ok q =
          rw missing at h in
        let (name, named, there) =
          new_placed (parent_or sys fs (parent target) ws) q (file_name target) rel resolved in
        inr (missing, name, named, there)
  ]

  pub resolve_in_workspace_lem :
      (fs : Files) (workspace : FilePath) (path : Text) (q : FilePath)
      → resolve_in_workspace sys fs workspace path ≡ ok q
      → (rel : Text) × (validate_relative_path path ≡ ok rel)
        × (any is_parent_dir (components rel) ≡ false)
        × (below (sys.real workspace) q ≡ true)
        × Place fs (sys.real workspace) (join workspace rel) q
  unfolding resolve_in_workspace
  resolve_in_workspace_lem fs workspace path q h =
      let (rel, valid, h1) = bind-ok (validate_relative_path path) _ q h in
      let (ws, there, h2) =
        bind-ok (map_err (codes "workspace unavailable: ") (canonicalize sys fs workspace)) _ q
          h1 in
      let (r, found, h3) = bind-ok (resolve_target sys fs ws (join workspace rel) rel) _ q h2 in
      let (same, within) = inside ws r q rel h3 in
      let (_, is_real) =
        canonical fs workspace ws
          (map_err_ok (codes "workspace unavailable: ") (canonicalize sys fs workspace) ws there) in
      (
        rel,
        valid,
        validated_no_parent path rel valid,
        subst (λ x. below x q ≡ true) is_real within,
        subst (λ x. Place fs x (join workspace rel) q) is_real
            (subst (Place fs ws (join workspace rel)) same
              (placed fs ws (join workspace rel) r rel found)),
      )

  pub made_then_written :
      (fs fs' : Files) (q : FilePath) (contents : Text)
      → fs_write sys fs q contents ≡ ok fs'
      → write fs (sys.real q) contents ≡ fs'
  made_then_written fs fs' q contents h = write_text_ok sys.disk fs fs' (sys.real q) contents h

  read-parent_made :
      (fs made : Files) (o : Option FilePath) (p : FilePath)
      → parent_made sys fs o ≡ ok made
      → read made p ≡ read fs p
  read-parent_made fs made none p h =
      let same : fs ≡ made = ground arith in ap (λ x. read x p) (sym same)
  read-parent_made fs made (some dir) p h =
      ap (λ x. read x p) (sym (create_dir_all_ok sys.disk fs made (sys.real dir) h))
      ∙ read-with_dir fs (sys.real dir) p

  -- The contents stand at the path, and every other file reads as before.
  abbrev pub OneFile : Files → Files → FilePath → Text → Type 0
  OneFile fs fs' p contents =
      (read fs' p ≡ some contents) × ((r : FilePath) → path_eq p r ≡ false → read fs' r ≡ read fs r)

  write_ok :
      (fs fs' : Files) (workspace : FilePath) (path contents message : Text)
      → handle_file_write sys fs workspace path contents ≡ ok (fs', message)
      → (rel : Text) × (validate_relative_path path ≡ ok rel)
        × (q : FilePath) × (resolve_in_workspace sys fs workspace rel ≡ ok q)
        × OneFile fs fs' (sys.real q) contents
  unfolding handle_file_write
  write_ok fs fs' workspace path contents message h =
      let (rel, valid, h1) = bind-ok (validate_relative_path path) _ (fs', message) h in
      let (q, resolved, h2) =
        bind-ok (resolve_in_workspace sys fs workspace rel) _ (fs', message) h1 in
      let (made, makes, h3) = bind-ok (parent_made sys fs (parent q)) _ (fs', message) h2 in
      let (written, writes, h4) = bind-ok (fs_write sys made q contents) _ (fs', message) h3 in
      let same : written ≡ fs' = ap (λ r. first_of r written) h4 in
      let after = sym (made_then_written made written q contents writes ∙ same) in
      (
        rel,
        valid,
        q,
        resolved,
        (
          ap (λ x. read x (sys.real q)) after ∙ read-write made (sys.real q) contents,
          λ r other.
              ap (λ x. read x r) after
              ∙ (read-write_other made (sys.real q) r contents other
                  ∙ read-parent_made fs made (parent q) r makes),
        ),
      )

  -- A `file_write` that succeeds changes one file, where a path below the workspace leads, and that
  -- file then holds the contents.
  pub file_write_lands :
      (fs fs' : Files) (workspace : FilePath) (path contents message : Text)
      → handle_file_write sys fs workspace path contents ≡ ok (fs', message)
      → (q : FilePath) × (below (sys.real workspace) q ≡ true)
        × (read fs' (sys.real q) ≡ some contents)
        × ((p : FilePath) → path_eq (sys.real q) p ≡ false → read fs' p ≡ read fs p)
  file_write_lands fs fs' workspace path contents message h =
      let (rel, valid, q, resolved, after) = write_ok fs fs' workspace path contents message h in
      let (_, _, _, within, _) = resolve_in_workspace_lem fs workspace rel q resolved in
      (q, within, after.0, after.1)
