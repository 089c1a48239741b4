-- ===== src/Files/Removed.antt =====
-- What `remove` of src/files/files.service.ts leaves.
use legacy_made_api.Prelude.{
  ◌≡◌, refl, sym, ℕ, zero, suc, ◌≤◌, ◌<◌, Bool, true, false, some, List, [], ◌∷◌, Text, truthy,
  arith, Bool-cases, Option-cases, inl, inr, ◌∙◌, ◌==◌,
}
use mathlib.Core.List.{Mem, mem-cons_self, mem-cons_of_mem}
use legacy_made_api.Prelude.Results.{ok, >>=-returned}
use legacy_made_api.Prelude.Tables.{any, select, delete, length, All}
use legacy_made_api.TableLaws.{All-map, any-delete}
use legacy_made_api.Schema.{File, Db, as_user}
use legacy_made_api.DbService.{Cls, rls, transaction}
use legacy_made_api.DbService.Keeps.{rls-signed_in, transaction-ok}
use legacy_made_api.Files.{Access, is_changed_file, find_one_with_pillar_check}
use legacy_made_api.Files.Removal.{
  is_orphan, is_child, storage_keys, cascade, without_orphans, remove_tx, remove,
}
use mathlib.Core.Path.{subst}

delete_none : {A : Type 0} (p : A → Bool) (xs : List A) → any p xs ≡ false → delete p xs ≡ xs
delete_none p [] h = refl
delete_none p (x ∷ xs) h = ground (arith, delete_none p xs)

length-delete_le : {A : Type 0} (p : A → Bool) (xs : List A) → length (delete p xs) ≤ length xs
length-delete_le p [] = ground arith
length-delete_le p (x ∷ xs) = ground (arith, length-delete_le p xs)

length-delete_lt :
    {A : Type 0} (p : A → Bool) (xs : List A) → any p xs ≡ true → length (delete p xs) < length xs
length-delete_lt p [] h = cc
length-delete_lt p (x ∷ xs) h = ground (arith, length-delete_le p xs, length-delete_lt p xs)

-- The foreign key parent_file_id.
abbrev pub HasParents : List File → Type 0
HasParents files = any (is_orphan files) files ≡ false

cascade_same : (rounds : ℕ) (files : List File) → HasParents files → cascade rounds files ≡ files
unfolding cascade
cascade_same zero files h = refl
cascade_same (suc rounds) files h =
    rw (delete_none (is_orphan files) files h) (cascade_same rounds files h)

cascade-HasParents :
    (rounds : ℕ) (files : List File) → length files ≤ rounds → HasParents (cascade rounds files)
unfolding cascade
cascade-HasParents zero [] enough = refl
cascade-HasParents zero (f ∷ files) enough = absurd (ground arith)
cascade-HasParents (suc rounds) files enough = elim (Bool-cases (any (is_orphan files) files)) [
  | inl orphans ↦
      cascade-HasParents rounds (delete (is_orphan files) files)
        (ground (arith, length-delete_lt (is_orphan files) files orphans))
  | inr h ↦ rw (delete_none (is_orphan files) files h, cascade_same rounds files h) h
]

any-cascade :
    (q : File → Bool) (rounds : ℕ) (files : List File)
    → any q files ≡ false
    → any q (cascade rounds files) ≡ false
unfolding cascade
any-cascade q zero files h = h
any-cascade q (suc rounds) files h =
    any-cascade q rounds (delete (is_orphan files) files) (any-delete q (is_orphan files) files h)

-- A row whose parent is not there is one after more rows have gone.
orphan-cascade :
    (rounds : ℕ) (files : List File) (f : File)
    → is_orphan files f ≡ true
    → is_orphan (cascade rounds files) f ≡ true
orphan-cascade rounds files f h = elim (Option-cases f.parent_file_id) [
  | inl none_given ↦ absurd (ground arith)
  | inr (p, given) ↦
      let gone : any (λ (x : File). x.id == p) files ≡ false = ground arith in
      rw (given, any-cascade (λ (x : File). x.id == p) rounds files gone) refl
]

any-delete_same : {A : Type 0} (p : A → Bool) (xs : List A) → any p (delete p xs) ≡ false
any-delete_same p [] = refl
any-delete_same p (x ∷ xs) = ground (arith, any-delete_same p xs)

All-Mem : {A : Type 0} (xs : List A) → All (λ x. Mem x xs) xs
All-Mem [] = tt
All-Mem (x ∷ xs) = (
  mem-cons_self,
  All-map (λ y. Mem y xs) (λ y. Mem y (x ∷ xs)) (λ y m. mem-cons_of_mem x m) xs (All-Mem xs),
)

-- What holds of the rows that a deletion leaves and of those that it takes holds of all.
All-undelete :
    {A : Type 0} (P : A → Type 0) (p : A → Bool) (xs : List A)
    → ((x : A) → p x ≡ true → P x)
    → All P (delete p xs)
    → All P xs
All-undelete P p [] taken left = tt
All-undelete P p (x ∷ xs) taken left = elim (Bool-cases (p x)) [
  | inl out ↦
      let rest : All P (delete p xs) = subst (All P) (drop_first out) left in
      (taken x out, All-undelete P p xs taken rest)
  | inr kept ↦
      let both : P x × All P (delete p xs) = subst (All P) (keep_first kept) left in
      (both.0, All-undelete P p xs taken both.1)
]
  where
    drop_first : p x ≡ true → delete p (x ∷ xs) ≡ delete p xs
    drop_first h = rw h refl

    keep_first : p x ≡ false → delete p (x ∷ xs) ≡ x ∷ delete p xs
    keep_first h = rw h refl

-- Rows of a cascade that keep their parent stay.
cascade-keeps :
    (rounds : ℕ) (files : List File)
    → All (λ f. is_orphan (cascade rounds files) f ≡ false → Mem f (cascade rounds files)) files
unfolding cascade
cascade-keeps zero files =
    All-map (λ f. Mem f files) (λ f. is_orphan files f ≡ false → Mem f files) (λ f m _. m) files
      (All-Mem files)
cascade-keeps (suc rounds) files =
    let left = cascade rounds (delete (is_orphan files) files) in
    All-undelete (λ f. is_orphan left f ≡ false → Mem f left) (is_orphan files) files
      (λ f h k.
        let gone : is_orphan left f ≡ true = orphan-cascade (suc rounds) files f h in
        absurd (ground arith))
      (cascade-keeps rounds (delete (is_orphan files) files))

-- What a removal leaves of the files: no file with the condition and none whose parent file is not
-- left, every other file, and nothing new.
abbrev pub Removed : (File → Bool) → List File → List File → Type 0
Removed target before left =
    (any target left ≡ false)
    × HasParents left
    × All (λ f. target f ≡ false → is_orphan left f ≡ false → Mem f left) before
    × ((q : File → Bool) → any q before ≡ false → any q left ≡ false)

cascade-Removed :
    (target : File → Bool) (files : List File)
    → Removed target files (without_orphans (delete target files))
cascade-Removed target files =
    let rest = delete target files in
    let left = without_orphans rest in
    (
      any-cascade target (length rest) rest (any-delete_same target files),
      cascade-HasParents (length rest) rest (omega arith),
      All-undelete (λ f. target f ≡ false → is_orphan left f ≡ false → Mem f left) target files
          (λ f h k _. absurd (ground arith))
          (All-map (λ f. is_orphan left f ≡ false → Mem f left)
            (λ f. target f ≡ false → is_orphan left f ≡ false → Mem f left) (λ f m _. m) rest
            (cascade-keeps (length rest) rest)),
      λ q h. any-cascade q (length rest) rest (any-delete q target files h),
    )

-- Where `remove` returns for a signed-in user, it has passed its checks for a file with the id, and of
-- the files exactly these are gone: those with the id that the policies let the user change, and,
-- one after another, those whose parent file is gone, whosever they are; every other file is there,
-- nothing is new, and the other tables are as they were.
pub remove-Removed :
    (now : ℕ) (id u : Text) (cls : Cls) (keys : List Text) (db db' : Db)
    → truthy cls.user_id ≡ some u
    → remove now id cls db ≡ (ok keys, db')
    → (f : File) × (find_one_with_pillar_check now cls id Access.modify (as_user u) db ≡ ok f)
      × (keys ≡ storage_keys (f ∷ select (is_child (as_user u) db id) db.files))
      × Removed (is_changed_file (as_user u) db id) db.files db'.files
      × (db' ≡ record db { files = db'.files })
unfolding remove remove_tx
remove-Removed now id u cls keys db db' signed_in h =
    let returned : remove_tx now id cls (as_user u) db ≡ ok (keys, db') =
      transaction-ok (remove_tx now id cls (as_user u)) db db'
        (sym (rls-signed_in cls (remove_tx now id cls) u db signed_in) ∙ h) in
    let (f, passed, k) =
      >>=-returned (find_one_with_pillar_check now cls id Access.modify (as_user u) db) _
        returned in
    let left = without_orphans (delete (is_changed_file (as_user u) db id) db.files) in
    let same : record db { files = left } ≡ db' = cc in
    (
      f,
      passed,
      cc,
      subst (λ d. Removed (is_changed_file (as_user u) db id) db.files d.files) same
          (cascade-Removed (is_changed_file (as_user u) db id) db.files),
      subst (λ d. d ≡ record db { files = d.files }) same refl,
    )

-- Where a user passes the checks of `remove` for a file, but the policies let the user change no row
-- with its id, the call returns, and the objects of the file and of its visible children are deleted
-- from the storage, while the database stays as it is; the parent of every file is in the table.
pub remove_by_viewer :
    (now : ℕ) (id u : Text) (cls : Cls) (f : File) (db : Db)
    → truthy cls.user_id ≡ some u
    → find_one_with_pillar_check now cls id Access.modify (as_user u) db ≡ ok f
    → any (is_changed_file (as_user u) db id) db.files ≡ false
    → HasParents db.files
    → remove now id cls db
      ≡ (ok (storage_keys (f ∷ select (is_child (as_user u) db id) db.files)), db)
unfolding remove remove_tx
remove_by_viewer now id u cls f db signed_in found none_changed parents =
    rw
      (
        rls,
        signed_in,
        transaction,
        found,
        delete_none (is_changed_file (as_user u) db id) db.files none_changed,
        cascade_same (length db.files) db.files parents,
      )
      refl
