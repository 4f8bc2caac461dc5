-- ===== src/Store/Disk.antt =====
-- The disk-backed store (src/integrations/strategy_store.py, `LocalStrategyStore`). A disk is the
-- directories and files below the root, by their segments, without links, where case counts and
-- every write finds room.
use mqs_backtest_visualizer.Prelude.{
  ◌==◌, ltb, Bool, true, false, Option, none, some, List, [], ◌∷◌, ◌++◌, ◌&&◌, ◌||◌, not, Result,
  ok, err, length, map, if◌then◌else◌,
}
use mqs_backtest_visualizer.Prelude.Text.{Text, drop}
use mqs_backtest_visualizer.Prelude.Sort.{sort}
use mqs_backtest_visualizer.Store.Names.{
  Trouble, missing_object, store_error, key_segments, object_name, check_names,
}
use mqs_backtest_visualizer.Store.Paths.{starts_with, same_parts}
use mqs_backtest_visualizer.Store.Materialize.{joined}

-- what the disk-backed store raises: what both stores do, or an `OSError` that it does not catch
pub data DiskTrouble : Type 0 where
  raised : Trouble → DiskTrouble
  os_error : DiskTrouble

pub record Disk : Type 0 where
  pub directories : List (List Text)
  pub files : List (List Text × Text)

abbrev pub has_parts : List Text → List (List Text) → Bool
has_parts p [] = false
has_parts p (q ∷ qs) = same_parts q p || has_parts p qs

abbrev pub file_at : List Text → List (List Text × Text) → Option Text
file_at p [] = none
file_at p ((q, t) ∷ files) = if same_parts q p then some t else file_at p files

abbrev pub is_there : Option Text → Bool
is_there none = false
is_there (some t) = true

-- a path and its parents, from the top, without the root
abbrev pub prefixes : List Text → List (List Text)
prefixes [] = []
prefixes (p ∷ ps) = (p ∷ []) ∷ map (λ q. p ∷ q) (prefixes ps)

abbrev pub any_file : List (List Text) → List (List Text × Text) → Bool
any_file [] files = false
any_file (p ∷ ps) files = is_there (file_at p files) || any_file ps files

-- `mkdir(parents=True, exist_ok=True)`
abbrev pub make_directories : List (List Text) → List (List Text) → List (List Text)
make_directories [] directories = directories
make_directories (p ∷ ps) directories =
    make_directories ps (if has_parts p directories then directories else p ∷ directories)

abbrev pub write_file : List Text → Text → List (List Text × Text) → List (List Text × Text)
write_file p t [] = (p, t) ∷ []
write_file p t ((q, u) ∷ files) =
    if same_parts q p then (p, t) ∷ files else (q, u) ∷ write_file p t files

abbrev pub put_at : Disk → List Text → Text → Text → Disk × Result DiskTrouble (Unit {0})
put_at d parts name content =
    if any_file (prefixes parts) d.files
    then (d, err os_error)
    else let made = record d { directories = make_directories (prefixes parts) d.directories } in
      if has_parts (parts ++ (name ∷ [])) d.directories
      then (made, err os_error)
      else (record made { files = write_file (parts ++ (name ∷ [])) content d.files }, ok tt)

-- `put`
unfoldable pub put_file : Disk → Text → Text → Text → Disk × Result DiskTrouble (Unit {0})
put_file d key filename content = elim (key_segments key) [
  | err e ↦ (d, err (raised e))
  | ok parts ↦ elim (object_name filename) [
    | err e ↦ (d, err (raised e))
    | ok name ↦ put_at d parts name content
  ]
]

abbrev pub get_at : Disk → List Text → Text → Result DiskTrouble Text
get_at d path asked = elim (file_at path d.files) [
  | some t ↦ ok t
  | none ↦
      if has_parts path d.directories then err os_error else err (raised (missing_object asked))
]

-- `get`
unfoldable pub get_file : Disk → Text → Text → Result DiskTrouble Text
get_file d key filename = elim (key_segments key) [
  | err e ↦ err (raised e)
  | ok parts ↦ elim (object_name filename) [
    | err e ↦ err (raised e)
    | ok name ↦ get_at d (parts ++ (name ∷ [])) (key ++ filename)
  ]
]

-- what lies below a path, itself left out
abbrev pub is_below : List Text → List Text → Bool
is_below p q = starts_with p q && not (same_parts p q)

abbrev pub any_below : List Text → List (List Text) → Bool
any_below p [] = false
any_below p (q ∷ qs) = is_below p q || any_below p qs

abbrev pub paths_of : List (List Text × Text) → List (List Text)
paths_of [] = []
paths_of ((p, t) ∷ files) = p ∷ paths_of files

-- `exists`
unfoldable pub exists_directory : Disk → Text → Result DiskTrouble Bool
exists_directory d key = elim (key_segments key) [
  | err e ↦ err (raised e)
  | ok parts ↦ ok (
      has_parts parts d.directories
      && (any_below parts d.directories || any_below parts (paths_of d.files)))
]

abbrev pub without_below : List Text → List (List Text) → List (List Text)
without_below p [] = []
without_below p (q ∷ qs) = if starts_with p q then without_below p qs else q ∷ without_below p qs

abbrev pub files_without : List Text → List (List Text × Text) → List (List Text × Text)
files_without p [] = []
files_without p ((q, t) ∷ files) =
    if starts_with p q then files_without p files else (q, t) ∷ files_without p files

-- `shutil.rmtree` of a directory; a file in its way is an `OSError`, and a missing directory is none
abbrev pub remove_tree : Disk → Text → List Text → Disk × Result DiskTrouble (Unit {0})
remove_tree d key parts =
    if has_parts parts d.directories
    then (
      record {
        directories = without_below parts d.directories;
        files = files_without parts d.files;
      },
      ok tt,
    )
    else if any_file (prefixes parts) d.files
    then (d, err (raised (store_error key)))
    else (d, ok tt)

-- `delete`
unfoldable pub delete_directory : Disk → Text → Disk × Result DiskTrouble (Unit {0})
delete_directory d key = elim (key_segments key) [
  | err e ↦ (d, err (raised e))
  | ok parts ↦ remove_tree d key parts
]

abbrev pub text_before : Text → Text → Bool
text_before [] t = true
text_before (c ∷ cs) [] = false
text_before (c ∷ cs) (d ∷ ds) = ltb c d || ((c == d) && text_before cs ds)

-- the order of paths, part by part
abbrev pub parts_before : List Text → List Text → Bool
parts_before [] qs = true
parts_before (p ∷ ps) [] = false
parts_before (p ∷ ps) (q ∷ qs) =
    (text_before p q && not (text_before q p)) || (text_before p q && parts_before ps qs)

abbrev pub path_before : List Text × Text → List Text × Text → Bool
path_before a b = parts_before a.0 b.0

-- the files below a path, by what follows it
abbrev pub files_below : List Text → List (List Text × Text) → List (List Text × Text)
files_below p [] = []
files_below p ((q, t) ∷ files) =
    if is_below p q then (drop (length p) q, t) ∷ files_below p files else files_below p files

-- the loop of `materialize` over the sorted files
unfoldable pub copy_files :
    List (List Text × Text) → List (List Text × Text) × Result DiskTrouble (Unit {0})
copy_files [] = ([], ok tt)
copy_files ((p, t) ∷ files) = elim (check_names p p) [
  | err e ↦ ([], err (raised (store_error (joined p))))
  | ok segments ↦ let (copied, ended) = copy_files files in ((p, t) ∷ copied, ended)
]

abbrev pub copy_some :
    Text → List (List Text × Text) → List (List Text × Text) × Result DiskTrouble (Unit {0})
copy_some key [] = ([], err (raised (missing_object key)))
copy_some key (f ∷ files) = copy_files (f ∷ files)

-- `materialize`, into an empty directory
unfoldable pub materialize_directory :
    Disk → Text → List (List Text × Text) × Result DiskTrouble (Unit {0})
materialize_directory d key = elim (key_segments key) [
  | err e ↦ ([], err (raised e))
  | ok parts ↦
      if has_parts parts d.directories
      then copy_some key (sort path_before (files_below parts d.files))
      else ([], err (raised (missing_object key)))
]
