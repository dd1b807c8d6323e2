-- ===== src/Gateway/Engine/Drop.antt =====
-- src/gateway/engine.rs: `drop_database`, the file of a database and the files beside it.
use Prim.Native.Char.{Char}
use rsqlite_rsync.Base.{List, [], ◌∷◌, ◌++◌, Bool}
use rsqlite_rsync.Error.{Result, ok, err, panic}
use rsqlite_rsync.KvText.Chars.{chars}
use rsqlite_rsync.KvText.{trim}
use rsqlite_rsync.Gateway.Host.{Host, Removal, removed, not_found, not_removed, continue_call}
use rsqlite_rsync.Gateway.Paths.{DatabaseEngine, resolve_db_path}
use rsqlite_rsync.Gateway.Engine.Binding.{Locks, get_db_lock, remove_lock}

-- The file and its sidecars.
unfoldable pub files_of : List Char → List (List Char)
unfolding chars
files_of path =
    path ∷ (path ++ chars "-wal") ∷ (path ++ chars "-shm") ∷ (path ++ chars "-journal") ∷ []

module _ (h : Host) where
  open h use {World, path_exists, remove_file}

  -- A file that is not there is no error.
  abbrev pub after_removal :
      World × Removal → (World → World × Result (Unit {0})) → World × Result (Unit {0})
  after_removal (w, removed) next = next w
  after_removal (w, not_found) next = next w
  after_removal (w, not_removed e) next = (w, err e)

  unfoldable pub remove_files : List (List Char) → World → World × Result (Unit {0})
  remove_files [] w = (w, ok tt)
  remove_files (p ∷ ps) w = after_removal (remove_file p w) (remove_files ps)

  -- The lock of the name goes with the files.
  abbrev pub finish_drop : Locks → List Char → World × Result Bool → Locks × (World × Result Bool)
  finish_drop locks db_name (w, ok existed) = (remove_lock locks (trim db_name), (w, ok existed))
  finish_drop locks db_name (w, err e) = (locks, (w, err e))
  finish_drop locks db_name (w, panic) = (locks, (w, panic))

  unfoldable pub drop_database :
      DatabaseEngine → List Char → Locks → World → Locks × (World × Result Bool)
  unfolding get_db_lock remove_lock resolve_db_path files_of remove_files
  drop_database engine db_name locks w = finish_drop (get_db_lock locks db_name).0 db_name (
      continue_call (resolve_db_path h engine db_name w) (λ path w1.
        continue_call (remove_files (files_of path) w1) (λ _ w2. (w2, ok (path_exists path w1)))))
