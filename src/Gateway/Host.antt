-- ===== src/Gateway/Host.antt =====
-- What the gateway's engine uses of its surroundings: the calls of src/db.rs into SQLite and those of
-- the file system, as a parameter, and calls on its state one after another.
use Prim.Native.Char.{Char}
use rsqlite_rsync.Base.{ℕ, String, List, Option, Bool}
use rsqlite_rsync.Error.{SyncError, Result, ok, err, panic}
use rsqlite_rsync.Gateway.Values.{SqlValue}

-- What stepping a statement gives: rows, then its end or an error, each with the state after it.
pub data Steps (World : Type 0) : Type 0 where
  finished : World → Steps World
  failing : World → SyncError → Steps World
  row : World → List SqlValue → Steps World → Steps World

-- What removing a file gives.
pub data Removal : Type 0 where
  removed not_found : Removal
  not_removed : SyncError → Removal

-- A call that changes the state, with its result.
abbrev pub Call : Type 0 → Type 0 → Type 0
Call World A = World → World × Result A

pub record Host : Type 1 where
  pub World : Type 0
  pub Conn : Type 0
  pub Prepared : Type 0
  -- `Connection::open`, read only or to read, write and create.
  pub open_file : List Char → Bool → Call World Conn
  pub exec : Conn → String → Call World (Unit {0})
  pub prepare : Conn → List Char → World → Result Prepared
  pub is_readonly : Prepared → Bool
  pub bind_value : Prepared → ℕ → SqlValue → Result Prepared
  pub bind_parameter_index : Prepared → List Char → Option ℕ
  pub column_count : Prepared → ℕ
  pub column_name : Prepared → ℕ → List Char
  pub column_decltype : Prepared → ℕ → Option (List Char)
  pub steps : Prepared → World → Steps World
  pub changes : Conn → World → ℕ
  pub last_insert_rowid : Conn → World → ℕ
  -- `create_dir_all` of a path's parent.
  pub create_parent : List Char → Call World (Unit {0})
  pub path_exists : List Char → World → Bool
  pub remove_file : List Char → World → World × Removal

module _ {W A B : Type 0} where
  -- The rest of a chain, after a call.
  abbrev pub continue_call : W × Result A → (A → Call W B) → W × Result B
  continue_call (w, ok a) f = f a w
  continue_call (w, err e) f = (w, err e)
  continue_call (w, panic) f = (w, panic)

abbrev pub pure_call : {W A : Type 0} → Result A → Call W A
pure_call r w = (w, r)
