-- ===== src/Persistence.antt =====
-- persistence/persistence.go: the interface of a Saver, for the objects of the job service. Such an
-- object is stored under its kind and name, and its one exported field is a date. The datastore
-- behind the saver is a parameter: a store, the error of Save with the
-- store after it, and what Fetch finds (`none` is an error, which leaves the object alone).
pub mod Datastore
pub mod Backed
use etl_gardener.Base.{ℕ, ◌≡◌, ◌≢◌, String, Option, none, some}

-- The datastore key, without the namespace, which is the saver's.
pub record Key : Type 0 where
  pub kind : String
  pub name : String

-- `held` is what the store holds under a key, which only the laws speak of. A save that gives an error may
-- have taken place or not.
pub record Saver : Type 1 where
  pub Store : Type 0
  pub held : Store → Key → Option ℕ
  pub save : Key → ℕ → Store → Option String × Store
  pub fetch : Key → Store → Option ℕ
  pub save_holds :
      (k : Key) (d : ℕ) (s : Store) → (save k d s).0 ≡ none → held (save k d s).1 k ≡ some d
  -- A put of one key does not touch another.
  pub save_keeps : (k j : Key) (d : ℕ) (s : Store) → k ≢ j → held (save k d s).1 j ≡ held s j
  -- What is fetched is what the store holds.
  pub fetch_tells : (k : Key) (s : Store) (d : ℕ) → fetch k s ≡ some d → held s k ≡ some d

-- Save, and the object's owner goes on after an error.
abbrev pub try_save : (sv : Saver) → Key → ℕ → sv.Store → sv.Store
try_save sv k d s = (sv.save k d s).1

-- Fetch into an object whose date is `d`.
abbrev pub try_fetch : (sv : Saver) → Key → sv.Store → ℕ → ℕ
try_fetch sv k s d = elim (sv.fetch k s) [ none ↦ d | some e ↦ e ]
