-- ===== src/Persistence/Datastore.antt =====
-- persistence/persistence.go: DatastoreSaver over the datastore's client. `V` is the type of what is
-- stored, and `entity` what the datastore holds, which only the laws speak of.
use etl_gardener.Base.{◌≡◌, ◌≢◌, ◌⊎◌, inl, inr, String, Option, none, some, List}

-- datastore.Key, of a name
pub record DatastoreKey : Type 0 where
  pub kind : String
  pub name : String
  pub namespace : String

-- What Get comes to.
pub data Got (V : Type 0) : Type 0 where
  got : V → Got V
  no_such_entity : Got V
  get_failed : String → Got V

-- The client, whose calls give an error, or none. A Put or a Delete that gives an error may have taken
-- place or not. `expired` is the error of the context after a call.
pub record Client (V : Type 0) : Type 1 where
  pub World : Type 0
  pub entity : World → DatastoreKey → Option V
  pub put : DatastoreKey → V → World → Option String × World
  pub delete : DatastoreKey → World → Option String × World
  pub get : DatastoreKey → World → Got V
  pub get_keys : String → String → World → String ⊎ List DatastoreKey
  pub get_multi : List DatastoreKey → World → String ⊎ List V
  pub expired : World → Option String
  pub put_stores :
      (k : DatastoreKey) (v : V) (w : World)
      → (put k v w).0 ≡ none
      → entity (put k v w).1 k ≡ some v
  pub put_keeps :
      (k j : DatastoreKey) (v : V) (w : World) → k ≢ j → entity (put k v w).1 j ≡ entity w j
  pub delete_removes :
      (k : DatastoreKey) (w : World) → (delete k w).0 ≡ none → entity (delete k w).1 k ≡ none
  pub delete_keeps : (k j : DatastoreKey) (w : World) → k ≢ j → entity (delete k w).1 j ≡ entity w j
  pub get_tells : (k : DatastoreKey) (v : V) (w : World) → get k w ≡ got v → entity w k ≡ some v
  pub get_misses : (k : DatastoreKey) (w : World) → get k w ≡ no_such_entity → entity w k ≡ none

-- StateObject, with what it holds.
pub record StateObject (V : Type 0) : Type 0 where
  pub object_kind : String
  pub object_name : String
  pub value : V

-- Base and NewBase
pub record Base : Type 0 where
  pub name : String

unfoldable pub new_base : String → Base
new_base name = record { name = name }

-- Base.GetName
unfoldable pub get_name : Base → String
get_name o = o.name

module _ {V : Type 0} (c : Client V) (namespace : String) where
  -- DatastoreSaver.key
  unfoldable pub object_key : StateObject V → DatastoreKey
  object_key o = record { kind = o.object_kind; name = o.object_name; namespace = namespace }

  -- DatastoreSaver.Save, Delete and Fetch: the error, if any, and what there is then.
  unfoldable pub save_object : StateObject V → c.World → Option String × c.World
  unfolding object_key
  save_object o w = c.put (object_key o) o.value w

  unfoldable pub delete_object : StateObject V → c.World → Option String × c.World
  unfolding object_key
  delete_object o w = c.delete (object_key o) w

  abbrev pub fetched : StateObject V → Got V → Option String × StateObject V
  fetched o (got v) = (none, record o { value = v })
  fetched o no_such_entity = (some "datastore: no such entity", o)
  fetched o (get_failed err) = (some err, o)

  unfoldable pub fetch_object : StateObject V → c.World → Option String × StateObject V
  unfolding object_key
  fetch_object o w = fetched o (c.get (object_key o) w)

  -- DatastoreSaver.FetchAll
  abbrev pub fetch_keys :
      String ⊎ List DatastoreKey → c.World → String ⊎ (List DatastoreKey × List V)
  fetch_keys (inl err) w = inl err
  fetch_keys (inr keys) w = elim (c.get_multi keys w) [
    | inl err ↦ inl err
    | inr objs ↦ inr (keys, objs)
  ]

  unfoldable pub fetch_all : StateObject V → c.World → String ⊎ (List DatastoreKey × List V)
  fetch_all o w = fetch_keys (c.get_keys o.object_kind namespace w) w
