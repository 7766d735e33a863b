-- ===== src/Persistence/Backed.antt =====
-- persistence/persistence.go: DatastoreSaver is a Saver for the objects of the job service.
use etl_gardener.Base.{ℕ, ◌≡◌, ◌≢◌, refl, ◌∙◌, String, Option, none, some}
use etl_gardener.Persistence.{Key, Saver}
use etl_gardener.Persistence.Datastore.{
  DatastoreKey, Got, got, no_such_entity, get_failed, Client, StateObject, save_object, fetched,
  fetch_object,
}

-- An object of the job service: its kind and name, and its date.
abbrev pub object : Key → ℕ → StateObject ℕ
object k d = record { object_kind = k.kind; object_name = k.name; value = d }

-- What Fetch leaves in the object, if there is no error.
abbrev pub value_of : Option String × StateObject ℕ → Option ℕ
value_of (none, o) = some o.value
value_of (some err, o) = none

module _ (c : Client ℕ) (namespace : String) where
  abbrev pub key_of : Key → DatastoreKey
  key_of k = record { kind = k.kind; name = k.name; namespace = namespace }

  key_of-ne : (k j : Key) → k ≢ j → key_of k ≢ key_of j
  key_of-ne k j n e = n (λ i. record { kind = (e i).kind; name = (e i).name })

  value-fetched :
      (k : Key) (s : c.World) (d : ℕ) (g : Got ℕ)
      → c.get (key_of k) s ≡ g
      → value_of (fetched c namespace (object k 0) g) ≡ some d
      → c.entity s (key_of k) ≡ some d
  value-fetched k s d (got v) e h = c.get_tells (key_of k) v s e ∙ h
  value-fetched k s d no_such_entity e h = cc
  value-fetched k s d (get_failed err) e h = cc

  pub fetched_value :
      (k : Key) (s : c.World) (d : ℕ)
      → value_of (fetch_object c namespace (object k 0) s) ≡ some d
      → c.entity s (key_of k) ≡ some d
  unfolding fetch_object
  fetched_value k s d h = value-fetched k s d (c.get (key_of k) s) refl h

  pub saved_value :
      (k : Key) (d : ℕ) (s : c.World)
      → (save_object c namespace (object k d) s).0 ≡ none
      → c.entity (save_object c namespace (object k d) s).1 (key_of k) ≡ some d
  unfolding save_object
  saved_value k d s e = c.put_stores (key_of k) d s e

  pub kept_value :
      (k j : Key) (d : ℕ) (s : c.World)
      → k ≢ j
      → c.entity (save_object c namespace (object k d) s).1 (key_of j) ≡ c.entity s (key_of j)
  unfolding save_object
  kept_value k j d s n = c.put_keeps (key_of k) (key_of j) d s (key_of-ne k j n)

  -- The laws of a Saver hold for DatastoreSaver.
  abbrev pub datastore_saver : Saver
  datastore_saver = record {
    Store = c.World;
    held = λ s k. c.entity s (key_of k);
    save = λ k d s. save_object c namespace (object k d) s;
    fetch = λ k s. value_of (fetch_object c namespace (object k 0) s);
    save_holds = saved_value;
    save_keeps = kept_value;
    fetch_tells = fetched_value;
  }
