-- ===== src/Task/Stored.antt =====
-- state/state.go: what DatastoreSaver keeps of a task, and what a later instance of the task meets.
use etl_gardener.Base.{
  ℕ, ◌≡◌, ◌≢◌, ◌⊎◌, inl, inr, refl, sym, ap, ◌∙◌, arith, Bool, true, String, Option, none, some,
  List, str_eq, eq_iff, Bool-cases, subst,
}
use etl_gardener.Persistence.Datastore.{DatastoreKey, Client, Got, got, no_such_entity, get_failed}
use etl_gardener.Task as States
use etl_gardener.Task.{
  Task, Outside, Fetched, found, fetch_failed, get_task_status, set_error, finish_task,
  delete_saved,
}
use etl_gardener.Task.Saver.{
  StoredTask, loaded, stored, zero_task, task_key, checked, save_task, delete_task, as_fetched,
  fetch_task, task_status, saved_outside,
}
use etl_gardener.Dispatch.Waits.{may_restart}

-- What FetchTask may give where the datastore holds this under the name of the task.
abbrev pub Tells : Option StoredTask → Fetched → Type 0
Tells o (found t) = (s : StoredTask) × (o ≡ some s) × (t ≡ loaded s)
Tells o (States.no_such_entity t) = (o ≡ none) × (t ≡ zero_task)
Tells o (fetch_failed t err) = Unit

module _ (c : Client StoredTask) (kept_time : ℕ → ℕ) (namespace : String)
    (query : String → String → c.World → String ⊎ List StoredTask) where
  abbrev held : c.World → String → Option StoredTask
  held w name = c.entity w (task_key c kept_time namespace query name)

  fetch_task-Tells :
      (name : String) (w : c.World)
      → Tells (held w name) (fetch_task c kept_time namespace query name w)
  unfolding fetch_task
  fetch_task-Tells name w = by_result (c.get (task_key c kept_time namespace query name) w) refl
    where
      by_result :
          (g : Got StoredTask)
          → c.get (task_key c kept_time namespace query name) w ≡ g
          → Tells (held w name) (as_fetched c kept_time namespace query g)
      by_result (got s) e = (s, c.get_tells (task_key c kept_time namespace query name) s w e, refl)
      by_result no_such_entity e =
          (c.get_misses (task_key c kept_time namespace query name) w e, refl)
      by_result (get_failed err) e = tt

  checked_ok :
      (r : Option String × c.World) (w' : c.World)
      → checked c kept_time namespace query r ≡ (w', none)
      → (r.0 ≡ none) × (r.1 ≡ w')
  checked_ok (some err, w) w' e = cc
  checked_ok (none, w) w' e = (refl, cc e)

  other_key :
      (name other : String)
      → name ≢ other
      → task_key c kept_time namespace query name ≢ task_key c kept_time namespace query other
  other_key name other n e = n (ap (λ (k : DatastoreKey). k.name) e)

  save_held :
      (t : Task) (w w' : c.World)
      → save_task c kept_time namespace query t w ≡ (w', none)
      → held w' t.name ≡ some (stored c kept_time namespace query t)
  unfolding save_task
  save_held t w w' e =
      let k = task_key c kept_time namespace query t.name in
      let (a, b) = checked_ok (c.put k (stored c kept_time namespace query t) w) w' e in
      ap (λ x. c.entity x k) (sym b) ∙ c.put_stores k (stored c kept_time namespace query t) w a

  checked_world :
      (r : Option String × c.World)
      → (checked c kept_time namespace query r).1 ≡ none
      → (r.0 ≡ none) × ((checked c kept_time namespace query r).0 ≡ r.1)
  checked_world (some err, w) e = cc
  checked_world (none, w) e = (refl, refl)

  deleted_held :
      (t : Task) (w : c.World)
      → (delete_task c kept_time namespace query t w).1 ≡ none
      → held (delete_task c kept_time namespace query t w).0 t.name ≡ none
  unfolding delete_task
  deleted_held t w e =
      let k = task_key c kept_time namespace query t.name in
      let (a, b) = checked_world (c.delete k w) e in
      ap (λ x. c.entity x k) b ∙ c.delete_removes k w a

  -- When SaveTask gives no error, FetchTask of the name gives the task as it was saved, but without its
  -- saver and with its times as they are kept, or an error, and the tasks of other names are as before.
  pub save_task-fetch_task :
      (t : Task) (w w' : c.World)
      → save_task c kept_time namespace query t w ≡ (w', none)
      → Tells
          (some (stored c kept_time namespace query t))
          (fetch_task c kept_time namespace query t.name w')
        × ((other : String) → t.name ≢ other → held w' other ≡ held w other)
  unfolding save_task
  save_task-fetch_task t w w' e =
      let k = task_key c kept_time namespace query t.name in
      let (a, b) = checked_ok (c.put k (stored c kept_time namespace query t) w) w' e in
      (
        subst (λ o. Tells o (fetch_task c kept_time namespace query t.name w')) (save_held t w w' e)
            (fetch_task-Tells t.name w'),
        λ other n.
            ap (λ x. c.entity x (task_key c kept_time namespace query other)) (sym b)
            ∙ c.put_keeps k (task_key c kept_time namespace query other)
                (stored c kept_time namespace query t) w (other_key t.name other n),
      )

  -- A status that does not keep AddTask waiting.
  abbrev pub Restarts : ℕ → Task × Option String → Type 0
  Restarts now r = r.1 ≡ none → may_restart now r.0 ≡ true

  zero_may_restart : (now : ℕ) → may_restart now zero_task ≡ true
  unfolding may_restart
  zero_may_restart now = refl

  failed_may_restart : (now : ℕ) (t : Task) → t.err_msg ≢ "" → may_restart now t ≡ true
  unfolding may_restart
  failed_may_restart now t n = let e = eq_iff t.err_msg "" in ground (arith, e, n)

  status_Restarts :
      (now : ℕ) (o : Option StoredTask) (f : Fetched)
      → Tells o f
      → ((s : StoredTask) → o ≡ some s → s.err_msg ≢ "")
      → Restarts now (get_task_status zero_task (some f))
  unfolding get_task_status
  status_Restarts now o (found t) (s, p, q) k =
      λ _. failed_may_restart now t (λ z. k s p (sym (ap (λ (x : Task). x.err_msg) q) ∙ z))
  status_Restarts now o (States.no_such_entity t) h k = λ _. rw h.1 (zero_may_restart now)
  status_Restarts now o (fetch_failed t err) h k = λ e. absurd (cc e)

  module _ (clock : c.World → ℕ) (notified : c.World → Bool)
      (next : c.World → Task → Option (c.World × Task × Option String)) where
    abbrev pub out : Outside
    out = saved_outside c kept_time namespace query clock notified next

    status_held :
        (now : ℕ) (t : Task) (w : c.World) (o : Option StoredTask)
        → held w t.name ≡ o
        → ((u : StoredTask) → o ≡ some u → u.err_msg ≢ "")
        → Restarts now (task_status c kept_time namespace query t w)
    unfolding task_status
    status_held now t w o e k =
        status_Restarts now o (fetch_task c kept_time namespace query t.name w)
          (subst (λ x. Tells x (fetch_task c kept_time namespace query t.name w)) e
            (fetch_task-Tells t.name w))
          k

    finish_done :
        (t : Task) (w : c.World)
        → t.has_saver ≡ true
        → t.err_msg ≡ ""
        → finish_task out w t ≡ (delete_task c kept_time namespace query t w).0
    unfolding finish_task
    finish_done t w saver e = rw ((eq_iff t.err_msg "").1 e) (rw saver refl)

    finish_failed : (t : Task) (w : c.World) → t.err_msg ≢ "" → finish_task out w t ≡ w
    unfolding finish_task
    finish_failed t w n = elim (Bool-cases (str_eq t.err_msg "")) [
      | inl b ↦ absurd (n ((eq_iff t.err_msg "").0 b))
      | inr b ↦ rw b refl
    ]

    abbrev marked : Task → c.World → String → String → Task
    marked t w err info = record t { err_msg = err; err_info = info; update_time = clock w }

    set_error_saved :
        (t : Task) (w : c.World) (err info : String)
        → t.has_saver ≡ true
        → set_error out w t err info ≡ (
          (save_task c kept_time namespace query (marked t w err info) w).0,
          marked t w err info,
          (save_task c kept_time namespace query (marked t w err info) w).1,
        )
    unfolding set_error
    set_error_saved t w err info saver = simp saver

    after_error :
        (now : ℕ) (t : Task) (w : c.World) (err info : String) (w' : c.World) (t' : Task)
        → err ≢ ""
        → t' ≡ marked t w err info
        → save_task c kept_time namespace query (marked t w err info) w ≡ (w', none)
        → Restarts now (task_status c kept_time namespace query t (finish_task out w' t'))
    after_error now t w err info w' t' n e s =
        let u = marked t w err info in
        let f : finish_task out w' t' ≡ w' = finish_failed t' w' (rw e n) in
        rw f (
          status_held now t w' (some (stored c kept_time namespace query u)) (save_held u w w' s)
            (λ v q.
              let same : stored c kept_time namespace query u ≡ v = cc q in
              λ z. n (ap (λ (x : StoredTask). x.err_msg) same ∙ z)))

    -- How Process ends for a task, and the world after it: with no error on the task, and none of
    -- DeleteTask; or after a SetError that gave no error.
    pub data Ended (t : Task) (w : c.World) (w'' : c.World) : Type 0 where
      done :
          t.err_msg ≡ ""
          → (delete_task c kept_time namespace query t w).1 ≡ none
          → w'' ≡ finish_task out w t
          → Ended t w w''
      failed :
          (err info : String) (w' : c.World) (t' : Task)
          → err ≢ ""
          → set_error out w t err info ≡ (w', t', none)
          → w'' ≡ finish_task out w' t'
          → Ended t w w''

    -- The end of Process, for a task with a saver, where there is no error on it and none of DeleteTask, or
    -- after a SetError that gave no error: the status that a later instance of the task gets then, if
    -- there is no error of FetchTask, does not keep AddTask waiting.
    pub finish_task-Restarts :
        (now : ℕ) (t : Task) (w w'' : c.World)
        → t.has_saver ≡ true
        → Ended t w w''
        → (task_status c kept_time namespace query t w'').1 ≡ none
        → may_restart now (task_status c kept_time namespace query t w'').0 ≡ true
    finish_task-Restarts now t w w'' saver (done e d q) = rw (q ∙ finish_done t w saver e) (
        status_held now t (delete_task c kept_time namespace query t w).0 none (deleted_held t w d)
          (λ u r. cc))
    finish_task-Restarts now t w w'' saver (failed err info w' t' n e q) =
        let s = sym (set_error_saved t w err info saver) ∙ e in
        rw q (after_error now t w err info w' t' n (cc s) (cc s))
