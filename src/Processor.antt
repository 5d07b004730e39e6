-- ===== src/Processor.antt =====
-- processor.go: the worker that takes keys from a queue and hands objects to a handler.
--
-- The queue is of k8s.io/client-go/util/workqueue and the indexer of k8s.io/client-go/tools/cache;
-- both are taken as given, by the calls that the worker makes of them.
pub mod Keeps
pub mod Retries
pub mod Ingresses
pub mod Tests
use minke.Base.{
  Bool, true, false, not, Option, none, some, if◌then◌else◌, ◌≡◌, ◌++◌, ◌⊎◌, inl, inr, get_elem?,
}
use minke.Base.Int.{ℤ, pos, ltb_ℤ}
use minke.GoText.{GoString, bytes, split, to_lower}
use minke.Panic.{Run, ret, throw, runtime, ◌>>=◌}
use minke.Kube.{Object, nil, GoError}

-- workqueue.RateLimitingInterface; a key of none is the answer of a queue that is shut down.
pub record Queue (Q : Type 0) : Type 0 where
  pub get : Q → Option GoString × Q
  pub done : GoString → Q → Q
  pub forget : GoString → Q → Q
  pub num_requeues : Q → GoString → ℤ
  pub add_rate_limited : GoString → Q → Q
  pub add : GoString → Q → Q
  pub shut_down : Q → Q

-- What the informer reports. The object that was deleted may be the last one known of its key.
pub data Event : Type 0 where
  added : Object → Event
  updated : Object → Object → Event
  deleted : Object → Event

-- The handlers of the events; `meta_key` and `deletion_key` are the two functions of package cache
-- that give the key of an object.
module _ {Q : Type 0} (queue : Queue Q) (meta_key deletion_key : Object → GoError ⊎ GoString) where
  unfoldable pub add_key : GoError ⊎ GoString → Q → Q
  add_key (inl err) q = q
  add_key (inr key) q = queue.add key q

  unfoldable pub on_event : Event → Q → Q
  unfolding add_key
  on_event (added obj) q = add_key (meta_key obj) q
  on_event (updated old new) q = add_key (meta_key new) q
  on_event (deleted obj) q = add_key (deletion_key obj) q

-- What `run` leaves of the queue when it ends.
abbrev pub run_ends : {Q : Type 0} → Queue Q → Q → Q
run_ends queue q = queue.shut_down q

-- The name that makeProcessor gives to the queue, from the text of the object's type.
unfoldable pub queue_name : GoString → Run GoString
queue_name type_text = elim (get_elem? (split type_text b'.') 1) [
  | none ↦ throw runtime
  | some name ↦ ret (to_lower name)
]

-- What GetByKey returns.
pub record Fetched : Type 0 where
  pub obj : Object
  pub exists : Bool
  pub err : Option GoError

-- The interface `updater`, on the state that it writes to.
pub record Updater (S : Type 0) : Type 0 where
  pub add_item : S → Object → Run (S × Option GoError)
  pub del_item : S → Object → Run (S × Option GoError)

pub record Processor (Q S : Type 0) : Type 0 where
  pub queue : Queue Q
  pub get_by_key : GoString → Fetched
  pub retries : ℤ
  pub updater : Updater S

-- The processor that makeProcessor returns sets no retries.
abbrev pub make_processor :
    {Q S : Type 0} → Queue Q → (GoString → Fetched) → Updater S → Processor Q S
make_processor queue get_by_key updater = record {
  queue = queue;
  get_by_key = get_by_key;
  retries = pos 0;
  updater = updater;
}

module _ {Q : Type 0} {S : Type 0} (p : Processor Q S) where
  -- The part of processItem after the call of the indexer.
  unfoldable pub process_fetched : S → Fetched → Run (S × Option GoError)
  process_fetched st fetched = elim fetched.err [
    | some err ↦ ret (st, some (bytes "failed calling the API, " ++ err))
    | none ↦
        if not fetched.exists
        then p.updater.del_item st fetched.obj
        else p.updater.add_item st fetched.obj
  ]

  unfoldable pub process_item : GoString → S → Run (S × Option GoError)
  unfolding process_fetched
  process_item key st = process_fetched st (p.get_by_key key)

  -- The three cases of the error.
  unfoldable pub settle : GoString → Option GoError → Q → Q
  settle key none q = p.queue.forget key q
  settle key (some err) q =
      if ltb_ℤ (p.queue.num_requeues q key) p.retries
      then p.queue.add_rate_limited key q
      else p.queue.forget key q

  -- What one call leaves: whether to go on, the queue and the handler's state. A panic of the handler
  -- goes on through the deferred call of Done, and ends the worker.
  unfoldable pub process_next_item : Q → S → Run (Bool × (Q × S))
  unfolding process_item settle
  process_next_item q st =
      let (next, q') = p.queue.get q in
      elim next [
        | none ↦ ret (false, (q', st))
        | some key ↦
            process_item key st
            >>= (λ out. ret (true, (p.queue.done key (settle key out.1 q'), out.0)))
      ]

-- The processor when the indexer holds this.
abbrev pub holding : {Q S : Type 0} → (GoString → Fetched) → Processor Q S → Processor Q S
holding get_by_key p = record p { get_by_key = get_by_key }

-- The loop of runWorker, by the states it passes through: it stops at the first call that says so.
-- The informer runs beside it, so the indexer may hold anything at each call.
pub data Works {Q : Type 0} {S : Type 0} (p : Processor Q S) : Q → S → Q → S → Type 0 where
  stops :
      {q q' : Q} {st st' : S} (get_by_key : GoString → Fetched)
      → process_next_item (holding get_by_key p) q st ≡ ret (false, (q', st'))
      → Works p q st q' st'
  goes_on :
      {q q' q'' : Q} {st st' st'' : S} (get_by_key : GoString → Fetched)
      → process_next_item (holding get_by_key p) q st ≡ ret (true, (q', st'))
      → Works p q' st' q'' st''
      → Works p q st q'' st''
