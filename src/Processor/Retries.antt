-- ===== src/Processor/Retries.antt =====
-- What becomes of a key that the worker has taken.
use minke.Base.{true, false, Option, none, some, ◌≡◌, refl}
use minke.Base.Int.{pos, ltb_ℤ}
use minke.GoText.{GoString}
use minke.Panic.{ret}
use minke.Kube.{GoError}
use minke.Processor.{
  Queue, Fetched, Updater, make_processor, process_item, settle, process_next_item,
}

module _ {Q : Type 0} {S : Type 0} (queue : Queue Q) (get_by_key : GoString → Fetched)
    (updater : Updater S) where
  -- A processor as it is made forgets each key that it has handled, whether the handler succeeded or
  -- failed, and puts none back: a failed update waits for the next event of its object. This asks
  -- of the queue that a count of requeues is never negative.
  pub process_next_item_forgets :
      (q : Q) (key : GoString) (st st' : S) (err : Option GoError)
      → ((q : Q) → ltb_ℤ (queue.num_requeues q key) (pos 0) ≡ false)
      → (queue.get q).0 ≡ some key
      → process_item (make_processor queue get_by_key updater) key st ≡ ret (st', err)
      → process_next_item (make_processor queue get_by_key updater) q st
        ≡ ret (true, (queue.done key (queue.forget key (queue.get q).1), st'))
  unfolding process_next_item settle
  process_next_item_forgets q key st st' none counts got handled = rw (got, handled) refl
  process_next_item_forgets q key st st' (some err) counts got handled =
      rw (got, handled, counts (queue.get q).1) refl
