-- ===== src/Processor/Ingresses.antt =====
-- The worker of the ingresses.
use mathlib.Core.Path.{subst}
use minke.Base.{Bool, false, Option, none, some, ◌≡◌, arith, ap}
use minke.GoText.{GoString, bytes}
use minke.Panic.{ret}
use minke.Kube.{nil}
use minke.Ingress.{Regexp, Ingress, IngressHostGroup}
use minke.Ingress.Sort.{SortLaws}
use minke.Ingress.Validity.{IsValid}
use minke.Secrets.{Platform}
use minke.IngressHandler
use minke.IngressHandler.{Settings, State}
use minke.IngressHandler.Effects.{add_item-IsValid, del_item-IsValid}
use minke.Processor.Keeps.{Keeps, Works-Keeps}
use minke.Processor.{
  Queue, Fetched, Updater, Processor, make_processor, process_fetched, process_item, Works,
}

module _ (compile : GoString → Option Regexp)
    (sort : (Ingress → Ingress → Bool) → IngressHostGroup → IngressHostGroup) (platform : Platform)
    (c : Settings) where
  abbrev pub ing_updater : Updater State
  ing_updater = record {
    add_item = IngressHandler.add_item compile sort platform c;
    del_item = λ st obj. ret (IngressHandler.del_item st obj);
  }

  pub ing_updater-Keeps : SortLaws sort → Keeps (λ st. IsValid st.ings) ing_updater
  ing_updater-Keeps laws = record {
    adds = λ st st' obj err v e. add_item-IsValid compile sort platform c st st' obj err laws v e;
    dels = λ st st' obj err v e.
        let left : (IngressHandler.del_item st obj).0 ≡ st' = ground arith in
        subst (λ (s : State). IsValid s.ings) left (del_item-IsValid st obj v);
  }

  module _ {Q : Type 0} (queue : Queue Q) (get_by_key : GoString → Fetched) where
    abbrev pub ing_proc : Processor Q State
    ing_proc = make_processor queue get_by_key ing_updater

    -- An ingress that is gone from the indexer is left in the ingress set.
    pub process_item_absent :
        (key : GoString) (st : State)
        → get_by_key key ≡ record { obj = nil; exists = false; err = none }
        → process_item ing_proc key st ≡ ret (st, some (bytes "interface was not an ingress <nil>"))
    unfolding process_item process_fetched IngressHandler.del_item
    process_item_absent key st e = ap (process_fetched ing_proc st) e

    -- With a sort that keeps the promise of package sort, however long the worker of the ingresses
    -- runs before it stops, whatever keys the queue gives and whatever the indexer holds at each of
    -- its calls, a valid ingress set is valid at the end.
    pub Works-IsValid :
        (q q' : Q) (st st' : State)
        → SortLaws sort
        → IsValid st.ings
        → Works ing_proc q st q' st'
        → IsValid st'.ings
    Works-IsValid q q' st st' laws v w =
        Works-Keeps ing_proc (λ st. IsValid st.ings) (ing_updater-Keeps laws) q q' st st' v w
