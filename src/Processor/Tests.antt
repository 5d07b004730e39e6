-- ===== src/Processor/Tests.antt =====
-- Tests of the worker, with a list of keys for the queue.
use mathlib.Core.Path.{◌≡◌}
use minke.Base.{[], ◌∷◌, true, false, none, some, refl, ap, Option, List_ℕ-discrete}
use minke.Base.Int.{ltb_ℤ}
use minke.GoText.{GoString, bytes}
use minke.Panic.{ret, ◌>>=◌}
use minke.Kube.{nil, ingress, GoError}
use minke.Ingress.Sort.{insertion_sort-SortLaws}
use minke.Ingress.Validity.{IsValid, empty-IsValid}
use minke.Processor.{
  Fetched, process_item, process_fetched, settle, process_next_item, holding, Works, stops, goes_on,
}
use minke.Processor.Retries.{process_next_item_forgets}
use minke.IngressHandler
use minke.IngressHandler.{State, class_of}
use minke.IngressHandler.Class.{our_class_iff}
use minke.IngressHandler.Effects.{Replaces, add_item-Replaces}
use minke.Processor.Ingresses.{ing_updater, ing_proc, process_item_absent, Works-IsValid}
use minke.Samples.{platform, settings, empty_state, compile, sort, keys, web_ingress}

-- An indexer that holds nothing.
abbrev absent : GoString → Fetched
absent key = record { obj = nil; exists = false; err = none }

abbrev web_name : GoString
web_name = bytes "default/web"

process_next_item_forgets_example :
    process_next_item
      (ing_proc compile sort platform settings keys absent)
      (web_name ∷ [])
      empty_state
    ≡ ret (true, ([], empty_state))
process_next_item_forgets_example =
    process_next_item_forgets keys absent (ing_updater compile sort platform settings)
      (web_name ∷ []) web_name empty_state empty_state
      (some (bytes "interface was not an ingress <nil>")) (λ q. unfold ltb_ℤ in refl) refl
      (process_item_absent compile sort platform settings keys absent web_name empty_state refl)

-- An indexer that holds the ingress.
abbrev present : GoString → Fetched
present key = record { obj = ingress web_ingress; exists = true; err = none }

-- The worker takes in the ingress; then it is gone from the indexer, which changes nothing.
taken_in : Replaces compile sort platform settings empty_state web_ingress
taken_in =
    add_item-Replaces compile sort platform settings empty_state web_ingress insertion_sort-SortLaws
      ((our_class_iff settings web_ingress).1 (unfold class_of in refl)) ((λ e. cc), tt)
      empty-IsValid

taking :
    process_next_item
      (holding present (ing_proc compile sort platform settings keys absent))
      (web_name ∷ web_name ∷ [])
      empty_state
    ≡ ret (true, (web_name ∷ [], taken_in.next))
unfolding process_next_item process_item process_fetched settle IngressHandler.add_item
    List_ℕ-discrete
taking =
    ap (λ m. m >>= (λ (out : State × Option GoError). ret (true, (web_name ∷ [], out.0))))
      taken_in.returns

works :
    Works
      (ing_proc compile sort platform settings keys absent)
      (web_name ∷ web_name ∷ [])
      empty_state
      []
      taken_in.next
unfolding process_next_item IngressHandler.del_item ltb_ℤ
works =
    goes_on {q' = web_name ∷ []} {st' = taken_in.next} present taking
      (goes_on {q' = []} {st' = taken_in.next} absent refl (stops absent refl))

Works-IsValid_example : IsValid taken_in.next.ings
Works-IsValid_example =
    Works-IsValid compile sort platform settings keys absent (web_name ∷ web_name ∷ []) []
      empty_state taken_in.next insertion_sort-SortLaws empty-IsValid works
