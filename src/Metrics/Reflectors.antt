-- ===== src/Metrics/Reflectors.antt =====
-- metrics.go: the metrics of a reflector, which are chosen from the vectors by a name.
use minke.Base.{[], ◌∷◌}
use minke.GoText.{GoString}
use minke.Panic.{Run}
use minke.Metrics.{Package, Provider}

module _ {R : Type 0} {M : Type 0} (pkg : Package R M) (p : Provider) (name : GoString) where
  unfoldable pub new_lists_metric : Run M
  new_lists_metric = pkg.with_label_values p.lists_total (name ∷ [])

  unfoldable pub new_list_duration_metric : Run M
  new_list_duration_metric = pkg.with_label_values p.lists_duration (name ∷ [])

  unfoldable pub new_items_in_list_metric : Run M
  new_items_in_list_metric = pkg.with_label_values p.items_per_list (name ∷ [])

  unfoldable pub new_watches_metric : Run M
  new_watches_metric = pkg.with_label_values p.watches_total (name ∷ [])

  unfoldable pub new_short_watches_metric : Run M
  new_short_watches_metric = pkg.with_label_values p.short_watches_total (name ∷ [])

  unfoldable pub new_watch_duration_metric : Run M
  new_watch_duration_metric = pkg.with_label_values p.watch_duration (name ∷ [])

  unfoldable pub new_items_in_watch_metric : Run M
  new_items_in_watch_metric = pkg.with_label_values p.items_per_watch (name ∷ [])

  unfoldable pub new_list_watch_error_metric : Run M
  new_list_watch_error_metric = pkg.with_label_values p.list_watch_error (name ∷ [])
