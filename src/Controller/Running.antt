-- ===== src/Controller/Running.antt =====
-- Run of controller.go, and what it starts: the actions that it takes in turn, beside the informers,
-- which may report that they have synced once they run, and the channel that stops it all.
use mathlib.Core.List.{Memᴰ}
use minke.Base.{Bool, true, false, ◌&&◌, ◌||◌, List, [], ◌∷◌, ◌++◌, ◌≡◌}
use minke.Controller.{Processors, Kind, ing, svc, sec, eps, of_kind, on_kind}

-- `go p.run(stopCh)`, `go p.runWorker()`, WaitForCacheSync, setDefaults, and `<-stopCh`.
pub data Action : Type 0 where
  runs works : Kind → Action
  waits : List Kind → Action
  preloads until_stopped : Action

abbrev pub run : List Action
run =
    runs sec
    ∷ waits (sec ∷ [])
    ∷ works sec
    ∷ preloads
    ∷ runs svc
    ∷ runs eps
    ∷ runs ing
    ∷ waits (ing ∷ svc ∷ sec ∷ eps ∷ [])
    ∷ works ing
    ∷ works svc
    ∷ works eps
    ∷ until_stopped
    ∷ []

-- How far Run has come, which informers have synced, and whether the channel is closed.
pub record Progress : Type 0 where
  pub done : List Action
  pub rest : List Action
  pub synced : Processors Bool
  pub stopped : Bool

abbrev pub at_start : Progress
at_start = record {
  done = [];
  rest = run;
  synced = record { ing = false; svc = false; sec = false; eps = false };
  stopped = false;
}

-- WaitForCacheSync returns if all have synced, or if the channel is closed; its result is ignored.
abbrev pub all_synced : List Kind → Processors Bool → Bool
all_synced [] synced = true
all_synced (k ∷ ks) synced = of_kind k synced && all_synced ks synced

abbrev pub can_act : Progress → Action → Bool
can_act p (runs k) = true
can_act p (works k) = true
can_act p (waits ks) = p.stopped || all_synced ks p.synced
can_act p preloads = true
can_act p until_stopped = p.stopped

pub data Moves (p : Progress) : Progress → Type 0 where
  acts :
      (a : Action) (rest : List Action)
      → p.rest ≡ a ∷ rest
      → can_act p a ≡ true
      → Moves p (record p { done = p.done ++ a ∷ []; rest = rest })
  syncs :
      (k : Kind)
      → Memᴰ (runs k) p.done
      → Moves p (record p { synced = on_kind k (λ b. true) p.synced })
  stops : Moves p (record p { stopped = true })

pub data Comes (p : Progress) : Progress → Type 0 where
  stays : Comes p p
  moves : {q r : Progress} → Comes p q → Moves q r → Comes p r
