-- ===== src/Main/Shutdown.antt =====
-- cmd/minke/main.go from the end of its listeners on: the shutdown, and the status that the program
-- exits with.
use minke.Base.{ℕ, Bool, true, ◌&&◌, List, [], ◌∷◌, Option, none, some, if◌then◌else◌}
use minke.Panic.{Run, ret, throw}
use minke.Controller.Fields.{Objects}
use minke.Main.{Listeners, is_done}
use minke.Main.Startup.{Started, fatal_config, panics, fatal_controller, serving}

-- What Err of a context may return.
pub data ContextError : Type 0 where
  canceled deadline_exceeded : ContextError

pub data Closing : Type 0 where
  shutdown_http shutdown_https : Closing
  -- The grace, in seconds.
  close_http3 : ℕ → Closing
  close_stop : Closing

-- The calls after `<-ctx.Done()`, in their order; the errors of the first three are dropped.
abbrev pub shutdown : List Closing
shutdown = shutdown_http ∷ shutdown_https ∷ close_http3 5 ∷ close_stop ∷ []

abbrev pub exit_status : Option ContextError → ℕ
exit_status none = 0
exit_status (some canceled) = 0
exit_status (some deadline_exceeded) = 1

-- `ctx_err` is the error of the group's context, for whether there was a signal and what the
-- listeners have come to; `returns` tells which of the last calls return, since a server may wait
-- for its connections without an end; `panicked`, whether another goroutine has panicked.
module _ (o : Objects) (ctx_err : Bool → Listeners → Option ContextError) (returns : Closing → Bool)
    (panicked : Bool) where
  abbrev pub all_return : List Closing → Bool
  all_return [] = true
  all_return (c ∷ cs) = returns c && all_return cs

  -- The status that the program exits with, or none while it runs. Fatalf of klog exits with 255 and
  -- that of log with 1, and a panic exits with 2. The goroutines are started with the listeners, at
  -- the latest.
  unfoldable pub main_status : Run (Started o) → Bool → Listeners → Option ℕ
  unfolding is_done
  main_status (throw p) signal l = some 2
  main_status (ret (fatal_config err)) signal l = some 255
  main_status (ret (panics err)) signal l = some 2
  main_status (ret (fatal_controller err)) signal l = some 1
  main_status (ret (serving s)) signal l =
      if panicked
      then some 2
      else if is_done signal l && all_return shutdown
      then some (exit_status (ctx_err signal l))
      else none
