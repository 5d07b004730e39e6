-- ===== src/Processor/Keeps.antt =====
-- What an updater keeps, a worker keeps.
use mathlib.Core.Path.{subst}
use minke.Base.{
  Bool, true, false, not, Option, some, ◌++◌, ◌≡◌, arith, Option-cases, Bool-cases, inl, inr,
}
use minke.GoText.{bytes}
use minke.Panic.{ret, >>=-eq-ret}
use minke.Kube.{Object, GoError}
use minke.Processor.{
  Fetched, Updater, Processor, process_fetched, process_item, process_next_item, Works, holding,
  stops, goes_on,
}

-- A property of the state that each call of the updater that returns keeps.
pub record Keeps {S : Type 0} (P : S → Type 0) (u : Updater S) : Type 0 where
  pub adds :
      (st st' : S) (obj : Object) (err : Option GoError)
      → P st
      → u.add_item st obj ≡ ret (st', err)
      → P st'
  pub dels :
      (st st' : S) (obj : Object) (err : Option GoError)
      → P st
      → u.del_item st obj ≡ ret (st', err)
      → P st'

module _ {Q : Type 0} {S : Type 0} (p : Processor Q S) (P : S → Type 0)
    (k : Keeps P p.updater) where
  process_fetched-Keeps :
      (fetched : Fetched) (st st' : S) (err : Option GoError)
      → P st
      → process_fetched p st fetched ≡ ret (st', err)
      → P st'
  unfolding process_fetched
  process_fetched-Keeps fetched st st' err v e = elim (Option-cases fetched.err) [
    | inr (failure, q) ↦
        let same : ret (st, some (bytes "failed calling the API, " ++ failure)) ≡ ret (st', err) =
          rw q at e in
        let kept : st ≡ st' = ground arith in subst P kept v
    | inl fine ↦ elim (Bool-cases (not fetched.exists)) [
      | inl gone ↦ k.dels st st' fetched.obj err v (rw (fine, gone) at e)
      | inr there ↦ k.adds st st' fetched.obj err v (rw (fine, there) at e)
    ]
  ]

  -- One call of the worker keeps the property.
  pub process_next_item-Keeps :
      (go : Bool) (q q' : Q) (st st' : S)
      → P st
      → process_next_item p q st ≡ ret (go, (q', st'))
      → P st'
  unfolding process_next_item process_item
  process_next_item-Keeps go q q' st st' v e = elim (Option-cases (p.queue.get q).0) [
    | inl shut ↦
        let ended : ret (false, ((p.queue.get q).1, st)) ≡ ret (go, (q', st')) =
          rw (shut, process_next_item) at e in
        let kept : st ≡ st' = ground arith in subst P kept v
    | inr (key, got) ↦
        let ((s, err), handled, rest) =
          >>=-eq-ret (process_fetched p st (p.get_by_key key)) _
            (rw (got, process_next_item) at e) in
        let left : s ≡ st' = ground arith in
        subst P left (process_fetched-Keeps (p.get_by_key key) st s err v handled)
  ]

-- And so do all its calls until it stops.
pub Works-Keeps :
    {Q S : Type 0} (p : Processor Q S) (P : S → Type 0)
    → Keeps P p.updater
    → (q q' : Q) (st st' : S) → P st
    → Works p q st q' st'
    → P st'
Works-Keeps p P k q q' st st' v (stops now e) =
    process_next_item-Keeps (holding now p) P k false q q' st st' v e
Works-Keeps p P k q q' st st' v (goes_on {q' = r} {st' = s} now e w) =
    Works-Keeps p P k r q' s st' (process_next_item-Keeps (holding now p) P k true q r st s v e) w
