-- ===== src/Controller/Order.antt =====
-- The order in which Run of controller.go starts its parts.
use mathlib.Core.Path.{subst}
use mathlib.Core.List.{Memᴰ, append_assoc}
use mathlib.Core.List.Memᴰ
use minke.Base.{
  Bool, true, ◌||◌, List, [], ◌∷◌, ◌++◌, inl, inr, ◌≡◌, ◌≢◌, refl, arith, ap, sym, ◌∙◌, All,
}
use minke.Controller.{Processors, Kind, ing, svc, sec, eps, of_kind, on_kind, has_synced}
use minke.Controller.Running.{
  Action, runs, works, waits, preloads, until_stopped, run, Progress, at_start, all_synced, can_act,
  Moves, acts, syncs, stops, Comes, stays, moves,
}

-- What holds on the way: nothing is left out or swapped, and each wait that is over is over rightly.
record IsOrderly (p : Progress) : Type 0 where
  in_order : p.done ++ p.rest ≡ run
  waited : (ks : List Kind) → Memᴰ (waits ks) p.done → (p.stopped || all_synced ks p.synced) ≡ true

of_kind-on_kind :
    (j k : Kind) (synced : Processors Bool)
    → of_kind j synced ≡ true
    → of_kind j (on_kind k (λ b. true) synced) ≡ true
of_kind-on_kind ing ing synced e = refl
of_kind-on_kind svc svc synced e = refl
of_kind-on_kind sec sec synced e = refl
of_kind-on_kind eps eps synced e = refl
of_kind-on_kind ing svc synced e = e
of_kind-on_kind ing sec synced e = e
of_kind-on_kind ing eps synced e = e
of_kind-on_kind svc ing synced e = e
of_kind-on_kind svc sec synced e = e
of_kind-on_kind svc eps synced e = e
of_kind-on_kind sec ing synced e = e
of_kind-on_kind sec svc synced e = e
of_kind-on_kind sec eps synced e = e
of_kind-on_kind eps ing synced e = e
of_kind-on_kind eps svc synced e = e
of_kind-on_kind eps sec synced e = e

-- Syncing undoes no sync.
all_synced-on_kind :
    (k : Kind) (ks : List Kind) (synced : Processors Bool)
    → all_synced ks synced ≡ true
    → all_synced ks (on_kind k (λ b. true) synced) ≡ true
all_synced-on_kind k [] synced e = refl
all_synced-on_kind k (j ∷ ks) synced e =
    ground (arith, all_synced-on_kind k ks synced, of_kind-on_kind j k synced)

Moves-IsOrderly : {p q : Progress} → Moves p q → IsOrderly p → IsOrderly q
Moves-IsOrderly {p} (acts a rest e can) o = record {
  in_order = append_assoc p.done (a ∷ []) rest ∙ (ap (λ todo. p.done ++ todo) (sym e) ∙ o.in_order);
  waited = λ ks m. elim (Memᴰ.append_cases p.done m) [
    | inl m' ↦ o.waited ks m'
    | inr (Memᴰ.head same) ↦ subst (λ x. can_act p x ≡ true) (sym same) can
    | inr (Memᴰ.tail m') ↦ elim m' [ ]
  ];
}
Moves-IsOrderly {p} (syncs k m) o = record {
  in_order = o.in_order;
  waited = λ ks m. ground (arith, o.waited ks m, all_synced-on_kind k ks p.synced);
}
Moves-IsOrderly stops o = record { in_order = o.in_order; waited = λ ks m. refl }

Comes-IsOrderly : {p : Progress} → Comes at_start p → IsOrderly p
Comes-IsOrderly stays = record { in_order = refl; waited = λ ks m. elim m [ ] }
Comes-IsOrderly (moves c m) = Moves-IsOrderly m (Comes-IsOrderly c)

-- What stands before an action has been done, if the action has.
before_done :
    (done rest before after : List Action) (a : Action)
    → done ++ rest ≡ before ++ a ∷ after
    → Memᴰ a done
    → All (λ b. a ≢ b) before
    → (more : List Action) × (done ≡ before ++ more)
before_done done rest [] after a e m h = (done, refl)
before_done [] rest (b ∷ before) after a e m h = elim m [ ]
before_done (d ∷ done) rest (b ∷ before) after a e m h =
    let first : d ≡ b = ground arith in
    elim m [
      | Memᴰ.head same ↦ absurd (h.0 (same ∙ first))
      | Memᴰ.tail m' ↦
          let (more, q) = before_done done rest before after a (ground arith) m' h.1 in
          (more, ground arith)
    ]

-- What Run promises of what it has started.
pub record IsGuarded (p : Progress) : Type 0 where
  pub loads : Memᴰ preloads p.done → (p.stopped || p.synced.sec) ≡ true
  pub reads : Memᴰ (works sec) p.done → (p.stopped || p.synced.sec) ≡ true
  pub serves :
      (k : Kind)
      → k ≢ sec
      → Memᴰ (works k) p.done
      → Memᴰ preloads p.done × ((p.stopped || has_synced p.synced) ≡ true)

module _ (p : Progress) (o : IsOrderly p) where
  passed :
      (before after : List Action) (a b : Action)
      → run ≡ before ++ a ∷ after
      → All (λ x. a ≢ x) before
      → Memᴰ b before
      → Memᴰ a p.done
      → Memᴰ b p.done
  passed before after a b e h here m =
      let (more, q) = before_done p.done p.rest before after a (o.in_order ∙ e) m h in
      subst (Memᴰ b) (sym q) (Memᴰ.append_left more here)

  -- The actions before the workers of the other kinds.
  abbrev early : List Action
  early =
      runs sec
      ∷ waits (sec ∷ [])
      ∷ works sec
      ∷ preloads
      ∷ runs svc
      ∷ runs eps
      ∷ runs ing
      ∷ waits (ing ∷ svc ∷ sec ∷ eps ∷ [])
      ∷ []

  early-serves :
      (a : Action)
      → ((b : Action) → Memᴰ b early → Memᴰ a p.done → Memᴰ b p.done)
      → Memᴰ a p.done
      → Memᴰ preloads p.done × ((p.stopped || has_synced p.synced) ≡ true)
  early-serves a h m =
      let loaded = h preloads (Memᴰ.tail (Memᴰ.tail (Memᴰ.tail (Memᴰ.head refl)))) m in
      let waited =
        h (waits (ing ∷ svc ∷ sec ∷ eps ∷ []))
          (Memᴰ.append_right
            (runs sec
              ∷ waits (sec ∷ [])
              ∷ works sec
              ∷ preloads
              ∷ runs svc
              ∷ runs eps
              ∷ runs ing
              ∷ [])
            (Memᴰ.head refl))
          m in
      let all = o.waited (ing ∷ svc ∷ sec ∷ eps ∷ []) waited in (loaded, ground arith)

  sec_synced : Memᴰ (waits (sec ∷ [])) p.done → (p.stopped || p.synced.sec) ≡ true
  sec_synced m = let all = o.waited (sec ∷ []) m in ground arith

  serves_of :
      (k : Kind)
      → k ≢ sec
      → Memᴰ (works k) p.done
      → Memᴰ preloads p.done × ((p.stopped || has_synced p.synced) ≡ true)
  serves_of ing other m =
      early-serves (works ing)
        (λ b here.
          passed early _ (works ing) b refl
            (
              λ e. cc,
              (λ e. cc, (λ e. cc, (λ e. cc, (λ e. cc, (λ e. cc, (λ e. cc, (λ e. cc, tt))))))),
            )
            here)
        m
  serves_of svc other m =
      early-serves (works svc)
        (λ b here.
          passed (early ++ works ing ∷ []) _ (works svc) b refl
            (
              λ e. cc,
              (
                λ e. cc,
                (λ e. cc, (λ e. cc, (λ e. cc, (λ e. cc, (λ e. cc, (λ e. cc, (λ e. cc, tt))))))),
              ),
            )
            (Memᴰ.append_left (works ing ∷ []) here))
        m
  serves_of sec other m = absurd (other refl)
  serves_of eps other m =
      early-serves (works eps)
        (λ b here.
          passed (early ++ works ing ∷ works svc ∷ []) _ (works eps) b refl
            (
              λ e. cc,
              (
                λ e. cc,
                (
                  λ e. cc,
                  (λ e. cc, (λ e. cc, (λ e. cc, (λ e. cc, (λ e. cc, (λ e. cc, (λ e. cc, tt))))))),
                ),
              ),
            )
            (Memᴰ.append_left (works ing ∷ works svc ∷ []) here))
        m

  IsGuarded-of_IsOrderly : IsGuarded p
  IsGuarded-of_IsOrderly = record {
    loads = λ m. sec_synced (
        passed (runs sec ∷ waits (sec ∷ []) ∷ works sec ∷ []) _ preloads (waits (sec ∷ [])) refl
          (λ e. cc, (λ e. cc, (λ e. cc, tt))) (Memᴰ.tail (Memᴰ.head refl)) m);
    reads = λ m. sec_synced (
        passed (runs sec ∷ waits (sec ∷ []) ∷ []) _ (works sec) (waits (sec ∷ [])) refl
          (λ e. cc, (λ e. cc, tt)) (Memᴰ.tail (Memᴰ.head refl)) m);
    serves = serves_of;
  }

-- In whatever order the informers report and the channel is closed: when Run preloads the default
-- certificates, or has started the worker of secrets, the informer of secrets has synced or the
-- channel is closed; and when it has started another worker, the defaults have been preloaded, and
-- all informers have synced or the channel is closed.
pub Comes-IsGuarded : {p : Progress} → Comes at_start p → IsGuarded p
Comes-IsGuarded {p} c = IsGuarded-of_IsOrderly p (Comes-IsOrderly c)

prepended : {p q r : Progress} → Moves p q → Comes q r → Comes p r
prepended m stays = moves stays m
prepended m (moves c m') = moves (prepended m c) m'

can_act_stopped : (p : Progress) (a : Action) → p.stopped ≡ true → can_act p a ≡ true
can_act_stopped p (runs k) h = refl
can_act_stopped p (works k) h = refl
can_act_stopped p (waits ks) h = ground arith
can_act_stopped p preloads h = refl
can_act_stopped p until_stopped h = h

finish :
    (rest : List Action) (p : Progress)
    → p.rest ≡ rest
    → p.stopped ≡ true
    → (q : Progress) × Comes p q × (q.rest ≡ [])
finish [] p e h = (p, stays, e)
finish (a ∷ rest) p e h =
    let can : can_act p a ≡ true = can_act_stopped p a h in
    let (q, c, done) = finish rest (record p { done = p.done ++ a ∷ []; rest = rest }) refl h in
    (q, prepended (acts a rest e can) c, done)

-- Run never hangs for good: wherever it has come, closing the channel lets it come to its end.
pub Run-ends : (p : Progress) → (q : Progress) × Comes p q × (q.rest ≡ [])
Run-ends p =
    let (q, c, e) = finish p.rest (record p { stopped = true }) refl refl in
    (q, prepended stops c, e)
