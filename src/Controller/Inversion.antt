-- ===== src/Controller/Inversion.antt =====
-- What a controller that New has made consists of.
use minke.Base.{List, Option, ◌⊎◌, inl, inr, ◌≡◌, refl, arith, ap, sym, ◌∙◌}
use minke.Panic.{ret, >>=-eq-ret}
use minke.Transport.{RoundTripper}
use minke.Secrets.{is_some}
use minke.Controller.Construction.{Built, build}
use minke.Controller.Fields.{Objects, Provider, Fields, Choice}
use minke.Controller.Watches.{setup_processes}
use minke.Controller.Assembly.{
  configured, Packages, Assembled, new_fields, base_transport, assemble, new_assembled,
}

pub ⊎-cases :
    {A : Type 0} {B : Type 0} → (x : A ⊎ B) → ((a : A) × (x ≡ inl a)) ⊎ ((b : B) × (x ≡ inr b))
⊎-cases (inl a) = inl (a, refl)
⊎-cases (inr b) = inr (b, refl)

module _ (o : Objects) (p : Packages o) where
  abbrev pub assembled_of : Fields o → Built o.queue RoundTripper o.handler → Assembled o
  assembled_of f b = record {
    fields = configured o f;
    processors = setup_processes o p.api p.calls f b.queues;
    transport = b.transport;
    handler = b.handler;
  }

  pub record Assembles (metrics : Option (Provider o)) (client : o.client)
      (choices : List (Choice o)) (r r' : o.registry) (a : Assembled o) : Type 0 where
    pub f : Fields o
    pub built : Built o.queue RoundTripper o.handler
    pub chosen : new_fields o p metrics client choices ≡ inr f
    pub builds :
        build p.named_queue
          (base_transport o p (configured o f))
          p.handler
          f.metrics
          (is_some f.tracer)
          r
        ≡ ret (r', built)
    pub whole : a ≡ assembled_of f built

  -- A controller that is made is built from the fields that its options leave.
  pub new_assembled-Assembles :
      (metrics : Option (Provider o)) (client : o.client) (choices : List (Choice o))
      (r r' : o.registry) (a : Assembled o)
      → new_assembled o p metrics client choices r ≡ ret (r', inr a)
      → Assembles metrics client choices r r' a
  unfolding new_assembled assemble
  new_assembled-Assembles metrics client choices r r' a e =
      elim (⊎-cases (new_fields o p metrics client choices)) [
        | inl (err, q) ↦
            let wrong : ret (r, inl err) ≡ ret (r', inr a) = rw (q, new_assembled) at e in
            let no : ⊥ = ground arith in elim no [ ]
        | inr (f, q) ↦
            let ((r1, a1), assembled, rest) =
              >>=-eq-ret (assemble o p f r) (λ out. ret (out.0, inr out.1))
                (rw (q, new_assembled) at e) in
            let same : a1 ≡ a = ground arith in
            let ((r2, b), built, rest') =
              >>=-eq-ret
                (build p.named_queue (base_transport o p (configured o f)) p.handler f.metrics
                  (is_some f.tracer) r)
                _ assembled in
            let left : r2 ≡ r' = ground arith in
            let right : assembled_of f b ≡ a1 = ground arith in
            record {
              f = f;
              built = b;
              chosen = q;
              builds = built ∙ ap (λ x. ret (x, b)) left;
              whole = sym (right ∙ same);
            }
      ]
