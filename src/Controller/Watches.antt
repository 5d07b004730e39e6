-- ===== src/Controller/Watches.antt =====
-- The setup of the four processors: setupIngProcess of ingress.go, and its like of secrets.go,
-- services.go and endpoints.go, with makeProcessor of processor.go. The client of the Kubernetes API
-- is taken as given, by the calls that the list and watch functions make of it.
use minke.Base.{ℕ, List, ◌⊎◌}
use minke.Base.Int.{ℤ, pos}
use minke.GoText.{GoString, bytes}
use minke.Kube.{Object, GoError}
use minke.Processor.{Queue, Event, on_event}
use minke.Controller.{Kind, ing, svc, sec, eps, Processors}
use minke.Controller.Fields.{Objects, Fields}

module _ (o : Objects) where
  -- metav1.ListOptions
  pub record ListOptions : Type 0 where
    pub label_selector : GoString
    pub others : o.list_fields

  -- The clients of the four kinds of objects, for a namespace, and String of a selector.
  pub record Api : Type 0 where
    pub list : o.client → Kind → GoString → ListOptions → GoError ⊎ List Object
    pub watch : o.client → Kind → GoString → ListOptions → GoError ⊎ o.watched
    pub selector_string : o.selector → GoString
    -- The two functions of package cache that give the key of an object.
    pub meta_key : Object → GoError ⊎ GoString
    pub deletion_key : Object → GoError ⊎ GoString

  -- cache.ListWatch
  pub record ListWatch : Type 0 where
    pub list_func : ListOptions → GoError ⊎ List Object
    pub watch_func : ListOptions → GoError ⊎ o.watched

  -- What the shared informer is made of, with the handlers that are added to it.
  pub record Informer : Type 0 where
    pub lw : ListWatch
    pub obj_type : GoString
    pub refresh : ℕ
    pub handlers : Event → o.queue → o.queue

  pub record WatchedProcessor : Type 0 where
    pub obj_type : GoString
    pub queue : o.queue
    pub informer : Informer
    pub retries : ℤ

  module _ (api : Api) (calls : Queue o.queue) where
    -- makeProcessor, with the queue that it makes; a field that is not set is 0.
    abbrev pub make_watched : ListWatch → GoString → ℕ → o.queue → WatchedProcessor
    make_watched lw obj refresh queue = record {
      obj_type = obj;
      queue = queue;
      informer = record {
        lw = lw;
        obj_type = obj;
        refresh = refresh;
        handlers = on_event calls api.meta_key api.deletion_key;
      };
      retries = pos 0;
    }

    module _ (c : Fields o) where
      unfoldable pub setup_ing_process : o.queue → WatchedProcessor
      setup_ing_process queue =
          make_watched
            (record {
              list_func = λ options.
                  api.list c.client ing c.settings.namespace
                    (record options { label_selector = api.selector_string c.selector });
              watch_func = λ options.
                  api.watch c.client ing c.settings.namespace
                    (record options { label_selector = api.selector_string c.selector });
            })
            (bytes "*v1beta1.Ingress") c.refresh queue

      unfoldable pub setup_secret_process : o.queue → WatchedProcessor
      setup_secret_process queue =
          make_watched
            (record {
              list_func = λ options. api.list c.client sec c.settings.namespace options;
              watch_func = λ options. api.watch c.client sec c.settings.namespace options;
            })
            (bytes "*v1.Secret") c.refresh queue

      unfoldable pub setup_service_process : o.queue → WatchedProcessor
      setup_service_process queue =
          make_watched
            (record {
              list_func = λ options. api.list c.client svc c.settings.namespace options;
              watch_func = λ options. api.watch c.client svc c.settings.namespace options;
            })
            (bytes "*v1.Service") c.refresh queue

      unfoldable pub setup_endpoints_process : o.queue → WatchedProcessor
      setup_endpoints_process queue =
          make_watched
            (record {
              list_func = λ options. api.list c.client eps c.settings.namespace options;
              watch_func = λ options. api.watch c.client eps c.settings.namespace options;
            })
            (bytes "*v1.Endpoints") c.refresh queue

      unfoldable pub setup_processes : Processors o.queue → Processors WatchedProcessor
      unfolding setup_ing_process setup_secret_process setup_service_process setup_endpoints_process
      setup_processes queues = record {
        ing = setup_ing_process queues.ing;
        svc = setup_service_process queues.svc;
        sec = setup_secret_process queues.sec;
        eps = setup_endpoints_process queues.eps;
      }
