-- ===== src/Controller/Samples.antt =====
-- The packages that the tests of New call.
use minke.Base.{List, [], inr}
use minke.GoText.{GoString, bytes}
use minke.Panic.{Run, ret}
use minke.Metrics.{Collector}
use minke.Metrics.Samples.{list_registry, wraps}
use minke.Controller.Construction.{prometheus}
use minke.Controller.Fields.{Objects, Provider}
use minke.Controller.Watches.{Api}
use minke.Controller.Assembly.{Packages}
use minke.Samples.{keys, transport}

abbrev pub objects : Objects
objects = record {
  client = Unit;
  selector = GoString;
  tracer = Unit;
  log_func = Unit;
  quic_func = Unit;
  dial_func = Unit;
  certificate_func = Unit;
  registry = List Collector;
  handler = GoString;
  list_fields = Unit;
  watched = Unit;
  queue = List GoString;
}

-- An API that has no objects.
abbrev pub api : Api objects
api = record {
  list = λ client kind ns options. inr [];
  watch = λ client kind ns options. inr tt;
  selector_string = λ s. s;
  meta_key = λ obj. inr [];
  deletion_key = λ obj. inr [];
}

-- A queue registers nothing.
abbrev pub plain_queue : GoString → List Collector → Run (List Collector × List GoString)
plain_queue name r = ret (r, [])

abbrev pub packages : Packages objects
packages = record {
  api = api;
  calls = keys;
  named_queue = plain_queue;
  everything = [];
  tracer = tt;
  send = λ t. transport.base;
  send_http2 = λ t. transport.http2;
  handler = λ t. bytes "handler";
}

abbrev pub provider : Provider objects
provider = prometheus list_registry wraps
