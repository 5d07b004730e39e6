-- ===== src/Http.antt =====
-- The parts of net/http and net/url that the program reads and writes. The method and the body of a
-- request pass through it unread.
use minke.Base.{Bool, List}
use minke.GoText.{GoString}
use minke.GoMap.{GoMap}

pub record Url : Type 0 where
  pub scheme : GoString
  pub host : GoString
  pub path : GoString
  pub raw_query : GoString

pub record Request : Type 0 where
  pub host : GoString
  pub url : Url
  -- `r.TLS != nil`
  pub tls : Bool
  pub header : GoMap GoString (List GoString)
