-- ===== src/Handler/Recording/Pypi.antt =====
-- The handler of internal/handler/pypi/handler.go and the log that it passes on.
use dependency_guardian.Prelude.{String, Option, none, some}
use dependency_guardian.Prelude.Dict.{Dict}
use dependency_guardian.Json.{Json}
use dependency_guardian.Decisions.{Log}
use dependency_guardian.Http.{Request, Incoming}
use dependency_guardian.Handler.{Services, Base}
use dependency_guardian.Handler.Filtering.{Documents}
use dependency_guardian.Handler.Pypi.{
  filter_document, filter_decoded, filter_metadata, filtered_reply, metadata_response,
  handle_json_metadata, serve_pypi,
}
use dependency_guardian.Handler.Recording.{Stable, if-stable}
use dependency_guardian.Handler.Recording.Filtering.{filter_versions-stable}

module _ (services : Services) (documents : Documents) (P : Option Log → Type 0)
    (keeps : Stable services P) (b : Base services) where
  filter_document-stable :
      (body : String) (doc : Dict Json) (o : Option (Dict Json)) (log : Option Log)
      → P log
      → P (filter_document services documents b body doc o log).1
  filter_document-stable body doc none log h = h
  filter_document-stable body doc (some releases) log h =
      filter_versions-stable services P keeps b _ _ _ _ _ h

  filter_decoded-stable :
      (body : String) (o : Option (Dict Json)) (log : Option Log)
      → P log
      → P (filter_decoded services documents b body o log).1
  filter_decoded-stable body none log h = h
  filter_decoded-stable body (some doc) log h = filter_document-stable body doc _ log h

  filtered_reply-stable :
      (x : Option String × Option Log) → P (x.1) → P (filtered_reply services documents x).1
  filtered_reply-stable (none, log) h = h
  filtered_reply-stable (some body, log) h = h

  metadata_response-stable :
      (o : Option Incoming) (log : Option Log)
      → P log
      → P (metadata_response services documents b o log).1
  unfolding filter_metadata
  metadata_response-stable none log h = h
  metadata_response-stable (some resp) log h =
      search (if-stable P, filtered_reply-stable, filter_decoded-stable)

  pub serve_pypi-stable :
      (r : Request) (log : Option Log) → P log → P (serve_pypi services documents b r log).1
  unfolding serve_pypi handle_json_metadata
  serve_pypi-stable r log h = search (if-stable P, metadata_response-stable)
