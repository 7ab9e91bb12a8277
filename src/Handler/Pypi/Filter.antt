-- ===== src/Handler/Pypi/Filter.antt =====
-- filterMetadata of internal/handler/pypi/handler.go: what the answered document holds.
use dependency_guardian.Prelude.{String, ◌≡◌, Option, some}
use dependency_guardian.Prelude.Dict.{Dict, lookup}
use dependency_guardian.Json.{Json, as_object}
use dependency_guardian.Decisions.{Log}
use dependency_guardian.Handler.{Services, Base}
use dependency_guardian.Handler.Filtering.{Documents, Filtering}
use dependency_guardian.Handler.Pypi.{name_of, filter_releases, filter_metadata}

module _ (services : Services) (documents : Documents) (b : Base services) (body : String)
    (log : Option Log) (doc releases : Dict Json) (out : String)
    (parses : documents.unmarshal body ≡ some doc)
    (has_releases : as_object (lookup "releases" doc) ≡ some releases)
    (answers : (filter_metadata services documents b body log).0 ≡ some out) where
  abbrev name : String
  name = name_of (as_object (lookup "info" doc))

  abbrev behind : Filtering
  behind = filter_releases services documents b doc releases log
