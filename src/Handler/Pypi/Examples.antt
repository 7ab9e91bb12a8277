-- ===== src/Handler/Pypi/Examples.antt =====
-- An example of a document that the PyPI proxy filters.
use dependency_guardian.Prelude.{[], ◌∷◌}
use dependency_guardian.Prelude.Dict.{Dict}
use dependency_guardian.Json.{Json, obj, arr, str, nil, end, field}

abbrev releases : Dict Json
releases = ("1.0.0", arr nil) ∷ ("1.1.0", arr nil) ∷ []

abbrev document : Dict Json
document =
    ("info", obj (field "name" (str "m") (field "version" (str "1.1.0") end)))
    ∷ ("releases", obj (field "1.0.0" (arr nil) (field "1.1.0" (arr nil) end)))
    ∷ []
