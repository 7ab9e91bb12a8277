-- ===== src/Handler/Npm/Examples.antt =====
-- Examples of documents that the npm proxy filters.
use dependency_guardian.Prelude.{String, ◌≡◌, ◌≢◌, refl, false, none, some, [], ◌∷◌, Elem}
use dependency_guardian.Prelude.Dict.{Dict, lookup}
use dependency_guardian.Json.{Json, obj, str, end, field, as_object}
use dependency_guardian.Handler.Verdict.{Permits}
use dependency_guardian.Handler.Filtering.{is_rewritten}
use dependency_guardian.Handler.Npm.{npm_version, filter_metadata}
use dependency_guardian.Handler.Npm.Filter.{filter_metadata_permitted, filter_metadata-removed}
use dependency_guardian.Samples.{
  sample_services, sample_base, sample_documents, sample_documents-VisitsKeys,
}

abbrev versions : Dict Json
versions = ("1.0.0", obj end) ∷ ("1.1.0", obj end) ∷ []

abbrev document : Dict Json
document =
    ("name", str "m")
    ∷ ("versions", obj (field "1.0.0" (obj end) (field "1.1.0" (obj end) end)))
    ∷ ("dist-tags", obj (field "latest" (str "1.1.0") end))
    ∷ []

parses : (sample_documents document).unmarshal "{}" ≡ some document
parses = refl

-- The vulnerable version and the tag that points to it are removed.
answers :
    (filter_metadata sample_services (sample_documents document) sample_base "{}" none).0
    ≡ some "changed"
unfolding filter_metadata
answers = refl

has_entry : lookup "1.1.0" versions ≢ none
unfolding lookup
has_entry e = cc

filter_metadata_permitted_example :
    let pv =
      npm_version sample_services
        (sample_documents document)
        "m"
        none
        "1.1.0"
        (lookup "1.1.0" versions) in
    (doc' kept : Dict Json) × ((sample_documents document).marshal doc' ≡ some "changed")
    × (as_object (lookup "versions" doc') ≡ some kept)
    × (lookup "1.1.0" kept ≢ none → Permits sample_services sample_base pv)
    × ((Permits sample_services sample_base pv
          × (is_rewritten sample_services sample_base.rewriter "npm" "m" "1.1.0" ≡ false))
        → lookup "1.1.0" kept ≡ lookup "1.1.0" versions)
unfolding lookup
filter_metadata_permitted_example =
    filter_metadata_permitted sample_services (sample_documents document) sample_base "{}" none
      document versions "changed" parses refl answers "1.1.0" (sample_documents-VisitsKeys document)
      has_entry

filter_metadata-removed_example :
    (doc' kept : Dict Json) × ((sample_documents document).marshal doc' ≡ some "changed")
    × (as_object (lookup "versions" doc') ≡ some kept)
    × (lookup "1.1.0" kept ≡ none
        → ((times : Dict Json)
            → as_object (lookup "time" doc') ≡ some times
            → lookup "1.1.0" times ≡ none)
          × ((tags : Dict Json) (tag : String)
              → as_object (lookup "dist-tags" doc') ≡ some tags
              → ¬ Elem (tag, str "1.1.0") tags))
unfolding lookup
filter_metadata-removed_example =
    filter_metadata-removed sample_services (sample_documents document) sample_base "{}" none
      document versions "changed" parses refl answers "1.1.0" has_entry
