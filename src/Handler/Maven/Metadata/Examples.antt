-- ===== src/Handler/Maven/Metadata/Examples.antt =====
-- Examples of metadata that the Maven proxy filters, and of a POM that it serves.
use dependency_guardian.Prelude.{
  String, ◌≡◌, refl, ◌↔◌, ◌⊎◌, false, none, some, List, [], ◌∷◌, ◌++◌, arith, Elem,
}
use dependency_guardian.Prelude.Int.{pos}
use dependency_guardian.Decisions.{Log, Entry, new_log}
use dependency_guardian.Decisions.History.{Represents, new_log-Represents}
use dependency_guardian.Http.{Request, respond, fetch, ◌^^◌}
use dependency_guardian.Handler.Verdict.{Permits}
use dependency_guardian.Handler.Maven.{PomProject, parse_pom}
use dependency_guardian.Handler.Maven.Metadata.{
  MavenMetadata, MavenVersioning, XmlCodec, xml_header, maven_version, is_rewritten_away,
  filter_metadata, handle_pom,
}
use dependency_guardian.Handler.Maven.Metadata.Listing.{filter_metadata_lists}
use dependency_guardian.Handler.Maven.Metadata.Inspection.{
  AreJudged, dependencies_in, handle_pom_serves,
}
use dependency_guardian.Samples.{sample_services, sample_base}

abbrev listing : MavenVersioning
listing = record {
  latest = "1.1.0";
  release = "1.1.0";
  versions = record { version = "1.0.0" ∷ "1.1.0" ∷ [] };
  last_updated = "";
}

abbrev metadata : MavenMetadata
metadata = record { group_id = "org"; artifact_id = "lib"; versioning = some listing }

abbrev project : PomProject
project = record {
  parent = none;
  group_id = some "org";
  artifact_id = some "a";
  version = some "1";
  dependency_management = none;
  dependencies = some (record {
    dependency =
        record {
          group_id = "org";
          artifact_id = "lib";
          version = "1.1.0";
          scope = "";
          optional = "";
        }
        ∷ [];
  });
  properties = none;
}

abbrev first_version : MavenMetadata → String
first_version meta = elim meta.versioning [ none ↦ "" | some v ↦ v.release ]

-- Metadata prints as its release.
abbrev codec : XmlCodec
codec = record {
  unmarshal = λ body. some metadata;
  marshal_indent = λ meta. some (first_version meta);
  decode_pom = λ body. some project;
}

-- The vulnerable version is left out, and the release is the one that is left.
answers :
    (filter_metadata sample_services codec sample_base "" none).0 ≡ some (xml_header ^^ "1.0.0")
unfolding filter_metadata
answers = refl

filter_metadata_lists_example :
    (meta' : MavenMetadata) × (listing' : MavenVersioning) × (text : String) × (codec.marshal_indent
        meta'
      ≡ some text)
    × (xml_header ^^ "1.0.0" ≡ xml_header ^^ text)
    × (meta'.versioning ≡ some listing')
    × ((v : String)
        → Elem v listing'.versions.version ↔ (
            Elem v ("1.0.0" ∷ "1.1.0" ∷ [])
            × (is_rewritten_away sample_services codec none "org:lib" ("1.0.0" ∷ "1.1.0" ∷ []) v
                ≡ false)
            × Permits sample_services sample_base (maven_version "org:lib" v)))
    × ((listing'.release ≡ "") ⊎ Elem listing'.release listing'.versions.version)
    × ((listing'.latest ≡ "") ⊎ Elem listing'.latest listing'.versions.version)
unfolding filter_metadata
filter_metadata_lists_example =
    filter_metadata_lists sample_services codec sample_base "" none metadata listing "1.0.0"
      ("1.1.0" ∷ []) (xml_header ^^ "1.0.0") refl refl refl answers

abbrev log : Log
log = new_log (pos 5) 0

log-Represents : Represents 5 [] log
log-Represents = new_log-Represents 5 0 (omega arith)

abbrev request : Request
request = record { method = "GET"; path = "/a.pom"; query = []; header = []; body = none }

fetched : fetch sample_services.network sample_base.upstream "/a.pom" ≡ some ("info", 200)
unfolding fetch
fetched = refl

handle_pom_serves_example :
    let deps =
      dependencies_in sample_services codec sample_base 5
        (parse_pom sample_services.network codec.decode_pom "info") in
    (added : List Entry) × (l' : Log) × (handle_pom sample_services codec sample_base request
        (some log)
      ≡ (respond 200 (("Content-Type", "application/xml") ∷ []) "info", some l'))
    × Represents 5 ([] ++ added) l'
    × AreJudged sample_services sample_base deps added
handle_pom_serves_example =
    handle_pom_serves sample_services codec sample_base 5 request "info" [] log fetched
      log-Represents
