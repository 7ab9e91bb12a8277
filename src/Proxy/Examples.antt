-- ===== src/Proxy/Examples.antt =====
-- Examples of requests to the proxy: detection, the reload of the policies, and a lookup.
use dependency_guardian.Prelude.{
  String, ◌≡◌, ◌≢◌, refl, inl, ◌==◌, eq_iff, false, none, some, List, [], ◌∷◌, map, length, arith,
  Elem,
}
use dependency_guardian.Registry.{VulnerabilityRecord}
use dependency_guardian.Http.{Request, get}
use dependency_guardian.Vulndb.Models.{AffectedPackageIndex}
use dependency_guardian.Vulndb.Matching.{get_vulnerabilities}
use dependency_guardian.Vulndb.Matching.Answers.{record_ids}
use dependency_guardian.Proxy.Lookup.{VulnEntry, found, handle_lookup}
use dependency_guardian.Config.{Config, default_config}
use dependency_guardian.Proxy.Server.{State}
use dependency_guardian.Samples.Server.{sample_environment}
use dependency_guardian.Proxy.Lookups.{shared_ecosystems, handle_lookup_agrees}
use dependency_guardian.Samples.{sample_libs, sample_codec, sample_database, sample_engine}

abbrev post : Request
post = record {
  method = "POST";
  path = "/policy/reload";
  query = [];
  header = ("Authorization", "Bearer t") ∷ [];
  body = none;
}

abbrev lookup_request : Request
lookup_request = record {
  method = "GET";
  path = "/api/lookup";
  query = ("ecosystem", "npm") ∷ ("name", "p") ∷ ("version", "1.1.0") ∷ [];
  header = [];
  body = none;
}

abbrev row : AffectedPackageIndex
row = record {
  id = 1;
  vulnerability_id = 1;
  osv_id = "GHSA-1";
  ecosystem = "npm";
  package_name = "p";
  version_constraint = "range";
  exact_version = "";
  max_severity = "high";
  is_malicious = false;
}

abbrev db : sample_database.Db
db = (row ∷ [], [])

abbrev answer : List VulnerabilityRecord
answer =
    record { id = "GHSA-1"; severity = "high"; summary = ""; fixed_in = ""; is_malicious = false }
    ∷ []

npm_shared : Elem (get "ecosystem" lookup_request.query) shared_ecosystems
unfolding get
npm_shared = inl refl

not_empty : (s : String) → (s == "") ≡ false → s ≢ ""
not_empty s differ same = ground (arith, eq_iff s "")

some_name : get "name" lookup_request.query ≢ ""
unfolding get
some_name = not_empty "p" refl

some_version : get "version" lookup_request.query ≢ ""
unfolding get
some_version = not_empty "1.1.0" refl

answers :
    get_vulnerabilities sample_libs sample_codec sample_database db
      (get "ecosystem" lookup_request.query)
      (get "name" lookup_request.query)
      (get "version" lookup_request.query)
    ≡ some answer
unfolding get get_vulnerabilities
answers = refl

handle_lookup_agrees_example :
    (entries : List VulnEntry) × (handle_lookup sample_libs sample_codec sample_database
        lookup_request db
      ≡ found
          (get "ecosystem" lookup_request.query)
          (get "name" lookup_request.query)
          entries
          (length entries))
    × (map (λ e. e.osv_id) entries ≡ record_ids answer)
handle_lookup_agrees_example =
    handle_lookup_agrees sample_libs sample_codec sample_database lookup_request db answer
      npm_shared some_name some_version answers

-- A server whose reload asks for a token.
abbrev sample_config : Config
sample_config = record default_config {
  server = record (default_config.server) { admin_token = "t" };
}

abbrev sample_state : State sample_environment
sample_state = record { engine = sample_engine; log = none; db = none }
