-- ===== src/Handler.antt =====
-- internal/handler/handler.go: what the handlers of the ecosystems share.
pub mod Verdict
pub mod Recording
pub mod Gomod
pub mod Filtering
pub mod Npm
pub mod Pypi
pub mod Maven
mod Examples
use dependency_guardian.Prelude.{ℕ, String, Bool, false, Option, none, some, List, [], length}
use dependency_guardian.Prelude.Lines.{trim_right_char}
use dependency_guardian.Registry.{
  PackageVersion, VulnerabilityRecord, PolicyInput, PolicyResult, VulnerabilityDb,
}
use dependency_guardian.Vercmp.{VersionLibs}
use dependency_guardian.Rewrite.{RewriteRule}
use dependency_guardian.Policy.{Opa, Engine, evaluate}
use dependency_guardian.Decisions.{Log, Call, record_decision}
use dependency_guardian.Http.{Network, Client, new_client}

-- What the handlers use that is not of the program: the version libraries, OPA, the network, the
-- format of a time in the policy input, and the time that the log reads before it records.
pub record Services : Type 1 where
  pub libs : VersionLibs
  pub opa : Opa
  pub network : Network
  pub format_time : ℕ → String
  pub clock : Log → ℕ

-- Does a version pass that is evaluated with the result, or with an error.
abbrev pub is_allowed : Option PolicyResult → Bool
is_allowed none = false
is_allowed (some result) = result.allowed

module _ (services : Services) where
  -- Base, less the recorder: the log is the state that a handler passes on, `none` without one.
  pub record Base : Type 0 where
    pub upstream : Client
    pub engine : Engine services.opa
    pub vuln_db : VulnerabilityDb
    pub rewriter : Option (List RewriteRule)

  -- NewBase
  unfoldable pub new_base :
      String → Engine services.opa → VulnerabilityDb → Option (List RewriteRule) → Base
  unfolding new_client trim_right_char
  new_base upstream_url engine vuln_db rewriter = record {
    upstream = new_client (trim_right_char 47 upstream_url);
    engine = engine;
    vuln_db = vuln_db;
    rewriter = rewriter;
  }

  abbrev or_no_vulns : Option (List VulnerabilityRecord) → List VulnerabilityRecord
  or_no_vulns none = []
  or_no_vulns (some vulns) = vulns

  -- The input of the policy: a failed lookup leaves it without vulnerabilities.
  abbrev pub input_of : Base → PackageVersion → PolicyInput
  input_of b pv = record {
    package_version = pv;
    vulnerabilities = or_no_vulns (b.vuln_db pv.ecosystem pv.name pv.version);
    metadata = none;
  }

  abbrev pub call_of : PackageVersion → PolicyResult → ℕ → Call
  call_of pv result vuln_count = record {
    ecosystem = pv.ecosystem;
    package_name = pv.name;
    version = pv.version;
    allowed = result.allowed;
    reasons = result.reasons;
    vuln_count = vuln_count;
  }

  abbrev pub recorded : Option Log → Call → Option Log
  recorded none c = none
  recorded (some log) c = some (record_decision log (services.clock log) c)

  abbrev pub evaluated :
      Option Log → PackageVersion → ℕ → Option PolicyResult → Option PolicyResult × Option Log
  evaluated log pv vuln_count none = (none, log)
  evaluated log pv vuln_count (some result) =
      (some result, recorded log (call_of pv result vuln_count))

  -- Base.EvaluateVersion: the result, `none` for an error, and the log behind it.
  unfoldable pub evaluate_version :
      Base → Option Log → PackageVersion → Option PolicyResult × Option Log
  unfolding evaluate record_decision
  evaluate_version b log pv =
      let input = input_of b pv in
      evaluated log pv (length input.vulnerabilities)
        (evaluate services.opa services.format_time b.engine input)
