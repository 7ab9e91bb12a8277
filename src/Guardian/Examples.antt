-- ===== src/Guardian/Examples.antt =====
-- The program started in VS Code mode without a configuration file, and a request to it.
use dependency_guardian.Prelude.{◌≡◌, refl, true, none, some, [], ◌∷◌}
use dependency_guardian.Prelude.Int.{pos}
use dependency_guardian.Http.{Request}
use dependency_guardian.Config.{Files, default_config}
use dependency_guardian.Decisions.{new_log}
use dependency_guardian.Proxy.Server.{State, serve}
use dependency_guardian.Proxy.Logging.{here, after, Extends}
use dependency_guardian.Guardian.{Flags, serving, local_config, main}
use dependency_guardian.Guardian.Running.{main-Extends}
use dependency_guardian.Samples.Server.{sample_environment}

-- No file is there.
abbrev no_files : Files
no_files = record {
  stat = λ path. none;
  read_file = λ path. none;
  unmarshal = λ text cfg. none;
  unmarshal_rewrites = λ text. none;
}

abbrev flags : Flags
flags = record { config = "./config.yaml"; policies = ""; vscode = true; addr = "" }

abbrev sample_start : State sample_environment
sample_start = record {
  engine = record { compiler = ("p/a.rego", "deny") ∷ []; prepared = tt };
  log = some (new_log (pos 2000) 5);
  db = some (λ t. []);
}

starts :
    main sample_environment (λ cfg. some (λ t. [])) no_files flags 5
    ≡ serving (local_config "" default_config) sample_start
unfolding main
starts = refl

abbrev request : Request
request = record { method = "GET"; path = "/go/m/@v/list"; query = []; header = []; body = none }

abbrev later_state : State sample_environment
later_state = (serve sample_environment (local_config "" default_config) request sample_start).1

main-Extends_example : Extends 2000 [] later_state.log
main-Extends_example =
    main-Extends sample_environment (λ cfg. some (λ t. [])) flags 5 refl no_files
      (local_config "" default_config) sample_start later_state starts (after request here)
