-- ===== src/Decisions/Examples.antt =====
-- Examples of the decision log at work.
use dependency_guardian.Prelude.{◌≤◌, String, Bool, true, false, [], ◌∷◌, arith, length, Elem}
use dependency_guardian.Prelude.Int.{pos}
use dependency_guardian.Decisions.{Entry, Log, Call, new_log, handle_decisions}
use dependency_guardian.Decisions.History.{Calls, Represents, run, history_from, run-new_log}
use dependency_guardian.Decisions.Queries.{Wanted, handle_decisions_sound}

abbrev call : String → Bool → Call
call name allowed = record {
  ecosystem = "npm";
  package_name = name;
  version = "1.0.0";
  allowed = allowed;
  reasons = [];
  vuln_count = 0;
}

abbrev calls : Calls
calls = (1, call "a" true) ∷ (2, call "b" false) ∷ (3, call "c" false) ∷ []

abbrev log : Log
log = run (new_log (pos 2) 0) calls

run-new_log_example : Represents 2 (history_from [] calls) (run (new_log (pos 2) 0) calls)
run-new_log_example = run-new_log 2 0 calls (omega arith)

handle_decisions_sound_example :
    (length (handle_decisions log "5" "denied") ≤ 1000)
    × ((e : Entry)
        → Elem e (handle_decisions log "5" "denied")
        → Elem e log.entries × Wanted "denied" e)
handle_decisions_sound_example = handle_decisions_sound log "5" "denied"
