-- ===== src/Guardian/Running.antt =====
-- The server that cmd/guardian/main.go starts, over any requests.
use dependency_guardian.Prelude.{
  ℕ, ◌≡◌, refl, sym, ap, subst, ◌∙◌, true, Option, none, some, List, [], ◌∷◌, arith, >>=-eq-some,
  if◌then◌else◌,
}
use mathlib.Core.Option.{some-injective}
use dependency_guardian.Prelude.Int.{pos}
use dependency_guardian.Config.{Config, VulnDbConfig, ConfigError, Files}
use dependency_guardian.Decisions.{new_log}
use dependency_guardian.Decisions.History.{new_log-Represents}
use dependency_guardian.Policy.{new_engine}
use dependency_guardian.Proxy.Server.{Environment, State}
use dependency_guardian.Proxy.Logging.{Reached, Extends, Reached-Extends}
use dependency_guardian.Guardian.{
  Flags, Started, invalid, failed, serving, database_of, initial_state, started_of, validated, main,
}

module _ (env : Environment) (open_db : VulnDbConfig → Option env.gorm.Db) (flags : Flags) (now : ℕ)
    (local : flags.vscode ≡ true) where
  -- The log of a state is the one that VS Code mode creates.
  abbrev IsFresh : State env → Type 0
  IsFresh s = s.log ≡ some (new_log (pos 2000) now)

  initial_state-IsFresh :
      (cfg : Config) (s : State env) → initial_state env open_db flags cfg now ≡ some s → IsFresh s
  initial_state-IsFresh cfg s h =
      let (engine, e1, h1) = >>=-eq-some (new_engine env.services.opa _) _ h in
      let (db, e2, h2) = >>=-eq-some (database_of env open_db cfg.vuln_db) _ h1 in
      sym (ap (λ (t : State env). t.log) (some-injective _ s h2))
      ∙ ap (λ b. if b then some (new_log (pos 2000) now) else none) local

  abbrev IsFreshStart : Started env open_db → Type 0
  IsFreshStart (invalid errors) = Unit
  IsFreshStart failed = Unit
  IsFreshStart (serving cfg s) = IsFresh s

  started_of-IsFresh :
      (cfg : Config) (o : Option (State env))
      → ((s : State env) → o ≡ some s → IsFresh s)
      → IsFreshStart (started_of env open_db cfg o)
  started_of-IsFresh cfg none h = tt
  started_of-IsFresh cfg (some s) h = h s refl

  validated-IsFresh :
      (cfg : Config) (errors : List ConfigError)
      → IsFreshStart (validated env open_db flags cfg now errors)
  validated-IsFresh cfg (e ∷ es) = tt
  validated-IsFresh cfg [] =
      started_of-IsFresh cfg (initial_state env open_db flags cfg now) (initial_state-IsFresh cfg)

  main-IsFresh : (files : Files) → IsFreshStart (main env open_db files flags now)
  unfolding main
  main-IsFresh files = validated-IsFresh _ _

  -- In VS Code mode: if the program gets to serve, then in every state that requests lead to, the log
  -- represents a history of decisions: it holds the last entries of that history, at most 2000 of
  -- them, numbered and counted as the history is.
  pub main-Extends :
      (files : Files) (cfg : Config) (start s : State env)
      → main env open_db files flags now ≡ serving cfg start
      → Reached env cfg start s
      → Extends 2000 [] s.log
  main-Extends files cfg start s starts reached =
      let fresh : IsFresh start = subst IsFreshStart starts (main-IsFresh files) in
      Reached-Extends env cfg 2000 [] _ start s fresh (new_log-Represents 2000 now (omega arith))
        reached
