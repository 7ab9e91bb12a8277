-- ===== src/Handler/Recording/Gomod.antt =====
-- The Go module handler of internal/handler/gomod/handler.go and the log that it passes on.
use dependency_guardian.Prelude.{ℕ, String, Option, none, some, List, [], ◌∷◌, mem}
use dependency_guardian.Decisions.{Log}
use dependency_guardian.Registry.{PolicyResult}
use dependency_guardian.Http.{Request, Incoming}
use dependency_guardian.Handler.{Services, Base}
use dependency_guardian.Handler.Gomod.{
  VersionInfo, allowed_versions, list_response, handle_version_list, answer, latest_of,
  latest_response, handle_latest, info_response, info_at, info_split, handle_version_info,
  serve_http,
}
use dependency_guardian.Handler.Recording.{Stable, if-stable, evaluate_version-stable}

module _ (services : Services) (decode_info : String → Option VersionInfo) (P : Option Log → Type 0)
    (keeps : Stable services P) (b : Base services) where
  allowed_versions-stable :
      (module_path : String) (rewritten vers : List String) (log : Option Log)
      → P log
      → P (allowed_versions services decode_info b module_path rewritten vers log).1
  unfolding allowed_versions
  allowed_versions-stable module_path rewritten [] log h = h
  allowed_versions-stable module_path rewritten (ver ∷ vers) log h =
      if-stable P (mem ver rewritten) _ _ (allowed_versions-stable module_path rewritten vers log h)
        (allowed_versions-stable module_path rewritten vers _
          (evaluate_version-stable services P keeps b log _ h))

  list_response-stable :
      (module_path : String) (o : Option Incoming) (log : Option Log)
      → P log
      → P (list_response services decode_info b module_path o log).1
  list_response-stable module_path none log h = h
  list_response-stable module_path (some resp) log h =
      if-stable P _ _ _ h (allowed_versions-stable module_path _ _ log h)

  handle_version_list-stable :
      (r : Request) (log : Option Log)
      → P log
      → P (handle_version_list services decode_info b r log).1
  unfolding handle_version_list
  handle_version_list-stable r log h = search (if-stable P, list_response-stable)

  answer-stable :
      (x : Option PolicyResult × Option Log) (body : String)
      → P (x.1)
      → P (answer services decode_info x body).1
  answer-stable (none, log) body h = h
  answer-stable (some result, log) body h = if-stable P _ _ _ h h

  latest_of-stable :
      (module_path body : String) (o : Option VersionInfo) (log : Option Log)
      → P log
      → P (latest_of services decode_info b module_path body o log).1
  latest_of-stable module_path body none log h = h
  latest_of-stable module_path body (some vi) log h =
      answer-stable _ body (evaluate_version-stable services P keeps b log _ h)

  latest_response-stable :
      (module_path : String) (o : Option (String × ℕ)) (log : Option Log)
      → P log
      → P (latest_response services decode_info b module_path o log).1
  latest_response-stable module_path none log h = h
  latest_response-stable module_path (some (body, status)) log h =
      if-stable P _ _ _ h (latest_of-stable module_path body _ log h)

  info_response-stable :
      (module_path ver : String) (o : Option (String × ℕ)) (log : Option Log)
      → P log
      → P (info_response services decode_info b module_path ver o log).1
  info_response-stable module_path ver none log h = h
  info_response-stable module_path ver (some (body, status)) log h =
      if-stable P _ _ _ h
        (answer-stable _ body (evaluate_version-stable services P keeps b log _ h))

  info_split-stable :
      (r : Request) (o : Option (Option (String × String))) (log : Option Log)
      → P log
      → P (info_split services decode_info b r o log).1
  unfolding info_at
  info_split-stable r none log h = h
  info_split-stable r (some none) log h = h
  info_split-stable r (some (some (module_path, ver))) log h =
      search (if-stable P, info_response-stable)

  pub serve_http-stable :
      (r : Request) (log : Option Log) → P log → P (serve_http services decode_info b r log).1
  unfolding serve_http handle_latest handle_version_info
  serve_http-stable r log h =
      search (if-stable P, handle_version_list-stable, latest_response-stable, info_split-stable)
