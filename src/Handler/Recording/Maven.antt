-- ===== src/Handler/Recording/Maven.antt =====
-- The handler of internal/handler/maven/handler.go and the log that it passes on.
use dependency_guardian.Prelude.{
  ℕ, String, Bool, true, false, Option, none, some, List, [], ◌∷◌, if◌then◌else◌, mem,
}
use dependency_guardian.Decisions.{Log}
use dependency_guardian.Registry.{PolicyResult}
use dependency_guardian.Http.{Request}
use dependency_guardian.Handler.{Services, Base}
use dependency_guardian.Handler.Maven.{PomProject, PomDependency}
use dependency_guardian.Handler.Maven.Metadata.{
  MavenMetadata, MavenVersioning, XmlCodec, then_rest, allowed_versions, print_with, filter_listed,
  filter_parsed, filter_decoded, filter_metadata, filtered_reply, metadata_response,
  handle_metadata, inspect_dependencies, inspect_parsed, inspect_pom, pom_response, handle_pom,
  serve_maven,
}
use dependency_guardian.Handler.Recording.{Stable, if-stable, evaluate_version-stable}

module _ (services : Services) (codec : XmlCodec) (P : Option Log → Type 0)
    (keeps : Stable services P) (b : Base services) where
  then_rest-stable :
      (ver : String) (o : Option PolicyResult) (rest : Option (List String) × Option Log)
      (log : Option Log)
      → P log
      → P (rest.1)
      → P (then_rest services codec ver o rest log).1
  then_rest-stable ver none rest log h k = h
  then_rest-stable ver (some result) rest log h k = k

  if-log : (c : Bool) (x y : Option Log) → P x → P y → P (if c then x else y)
  if-log true x y h k = h
  if-log false x y h k = k

  allowed_versions-stable :
      (name : String) (rewritten vers : List String) (log : Option Log)
      → P log
      → P (allowed_versions services codec b name rewritten vers log).1
  unfolding allowed_versions
  allowed_versions-stable name rewritten [] log h = h
  allowed_versions-stable name rewritten (ver ∷ vers) log h =
      let judged = evaluate_version-stable services P keeps b log _ h in
      let rest =
        allowed_versions-stable name rewritten vers _ (if-log (mem ver rewritten) _ _ h judged) in
      if-stable P (mem ver rewritten) _ _ rest (then_rest-stable ver _ _ _ judged rest)

  print_with-stable :
      (meta : MavenMetadata) (v : MavenVersioning) (x : Option (List String) × Option Log)
      → P (x.1)
      → P (print_with services codec meta v x).1
  print_with-stable meta v (none, log) h = h
  print_with-stable meta v (some allowed, log) h = h

  filter_listed-stable :
      (body : String) (meta : MavenMetadata) (v : MavenVersioning) (vs : List String)
      (log : Option Log)
      → P log
      → P (filter_listed services codec b body meta v vs log).1
  filter_listed-stable body meta v [] log h = h
  filter_listed-stable body meta v (ver ∷ vers) log h =
      print_with-stable meta v _ (allowed_versions-stable _ _ _ log h)

  filter_parsed-stable :
      (body : String) (meta : MavenMetadata) (o : Option MavenVersioning) (log : Option Log)
      → P log
      → P (filter_parsed services codec b body meta o log).1
  filter_parsed-stable body meta none log h = h
  filter_parsed-stable body meta (some v) log h =
      filter_listed-stable body meta v v.versions.version log h

  filter_decoded-stable :
      (body : String) (o : Option MavenMetadata) (log : Option Log)
      → P log
      → P (filter_decoded services codec b body o log).1
  filter_decoded-stable body none log h = h
  filter_decoded-stable body (some meta) log h = filter_parsed-stable body meta _ log h

  filtered_reply-stable :
      (x : Option String × Option Log) → P (x.1) → P (filtered_reply services codec x).1
  filtered_reply-stable (none, log) h = h
  filtered_reply-stable (some body, log) h = h

  metadata_response-stable :
      (o : Option (String × ℕ)) (log : Option Log)
      → P log
      → P (metadata_response services codec b o log).1
  unfolding filter_metadata
  metadata_response-stable none log h = h
  metadata_response-stable (some (body, status)) log h =
      search (if-stable P, filtered_reply-stable, filter_decoded-stable)

  inspect_dependencies-stable :
      (deps : List PomDependency) (log : Option Log)
      → P log
      → P (inspect_dependencies services codec b deps log)
  unfolding inspect_dependencies
  inspect_dependencies-stable [] log h = h
  inspect_dependencies-stable (dep ∷ deps) log h =
      inspect_dependencies-stable deps _ (evaluate_version-stable services P keeps b log _ h)

  inspect_parsed-stable :
      (o : Option PomProject) (log : Option Log) → P log → P (inspect_parsed services codec b o log)
  inspect_parsed-stable none log h = h
  inspect_parsed-stable (some pom) log h = inspect_dependencies-stable _ log h

  pom_response-stable :
      (o : Option (String × ℕ)) (log : Option Log)
      → P log
      → P (pom_response services codec b o log).1
  unfolding inspect_pom
  pom_response-stable none log h = h
  pom_response-stable (some (body, status)) log h = search (if-stable P, inspect_parsed-stable)

  pub serve_maven-stable :
      (r : Request) (log : Option Log) → P log → P (serve_maven services codec b r log).1
  unfolding serve_maven handle_metadata handle_pom
  serve_maven-stable r log h = search (if-stable P, metadata_response-stable, pom_response-stable)
