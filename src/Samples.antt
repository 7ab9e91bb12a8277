-- ===== src/Samples.antt =====
-- Sample instances of what the program takes from outside: version libraries for versions such as
-- 1.2.3 with numbers of one digit, a database in memory, a policy library and a network, on which the examples run.
pub mod Memory
pub mod Server
use Prim.Native.String.{String, [], ◌∷◌}
use mathlib.Core.List
use mathlib.Core.List.{List, map}
use dependency_guardian.Prelude.{
  Elem, Elem-filter, Elem-filter_of, subst, ◌↔◌, ℕ, ◌+◌, ◌*◌, ◌-◌, Char, code, ◌≡◌, refl, sym, ap,
  ◌∙◌, Bool, true, false, not, ◌&&◌, Option, none, some, ltb, leb, if◌then◌else◌, filter, ◌==◌, mem,
  arith,
}
use dependency_guardian.Prelude.Dict.{Dict, keys, Elem-keys}
use dependency_guardian.Handler.Filtering.{Documents, VisitsKeys}
use dependency_guardian.Prelude.Int.{ℤ, pos, negsuc}
use dependency_guardian.Json.{Json, str, arr, obj, cons, field, of_items}
use dependency_guardian.Registry.{VulnerabilityDb}
use dependency_guardian.Vercmp.{VersionLibs}
use dependency_guardian.Vercmp.Compare.{IsReflexive}
use dependency_guardian.Vulndb.Models.{Vulnerability, AffectedPackageIndex}
use dependency_guardian.Vulndb.Index.{ConstraintCodec, Constraint}
use dependency_guardian.Vulndb.Index.Tables.{Database, IsTable, unkeyed}
use dependency_guardian.Policy.{Opa, Engine, Visit}
use dependency_guardian.Http.{Network}
use dependency_guardian.Handler.{Services, Base}

abbrev is_digit : Char → Bool
is_digit c = leb 48 (code c) && leb (code c) 57

abbrev pub numbers : String → Option (ℕ × ℕ × ℕ)
numbers (a ∷ d ∷ b ∷ e ∷ c ∷ []) =
    if is_digit a && is_digit b && is_digit c
    then some (code a - 48, code b - 48, code c - 48)
    else none
numbers _ = none

abbrev weight : ℕ × ℕ × ℕ → ℕ
weight (a, b, c) = a * 100 + b * 10 + c

abbrev order : ℕ → ℕ → ℤ
order m n = if ltb m n then negsuc 0 else if ltb n m then pos 1 else pos 0

abbrev pub sample_libs : VersionLibs
sample_libs = record {
  Semver = ℕ × ℕ × ℕ;
  new_semver = numbers;
  compare_semver_lib = λ v w. order (weight v) (weight w);
  segments = λ v. List.◌∷◌ (pos v.0) (List.◌∷◌ (pos v.1) (List.◌∷◌ (pos v.2) List.[]));
  prerelease = λ v. "";
  metadata = λ v. "";
  Pep = ℕ × ℕ × ℕ;
  parse_pep = numbers;
  compare_pep_lib = λ v w. order (weight v) (weight w);
  base_version = λ v. "";
  Mvn = ℕ × ℕ × ℕ;
  new_mvn = numbers;
  compare_mvn_lib = λ v w. order (weight v) (weight w);
}

order_refl : (n : ℕ) → order n n ≡ pos 0
order_refl n = ground arith

pub sample_libs-IsReflexive : IsReflexive sample_libs
sample_libs-IsReflexive = record {
  semver = λ v. order_refl (weight v);
  pep = λ v. order_refl (weight v);
  mvn = λ v. order_refl (weight v);
}

abbrev pub sample_constraint : Constraint
sample_constraint = record {
  kind = "ECOSYSTEM";
  events =
      List.◌∷◌ (record { introduced = "1.0.0"; fixed = ""; last_affected = ""; limit = "" })
        (List.◌∷◌ (record { introduced = ""; fixed = "1.2.0"; last_affected = ""; limit = "" })
          List.[]);
}

abbrev pub sample_codec : ConstraintCodec
sample_codec = record {
  marshal = λ c. "range";
  unmarshal = λ s. if s == "range" then some sample_constraint else none;
}

-- A database in memory.
abbrev pub sample_database : Database
sample_database = record {
  Db = List AffectedPackageIndex × List Vulnerability;
  rows = λ db. db.0;
  vulns = λ db. db.1;
  find_index = λ p db. some (filter p db.0);
  find_vulns = λ ids db. some (filter (λ v. mem v.osv_id ids) db.1);
  delete_index = λ p db. some (filter (λ r. not (p r)) db.0, db.1);
  create_index = λ rs db. some (List.◌++◌ db.0 rs, db.1);
}

map-append :
    {A B : Type 0} (f : A → B) (xs ys : List A)
    → map f (List.◌++◌ xs ys) ≡ List.◌++◌ (map f xs) (map f ys)
map-append f List.[] ys = refl
map-append f (List.◌∷◌ x xs) ys = ap (List.◌∷◌ (f x)) (map-append f xs ys)

inner : {A : Type 0} (x y : A) → some x ≡ some y → y ≡ x
inner x y e = cc

filter_iff :
    (p : AffectedPackageIndex → Bool) (r : AffectedPackageIndex) (rows : List AffectedPackageIndex)
    → Elem r (filter p rows) ↔ (Elem r rows × (p r ≡ true))
filter_iff p r rows = (Elem-filter p r rows, λ (m, t). Elem-filter_of p r rows m t)

pub sample_database-IsTable : IsTable sample_database
sample_database-IsTable = record {
  find_index_lem = λ p db rs h r.
      subst (λ l. Elem r l ↔ (Elem r db.0 × (p r ≡ true))) (sym (inner (filter p db.0) rs h))
        (filter_iff p r db.0);
  delete_index_lem = λ p db db' h. ap (λ d. d.0) (inner _ _ h);
  create_index_lem =
      λ rs db db' h. ap (λ d. map unkeyed d.0) (inner _ _ h) ∙ map-append unkeyed db.0 rs;
}

-- A policy that denies a package with vulnerabilities.
abbrev denied : Json → List Json
denied (obj (field k v (field j (arr (cons w ws)) fs))) = List.◌∷◌ (str "vulnerable") List.[]
denied v = List.[]

abbrev pub sample_opa : Opa
sample_opa = record {
  Compiler = Dict String;
  Query = Unit;
  compile_modules = λ modules. some modules;
  prepare = λ compiler. some tt;
  eval = λ query input. some (List.◌∷◌ (List.◌∷◌ (arr (of_items (denied input))) List.[]) List.[]);
}

abbrev pub sample_engine : Engine sample_opa
sample_engine = record { compiler = List.[]; prepared = tt }

abbrev pub sample_files : List Visit
sample_files =
    List.◌∷◌ (record { path = "p"; base_name = "p"; failed = false; is_dir = true; content = none })
      (List.◌∷◌
        (record {
          path = "p/a.rego";
          base_name = "a.rego";
          failed = false;
          is_dir = false;
          content = some "deny";
        })
        List.[])

-- An upstream that lists two versions, and answers all other requests with a text.
abbrev pub sample_network : Network
sample_network = record {
  makes_request = λ method url. true;
  send = λ o. some (record {
    status_code = 200;
    header = List.[];
    body = if o.url == "http://up/m/@v/list" then "1.0.0\n1.1.0\n" else "info";
    body_failed = false;
  });
}

abbrev pub sample_services : Services
sample_services = record {
  libs = sample_libs;
  opa = sample_opa;
  network = sample_network;
  format_time = λ t. "";
  clock = λ log. 7;
}

-- Only version 1.1.0 is vulnerable.
abbrev pub sample_vuln_db : VulnerabilityDb
sample_vuln_db ecosystem name version =
    if version == "1.1.0"
    then some (
        List.◌∷◌
          (record {
            id = "GO-1";
            severity = "high";
            summary = "";
            fixed_in = "";
            is_malicious = false;
          })
          List.[])
    else some List.[]

abbrev pub sample_base : Base sample_services
sample_base = record {
  upstream = record { base_url = "http://up" };
  engine = sample_engine;
  vuln_db = sample_vuln_db;
  rewriter = none;
}

-- Documents of a codec that reads one document from any text, and prints any document alike.
abbrev pub sample_documents : Dict Json → Documents
sample_documents document = record {
  unmarshal = λ body. some document;
  marshal = λ doc. some "changed";
  parse_layout = λ layout ts. none;
  iterate = keys;
}

pub sample_documents-VisitsKeys : (document : Dict Json) → VisitsKeys (sample_documents document)
sample_documents-VisitsKeys document m k there = Elem-keys k m there
