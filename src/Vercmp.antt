-- ===== src/Vercmp.antt =====
-- internal/vercmp: parsing, formatting and comparing versions of the ecosystems. The three version
-- libraries that it calls are the fields of `VersionLibs`.
pub mod Flows
pub mod Segments
pub mod Shape
pub mod Compare
mod Examples
use Prim.Native.Nat.{min}
use Prim.Native.String.{[], ◌∷◌, ◌++◌, len, slice, compare}
use Prim.Native.Nat.{Ordering}
use dependency_guardian.Prelude.{
  ℕ, zero, suc, ◌-◌, Char, code, String, Bool, not, ◌&&◌, ◌||◌, Option, none, some, ltb, eqb,
  if◌then◌else◌, ◌==◌, has_prefix, to_lower, skip, split_n, length, ◌>>=◌,
}
use dependency_guardian.Prelude
use mathlib.Core.List
use mathlib.Core.List.{List}
use dependency_guardian.Prelude.Int.{ℤ, pos, negsuc}
use dependency_guardian.Prelude.Decimal.{print_int, atoi, is_digit}

-- What the program uses of hashicorp/go-version, aquasecurity/go-pep440-version and
-- masahiro331/go-mvn-version: a parser, in which `none` is an error, the order of the parsed
-- versions as -1, 0 or 1, and their accessors.
pub record VersionLibs : Type 1 where
  pub Semver : Type 0
  pub new_semver : String → Option Semver
  pub compare_semver_lib : Semver → Semver → ℤ
  pub segments : Semver → List ℤ
  pub prerelease : Semver → String
  pub metadata : Semver → String
  pub Pep : Type 0
  pub parse_pep : String → Option Pep
  pub compare_pep_lib : Pep → Pep → ℤ
  pub base_version : Pep → String
  pub Mvn : Type 0
  pub new_mvn : String → Option Mvn
  pub compare_mvn_lib : Mvn → Mvn → ℤ

pub record ParsedVersion : Type 0 where
  pub prefix : String
  pub major : ℤ
  pub minor : ℤ
  pub patch : ℤ
  pub pre_release : String
  pub segments : ℕ

-- ParsedVersion{}
abbrev pub empty_version : ParsedVersion
empty_version = record {
  prefix = "";
  major = pos 0;
  minor = pos 0;
  patch = pos 0;
  pre_release = "";
  segments = 0;
}

abbrev nth : ℕ → List ℤ → ℤ
nth n List.[] = pos 0
nth zero (List.◌∷◌ x xs) = x
nth (suc n) (List.◌∷◌ x xs) = nth n xs

abbrev tagged : String → String → String
tagged mark s = if s == "" then "" else mark ++ s

module _ (libs : VersionLibs) where
  unfoldable pub of_semver : String → libs.Semver → ParsedVersion
  of_semver v gv =
      let segs = libs.segments gv in
      record {
        prefix = if has_prefix v "v" then "v" else "";
        major = nth 0 segs;
        minor = nth 1 segs;
        patch = nth 2 segs;
        pre_release = tagged "-" (libs.prerelease gv) ++ tagged "+" (libs.metadata gv);
        segments = min (length segs) 3;
      }

  unfoldable pub parse_semver : String → Option ParsedVersion
  unfolding of_semver
  parse_semver v = do gv ← libs.new_semver v; some (of_semver v gv)

-- The characters at which the loop of `extractSegments` stops.
abbrev pub stops : Char → Bool
stops c = (eqb (code c) b'-' || eqb (code c) b'+') || (not (eqb (code c) b'.') && not (is_digit c))

-- That loop: the numeric part, and the rest from the first such character.
unfoldable pub split_suffix : String → String × String
split_suffix [] = ("", "")
split_suffix (c ∷ s) =
    let (a, b) = split_suffix s in
    let longer : String × String = (c ∷ a, b) in
    let stopped : String × String = ("", c ∷ s) in if stops c then stopped else longer

abbrev with_major : Option ℤ → ParsedVersion → ParsedVersion
with_major none pv = pv
with_major (some n) pv = record pv { major = n; segments = 1 }

abbrev with_minor : Option ℤ → ParsedVersion → ParsedVersion
with_minor none pv = pv
with_minor (some n) pv = record pv { minor = n; segments = 2 }

abbrev with_patch : Option ℤ → ParsedVersion → ParsedVersion
with_patch none pv = pv
with_patch (some n) pv = record pv { patch = n; segments = 3 }

-- The three numbers that the parts hold; a part that is no number leaves the fields as they were.
unfoldable pub read_parts : List String → ParsedVersion → ParsedVersion
read_parts List.[] pv = pv
read_parts (List.◌∷◌ a List.[]) pv = with_major (atoi a) pv
read_parts (List.◌∷◌ a (List.◌∷◌ b List.[])) pv = with_minor (atoi b) (with_major (atoi a) pv)
read_parts (List.◌∷◌ a (List.◌∷◌ b (List.◌∷◌ c _))) pv =
    with_patch (atoi c) (with_minor (atoi b) (with_major (atoi a) pv))

unfoldable pub split_and_read : String → String → ParsedVersion
unfolding split_suffix read_parts split_n
split_and_read prefix v =
    let (num_part, rest) = split_suffix v in
    read_parts (split_n b'.' 3 num_part)
      (record empty_version { prefix = prefix; pre_release = rest })

-- extractSegments
unfoldable pub extract_segments : String → ParsedVersion
unfolding split_and_read has_prefix skip
extract_segments v = if has_prefix v "v" then split_and_read "v" (skip 1 v) else split_and_read "" v

-- ParsedVersion.Format
unfoldable pub format : ParsedVersion → String
format pv =
    if eqb pv.segments 1
    then pv.prefix ++ (print_int pv.major ++ pv.pre_release)
    else if eqb pv.segments 2
    then pv.prefix ++ (print_int pv.major ++ ("." ++ (print_int pv.minor ++ pv.pre_release)))
    else (pv.prefix
        ++ (print_int pv.major
            ++ ("." ++ (print_int pv.minor ++ ("." ++ (print_int pv.patch ++ pv.pre_release))))))

abbrev sign : Ordering → ℤ
sign Ordering.lt = negsuc 0
sign Ordering.eq = pos 0
sign Ordering.gt = pos 1

-- Fallback: the lexicographic order of the texts.
unfoldable pub fallback : String → String → ℤ
fallback a b = sign (compare a b)

-- The library's answer if both texts parse, else the fallback.
abbrev both : {V : Type 0} → Option V → Option V → (V → V → ℤ) → ℤ → ℤ
both (some a) (some b) cmp other = cmp a b
both _ _ cmp other = other

module _ (libs : VersionLibs) where
  unfoldable pub parse_pypi_version : String → Option ParsedVersion
  unfolding extract_segments
  parse_pypi_version v = do
    pep ← libs.parse_pep v
    let base = libs.base_version pep
    let pv = extract_segments base
    some (
        if ltb (len base) (len v)
        then record pv { pre_release = slice v (len base) (len v) }
        else pv)

  unfoldable pub parse_maven_version : String → Option ParsedVersion
  unfolding extract_segments
  parse_maven_version v = do parsed ← libs.new_mvn v; some (extract_segments v)

  -- ParseVersion
  unfoldable pub parse_version : String → String → Option ParsedVersion
  unfolding parse_semver parse_pypi_version parse_maven_version
  parse_version v ecosystem =
      if v == ""
      then none
      else if to_lower ecosystem == "pypi"
      then parse_pypi_version v
      else if to_lower ecosystem == "maven"
      then parse_maven_version v
      else parse_semver libs v

  unfoldable pub compare_semver : String → String → ℤ
  compare_semver a b =
      both (libs.new_semver a) (libs.new_semver b) libs.compare_semver_lib (fallback a b)

  unfoldable pub compare_maven : String → String → ℤ
  compare_maven a b = both (libs.new_mvn a) (libs.new_mvn b) libs.compare_mvn_lib (fallback a b)

  unfoldable pub compare_pypi : String → String → ℤ
  compare_pypi a b = both (libs.parse_pep a) (libs.parse_pep b) libs.compare_pep_lib (fallback a b)

  -- Compare
  unfoldable pub compare_versions : String → String → String → ℤ
  unfolding compare_semver compare_maven compare_pypi
  compare_versions a b ecosystem =
      if to_lower ecosystem == "pypi"
      then compare_pypi a b
      else if to_lower ecosystem == "maven"
      then compare_maven a b
      else compare_semver a b

  -- ComparerFor
  unfoldable pub comparer_for : String → String → String → String → ℤ
  unfolding compare_semver compare_maven compare_pypi
  comparer_for constraint_type ecosystem =
      if constraint_type == "SEMVER"
      then compare_semver
      else if ecosystem == "Maven"
      then compare_maven
      else if ecosystem == "PyPI"
      then compare_pypi
      else compare_semver
