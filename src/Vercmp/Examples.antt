-- ===== src/Vercmp/Examples.antt =====
-- Examples of versions read, printed and compared.
use dependency_guardian.Prelude.{String, ◌≡◌, refl, inr, eq_iff, arith}
use dependency_guardian.Prelude.Int.{pos}
use dependency_guardian.Vercmp.{ParsedVersion, extract_segments, format}
use dependency_guardian.Vercmp.Segments.{IsCanonical, three, extract_segments-format}

abbrev version : ParsedVersion
version = record {
  prefix = "v";
  major = pos 1;
  minor = pos 20;
  patch = pos 3;
  pre_release = "-rc1";
  segments = 3;
}

version-IsCanonical : IsCanonical version
version-IsCanonical =
    three "v" 1 20 3 "-rc1" (inr refl) (omega arith) (omega arith) (omega arith) refl

extract_segments-format_example : extract_segments (format version) ≡ version
extract_segments-format_example = extract_segments-format version-IsCanonical

no_semver : ¬ (◌≡◌ {A = String} "ECOSYSTEM" "SEMVER")
no_semver same = ground (arith, eq_iff "ECOSYSTEM" "SEMVER")
