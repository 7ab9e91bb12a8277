-- ===== src/Rewrite/Snapping.antt =====
-- The strategies "nearest-minor" and "nearest-major" on Maven versions: what the snapped text reads
-- back as.
use dependency_guardian.Prelude.{
  ℕ, ◌≤◌, String, ◌≡◌, ◌≢◌, refl, false, some, arith, eq_iff, ◌==◌, to_lower,
}
use dependency_guardian.Prelude.Int.{pos}
use dependency_guardian.Vercmp.{VersionLibs, ParsedVersion, extract_segments, parse_version}
use dependency_guardian.Vercmp.Segments.{IsCanonical, three, extract_segments-format}
use dependency_guardian.Vercmp.Shape.{IsRead, extract_segments-IsRead}
use dependency_guardian.Rewrite.{snap_to_minor, snap_to_major, at_least}

module _ (libs : VersionLibs) (version : String) {m : libs.Mvn} (nonempty : version ≢ "")
    (reads : libs.new_mvn version ≡ some m) where
  parse_maven_lem : parse_version libs version "maven" ≡ some (extract_segments version)
  unfolding parse_version to_lower
  parse_maven_lem =
      let no_empty : (version == "") ≡ false = ground (arith, eq_iff version "") in
      rw (no_empty, reads) refl

-- The version with the given numbers, three segments and no rest.
abbrev pub release : ParsedVersion → ParsedVersion
release pv = record pv { patch = pos 0; pre_release = ""; segments = 3 }

release-IsCanonical : (pv : ParsedVersion) → IsRead pv → IsCanonical (release pv)
release-IsCanonical pv r =
    let (a, is_a, fits_a) = r.major in
    let (b, is_b, fits_b) = r.minor in
    rw (is_a, is_b) (three pv.prefix a b 0 "" r.mark fits_a fits_b (omega arith) tt)

three_segments : (n : ℕ) → n ≤ 3 → at_least 3 n ≡ 3
three_segments n h = ground arith

-- For a text other than the empty one that the Maven library accepts, the text snapped to the minor
-- release reads as the same mark, major and minor number with patch 0, three segments and no rest;
-- snapped to the major release, the minor number is 0 as well.
pub snap_maven :
    (libs : VersionLibs) (version : String) {m : libs.Mvn}
    → version ≢ ""
    → libs.new_mvn version ≡ some m
    → (extract_segments (snap_to_minor libs version "maven") ≡ release (extract_segments version))
      × (extract_segments (snap_to_major libs version "maven")
          ≡ record (release (extract_segments version)) { minor = pos 0 })
unfolding snap_to_minor snap_to_major
snap_maven libs version nonempty reads =
    let pv = extract_segments version in
    let r = extract_segments-IsRead version in
    rw (parse_maven_lem libs version nonempty reads, three_segments pv.segments r.segments)
      (
        extract_segments-format (release-IsCanonical pv r),
        extract_segments-format (
            release-IsCanonical (record pv { minor = pos 0 })
              (record {
                mark = r.mark;
                major = r.major;
                minor = (0, refl, omega arith);
                patch = r.patch;
                segments = r.segments;
              })),
      )
