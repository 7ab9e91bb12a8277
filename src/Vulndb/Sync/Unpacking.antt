-- ===== src/Vulndb/Sync/Unpacking.antt =====
-- The archive of an ecosystem that `parseZip` of internal/vulndb/sync/syncer.go unpacks.
use dependency_guardian.Prelude.{
  ℕ, ◌+◌, String, ◌≡◌, refl, ap, sym, ◌∙◌, inl, inr, Bool, true, false, not, ◌&&◌, Option, none,
  some, List, [], ◌∷◌, ◌++◌, append_assoc, append-nil, filter, count_by, Bool-cases, Option-cases,
  arith, ◌==◌, ◌>>=◌, if◌then◌else◌, has_suffix,
}
use dependency_guardian.Vulndb.Models.{Vulnerability}
use dependency_guardian.Vulndb.Parser.{parse_json}
use dependency_guardian.Vulndb.Sync.Delta.{Decoding, with_source}
use dependency_guardian.Vulndb.Sync.Seeding.{
  ZipFile, Unpacked, is_record, unpack_one, unpack_files, parse_zip,
}

-- No directory, and the name ends in .json.
abbrev pub holds_record : ZipFile → Bool
holds_record f = not f.is_dir && has_suffix f.name ".json"

abbrev is_none : Option Vulnerability → Bool
is_none none = true
is_none (some v) = false

module _ (decoding : Decoding) (ecosystem : String) where
  abbrev pub parsed : ZipFile → Option Vulnerability
  parsed f = f.content >>= parse_json decoding.time_parse decoding.unmarshal

  abbrev pub is_unreadable : ZipFile → Bool
  is_unreadable f = is_none (parsed f)

  -- The record with the ecosystem of the archive, where it names none.
  abbrev pub attributed : Vulnerability → Vulnerability
  attributed v = record v {
    source_ecosystem = if v.source_ecosystem == "" then ecosystem else v.source_ecosystem;
  }

  abbrev with_record : Option Vulnerability → List Vulnerability → List Vulnerability
  with_record none vs = vs
  with_record (some v) vs = attributed v ∷ vs

  -- The records of the files that can be read and parsed, in order.
  abbrev pub records : List ZipFile → List Vulnerability
  records [] = []
  records (f ∷ fs) = with_record (parsed f) (records fs)

  -- What files leave of an archive that is partly unpacked.
  abbrev Unpacks : List ZipFile → Unpacked → Unpacked → Type 0
  Unpacks fs u u' =
      (u'.vulns ≡ u.vulns ++ records fs)
      × (u'.parse_errors ≡ u.parse_errors + count_by is_unreadable fs)

  with_source-attributed : (v : Vulnerability) → with_source ecosystem v ≡ attributed v
  with_source-attributed v = elim (Bool-cases (v.source_ecosystem == "")) [
    | inl e ↦ rw e refl
    | inr e ↦ rw e refl
  ]

  passes_over : (f : ZipFile) → is_record f ≡ holds_record f
  passes_over f = ground arith

  unpack_one-Unpacks :
      (f : ZipFile) (fs : List ZipFile) (u u' : Unpacked)
      → Unpacks fs (unpack_one decoding ecosystem u (parsed f)) u'
      → Unpacks (f ∷ fs) u u'
  unpack_one-Unpacks f fs u u' h = elim (Option-cases (parsed f)) [
    | inl e ↦ (rw e (rw e at h).0, rw e (omega (arith, (rw e at h).1)))
    | inr (v, e) ↦ (
      rw (e, ← with_source-attributed v)
          ((rw e at h).0 ∙ append_assoc u.vulns (with_source ecosystem v ∷ []) (records fs)),
      rw e (omega (arith, (rw e at h).1)),
    )
  ]

  unpack_files-Unpacks :
      (fs : List ZipFile) (u : Unpacked)
      → Unpacks (filter holds_record fs) u (unpack_files decoding ecosystem fs u)
  unfolding unpack_files
  unpack_files-Unpacks [] u = (sym (append-nil u.vulns), omega arith)
  unpack_files-Unpacks (f ∷ fs) u =
      one_file (is_record f) (holds_record f) (passes_over f) (unpack_files-Unpacks fs)
    where
      one_file :
          (reads holds : Bool)
          → reads ≡ holds
          → ((u' : Unpacked)
              → Unpacks (filter holds_record fs) u' (unpack_files decoding ecosystem fs u'))
          → Unpacks (if holds then f ∷ filter holds_record fs else filter holds_record fs) u (
              unpack_files decoding ecosystem fs
                (if not reads then u else unpack_one decoding ecosystem u (parsed f)))
      one_file true true e rest =
          unpack_one-Unpacks f (filter holds_record fs) u _
            (rest (unpack_one decoding ecosystem u (parsed f)))
      one_file false false e rest = rest u
      one_file true false e rest = absurd (cc)
      one_file false true e rest = absurd (cc)

  -- Of an archive that can be opened, the files count that are no directory and whose names end in
  -- .json: the result is the records of those that can be read and parsed, in the order of the
  -- archive, each with the ecosystem of the archive where it names none, and the number of errors
  -- is that of the others among them.
  pub parse_zip_lem :
      (fs : List ZipFile)
      → let files = filter (λ f. not f.is_dir && has_suffix f.name ".json") fs in
        parse_zip decoding ecosystem (some fs)
        ≡ some (record { vulns = records files; parse_errors = count_by is_unreadable files })
  unfolding parse_zip
  parse_zip_lem fs =
      let (vulns, errors) = unpack_files-Unpacks fs (record { vulns = []; parse_errors = 0 }) in
      ap some (made_of _ _ _ vulns (omega (arith, errors)))
    where
      made_of :
          (u : Unpacked) (vs : List Vulnerability) (n : ℕ)
          → u.vulns ≡ vs
          → u.parse_errors ≡ n
          → u ≡ record { vulns = vs; parse_errors = n }
      made_of u vs n e d = rw (← e, ← d) refl
