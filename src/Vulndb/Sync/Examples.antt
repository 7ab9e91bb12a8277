-- ===== src/Vulndb/Sync/Examples.antt =====
-- A network that fails once and then answers, and feeds and archives on which the synchronisation runs.
use dependency_guardian.Prelude.{
  ℕ, zero, suc, ◌<◌, ◌≤◌, arith, ◌+◌, String, ◌≡◌, refl, ◌⊎◌, ◌↔◌, true, false, not, ◌&&◌, ◌||◌,
  Option, none, some, List, [], ◌∷◌, filter, less, if◌then◌else◌, ◌==◌, Elem, has_suffix, count_by,
  trim_suffix,
}
use dependency_guardian.Prelude.Lines.{trim_space, trim_left_space, trim_right_space, byte_length}
use dependency_guardian.Http.{Incoming}
use dependency_guardian.Samples.{sample_codec}
use dependency_guardian.Vulndb.Parser.{RawVulnerability}
use dependency_guardian.Vulndb.Sync.{Web, ModifiedEntry, download_file, parse_modified_csv}
use dependency_guardian.Vulndb.Sync.Downloads.{Answers, download_file-Answers}
use dependency_guardian.Vulndb.Sync.Feed.{IsPrintable, print_feed, parse_modified_csv-print_feed}
use dependency_guardian.Vulndb.Sync.Delta.{Decoding, new_entries, next_cursor}
use dependency_guardian.Vulndb.Sync.Cursor.{latest_of, fetched_of, next_cursor-new_entries}
use dependency_guardian.Vulndb.Sync.Seeding.{ZipFile, parse_zip}
use dependency_guardian.Prelude.Int.{pos}
use dependency_guardian.Vulndb.Sync.Pool.{
  Pool, initial_pool, Step, start, succeed, Run, here, next, IsDone, times, work,
  Run-IsSound_progress,
}
use dependency_guardian.Vulndb.Sync.Unpacking.{records, is_unreadable, parse_zip_lem}

-- One worker seeds npm.
abbrev seeded : Pool
seeded = record {
  waiting = [];
  running = [];
  finished = "npm" ∷ [];
  failed = [];
  cancelled = false;
}

seeding : Run (pos 0) (initial_pool ("npm" ∷ [])) seeded
seeding =
    next (next here (start "npm" [] (initial_pool ("npm" ∷ [])) refl refl (omega arith)))
      (succeed "npm" [] [] _ refl)

Run-IsSound_progress_example :
    (0 ≤ 1)
    × ((eco : String) → times eco [] + times eco ("npm" ∷ []) ≤ times eco ("npm" ∷ []))
    × ((false ≡ true)
        ⊎ ((eco : String)
            → times eco [] + (times eco [] + times eco ("npm" ∷ [])) ≡ times eco ("npm" ∷ [])))
    × (IsDone seeded ⊎ ((q : Pool) × Step (pos 0) seeded q × (work q < work seeded)))
Run-IsSound_progress_example = Run-IsSound_progress (pos 0) ("npm" ∷ []) seeded seeding

-- Requests are counted: the first one fails, and each later one is answered.
abbrev reply : ℕ → Option Incoming
reply zero = none
reply (suc n) = some (record { status_code = 200; header = []; body = "{}"; body_failed = false })

abbrev sample_web : Web
sample_web = record {
  World = ℕ;
  makes_request = λ url. true;
  get = λ url n. (reply n, suc n);
  wait = λ seconds n. (true, n);
  now = λ n. n;
  limited = λ body. body;
}

abbrev sample_record : RawVulnerability
sample_record = record {
  schema_version = "1";
  id = "B";
  modified = "2026";
  published = "";
  withdrawn = "";
  aliases = [];
  related = [];
  summary = "";
  details = "";
  severity = [];
  affected = [];
  references = [];
  credits = [];
  database_specific = none;
}

-- The text {} stands for the record.
abbrev sample_decoding : Decoding
sample_decoding = record {
  time_parse = λ layout text. some 1;
  unmarshal = λ text. if text == "{}" then some sample_record else none;
  codec = sample_codec;
}

download_file-Answers_example :
    (download_file sample_web "u" 0 ≡ (some "{}", 2)) ↔ Answers sample_web "u" 4 0 0 "{}" 2
download_file-Answers_example = download_file-Answers sample_web "u" 0 "{}" 2

abbrev entry : (date dir id : String) → ModifiedEntry
entry date dir id = record { modified_date = date; ecosystem_dir = dir; id = id }

abbrev entries : List ModifiedEntry
entries = entry "2026-02" "npm" "B" ∷ entry "2026-01" "npm" "A" ∷ []

next_cursor-new_entries_example :
    let latest = latest_of sample_web sample_decoding "2026-01" entries 0 in
    let fetched = fetched_of sample_web sample_decoding (new_entries "2026-01" entries) 0 in
    ((e : ModifiedEntry) → Elem e fetched → less latest e.modified_date ≡ false)
    × ((latest ≡ "") ⊎ ((e : ModifiedEntry) × Elem e fetched × (e.modified_date ≡ latest)))
    × ((next_cursor "2026-01" latest ≡ "2026-01")
        ⊎ (less "2026-01" (next_cursor "2026-01" latest) ≡ true))
    × (new_entries (next_cursor "2026-01" latest) entries
        ≡ filter (λ e. latest == "" || less latest e.modified_date) (new_entries "2026-01" entries))
next_cursor-new_entries_example =
    next_cursor-new_entries sample_web sample_decoding "2026-01" entries 0

printable : IsPrintable (entry "1" "n" "A")
unfolding trim_suffix trim_space trim_left_space trim_right_space byte_length
printable = record {
  no_comma = (refl, tt);
  no_slash = (refl, tt);
  one_line = (refl, (refl, (refl, (refl, (refl, tt)))));
  short = omega arith;
  no_return = refl;
  trimmed_date = refl;
  trimmed_path = refl;
  trimmed_line = refl;
}

parse_modified_csv-print_feed_example :
    parse_modified_csv (print_feed (entry "1" "n" "A" ∷ [])) ≡ some (entry "1" "n" "A" ∷ [])
parse_modified_csv-print_feed_example =
    parse_modified_csv-print_feed (entry "1" "n" "A" ∷ []) (printable, tt)

-- A record, a text that is none, another file, and a directory.
abbrev files : List ZipFile
files =
    record { name = "a.json"; is_dir = false; content = some "{}" }
    ∷ record { name = "b.json"; is_dir = false; content = some "{" }
    ∷ record { name = "readme"; is_dir = false; content = some "{}" }
    ∷ record { name = "c.json"; is_dir = true; content = none }
    ∷ []

parse_zip_lem_example :
    let chosen = filter (λ f. not f.is_dir && has_suffix f.name ".json") files in
    parse_zip sample_decoding "npm" (some files)
    ≡ some (record {
      vulns = records sample_decoding "npm" chosen;
      parse_errors = count_by (is_unreadable sample_decoding "npm") chosen;
    })
parse_zip_lem_example = parse_zip_lem sample_decoding "npm" files
