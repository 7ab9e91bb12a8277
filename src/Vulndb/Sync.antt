-- ===== src/Vulndb/Sync.antt =====
-- internal/vulndb/sync/syncer.go: downloads, and the feed of modified records with its deltas.
pub mod Order
pub mod Downloads
pub mod Feed
pub mod Delta
pub mod Cursor
pub mod Seeding
pub mod Unpacking
pub mod Pool
pub mod Scheduler
mod Examples
use dependency_guardian.Prelude.{
  ℕ, zero, suc, ◌*◌, ◌-◌, ◌^◌, String, Bool, true, not, ◌||◌, Option, none, some, List, [], ◌∷◌,
  map, filter, eqb, leb, if◌then◌else◌, ◌==◌, cut_char, cut_last,
}
use dependency_guardian.Prelude.Lines.{scan_lines, scan_fails, trim_space}
use dependency_guardian.Http.{Incoming}

-- The network over the time of a synchronisation: the answer to a request and a wait both change the
-- world, and a wait may end because the context is cancelled. `limited` is what io.LimitReader
-- leaves of a body at the limit of 4 GiB.
pub record Web : Type 1 where
  pub World : Type 0
  pub makes_request : String → Bool
  pub get : String → World → Option Incoming × World
  pub wait : (seconds : ℕ) → World → Bool × World
  pub now : World → ℕ
  pub limited : String → String

-- maxRetries
abbrev pub max_retries : ℕ
max_retries = 3

-- What one round of `downloadFile` comes to.
pub data Attempt : Type 0 where
  answered : String → Attempt
  given_up : Attempt
  to_retry : Attempt

-- modifiedEntry
pub record ModifiedEntry : Type 0 where
  pub modified_date : String
  pub ecosystem_dir : String
  pub id : String

-- ecoAndID, cut at its last slash.
abbrev pub entry_at : String → Option (String × String) → Option ModifiedEntry
entry_at date none = none
entry_at date (some (dir, id)) =
    some (record { modified_date = date; ecosystem_dir = dir; id = id })

-- The parts of a line, cut at its first comma.
abbrev pub entry_of_parts : Option (String × String) → Option ModifiedEntry
entry_of_parts none = none
entry_of_parts (some (date, path)) = entry_at (trim_space date) (cut_last (trim_space path) "/")

-- The entry of a line, if it is one.
unfoldable pub parse_line : String → Option ModifiedEntry
unfolding cut_char cut_last trim_space
parse_line line = if line == "" then none else entry_of_parts (cut_char b',' line)

abbrev pub with_entry : Option ModifiedEntry → List ModifiedEntry → List ModifiedEntry
with_entry none entries = entries
with_entry (some e) entries = e ∷ entries

-- The loop over the lines.
unfoldable pub parse_lines : List String → List ModifiedEntry
unfolding parse_line trim_space
parse_lines [] = []
parse_lines (line ∷ lines) = with_entry (parse_line (trim_space line)) (parse_lines lines)

-- parseModifiedCSV: `none` for an error of the scanner.
unfoldable pub parse_modified_csv : String → Option (List ModifiedEntry)
unfolding parse_lines scan_lines scan_fails
parse_modified_csv text = if scan_fails text then none else some (parse_lines (scan_lines text))

module _ (web : Web) where
  abbrev attempt_of : Option Incoming → Attempt
  attempt_of none = to_retry
  attempt_of (some resp) =
      if not (eqb resp.status_code 200)
      then (if leb 500 resp.status_code || eqb resp.status_code 429 then to_retry else given_up)
      else if resp.body_failed
      then to_retry
      else answered (web.limited resp.body)

  -- The delay before a retry: 2, 4 and 8 seconds.
  abbrev pause : ℕ → web.World → Bool × web.World
  pause zero w = (true, w)
  pause (suc k) w = web.wait (2 * 2 ^ k) w

  -- The body of the loop of `downloadFile`, for the attempt of a number.
  unfoldable pub attempt : String → ℕ → web.World → Attempt × web.World
  attempt url k w =
      let (goes_on, w1) = pause k w in
      if not goes_on
      then (given_up, w1)
      else if not (web.makes_request url)
      then (given_up, w1)
      else (let (resp, w2) = web.get url w1 in (attempt_of resp, w2))

  -- What follows a round: the answer, an error, or the rounds that are left.
  abbrev pub follow :
      Attempt × web.World → (web.World → Option String × web.World) → Option String × web.World
  follow (answered body, w) rest = (some body, w)
  follow (given_up, w) rest = (none, w)
  follow (to_retry, w) rest = rest w

  -- The loop of `downloadFile` from the attempt of a number, with the rounds that are left.
  unfoldable pub download_rounds : String → (rounds k : ℕ) → web.World → Option String × web.World
  unfolding attempt
  download_rounds url zero k w = (none, w)
  download_rounds url (suc rounds) k w =
      follow (attempt url k w) (λ w'. download_rounds url rounds (suc k) w')

  -- downloadFile: `none` for an error.
  unfoldable pub download_file : String → web.World → Option String × web.World
  unfolding download_rounds
  download_file url w = download_rounds url (suc max_retries) 0 w

  -- FetchEcosystems: `none` for an error, also one of the scanner.
  abbrev listed : Option Incoming → Option (List String)
  listed none = none
  listed (some resp) =
      if not (eqb resp.status_code 200)
      then none
      else if resp.body_failed || scan_fails resp.body
      then none
      else some (filter (λ eco. not (eco == "")) (map trim_space (scan_lines resp.body)))

  unfoldable pub fetch_ecosystems : web.World → Option (List String) × web.World
  unfolding scan_lines scan_fails trim_space
  fetch_ecosystems w =
      let url : String = "https://storage.googleapis.com/osv-vulnerabilities/ecosystems.txt" in
      if not (web.makes_request url)
      then (none, w)
      else (let (resp, w') = web.get url w in (listed resp, w'))
