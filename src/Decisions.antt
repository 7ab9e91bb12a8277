-- ===== src/Decisions.antt =====
-- internal/decisions: the bounded decision log that the editor extension polls. Each method is a
-- function on the log; the mutex makes each one atomic, so a run is a sequence of calls. The time is
-- an argument, in nanoseconds.
pub mod History
pub mod Queries
mod Examples
use mathlib.Core.List.{reverse}
use dependency_guardian.Prelude.{
  ℕ, zero, suc, ◌-◌, ◌%◌, String, Bool, not, ◌&&◌, ◌||◌, Option, none, some, List, [], ◌∷◌, ◌++◌,
  length, take, filter, leb, if◌then◌else◌, ◌==◌,
}
use dependency_guardian.Prelude.Int.{ℤ, pos, pos_part, leb_ℤ, ltb_ℤ, incr64}
use dependency_guardian.Prelude.Decimal.{atoi}
use dependency_guardian.Prelude.Dict.{Dict, lookup, insert}

pub record Entry : Type 0 where
  pub id : ℤ
  pub timestamp : ℕ
  pub ecosystem : String
  pub package_name : String
  pub version : String
  pub allowed : Bool
  pub reasons : List String
  pub vulnerabilities : ℕ

pub record Stats : Type 0 where
  pub total_requests : ℤ
  pub total_allowed : ℤ
  pub total_denied : ℤ
  pub by_ecosystem : Dict ℤ
  pub denied_by_ecosystem : Dict ℤ
  pub recent_denied : List Entry
  pub uptime : ℕ

pub record Log : Type 0 where
  pub entries : List Entry
  pub max_size : ℕ
  pub next_id : ℤ
  pub start_time : ℕ
  pub total_requests : ℤ
  pub total_allowed : ℤ
  pub total_denied : ℤ
  pub by_ecosystem : Dict ℤ
  pub denied_by_eco : Dict ℤ

-- NewLog
unfoldable pub new_log : ℤ → ℕ → Log
new_log max_size now = record {
  entries = [];
  max_size = if leb_ℤ max_size (pos 0) then 1000 else pos_part max_size;
  next_id = pos 0;
  start_time = now;
  total_requests = pos 0;
  total_allowed = pos 0;
  total_denied = pos 0;
  by_ecosystem = [];
  denied_by_eco = [];
}

-- What a read of a map of counters gives: zero on a missing key.
abbrev pub counter : Option ℤ → ℤ
counter none = pos 0
counter (some n) = n

-- m[k]++
unfoldable pub bump : String → Dict ℤ → Dict ℤ
bump k m = insert k (incr64 (counter (lookup k m))) m

-- copy(l.entries, l.entries[1:]): the last place keeps its entry.
unfoldable pub shift_down : List Entry → List Entry
shift_down [] = []
shift_down (e ∷ []) = e ∷ []
shift_down (e ∷ f ∷ es) = f ∷ shift_down (f ∷ es)

-- l.entries[len(l.entries)-1] = entry
unfoldable pub set_last : List Entry → Entry → List Entry
set_last [] entry = []
set_last (e ∷ []) entry = entry ∷ []
set_last (e ∷ f ∷ es) entry = e ∷ set_last (f ∷ es) entry

unfoldable pub push : ℕ → List Entry → Entry → List Entry
unfolding shift_down set_last
push max_size entries entry =
    if leb max_size (length entries)
    then set_last (shift_down entries) entry
    else entries ++ entry ∷ []

-- The arguments of `Record`.
pub record Call : Type 0 where
  pub ecosystem : String
  pub package_name : String
  pub version : String
  pub allowed : Bool
  pub reasons : List String
  pub vuln_count : ℕ

unfoldable pub entry_of : ℤ → ℕ → Call → Entry
entry_of id now c = record {
  id = id;
  timestamp = now;
  ecosystem = c.ecosystem;
  package_name = c.package_name;
  version = c.version;
  allowed = c.allowed;
  reasons = c.reasons;
  vulnerabilities = c.vuln_count;
}

-- Log.Record
unfoldable pub record_decision : Log → ℕ → Call → Log
unfolding entry_of
record_decision l now c =
    let id = incr64 l.next_id in
    record {
      entries = push l.max_size l.entries (entry_of id now c);
      max_size = l.max_size;
      next_id = id;
      start_time = l.start_time;
      total_requests = incr64 l.total_requests;
      total_allowed = if c.allowed then incr64 l.total_allowed else l.total_allowed;
      total_denied = if c.allowed then l.total_denied else incr64 l.total_denied;
      by_ecosystem = bump c.ecosystem l.by_ecosystem;
      denied_by_eco = if c.allowed then l.denied_by_eco else bump c.ecosystem l.denied_by_eco;
    }

-- The number of entries that `Recent` returns.
unfoldable pub recent_size : ℤ → ℕ → ℕ
recent_size n total = if leb_ℤ n (pos 0) || ltb_ℤ (pos total) n then total else pos_part n

-- Log.Recent: place i of the result is place total - 1 - i of the entries.
unfoldable pub recent : Log → ℤ → List Entry
unfolding recent_size
recent l n = take (recent_size n (length l.entries)) (reverse l.entries)

-- The loop of `GetStats` over the entries from the newest, with `room` places left.
unfoldable pub collect_denied : ℕ → List Entry → List Entry
collect_denied zero es = []
collect_denied (suc room) [] = []
collect_denied (suc room) (e ∷ es) =
    let skipped = collect_denied (suc room) es in
    let kept = e ∷ collect_denied room es in if not e.allowed then kept else skipped

abbrev pub second : ℕ
second = 1000000000

-- Log.GetStats; the uptime is the duration cut to whole seconds.
unfoldable pub get_stats : Log → ℕ → Stats
get_stats l now = record {
  total_requests = l.total_requests;
  total_allowed = l.total_allowed;
  total_denied = l.total_denied;
  by_ecosystem = l.by_ecosystem;
  denied_by_ecosystem = l.denied_by_eco;
  recent_denied = collect_denied 50 (reverse l.entries);
  uptime = now - l.start_time - (now - l.start_time) % second;
}

abbrev limit_of : Option ℤ → ℤ
limit_of none = pos 100
limit_of (some n) = if ltb_ℤ (pos 0) n && leb_ℤ n (pos 1000) then n else pos 100

-- The query parameter `limit`.
unfoldable pub parse_limit : String → ℤ
parse_limit q = if q == "" then pos 100 else limit_of (atoi q)

unfoldable pub filter_entries : String → List Entry → List Entry
filter_entries f es =
    if f == "denied"
    then filter (λ e. not e.allowed) es
    else if f == "allowed"
    then filter (λ e. e.allowed) es
    else es

-- Log.HandleDecisions: the entries that are encoded, from the parameters `limit` and `filter`.
unfoldable pub handle_decisions : Log → String → String → List Entry
handle_decisions l limit f = filter_entries f (recent l (parse_limit limit))
