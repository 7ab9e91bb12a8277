-- ===== src/Decisions/History.antt =====
-- The log against the whole history of the decisions recorded in it.
use dependency_guardian.Prelude.{
  ℕ, suc, ◌+◌, ◌-◌, ◌≤◌, ◌<◌, String, ◌≡◌, refl, sym, ap, ◌∙◌, inl, inr, Bool, true, false, not,
  ◌&&◌, List, [], ◌∷◌, ◌++◌, arith, length, drop, length-append, length-drop, drop-append,
  drop_rest, drop_all, count_by, count_by-append, leb, if◌then◌else◌, ◌==◌, eq_iff, Bool-cases,
}
use dependency_guardian.Prelude.Int.{ℤ, pos, int64, incr64, incr64-int64}
use dependency_guardian.Prelude.Dict.{Dict, lookup, lookup-insert}
use dependency_guardian.Decisions.{
  Entry, Log, Call, new_log, counter, bump, shift_down, set_last, push, entry_of, record_decision,
}

set_last-shift_down :
    (x : Entry) (xs : List Entry) (e : Entry) → set_last (shift_down (x ∷ xs)) e ≡ xs ++ e ∷ []
unfolding set_last shift_down
set_last-shift_down x [] e = refl
set_last-shift_down x (y ∷ []) e = refl
set_last-shift_down x (y ∷ z ∷ xs) e = ap (λ t. y ∷ t) (set_last-shift_down y (z ∷ xs) e)

-- The last `max` entries of a history.
abbrev pub window : ℕ → List Entry → List Entry
window max h = drop (length h - max) h

length-window : (max : ℕ) (h : List Entry) → length (window max h) ≤ max
length-window max h = omega (arith, length-drop (length h - max) h)

push_full :
    (max : ℕ) (h : List Entry) (e : Entry) {x : Entry} {xs : List Entry}
    → max ≤ length h
    → 0 < max
    → drop (length h - max) h ≡ x ∷ xs
    → push max (x ∷ xs) e ≡ window max (h ++ e ∷ [])
unfolding push
push_full max h e {x} {xs} full positive w =
    let long : leb max (length (x ∷ xs)) ≡ true =
      ground (arith, ap (λ (l : List Entry). length l) w, length-drop (length h - max) h) in
    let moved : length (h ++ e ∷ []) - max ≡ suc (length h - max) =
      omega (arith, length-append h (e ∷ [])) in
    rw (long, moved)
      (set_last-shift_down x xs e
        ∙ ap (λ t. t ++ e ∷ []) (sym (drop_rest (length h - max) h w))
        ∙ sym (drop-append (suc (length h - max)) h (e ∷ []) (omega arith)))

push_room :
    (max : ℕ) (h : List Entry) (e : Entry)
    → length h < max
    → push max (window max h) e ≡ window max (h ++ e ∷ [])
unfolding push
push_room max h e room =
    let short : leb max (length h) ≡ false = ground arith in
    rw (
      drop_all (length h - max) h (omega arith),
      drop_all (length (h ++ e ∷ []) - max) (h ++ e ∷ []) (omega (arith, length-append h (e ∷ []))),
      short,
    )

split_window : (l : List Entry) → 0 < length l → (x : Entry) × (xs : List Entry) × (l ≡ x ∷ xs)
split_window [] h = elim h [ ]
split_window (x ∷ xs) h = (x, xs, refl)

-- The bounded buffer keeps the window of a history that grows by one entry.
pub push-window :
    (max : ℕ) (h : List Entry) (e : Entry)
    → 0 < max
    → push max (window max h) e ≡ window max (h ++ e ∷ [])
push-window max h e positive = elim (Bool-cases (leb max (length h))) [
  | inl full ↦
      let (x, xs, w) =
        split_window (window max h) (ground (arith, length-drop (length h - max) h)) in
      rw w (push_full max h e (ground arith) positive w)
  | inr room ↦ push_room max h e (ground arith)
]

abbrev pub of_ecosystem : String → Entry → Bool
of_ecosystem k e = e.ecosystem == k

abbrev pub denied_of : String → Entry → Bool
denied_of k e = e.ecosystem == k && not e.allowed

-- The log `l` of size `max` is what a history `h` leaves: the last `max` entries, and the counts of
-- all of them in int64 arithmetic.
pub record Represents (max : ℕ) (h : List Entry) (l : Log) : Type 0 where
  pub positive : 0 < max
  pub size : l.max_size ≡ max
  pub entries : l.entries ≡ window max h
  pub next_id : l.next_id ≡ int64 (length h)
  pub requests : l.total_requests ≡ int64 (length h)
  pub allowed : l.total_allowed ≡ int64 (count_by (λ e. e.allowed) h)
  pub denied : l.total_denied ≡ int64 (count_by (λ e. not e.allowed) h)
  pub by_ecosystem :
      (k : String) → counter (lookup k l.by_ecosystem) ≡ int64 (count_by (of_ecosystem k) h)
  pub denied_by_eco :
      (k : String) → counter (lookup k l.denied_by_eco) ≡ int64 (count_by (denied_of k) h)

counter-bump :
    (k j : String) (m : Dict ℤ)
    → counter (lookup j (bump k m))
      ≡ (if k == j then incr64 (counter (lookup j m)) else counter (lookup j m))
unfolding bump
counter-bump k j m = rw lookup-insert (ground (arith, eq_iff k j))

-- One more entry in the history is one more, or the same, in a counter.
count_snoc :
    (p : Entry → Bool) (h : List Entry) (e : Entry)
    → int64 (count_by p (h ++ e ∷ []))
      ≡ (if p e then incr64 (int64 (count_by p h)) else int64 (count_by p h))
count_snoc p h e = elim (Bool-cases (p e)) [
  | inl yes_p ↦ rw yes_p (
      ap int64 (omega (arith, count_by-append p h (e ∷ []), one yes_p))
      ∙ sym (incr64-int64 (count_by p h)))
  | inr no_p ↦ rw no_p (ap int64 (omega (arith, count_by-append p h (e ∷ []), none_p no_p)))
]
  where
    one : p e ≡ true → count_by p (e ∷ []) ≡ 1
    one h' = rw h' refl

    none_p : p e ≡ false → count_by p (e ∷ []) ≡ 0
    none_p h' = rw h' refl

length_snoc :
    (h : List Entry) (e : Entry) → incr64 (int64 (length h)) ≡ int64 (length (h ++ e ∷ []))
length_snoc h e = incr64-int64 (length h) ∙ ap int64 (sym (length-append h (e ∷ [])))

-- The entry that `Record` makes as the next one of a history.
abbrev pub next_entry : List Entry → ℕ → Call → Entry
next_entry h now c = entry_of (int64 (length h + 1)) now c

module _ {max : ℕ} {h : List Entry} {l : Log} (r : Represents max h l) (now : ℕ) (c : Call) where
  id_lem : incr64 l.next_id ≡ int64 (length h + 1)
  id_lem = ap incr64 r.next_id ∙ incr64-int64 (length h)

  entries_lem :
      push l.max_size l.entries (entry_of (incr64 l.next_id) now c)
      ≡ window max (h ++ next_entry h now c ∷ [])
  entries_lem = rw (id_lem, r.size, r.entries) (push-window max h (next_entry h now c) r.positive)

  pub record_decision-Represents :
      Represents max (h ++ next_entry h now c ∷ []) (record_decision l now c)
  unfolding record_decision
  record_decision-Represents = record {
    positive = r.positive;
    size = r.size;
    entries = entries_lem;
    next_id = rw r.next_id (length_snoc h (next_entry h now c));
    requests = rw r.requests (length_snoc h (next_entry h now c));
    allowed = sym (count_snoc (λ e. e.allowed) h (next_entry h now c) ∙ same_allowed);
    denied = sym (count_snoc (λ e. not e.allowed) h (next_entry h now c) ∙ same_denied);
    by_ecosystem = λ k.
        counter-bump c.ecosystem k l.by_ecosystem
        ∙ sym (count_snoc (of_ecosystem k) h (next_entry h now c) ∙ same_ecosystem k);
    denied_by_eco = λ k. sym (count_snoc (denied_of k) h (next_entry h now c) ∙ same_denied_of k);
  }
    where
      same_allowed :
          (if c.allowed
            then incr64 (int64 (count_by (λ e. e.allowed) h))
            else int64 (count_by (λ e. e.allowed) h))
          ≡ (if c.allowed then incr64 l.total_allowed else l.total_allowed)
      same_allowed = rw r.allowed refl

      same_denied :
          (if not c.allowed
            then incr64 (int64 (count_by (λ e. not e.allowed) h))
            else int64 (count_by (λ e. not e.allowed) h))
          ≡ (if c.allowed then l.total_denied else incr64 l.total_denied)
      same_denied = rw r.denied (ground arith)

      same_ecosystem :
          (k : String)
          → (if c.ecosystem == k
              then incr64 (int64 (count_by (of_ecosystem k) h))
              else int64 (count_by (of_ecosystem k) h))
            ≡ (if c.ecosystem == k
                then incr64 (counter (lookup k l.by_ecosystem))
                else counter (lookup k l.by_ecosystem))
      same_ecosystem k = rw (r.by_ecosystem k) refl

      same_denied_of :
          (k : String)
          → (if c.ecosystem == k && not c.allowed
              then incr64 (int64 (count_by (denied_of k) h))
              else int64 (count_by (denied_of k) h))
            ≡ counter
                (lookup k (if c.allowed then l.denied_by_eco else bump c.ecosystem l.denied_by_eco))
      same_denied_of k =
          ground (arith, r.denied_by_eco k, counter-bump c.ecosystem k l.denied_by_eco)

-- The calls of `Record`, each with the time at which it is made.
abbrev pub Calls : Type 0
Calls = List (ℕ × Call)

unfoldable pub run : Log → Calls → Log
run l [] = l
run l ((now, c) ∷ calls) = run (record_decision l now c) calls

-- The entries that a sequence of calls adds behind a history.
unfoldable pub history_from : List Entry → Calls → List Entry
history_from h [] = h
history_from h ((now, c) ∷ calls) = history_from (h ++ next_entry h now c ∷ []) calls

-- A log that represents a history represents, after any calls, the history with their entries.
pub run-Represents :
    {max : ℕ} (h : List Entry) (l : Log) (calls : Calls)
    → Represents max h l
    → Represents max (history_from h calls) (run l calls)
unfolding run history_from
run-Represents h l [] r = r
run-Represents h l ((now, c) ∷ calls) r =
    run-Represents (h ++ next_entry h now c ∷ []) (record_decision l now c) calls
      (record_decision-Represents r now c)

pub new_log-Represents : (n now : ℕ) → 0 < n → Represents n [] (new_log (pos n) now)
unfolding new_log lookup int64
new_log-Represents n now positive = record {
  positive = positive;
  size = ground arith;
  entries = ground arith;
  next_id = refl;
  requests = refl;
  allowed = refl;
  denied = refl;
  by_ecosystem = λ k. refl;
  denied_by_eco = λ k. refl;
}

-- Every call leaves a log of at most its size, numbered and counted as the calls that were made: a
-- log of a positive size, after any calls of Record, holds the last entries of the whole history,
-- and its counters are the int64 counts of the history.
pub run-new_log :
    (n now : ℕ) (calls : Calls)
    → 0 < n
    → Represents n (history_from [] calls) (run (new_log (pos n) now) calls)
run-new_log n now calls positive =
    run-Represents [] (new_log (pos n) now) calls (new_log-Represents n now positive)

-- The log never holds more entries than its size.
pub length-run-le :
    (n now : ℕ) (calls : Calls) → 0 < n → length (run (new_log (pos n) now) calls).entries ≤ n
length-run-le n now calls positive =
    let r = run-new_log n now calls positive in
    rw r.entries (length-window n (history_from [] calls))
