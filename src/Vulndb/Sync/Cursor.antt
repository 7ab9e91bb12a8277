-- ===== src/Vulndb/Sync/Cursor.antt =====
-- The cursor of a delta in internal/vulndb/sync/syncer.go, from one run to the next.
use dependency_guardian.Prelude.{
  String, ◌≡◌, refl, sym, ◌∙◌, ◌⊎◌, inl, inr, Bool, true, false, ◌&&◌, ◌||◌, Bool-cases, Option,
  none, some, List, [], ◌∷◌, filter, less, ◌==◌, if◌then◌else◌, All, Elem, arith, filter-filter,
  filter_ext, eq_iff,
}
use Prim.Native.String.{[], ◌∷◌}
use dependency_guardian.Vulndb.Models.{Vulnerability}
use dependency_guardian.Vulndb.Sync.{Web, ModifiedEntry}
use dependency_guardian.Vulndb.Sync.Order.{less_trans, less_irrefl}
use dependency_guardian.Vulndb.Sync.Delta.{
  Decoding, is_new, new_entries, next_cursor, Fetched, gather, fetch_vulnerability, fetch_entries,
  nothing_fetched,
}

-- Is a text a date newer than the cursor, or ""?
abbrev is_later : String → String → Bool
is_later cursor t = t == "" || (cursor == "" || less cursor t)

-- The test of the next run, for an entry.
next_is_new :
    (cursor latest : String) (e : ModifiedEntry)
    → is_later cursor latest ≡ true
    → (is_new cursor e && (latest == "" || less latest e.modified_date))
      ≡ is_new (next_cursor cursor latest) e
unfolding next_cursor
next_is_new cursor latest e h = ground (arith, less_trans cursor latest e.modified_date)

-- The order of no text on a text is that of its being there.
less-empty : (t : String) → (t == "" ≡ true) ⊎ (less "" t ≡ true)
unfolding less
less-empty [] = inl refl
less-empty (c ∷ t) = inr refl

next_cursor-later :
    (cursor latest : String)
    → is_later cursor latest ≡ true
    → (next_cursor cursor latest ≡ cursor) ⊎ (less cursor (next_cursor cursor latest) ≡ true)
unfolding next_cursor
next_cursor-later cursor latest h = grind (arith, less-empty latest, eq_iff cursor "")

All-is_later :
    (cursor : String) (entries : List ModifiedEntry)
    → All (λ e. is_later cursor e.modified_date ≡ true) (new_entries cursor entries)
unfolding new_entries
All-is_later cursor [] = tt
All-is_later cursor (e ∷ es) = with_head (Bool-cases (is_new cursor e)) (All-is_later cursor es)
  where
    with_head :
        (is_new cursor e ≡ true) ⊎ (is_new cursor e ≡ false)
        → All (λ e. is_later cursor e.modified_date ≡ true) (filter (is_new cursor) es)
        → All (λ e. is_later cursor e.modified_date ≡ true) (filter (is_new cursor) (e ∷ es))
    with_head (inl new) rest = rw new (later new, rest)
      where
        later : is_new cursor e ≡ true → is_later cursor e.modified_date ≡ true
        later h = ground arith
    with_head (inr old) rest = rw old rest

module _ (web : Web) (decoding : Decoding) where
  -- What holds of the latest date and of all entries' dates holds of the latest date afterwards.
  fetch_entries-latest :
      (P : String → Type 0) (es : List ModifiedEntry) (f : Fetched web decoding)
      → P f.latest
      → All (λ e. P e.modified_date) es
      → P (fetch_entries web decoding es f).latest
  unfolding fetch_entries
  fetch_entries-latest P [] f h hs = h
  fetch_entries-latest P (e ∷ es) f h (he, hs) =
      fetch_entries-latest P es _
        (gather_lem (fetch_vulnerability web decoding e.ecosystem_dir e.id f.world)) hs
    where
      larger : (b : Bool) → P (if b then e.modified_date else f.latest)
      larger true = he
      larger false = h

      gather_lem : (r : Option Vulnerability × web.World) → P (gather web decoding e f r).latest
      gather_lem (none, w) = h
      gather_lem (some v, w) = larger (less f.latest e.modified_date)

  abbrev with_fetched :
      ModifiedEntry → Option Vulnerability → List ModifiedEntry → List ModifiedEntry
  with_fetched e none es = es
  with_fetched e (some v) es = e ∷ es

  -- The entries whose record the network gives, when they are asked for one after the other.
  abbrev pub fetched_of : List ModifiedEntry → web.World → List ModifiedEntry
  fetched_of [] w = []
  fetched_of (e ∷ es) w =
      let (o, w') = fetch_vulnerability web decoding e.ecosystem_dir e.id w in
      with_fetched e o (fetched_of es w')

  -- A date that the latest one is not below stays so.
  gather-keeps :
      (x : String) (e : ModifiedEntry) (f : Fetched web decoding)
      (r : Option Vulnerability × web.World)
      → less f.latest x ≡ false
      → less (gather web decoding e f r).latest x ≡ false
  gather-keeps x e f (none, w) h = h
  gather-keeps x e f (some v, w) h = ground (arith, less_trans f.latest e.modified_date x)

  fetch_entries-keeps :
      (x : String) (es : List ModifiedEntry) (f : Fetched web decoding)
      → less f.latest x ≡ false
      → less (fetch_entries web decoding es f).latest x ≡ false
  unfolding fetch_entries
  fetch_entries-keeps x [] f h = h
  fetch_entries-keeps x (e ∷ es) f h = fetch_entries-keeps x es _ (gather-keeps x e f _ h)

  -- The entry of one round, and the later ones.
  greatest_round :
      (d e : ModifiedEntry) (es : List ModifiedEntry) (f : Fetched web decoding)
      (r : Option Vulnerability × web.World)
      → (Elem e (fetched_of es (gather web decoding d f r).world)
          → less (fetch_entries web decoding es (gather web decoding d f r)).latest e.modified_date
            ≡ false)
      → Elem e (with_fetched d r.0 (fetched_of es r.1))
      → less (fetch_entries web decoding es (gather web decoding d f r)).latest e.modified_date
        ≡ false
  greatest_round d e es f (none, w) rest m = rest m
  greatest_round d e es f (some v, w) rest (inl same) =
      fetch_entries-keeps e.modified_date es _ (rw same this)
    where
      this :
          less (if less f.latest d.modified_date then d.modified_date else f.latest) d.modified_date
          ≡ false
      this = ground (arith, less_irrefl d.modified_date)
  greatest_round d e es f (some v, w) rest (inr m) = rest m

  fetch_entries-greatest :
      (es : List ModifiedEntry) (f : Fetched web decoding) (e : ModifiedEntry)
      → Elem e (fetched_of es f.world)
      → less (fetch_entries web decoding es f).latest e.modified_date ≡ false
  unfolding fetch_entries
  fetch_entries-greatest [] f e m = absurd m
  fetch_entries-greatest (d ∷ es) f e m =
      greatest_round d e es f (fetch_vulnerability web decoding d.ecosystem_dir d.id f.world)
        (fetch_entries-greatest es _ e) m

  -- The latest date is the one before, or that of an entry fetched.
  abbrev IsDated : String → String → List ModifiedEntry → Type 0
  IsDated before t es = (t ≡ before) ⊎ ((e : ModifiedEntry) × Elem e es × (e.modified_date ≡ t))

  round-IsDated :
      (d : ModifiedEntry) (es : List ModifiedEntry) (f : Fetched web decoding)
      (r : Option Vulnerability × web.World) (t : String)
      → IsDated
          (gather web decoding d f r).latest
          t
          (fetched_of es (gather web decoding d f r).world)
      → IsDated f.latest t (with_fetched d r.0 (fetched_of es r.1))
  round-IsDated d es f (none, w) t h = h
  round-IsDated d es f (some v, w) t (inl same) =
      elim (Bool-cases (less f.latest d.modified_date)) [
        | inl newer ↦ inr (d, inl refl, sym (rw newer at same))
        | inr older ↦ inl (rw older at same)
      ]
  round-IsDated d es f (some v, w) t (inr (e, m, date)) = inr (e, inr m, date)

  fetch_entries-IsDated :
      (es : List ModifiedEntry) (f : Fetched web decoding)
      → IsDated f.latest (fetch_entries web decoding es f).latest (fetched_of es f.world)
  unfolding fetch_entries
  fetch_entries-IsDated [] f = inl refl
  fetch_entries-IsDated (d ∷ es) f =
      round-IsDated d es f (fetch_vulnerability web decoding d.ecosystem_dir d.id f.world) _
        (fetch_entries-IsDated es _)

  -- The date that the entries newer than a cursor leave as the latest.
  abbrev pub latest_of : String → List ModifiedEntry → web.World → String
  latest_of cursor entries w =
      (fetch_entries web decoding (new_entries cursor entries)
        (nothing_fetched web decoding w)).latest

  -- For all cursors and feeds, and whatever the network answers: the latest date of a delta is the
  -- greatest of the entries newer than the cursor whose record the network gives (none of them has a
  -- greater one, and it is the date of one of them, or ""); behind the delta the cursor is the old one
  -- or a newer date (any date is newer than no cursor), so that it never goes back; and of this run's
  -- entries the next run takes those, in the same order, that are newer than the latest date, or all
  -- where there is none. An older entry is not taken again, fetched or not.
  pub next_cursor-new_entries :
      (cursor : String) (entries : List ModifiedEntry) (w : web.World)
      → let latest = latest_of cursor entries w in
        let fetched = fetched_of (new_entries cursor entries) w in
        ((e : ModifiedEntry) → Elem e fetched → less latest e.modified_date ≡ false)
        × ((latest ≡ "") ⊎ ((e : ModifiedEntry) × Elem e fetched × (e.modified_date ≡ latest)))
        × ((next_cursor cursor latest ≡ cursor) ⊎ (less cursor (next_cursor cursor latest) ≡ true))
        × (new_entries (next_cursor cursor latest) entries
            ≡ filter
                (λ e. latest == "" || less latest e.modified_date)
                (new_entries cursor entries))
  unfolding new_entries
  next_cursor-new_entries cursor entries w =
      let start = nothing_fetched web decoding w in
      let later =
        fetch_entries-latest (λ t. is_later cursor t ≡ true) (new_entries cursor entries) start refl
          (All-is_later cursor entries) in
      (
        fetch_entries-greatest (new_entries cursor entries) start,
        fetch_entries-IsDated (new_entries cursor entries) start,
        next_cursor-later cursor _ later,
        sym (
            filter-filter (is_new cursor) _ entries
            ∙ filter_ext _ _ (λ e. next_is_new cursor _ e later) entries),
      )
