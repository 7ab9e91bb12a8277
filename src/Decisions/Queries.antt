-- ===== src/Decisions/Queries.antt =====
-- What the endpoints /api/decisions and /api/stats return.
use mathlib.Core.List.{reverse}
use dependency_guardian.Prelude.{
  ℕ, ◌-◌, ◌≤◌, ◌<◌, String, ◌≡◌, ◌∙◌, true, false, not, List, arith, length, get_elem?, length-take,
  length-reverse, length-filter-le, get_elem?-reverse, get_elem?-take, Elem, Elem-filter, Elem-take,
  Elem-reverse, ◌==◌, Bool-cases, inl, inr,
}
use dependency_guardian.Prelude.Int.{ℤ, pos_part, neg_part}
use dependency_guardian.Decisions.{
  Entry, Log, recent_size, recent, parse_limit, filter_entries, handle_decisions,
}

recent_size-le : (n : ℤ) (total : ℕ) → recent_size n total ≤ total
unfolding recent_size
recent_size-le n total = ground arith

-- Recent returns the newest entries first: as many as `recent_size` says, place i of the result
-- being place total - 1 - i of the log.
pub recent_newest_first :
    (l : Log) (n : ℤ)
    → (length (recent l n) ≡ recent_size n (length l.entries))
      × ((i : ℕ)
          → i < recent_size n (length l.entries)
          → get_elem? (recent l n) i ≡ get_elem? l.entries (length l.entries - 1 - i))
unfolding recent
recent_newest_first l n =
    let size = recent_size n (length l.entries) in
    (
      omega (
        arith,
        length-take size (reverse l.entries),
        length-reverse l.entries,
        recent_size-le n (length l.entries),
      ),
      λ i h.
          get_elem?-take size (reverse l.entries) i h
          ∙ get_elem?-reverse l.entries i (omega (arith, recent_size-le n (length l.entries))),
    )

-- The value that the query parameter `limit` stands for is always between 1 and 1000.
parse_limit_bounds :
    (q : String)
    → (1 ≤ pos_part (parse_limit q))
      × (pos_part (parse_limit q) ≤ 1000)
      × (neg_part (parse_limit q) ≡ 0)
unfolding parse_limit
parse_limit_bounds q = ground arith

recent_size-parse_limit-le : (q : String) (total : ℕ) → recent_size (parse_limit q) total ≤ 1000
unfolding recent_size
recent_size-parse_limit-le q total = ground (arith, parse_limit_bounds q)

length-filter_entries-le : (f : String) (es : List Entry) → length (filter_entries f es) ≤ length es
unfolding filter_entries
length-filter_entries-le f es = ground (
  arith,
  length-filter-le (λ (e : Entry). not e.allowed) es,
  length-filter-le (λ (e : Entry). e.allowed) es,
)

-- What the query parameter `filter` asks of an entry.
abbrev pub Wanted : String → Entry → Type 0
Wanted f e =
    ((f == "denied") ≡ true → e.allowed ≡ false)
    × ((f == "allowed") ≡ true → (f == "denied") ≡ false → e.allowed ≡ true)

filter_entries-Wanted :
    (f : String) (e : Entry) (es : List Entry)
    → Elem e (filter_entries f es)
    → Elem e es × Wanted f e
unfolding filter_entries
filter_entries-Wanted f e es h = elim (Bool-cases (f == "denied")) [
  | inl d ↦
      let (m, t) = Elem-filter (λ x. not x.allowed) e es (rw d at h) in
      (m, (λ _. ground arith, λ _ nd. cc))
  | inr nd ↦ elim (Bool-cases (f == "allowed")) [
    | inl a ↦
        let (m, t) = Elem-filter (λ x. x.allowed) e es (rw (nd, a) at h) in (m, (λ d. cc, λ _ _. t))
    | inr na ↦ (rw (nd, na) at h, (λ d. cc, λ a _. cc))
  ]
]

-- Whatever the query parameters, /api/decisions returns at most 1000 entries, each of them an entry
-- of the log that the filter asks for: denied ones for "denied", allowed ones for "allowed".
pub handle_decisions_sound :
    (l : Log) (limit f : String)
    → (length (handle_decisions l limit f) ≤ 1000)
      × ((e : Entry) → Elem e (handle_decisions l limit f) → Elem e l.entries × Wanted f e)
unfolding handle_decisions recent
handle_decisions_sound l limit f =
    let es = recent l (parse_limit limit) in
    (
      omega (
        arith,
        length-filter_entries-le f es,
        recent_size-parse_limit-le limit (length l.entries),
        (recent_newest_first l (parse_limit limit)).0,
      ),
      λ e m.
          let (m', w) = filter_entries-Wanted f e es m in
          (Elem-reverse e l.entries (Elem-take _ e (reverse l.entries) m'), w),
    )
