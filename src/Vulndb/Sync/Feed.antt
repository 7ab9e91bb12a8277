-- ===== src/Vulndb/Sync/Feed.antt =====
-- The feed of modified records that `parseModifiedCSV` of internal/vulndb/sync/syncer.go reads.
use dependency_guardian.Prelude.{
  ℕ, String, ◌≡◌, refl, ap, ◌∙◌, ◌<◌, true, false, none, some, List, [], ◌∷◌, All, eqb, Char, code,
  ◌==◌, cut_char, cut_last, has_prefix, skip, trim_suffix, arith, eq_iff, Bool-cases, inl, inr,
}
use dependency_guardian.Prelude.Lines.{
  trim_space, cut_lines, scan_lines, scan_fails, fitting, has_too_long, fits_scanner, byte_length,
}
use dependency_guardian.Http.{◌^^◌}
use Prim.Native.String.{[], ◌∷◌}
use text.Mathlib.TextLemmas.{cons-append, nil-append, cons≢nil}
use dependency_guardian.Vulndb.Sync.{
  ModifiedEntry, entry_at, entry_of_parts, with_entry, parse_line, parse_lines, parse_modified_csv,
}

-- The format that the comment of `parseModifiedCSV` gives, one entry to a line.
abbrev pub path_of : ModifiedEntry → String
path_of e = e.ecosystem_dir ^^ "/" ^^ e.id

abbrev pub line_of : ModifiedEntry → String
line_of e = e.modified_date ^^ "," ^^ path_of e

abbrev pub print_feed : List ModifiedEntry → String
print_feed [] = ""
print_feed (e ∷ es) = line_of e ^^ "\n" ^^ print_feed es

-- A text without the character of a number.
abbrev pub Lacks : ℕ → String → Type 0
Lacks d [] = Unit
Lacks d (c ∷ s) = (eqb (code c) d ≡ false) × Lacks d s

-- An entry that the format can carry.
pub record IsPrintable (e : ModifiedEntry) : Type 0 where
  pub no_comma : Lacks b',' e.modified_date
  pub no_slash : Lacks b'/' e.id
  pub one_line : Lacks 10 (line_of e)
  pub short : byte_length (line_of e) < 65536
  pub no_return : trim_suffix (line_of e) "\r" ≡ line_of e
  pub trimmed_date : trim_space e.modified_date ≡ e.modified_date
  pub trimmed_path : trim_space (path_of e) ≡ path_of e
  pub trimmed_line : trim_space (line_of e) ≡ line_of e

char-append : (c : Char) (t : String) → (c ∷ []) ^^ t ≡ c ∷ t
char-append c t = cons-append c [] t ∙ ap (λ s. c ∷ s) (nil-append t)

cut_char-append : (s t : String) → Lacks b',' s → cut_char b',' (s ^^ "," ^^ t) ≡ some (s, t)
unfolding cut_char
cut_char-append [] t h = rw (nil-append, char-append) refl
cut_char-append (c ∷ s) t (h, hs) =
    rw (cons-append c s ("," ^^ t)) (ground (arith, cut_char-append s t hs))

cut_last-none : (s : String) → Lacks b'/' s → cut_last s "/" ≡ none
unfolding cut_last has_prefix
cut_last-none [] h = refl
cut_last-none (c ∷ s) (h, hs) = ground (arith, cut_last-none s hs)

cut_last-append :
    (dir id : String) → Lacks b'/' id → cut_last (dir ^^ "/" ^^ id) "/" ≡ some (dir, id)
unfolding cut_last has_prefix skip
cut_last-append [] id h = rw (nil-append, char-append, cut_last-none id h) refl
cut_last-append (c ∷ dir) id h =
    rw (cons-append c dir ("/" ^^ id)) (ground (arith, cut_last-append dir id h))

cut_lines-append : (l s : String) → Lacks 10 l → cut_lines (l ^^ "\n" ^^ s) ≡ l ∷ cut_lines s
unfolding cut_lines
cut_lines-append [] s h = rw (nil-append, char-append) refl
cut_lines-append (c ∷ l) s (h, hs) =
    rw (cons-append c l ("\n" ^^ s)) (ground (arith, cut_lines-append l s hs))

cons_nonempty : (c : Char) (s : String) → (c ∷ s) == "" ≡ false
cons_nonempty c s = elim (Bool-cases ((c ∷ s) == "")) [
  | inl same ↦ absurd (cons≢nil ((eq_iff (c ∷ s) "").0 same))
  | inr other ↦ other
]

comma_nonempty : (s t : String) → (s ^^ "," ^^ t) == "" ≡ false
comma_nonempty [] t = rw (nil-append, char-append) (cons_nonempty "," t)
comma_nonempty (c ∷ s) t = rw (cons-append c s ("," ^^ t)) (cons_nonempty c (s ^^ "," ^^ t))

-- The parts of a printed line, read.
entry_of_parts-line_of :
    (e : ModifiedEntry)
    → IsPrintable e
    → entry_of_parts (some (e.modified_date, path_of e)) ≡ some e
entry_of_parts-line_of e h =
    ap (λ d. entry_at d (cut_last (trim_space (path_of e)) "/")) h.trimmed_date
    ∙ ap (λ p. entry_at e.modified_date (cut_last p "/")) h.trimmed_path
    ∙ ap (entry_at e.modified_date) (cut_last-append e.ecosystem_dir e.id h.no_slash)

parse_line-line_of : (e : ModifiedEntry) → IsPrintable e → parse_line (line_of e) ≡ some e
unfolding parse_line
parse_line-line_of e h =
    rw (comma_nonempty, cut_char-append e.modified_date (path_of e) h.no_comma)
      (entry_of_parts-line_of e h)

-- A printed entry is the first line, which fits, and the rest is read behind it.
parse_lines-print_feed :
    (entries : List ModifiedEntry)
    → All IsPrintable entries
    → parse_lines (scan_lines (print_feed entries)) ≡ entries
unfolding scan_lines parse_lines fitting
parse_lines-print_feed [] h = refl
parse_lines-print_feed (e ∷ es) (h, hs) =
    let short : fits_scanner (line_of e) ≡ true = ground (arith, h.short) in
    rw (cut_lines-append (line_of e) (print_feed es) h.one_line, short, h.no_return, h.trimmed_line)
      (ap (λ o. with_entry o (parse_lines (scan_lines (print_feed es)))) (parse_line-line_of e h)
        ∙ ap (λ rest. e ∷ rest) (parse_lines-print_feed es hs))

scan_fails-print_feed :
    (entries : List ModifiedEntry)
    → All IsPrintable entries
    → scan_fails (print_feed entries) ≡ false
unfolding scan_fails has_too_long
scan_fails-print_feed [] h = refl
scan_fails-print_feed (e ∷ es) (h, hs) =
    let short : fits_scanner (line_of e) ≡ true = ground (arith, h.short) in
    rw (cut_lines-append (line_of e) (print_feed es) h.one_line, short)
      (scan_fails-print_feed es hs)

-- Entries printed one to a line in the format of the feed are read back in order without an error,
-- where their dates have no comma, their ids no slash, their lines no line break and fewer than
-- 65536 bytes, and dates, paths and lines no space at either end.
pub parse_modified_csv-print_feed :
    (entries : List ModifiedEntry)
    → All IsPrintable entries
    → parse_modified_csv (print_feed entries) ≡ some entries
unfolding parse_modified_csv
parse_modified_csv-print_feed entries h =
    rw (scan_fails-print_feed entries h, parse_lines-print_feed entries h) refl
