-- ===== src/Vulndb/Columns.antt =====
-- internal/vulndb/models/models.go: JSONMap and StringSlice as columns of the database. The coder of
-- encoding/json for the type is a parameter.
use dependency_guardian.Prelude.{String, ◌≡◌, refl, ap, subst, Option, none, some, ◌>>=◌}

-- A value of the database driver, as far as it is told apart.
pub data Column : Type 0 where
  null_column : Column
  text_column : String → Column
  bytes_column : String → Column
  other_column : Column

module _ {A : Type 0} (marshal : A → Option String) (unmarshal : String → Option A) where
  abbrev text_of : Option String → Option Column
  text_of none = none
  text_of (some text) = some (text_column text)

  -- Value; nil is `none`, and an error too.
  unfoldable pub column_value : Option A → Option Column
  column_value none = some null_column
  column_value (some a) = text_of (marshal a)

  abbrev decoded : Option A → Option (Option A)
  decoded none = none
  decoded (some a) = some (some a)

  -- Scan: `none` is an error.
  unfoldable pub scan_column : Column → Option (Option A)
  scan_column null_column = some none
  scan_column (text_column text) = decoded (unmarshal text)
  scan_column (bytes_column text) = decoded (unmarshal text)
  scan_column other_column = none

  scan_column-text_of :
      (o : Option String) (a : A) (c : Column)
      → (o >>= unmarshal) ≡ some a
      → text_of o ≡ some c
      → scan_column c ≡ some (some a)
  unfolding scan_column
  scan_column-text_of none a c h e = absurd (cc)
  scan_column-text_of (some text) a c h e = rw (← column, scan_column) (ap decoded h)
    where
      column : text_column text ≡ c
      column = cc

  -- What Value stores is scanned back, where the coder reads back what it prints.
  scan_column-column_value :
      ((a : A) → (marshal a >>= unmarshal) ≡ some a)
      → (x : Option A) (c : Column) → column_value x ≡ some c
      → scan_column c ≡ some x
  unfolding column_value scan_column
  scan_column-column_value reads none c e = subst (λ d. scan_column d ≡ some none) (column e) refl
    where
      column : some null_column ≡ some c → null_column ≡ c
      column h = cc
  scan_column-column_value reads (some a) c e = scan_column-text_of (marshal a) a c (reads a) e
