-- ===== src/Json.antt =====
-- Values of Go's `interface{}` as encoding/json makes them; an object is a map with string keys. A
-- number, which the program never reads, stands as the text of its literal.
use dependency_guardian.Prelude.{◌≡◌, refl, ap, String, Bool, Option, none, some, List, [], ◌∷◌}
use dependency_guardian.Prelude.Dict.{Dict}

mutual
  pub data Json : Type 0 where
    null : Json
    bool : Bool → Json
    num : String → Json
    str : String → Json
    arr : Items → Json
    obj : Fields → Json

  pub data Items : Type 0 where
    nil : Items
    cons : Json → Items → Items

  pub data Fields : Type 0 where
    end : Fields
    field : String → Json → Fields → Fields

abbrev pub items : Items → List Json
items nil = []
items (cons v vs) = v ∷ items vs

abbrev pub of_items : List Json → Items
of_items [] = nil
of_items (v ∷ vs) = cons v (of_items vs)

abbrev pub members : Fields → Dict Json
members end = []
members (field k v fs) = (k, v) ∷ members fs

abbrev pub of_members : Dict Json → Fields
of_members [] = end
of_members ((k, v) ∷ m) = field k v (of_members m)

pub members-of_members : (m : Dict Json) → members (of_members m) ≡ m
members-of_members [] = refl
members-of_members ((k, v) ∷ m) = ap (λ rest. (k, v) ∷ rest) (members-of_members m)

-- v.(string), v.(bool), v.(map[string]interface{}) and v.([]interface{}), on what a map read gives.
abbrev pub as_string : Option Json → Option String
as_string (some (str s)) = some s
as_string _ = none

abbrev pub as_bool : Option Json → Option Bool
as_bool (some (bool b)) = some b
as_bool _ = none

abbrev pub as_object : Option Json → Option (Dict Json)
as_object (some (obj fs)) = some (members fs)
as_object _ = none

abbrev pub as_array : Option Json → Option (List Json)
as_array (some (arr vs)) = some (items vs)
as_array _ = none
