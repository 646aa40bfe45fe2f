-- ===== src/Http/Headers.antt =====
-- kwikhttp/protocol.go: HTTPHeaders. The map is an association list, in the order of the iteration.
use kwik.Prelude.{List, [], ◌∷◌, ◌++◌, Bool, Option, none, some, if◌then◌else◌}
use kwik.Prelude.Map.{is_some}
use kwik.Http.Text.{Text, same, to_lower}

abbrev pub Headers : Type 0
Headers = List (Text × List Text)

-- `h[key]` and `_, ok := h[key]`
unfoldable pub find : Text → Headers → Option (List Text)
find key [] = none
find key (entry ∷ h) = let rest = find key h in if same entry.0 key then some entry.1 else rest

-- `h[key] = values`
unfoldable pub store : Text → List Text → Headers → Headers
store key values [] = (key, values) ∷ []
store key values (entry ∷ h) =
    let rest = store key values h in if same entry.0 key then (key, values) ∷ h else entry ∷ rest

-- delete(h, key)
unfoldable pub erase : Text → Headers → Headers
erase key [] = []
erase key (entry ∷ h) = let rest = erase key h in if same entry.0 key then rest else entry ∷ rest

abbrev pub values_of : Option (List Text) → List Text
values_of none = []
values_of (some values) = values

-- GetAll, where a nil slice is an empty one.
unfoldable pub get_all : Text → Headers → List Text
get_all key h = values_of (find (to_lower key) h)

unfoldable pub add : Text → Text → Headers → Headers
unfolding get_all
add key value h = store (to_lower key) (get_all key h ++ (value ∷ [])) h

unfoldable pub set : Text → Text → Headers → Headers
set key value h = store (to_lower key) (value ∷ []) h

abbrev pub first_of : List Text → Text
first_of [] = []
first_of (value ∷ values) = value

unfoldable pub get : Text → Headers → Text
unfolding get_all
get key h = first_of (get_all key h)

unfoldable pub del : Text → Headers → Headers
del key h = erase (to_lower key) h

unfoldable pub has_header : Text → Headers → Bool
has_header key h = is_some (find (to_lower key) h)
