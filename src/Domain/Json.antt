-- ===== src/Domain/Json.antt =====
-- shannon/domain/json.py: a decoded JSON body. An object's keys are distinct, as in a Python dict.
use shannon_bot.Base.{Bool, Option, String, if◌then◌else◌, none, some, str_eq, ℕ}

mutual
  -- Numbers are naturals: nothing that is modelled reads a negative or fractional one.
  pub data Json : Type 0 where
    null : Json
    flag : Bool → Json
    num : ℕ → Json
    string : String → Json
    arr : JsonArray → Json
    obj : JsonObject → Json

  pub data JsonArray : Type 0 where
    no_elements : JsonArray
    element : Json → JsonArray → JsonArray

  pub data JsonObject : Type 0 where
    no_entries : JsonObject
    entry : String → Json → JsonObject → JsonObject

-- `payload.get(key)`
unfoldable pub get : JsonObject → String → Option Json
get no_entries key = none
get (entry k v rest) key = let found = get rest key in if str_eq k key then some v else found

-- `value if isinstance(value, str) else None`
unfoldable pub as_text : Option Json → Option String
as_text none = none
as_text (some null) = none
as_text (some (flag b)) = none
as_text (some (num n)) = none
as_text (some (string s)) = some s
as_text (some (arr xs)) = none
as_text (some (obj o)) = none
