-- ===== src/Core/Json.antt =====
-- The JSON objects that the program keeps in JSONB columns: `result_metadata`, `event_metadata` and
-- audit `extra`. `neg n` is the integer -(n + 1).
use Prim.Native.String.{String}
use text.Mathlib.Text.{◌==◌ as str_eq}
use nextballup.Prelude.{ℕ, Bool, Option, none, some, if◌then◌else◌}
use nextballup.Prelude.Int.{ℤ, pos, negsuc}
use nextballup.Core.Text.{Text}

mutual
  pub data Json : Type 0 where
    null : Json
    flag : Bool → Json
    num : ℕ → Json
    neg : ℕ → Json
    str : Text → Json
    obj : Fields → Json

  pub data Fields : Type 0 where
    end : Fields
    field : String → Json → Fields → Fields

-- `d.get(key)`
unfoldable pub get_field : String → Fields → Option Json
get_field k Fields.end = none
get_field k (Fields.field j v d) = if str_eq j k then some v else get_field k d

-- `d[key] = value`
unfoldable pub set_field : String → Json → Fields → Fields
set_field k v Fields.end = Fields.field k v Fields.end
set_field k v (Fields.field j w d) =
    if str_eq j k then Fields.field k v d else Fields.field j w (set_field k v d)

-- `d.update(e)`
unfoldable pub update_fields : Fields → Fields → Fields
update_fields d Fields.end = d
update_fields d (Fields.field k v e) = update_fields (set_field k v d) e

-- `d or {}` of a column that may be NULL, copied by `dict(...)`.
abbrev pub dict_of : Option Fields → Fields
dict_of none = Fields.end
dict_of (some d) = d

-- A number or null; a text or null.
abbrev pub num_or_null : Option ℕ → Json
num_or_null none = Json.null
num_or_null (some n) = Json.num n

-- An integer, and `isinstance(value, int) and not isinstance(value, bool)` of a value that may be missing.
abbrev pub int_json : ℤ → Json
int_json (pos n) = Json.num n
int_json (negsuc n) = Json.neg n

abbrev pub int_of : Option Json → Option ℤ
int_of (some (Json.num n)) = some (pos n)
int_of (some (Json.neg n)) = some (negsuc n)
int_of _ = none

abbrev pub str_or_null : Option Text → Json
str_or_null none = Json.null
str_or_null (some t) = Json.str t
