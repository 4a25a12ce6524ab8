-- ===== src/Rats/Json.antt =====
-- What encoding/json decodes into `any`: the value of a JSON text. A number is kept as its text.
use attes_tam.Base.{Bool, Option, none, some, Bytes, bytes_eq, if◌then◌else◌}

mutual
  pub data Json : Type 0 where
    null : Json
    boolean : Bool → Json
    number : Bytes → Json
    string : Bytes → Json
    array : Items → Json
    object : Fields → Json

  pub data Items : Type 0 where
    end : Items
    item : Json → Items → Items

  -- map[string]any; each name once
  pub data Fields : Type 0 where
    empty : Fields
    field : Bytes → Json → Fields → Fields

-- m[name]
unfoldable pub member : Bytes → Fields → Option Json
unfolding bytes_eq
member name empty = none
member name (field n value rest) =
    let found = member name rest in if bytes_eq n name then some value else found
