-- ===== src/Prelude/Json.antt =====
-- JSON values, as the source passes them through (`unknown`, `Record<string, unknown>`).
use Prim.Native.String.{String}
use mathlib.Core.Bool.{Bool}

-- `num` holds the decimal text of a number.
mutual
  pub data Json : Type 0 where
    null : Json
    bool : Bool → Json
    num : String → Json
    str : String → Json
    arr : Items → Json
    obj : Fields → Json

  pub data Items : Type 0 where
    nil : Items
    cons : Json → Items → Items

  pub data Fields : Type 0 where
    end : Fields
    field : String → Json → Fields → Fields
