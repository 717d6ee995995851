-- ===== src/Core/Json.antt =====
-- JSON values as `json.loads` and `to_wire()` give them. A number is kept as its text.
use aep_python.Common.{String, Bool, nat_eq, string_eq, pair_eq}

mutual
  pub data Json : Type 0 where
    null : Json
    bool : Bool → Json
    number : String → Json
    text : String → Json
    array : Items → Json
    object : Members → Json

  pub data Items : Type 0 where
    nil : Items
    cons : Json → Items → Items

  pub data Members : Type 0 where
    end : Members
    entry : String → Json → Members → Members
