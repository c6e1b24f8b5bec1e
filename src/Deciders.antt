-- ===== src/Deciders.antt =====
-- What the classifier sends back, as JSON, and the questions it was asked (src/jev_router/deciders).
pub mod Validation
use Prim.Native.String.{String}
use jev_router.Common.{Bool, Option, none, some, List, [], ◌∷◌, str_eq, if◌then◌else◌, Result}
use jev_router.Common.Int.{ℤ}
use jev_router.Common.Float.{Float, Number}

module _ ⦃f : Float⦄ where
  mutual
    -- A value that the JSON decoder gives. A number is an int or a float, as in Python.
    pub data Json : Type 0 where
      null : Json
      boolean : Bool → Json
      integer : ℤ → Json
      real : Number → Json
      text : String → Json
      array : Items → Json
      object : Fields → Json

    pub data Items : Type 0 where
      no_items : Items
      item : Json → Items → Items

    -- The entries of an object, each key once.
    pub data Fields : Type 0 where
      no_fields : Fields
      field : String → Json → Fields → Fields

  -- `d.get(key)`
  unfoldable pub entry : Fields → String → Option Json
  entry no_fields key = none
  entry (field at value rest) key = if str_eq at key then some value else entry rest key

  abbrev pub field_names : Fields → List String
  field_names no_fields = []
  field_names (field at value rest) = at ∷ field_names rest

  abbrev pub field_values : Fields → List Json
  field_values no_fields = []
  field_values (field at value rest) = value ∷ field_values rest
