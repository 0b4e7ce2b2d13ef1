-- ===== src/Common/Json.antt =====
-- The values that `json.loads` returns.
use mathlib.Core.Bool.{Bool}
use mathlib.Core.Option.{Option, none, some}
use mathlib.Core.List.{[], ◌∷◌}
use yeetllm.Common.Tests.{if◌then◌else◌}
use yeetllm.Common.Keys.{◌==◌, text_eq}
use yeetllm.Common.Dict.{Dict}
use yeetllm.Common.Int.{ℤ}
use yeetllm.Common.Text.{Text}

-- A float is kept as its literal. The keys of an object are distinct: `json.loads` keeps the last.
mutual
  pub data Json : Type 0 where
    null : Json
    bool : Bool → Json
    int : ℤ → Json
    float : Text → Json
    str : Text → Json
    arr : Items → Json
    obj : Fields → Json

  pub data Items : Type 0 where
    done : Items
    item : Json → Items → Items

  pub data Fields : Type 0 where
    end : Fields
    field : Text → Json → Fields → Fields

-- The members of an object, as a dictionary.
abbrev pub members : Fields → Dict Text Json
members end = []
members (field k v fields) = (k, v) ∷ members fields

-- `d.get(k)`
unfoldable pub get : Text → Fields → Option Json
get k end = none
get k (field j v fields) = if j == k then some v else get k fields
