-- ===== src/Router/Models.antt =====
-- The model list, as `Registry.openai_models` of registry.py and the route `models` of router.py give
-- it, and `remember_response_id` of router.py.
pub mod Listing
use yeetllm.Common.{ℕ, Bool, not, Option, none, some, List, [], ◌∷◌, if◌then◌else◌}
use yeetllm.Common.Dict.{Dict}
use yeetllm.Common.Json.{Json}
use yeetllm.Common.Text.{Text, Bytes, codes, lower, has_infix}
use yeetllm.Registry.{Registry, ModelRecord}
use yeetllm.Router.Affinity.{AffinityMap}
use yeetllm.Router.Affinity
use yeetllm.Router.Extract.{find_response_id}

-- A card without its constants: `object` is "model" and `owned_by` is "yeetllm".
pub record Card : Type 0 where
  pub id : Text
  pub created : ℕ
  pub root : Text
  pub parent : Option Text

abbrev pub card_of : Text → ℕ → ModelRecord → Card
card_of identifier created r = record {
  id = identifier;
  created = created;
  root = identifier;
  parent = r.parent;
}

-- `openai_models` takes the identifier from the record
unfoldable pub cards_of_records : ℕ → Dict Text ModelRecord → List Card
cards_of_records created [] = []
cards_of_records created ((k, r) ∷ records) =
    card_of r.id created r ∷ cards_of_records created records

unfoldable pub openai_models : Registry → List Card
unfolding cards_of_records
openai_models registry = cards_of_records registry.created registry.models

-- the route takes it from the key
unfoldable pub cards_of_items : ℕ → Dict Text ModelRecord → List Card
cards_of_items created [] = []
cards_of_items created ((k, r) ∷ records) = card_of k created r ∷ cards_of_items created records

unfoldable pub models : Registry → List Card
unfolding cards_of_items
models registry = cards_of_items registry.created registry.models

abbrev pub put_some : ℕ → ℕ → Option Text → Text → AffinityMap → AffinityMap
put_some now later none engine_id affinity = affinity
put_some now later (some []) engine_id affinity = affinity
put_some now later (some (c ∷ s)) engine_id affinity =
    Affinity.put now later (c ∷ s) engine_id affinity

-- `loads` is `json.loads`
unfoldable pub remember_response_id :
    (Bytes → Option Json) → ℕ → ℕ → Bytes → Text → Text → AffinityMap → AffinityMap
unfolding has_infix lower find_response_id
remember_response_id loads now later content content_type engine_id affinity =
    if not (has_infix (lower content_type) (codes "json")) then affinity else elim (loads content) [
      | none ↦ affinity
      | some payload ↦ put_some now later (find_response_id payload) engine_id affinity
    ]
