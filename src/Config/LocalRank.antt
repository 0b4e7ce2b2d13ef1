-- ===== src/Config/LocalRank.antt =====
-- `local_adapter_rank` of config.py: the largest rank that the files of a local adapter name.
pub mod Named
use yeetllm.Common.{
  Bool, true, false, Option, none, some, List, [], ◌∷◌, ◌++◌, leb, Result, ok, err, if◌then◌else◌,
}
use yeetllm.Common.Int.{ℤ, pos, negsuc}
use yeetllm.Common.Json.{Json, Fields, bool, int, obj, field, end, get}
use yeetllm.Common.Text.{Text, codes}

-- The `RuntimeValidationError` of a file, and the `AttributeError` of a root without members.
pub data RankError : Type 0 where
  invalid_file : Text → RankError
  not_an_object : RankError

-- The files below a directory: whether a path is one, and its `adapter_config.json`, if it is a file,
-- parsed or not readable.
pub record AdapterFiles : Type 0 where
  pub is_dir : Text → Bool
  pub config : Text → Option (Option Json)

-- `isinstance(value, int)`; a Boolean is an integer in Python
abbrev pub int_value : Option Json → List ℤ
int_value (some (int i)) = i ∷ []
int_value (some (bool true)) = pos 1 ∷ []
int_value (some (bool false)) = pos 0 ∷ []
int_value _ = []

unfoldable pub int_values : Fields → List ℤ
int_values end = []
int_values (field k v fields) = int_value (some v) ++ int_values fields

abbrev pub pattern_ranks : Option Json → List ℤ
pattern_ranks (some (obj fs)) = int_values fs
pattern_ranks _ = []

abbrev pub larger : ℤ → ℤ → ℤ
larger (pos a) (pos b) = if leb a b then pos b else pos a
larger (pos a) (negsuc b) = pos a
larger (negsuc a) (pos b) = pos b
larger (negsuc a) (negsuc b) = if leb a b then negsuc a else negsuc b

-- `max(ranks) if ranks else None`
unfoldable pub largest : List ℤ → Option ℤ
largest [] = none
largest (i ∷ []) = some i
largest (i ∷ j ∷ is) = largest (larger i j ∷ is)

abbrev pub rank_of_config : Text → Option Json → Result RankError (Option ℤ)
rank_of_config path none = err (invalid_file path)
rank_of_config path (some (obj fs)) =
    ok (largest (int_value (get (codes "r") fs) ++ pattern_ranks (get (codes "rank_pattern") fs)))
rank_of_config path (some j) = err not_an_object

abbrev pub rank_of_file : Text → Option (Option Json) → Result RankError (Option ℤ)
rank_of_file path none = ok none
rank_of_file path (some content) = rank_of_config path content

-- `local_adapter_rank`, on the adapter's `model`
unfoldable pub local_adapter_rank : AdapterFiles → Text → Result RankError (Option ℤ)
unfolding largest int_values get
local_adapter_rank files model =
    if files.is_dir model then rank_of_file model (files.config model) else ok none
