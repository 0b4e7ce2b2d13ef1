-- ===== src/Tests/Loading.antt =====
-- A configuration from the network and against its node, and the adapters of a model.
use yeetllm.Common.{◌≤◌, ◌↔◌}
use yeetllm.Common.{
  ◌≡◌, refl, length, true, none, some, [], ◌∷◌, ◌++◌, all, contains, text_beq, text_eq, Result, ok,
  err, IsDistinct, All,
}
use yeetllm.Common.Int.{pos}
use yeetllm.Common.Dict.{Dict, insert}
use yeetllm.Common.Json.{obj, field, end, int, get}
use yeetllm.Common.Text.{Text, Bytes, codes, lower, strip_by, drop_while, rstrip_by}
use yeetllm.Config.Types.{adapter_ids}
use yeetllm.Config.LocalRank.{AdapterFiles, local_adapter_rank, largest, int_values}
use yeetllm.Config.Remote.{
  FetchError, UrlParts, Response, validate_config_url, collect, accept, fetch_from, ask,
  fetch_remote_config,
}
use yeetllm.Config.Remote.Fetched.{IsChecked, IsReturned, fetch_remote_config-Gives}
use yeetllm.Adapters.{
  Surroundings, cache_dir_of, resolve_adapter, resolve_all, resolve_model_adapters,
}
use yeetllm.Adapters.Resolved.{IsResolved, resolve_model_adapters-IsResolved}
use yeetllm.Cluster.Detection.{single_node}
use yeetllm.Supervisor.Validation.{validate}
use yeetllm.Cli.{validate_loaded}
use yeetllm.Cli.Agreement.{validate_loaded_iff}
use yeetllm.Tests.Routing.{two_registry, built}
use yeetllm.Tests.Configs.{model_b, two_models, no_rank}

abbrev split_https : Text → Result FetchError UrlParts
split_https url = ok (record {
  scheme = codes "HTTPS";
  hostname = some (codes "host");
  username = none;
  password = none;
})

-- The first address leads to the second, which gives the configuration in two chunks.
abbrev moved : Text → Result FetchError Response
moved [] = err FetchError.failed
moved (c ∷ []) = ok (record {
  url = codes "a";
  status = 302;
  location = some (codes "b");
  content_length = none;
  chunks = [];
  interrupted = none;
})
moved (c ∷ d ∷ url) = ok (record {
  url = codes "ab";
  status = 200;
  location = none;
  content_length = none;
  chunks = (1 ∷ []) ∷ (2 ∷ []) ∷ [];
  interrupted = none;
})

abbrev joined : Text → Text → Text
joined base location = base ++ location

abbrev no_digest : Bytes → Text
no_digest payload = []

abbrev fetched : Bytes
fetched = 1 ∷ 2 ∷ []

did_fetch :
    fetch_remote_config moved split_https joined no_digest (codes " a ") []
    ≡ (codes "a" ∷ codes "ab" ∷ [], ok fetched)
unfolding fetch_remote_config fetch_from ask validate_config_url accept collect lower all text_beq
    strip_by drop_while rstrip_by
did_fetch = refl

fetch_remote_config-Gives_example :
    let (asked, r) = fetch_remote_config moved split_https joined no_digest (codes " a ") [] in
    All (IsChecked moved split_https joined) asked
    × (length asked ≤ 6)
    × IsReturned moved split_https joined no_digest (codes " a ") [] r
fetch_remote_config-Gives_example =
    fetch_remote_config-Gives moved split_https joined no_digest (codes " a ") []

abbrev local_files : AdapterFiles
local_files = record {
  is_dir = λ path. true;
  config = λ path. some (some (obj (field (codes "r") (int (pos 8)) end)));
}

abbrev local_surroundings : Surroundings
local_surroundings = record {
  environ = [];
  files = local_files;
  account = none;
  executable = codes "python";
  resolved = λ path. path;
  child = λ path name. path ++ codes "/" ++ name;
  download = λ repo revision cache token. none;
  run = λ argv env. record { returncode = pos 1; stdout = [] };
}

abbrev local_paths : Dict Text Text
local_paths = (codes "c", codes "/adapters/c") ∷ []

did_resolve : resolve_model_adapters local_surroundings model_b ≡ ok local_paths
unfolding resolve_model_adapters resolve_all resolve_adapter local_adapter_rank largest int_values
    get insert text_beq
did_resolve = refl

one_adapter : IsDistinct (adapter_ids model_b.lora.adapters)
unfolding adapter_ids contains
one_adapter = (refl, tt)

resolve_model_adapters-IsResolved_example :
    All
      (IsResolved local_surroundings
        (cache_dir_of local_surroundings)
        model_b.lora.max_lora_rank
        local_paths)
      model_b.lora.adapters
resolve_model_adapters-IsResolved_example =
    resolve_model_adapters-IsResolved local_surroundings model_b local_paths one_adapter did_resolve

validate_loaded_iff_example :
    (validate_loaded no_rank none 8100 1 1 two_models single_node 2 ≡ ok ([], two_registry))
    ↔ ((1 ≤ 2) × (validate no_rank none two_models single_node two_registry 2 ≡ ok []))
validate_loaded_iff_example =
    validate_loaded_iff no_rank none 8100 1 1 two_models single_node 2 two_registry two_registry []
      built built
