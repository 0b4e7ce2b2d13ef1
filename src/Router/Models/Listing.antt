-- ===== src/Router/Models/Listing.antt =====
-- The two model lists agree, and show each identifier of the configuration.
use yeetllm.Common.{text_eq}
use yeetllm.Common.Dict.{Dict}
use yeetllm.Common.Text.{Text}
use yeetllm.Registry.{Registry}
use yeetllm.Router.Models.{Card}

abbrev pub card_id : Card → Text
card_id card = card.id
