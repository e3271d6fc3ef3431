-- ===== src/Tests/Configs.antt =====
-- The default configuration, and one that is refused.
use k8spodlogreceiver.Prelude.{◌≡◌, refl, true, none, some, bytes_eq}
use k8spodlogreceiver.Prelude.Int.{negsuc}
use k8spodlogreceiver.Logline.Split.{parse_behavior}
use k8spodlogreceiver.Config.{create_default_config, validate, max_batch_size_setting}
use k8spodlogreceiver.Config.Ranges.{Accepted, validate-Accepted}

default_accepted : validate create_default_config true true ≡ none
unfolding validate create_default_config parse_behavior
default_accepted = refl

negative_refused :
    validate (record create_default_config { max_batch_size = negsuc 0 }) true true
    ≡ some max_batch_size_setting
unfolding validate create_default_config parse_behavior
negative_refused = refl

validate-Accepted_example : Accepted create_default_config true true
validate-Accepted_example = validate-Accepted create_default_config true true default_accepted
