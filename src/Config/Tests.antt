-- ===== src/Config/Tests.antt =====
-- A configuration that is accepted.
use ssv_oracle.Prelude.{
  refl, true, some, [], ◌∷◌, if◌then◌else◌, text, text_eq, to_lower, has_prefix, pos,
}
use ssv_oracle.Tx.Errors.{trim_left, trim_right}
use ssv_oracle.Tx.Policy.{TxPolicy}
use ssv_oracle.Schedule.{validate_from, check_phase}
use ssv_oracle.Schedule.{validate as validate_schedule}
use ssv_oracle.Config.{
  Config, Parsers, trim_space, split_commas, trimmed_entries, get_mev_rpcs, is_allowed,
  validate_url, validate_address, has_text, check_mev, with_trimmed, validate,
}
use ssv_oracle.Config.Accepted.{IsAccepted, validate-IsAccepted}

abbrev parsers : Parsers
parsers = record {
  url_parse = λ s.
      if has_prefix s (text "ws:")
      then some (text "WS", text "a")
      else some (text "http", text "a");
  is_hex_address = λ s. true;
  hex_to_address = λ s. 5;
  is_level = λ s. true;
}

abbrev policy : TxPolicy
policy = record {
  gas_buffer_percent = pos 20;
  max_fee_per_gas_gwei = 420;
  pending_timeout_blocks = pos 10;
  gas_bump_percent = pos 10;
  max_attempts = pos 3;
  retry_delay = pos 5;
}

abbrev config : Config
config = record {
  log_level = text " Info";
  eth_rpc = text "http://a ";
  eth_ws_rpc = text "ws://a";
  beacon_url = text "http://b";
  mev_rpcs = text "http://c,, http://d ";
  ssv_contract = text "0x5";
  ssv_views_contract = text "0x6";
  deploy_block = 7;
  max_sync_batch_size = 0;
  db_path = text "oracle.db";
  api_address = text "a:1";
  metrics_address = text "a:2";
  tx_policy = policy;
  schedule = record { start_epoch = 0; interval = 10 } ∷ [];
}

validate-IsAccepted_example : IsAccepted parsers true config
unfolding validate with_trimmed trim_space trim_left trim_right validate_url is_allowed to_lower
    text_eq has_prefix validate_address validate_schedule validate_from check_phase get_mev_rpcs
    split_commas trimmed_entries check_mev has_text
validate-IsAccepted_example = validate-IsAccepted parsers true config refl
