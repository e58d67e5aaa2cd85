-- ===== src/Config.antt =====
-- cmd/oracle/commands/config.go: validate and getMEVRPCs. The parsing of a URL, of an address and of a log
-- level, which other packages do, are the record `Parsers`. The wallet's part of the configuration is not
-- read here.
pub mod Accepted
mod Tests
use ssv_oracle.Prelude.{
  ℕ, suc, Bool, true, false, not, ◌||◌, Option, none, some, List, [], ◌∷◌, ◌++◌, ◌==◌,
  if◌then◌else◌, Text, text, text_eq, to_lower,
}
use ssv_oracle.Tx.Errors.{trim_left, trim_right}
use ssv_oracle.Tx.Policy.{TxPolicy}
use ssv_oracle.Schedule.{CommitSchedule, ScheduleError, validate as validate_schedule}

pub record Config : Type 0 where
  pub log_level : Text
  pub eth_rpc : Text
  pub eth_ws_rpc : Text
  pub beacon_url : Text
  pub mev_rpcs : Text
  pub ssv_contract : Text
  pub ssv_views_contract : Text
  pub deploy_block : ℕ
  pub max_sync_batch_size : ℕ
  pub db_path : Text
  pub api_address : Text
  pub metrics_address : Text
  pub tx_policy : TxPolicy
  pub schedule : CommitSchedule

pub record Parsers : Type 0 where
  -- url.Parse: the scheme and the host, or none for an error
  pub url_parse : Text → Option (Text × Text)
  -- common.IsHexAddress and common.HexToAddress
  pub is_hex_address : Text → Bool
  pub hex_to_address : Text → ℕ
  -- zapcore.Level.UnmarshalText
  pub is_level : Text → Bool

pub data UrlError : Type 0 where
  url_missing url_invalid bad_scheme : UrlError

pub data AddressError : Type 0 where
  address_missing address_invalid address_zero : AddressError

pub data ConfigError : Type 0 where
  bad_log_level bad_deploy_block : ConfigError
  bad_eth_rpc bad_beacon_url bad_eth_ws_rpc : UrlError → ConfigError
  bad_contract bad_views_contract : AddressError → ConfigError
  bad_commit_phases : ScheduleError → ConfigError
  duplicate_mev : Text → ConfigError
  bad_mev : ℕ → UrlError → ConfigError

-- strings.TrimSpace
unfoldable pub trim_space : Text → Text
unfolding trim_left trim_right
trim_space s = trim_right (trim_left s)

abbrev pub is_blank : Text → Bool
is_blank [] = true
is_blank (c ∷ s) = false

-- strings.Split at commas.
abbrev pub cons_char : ℕ → List Text → List Text
cons_char c [] = (c ∷ []) ∷ []
cons_char c (w ∷ ws) = (c ∷ w) ∷ ws

unfoldable pub split_commas : Text → List Text
split_commas [] = [] ∷ []
split_commas (c ∷ s) =
    let rest = split_commas s in if c == b',' then [] ∷ rest else cons_char c rest

-- The loop of getMEVRPCs.
unfoldable pub trimmed_entries : List Text → List Text
unfolding trim_space
trimmed_entries [] = []
trimmed_entries (s ∷ rest) =
    let others = trimmed_entries rest in
    if is_blank (trim_space s) then others else trim_space s ∷ others

-- getMEVRPCs
unfoldable pub get_mev_rpcs : Text → List Text
unfolding split_commas trimmed_entries
get_mev_rpcs [] = []
get_mev_rpcs (c ∷ s) = trimmed_entries (split_commas (c ∷ s))

-- The loop over the allowed schemes.
unfoldable pub is_allowed : Text → List Text → Bool
unfolding to_lower text_eq
is_allowed scheme [] = false
is_allowed scheme (s ∷ rest) = if text_eq scheme (to_lower s) then true else is_allowed scheme rest

abbrev pub check_scheme : Text → List Text → Option UrlError
check_scheme scheme [] = none
check_scheme scheme (s ∷ rest) =
    if is_allowed (to_lower scheme) (s ∷ rest) then none else some bad_scheme

abbrev pub check_url : Option (Text × Text) → List Text → Option UrlError
check_url none schemes = some url_invalid
check_url (some (scheme, host)) schemes =
    if is_blank scheme || is_blank host then some url_invalid else check_scheme scheme schemes

-- validateURL
unfoldable pub validate_url : Parsers → Text → List Text → Option UrlError
unfolding trim_space is_allowed
validate_url p value schemes =
    if is_blank (trim_space value)
    then some url_missing
    else check_url (p.url_parse (trim_space value)) schemes

-- validateAddress
unfoldable pub validate_address : Parsers → Text → Option AddressError
unfolding trim_space
validate_address p value =
    let a = trim_space value in
    if is_blank a
    then some address_missing
    else if not (p.is_hex_address a)
    then some address_invalid
    else if p.hex_to_address a == 0
    then some address_zero
    else none

-- An error that is appended, if there is one.
abbrev pub error_of {ℓ} : {E : Type ℓ} → (E → ConfigError) → Option E → List ConfigError
error_of f none = []
error_of f (some e) = f e ∷ []

unfoldable pub has_text : Text → List Text → Bool
unfolding text_eq
has_text s [] = false
has_text s (t ∷ rest) = if text_eq t s then true else has_text s rest

abbrev pub http_schemes : List Text
http_schemes = text "http" ∷ text "https" ∷ []

abbrev pub ws_schemes : List Text
ws_schemes = text "ws" ∷ text "wss" ∷ []

-- The loop over the MEV endpoints.
unfoldable pub check_mev : Parsers → List Text → ℕ → List Text → List ConfigError
unfolding has_text validate_url
check_mev p seen i [] = []
check_mev p seen i (rpc ∷ rest) =
    (if has_text rpc seen then duplicate_mev rpc ∷ [] else [])
    ++ (error_of (bad_mev i) (validate_url p rpc http_schemes)
        ++ check_mev p (rpc ∷ seen) (suc i) rest)

abbrev pub check_level : Parsers → Text → List ConfigError
check_level p level =
    if is_blank level then [] else if p.is_level (to_lower level) then [] else bad_log_level ∷ []

-- What validate does to the configuration.
unfoldable pub with_trimmed : Config → Config
unfolding trim_space
with_trimmed cfg = record cfg {
  db_path = trim_space cfg.db_path;
  log_level = trim_space cfg.log_level;
}

-- validate: the errors that are joined.
unfoldable pub validate : Parsers → Bool → Config → List ConfigError
unfolding with_trimmed validate_url validate_address check_mev get_mev_rpcs to_lower
validate p with_updater cfg =
    check_level p (with_trimmed cfg).log_level
    ++ (error_of bad_eth_rpc (validate_url p cfg.eth_rpc http_schemes)
        ++ (error_of bad_beacon_url (validate_url p cfg.beacon_url http_schemes)
            ++ (error_of bad_contract (validate_address p cfg.ssv_contract)
                ++ (error_of bad_views_contract (validate_address p cfg.ssv_views_contract)
                    ++ ((if cfg.deploy_block == 0 then bad_deploy_block ∷ [] else [])
                        ++ (error_of bad_commit_phases (validate_schedule cfg.schedule)
                            ++ ((if with_updater
                                  then error_of bad_eth_ws_rpc
                                      (validate_url p cfg.eth_ws_rpc ws_schemes)
                                  else [])
                                ++ check_mev p [] 0 (get_mev_rpcs cfg.mev_rpcs))))))))
