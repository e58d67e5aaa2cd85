-- ===== src/Config/Accepted.antt =====
-- What a configuration without errors has.
use ssv_oracle.Prelude.{
  ℕ, suc, ◌≡◌, ◌≢◌, refl, Bool, true, false, Option, none, some, List, [], ◌∷◌, ◌++◌, ◌==◌,
  if◌then◌else◌, Text, to_lower, All, Bool-cases, inl, inr, arith,
}
use ssv_oracle.Schedule.{validate as validate_schedule}
use ssv_oracle.Config.{
  Config, Parsers, UrlError, ConfigError, duplicate_mev, bad_mev, bad_deploy_block, bad_eth_rpc,
  bad_beacon_url, bad_eth_ws_rpc, bad_contract, bad_views_contract, bad_commit_phases, trim_space,
  is_blank, get_mev_rpcs, is_allowed, check_url, validate_url, validate_address, error_of, has_text,
  http_schemes, ws_schemes, check_mev, check_level, with_trimmed, validate,
}

-- A URL that parses, with a host and an allowed scheme.
abbrev pub IsUsable : Parsers → List Text → Text → Type 0
IsUsable p schemes value =
    (scheme host : Text) × (p.url_parse (trim_space value) ≡ some (scheme, host))
    × (is_blank host ≡ false)
    × (is_allowed (to_lower scheme) schemes ≡ true)

-- An address that parses and is not zero.
abbrev pub IsContract : Parsers → Text → Type 0
IsContract p value =
    (p.is_hex_address (trim_space value) ≡ true) × (p.hex_to_address (trim_space value) ≢ 0)

-- No text occurs twice, nor one of those seen.
abbrev pub AreNew : List Text → List Text → Type 0
AreNew seen [] = Unit
AreNew seen (s ∷ rest) = (has_text s seen ≡ false) × AreNew (s ∷ seen) rest

pub record IsAccepted (p : Parsers) (with_updater : Bool) (cfg : Config) : Type 0 where
  pub eth_rpc : IsUsable p http_schemes cfg.eth_rpc
  pub beacon_url : IsUsable p http_schemes cfg.beacon_url
  pub contract : IsContract p cfg.ssv_contract
  pub views_contract : IsContract p cfg.ssv_views_contract
  pub deploy_block : cfg.deploy_block ≢ 0
  pub schedule : validate_schedule cfg.schedule ≡ none
  pub eth_ws_rpc : with_updater ≡ true → IsUsable p ws_schemes cfg.eth_ws_rpc
  pub mev_rpcs : All (IsUsable p http_schemes) (get_mev_rpcs cfg.mev_rpcs)
  pub mev_rpcs_new : AreNew [] (get_mev_rpcs cfg.mev_rpcs)

append-nil : {A : Type 0} (xs ys : List A) → xs ++ ys ≡ [] → (xs ≡ []) × (ys ≡ [])
append-nil [] ys e = (refl, e)
append-nil (x ∷ xs) ys e = absurd (cc e)

error_of-nil : {E : Type 0} (f : E → ConfigError) (o : Option E) → error_of f o ≡ [] → o ≡ none
error_of-nil f none e = refl
error_of-nil f (some x) e = absurd (cc e)

if-nil : (b : Bool) (x : ConfigError) → (if b then x ∷ [] else []) ≡ [] → b ≡ false
if-nil true x e = absurd (cc e)
if-nil false x e = refl

not_zero : (n : ℕ) → (n == 0) ≡ false → n ≢ 0
not_zero n h e = ground arith

check_url-IsUsable :
    (o : Option (Text × Text)) (s : Text) (schemes : List Text)
    → check_url o (s ∷ schemes) ≡ none
    → (scheme host : Text) × (o ≡ some (scheme, host))
      × (is_blank host ≡ false)
      × (is_allowed (to_lower scheme) (s ∷ schemes) ≡ true)
check_url-IsUsable none s schemes e = absurd (cc e)
check_url-IsUsable (some (scheme, host)) s schemes e = elim (Bool-cases (is_blank scheme)) [
  | inl y ↦ absurd (cc (rw y at e))
  | inr n ↦ elim (Bool-cases (is_blank host)) [
    | inl y ↦ absurd (cc (rw (n, y) at e))
    | inr m ↦ elim (Bool-cases (is_allowed (to_lower scheme) (s ∷ schemes))) [
      | inl y ↦ (scheme, host, refl, m, y)
      | inr k ↦ absurd (cc (rw (n, m, k) at e))
    ]
  ]
]

validate_url-IsUsable :
    (p : Parsers) (value s : Text) (schemes : List Text)
    → validate_url p value (s ∷ schemes) ≡ none
    → IsUsable p (s ∷ schemes) value
unfolding validate_url
validate_url-IsUsable p value s schemes e = elim (Bool-cases (is_blank (trim_space value))) [
  | inl y ↦ absurd (cc (rw y at e))
  | inr z ↦ check_url-IsUsable (p.url_parse (trim_space value)) s schemes (rw z at e)
]

validate_address-IsContract :
    (p : Parsers) (value : Text) → validate_address p value ≡ none → IsContract p value
unfolding validate_address
validate_address-IsContract p value e = elim (Bool-cases (is_blank (trim_space value))) [
  | inl y ↦ absurd (cc (rw y at e))
  | inr n ↦ elim (Bool-cases (p.is_hex_address (trim_space value))) [
    | inr k ↦ absurd (cc (rw (n, k) at e))
    | inl y ↦ elim (Bool-cases (p.hex_to_address (trim_space value) == 0)) [
      | inl z ↦ absurd (cc (rw (n, y, z) at e))
      | inr k ↦ (y, not_zero (p.hex_to_address (trim_space value)) k)
    ]
  ]
]

check_mev-accepted :
    (p : Parsers) (seen : List Text) (i : ℕ) (rpcs : List Text)
    → check_mev p seen i rpcs ≡ []
    → All (IsUsable p http_schemes) rpcs × AreNew seen rpcs
unfolding check_mev
check_mev-accepted p seen i [] e = (tt, tt)
check_mev-accepted p seen i (rpc ∷ rest) e =
    let (d, e₁) = append-nil (if has_text rpc seen then duplicate_mev rpc ∷ [] else []) _ e in
    let (u, e₂) = append-nil (error_of (bad_mev i) (validate_url p rpc http_schemes)) _ e₁ in
    let (all, new) = check_mev-accepted p (rpc ∷ seen) (suc i) rest e₂ in
    (
      (
        validate_url-IsUsable p rpc _ _
            (error_of-nil (bad_mev i) (validate_url p rpc http_schemes) u),
        all,
      ),
      (if-nil (has_text rpc seen) (duplicate_mev rpc) d, new),
    )

with_updater-nil :
    (b : Bool) (o : Option UrlError)
    → (if b then error_of bad_eth_ws_rpc o else []) ≡ []
    → b ≡ true
    → o ≡ none
with_updater-nil true o e t = error_of-nil bad_eth_ws_rpc o e
with_updater-nil false o e t = absurd (cc t)

-- A configuration for which validate finds no error has usable URLs of the nodes with an allowed scheme,
-- for the updater of the WebSocket node too, addresses of both contracts that are not zero, a deploy
-- block, a valid schedule, and MEV endpoints that are usable and distinct.
pub validate-IsAccepted :
    (p : Parsers) (with_updater : Bool) (cfg : Config)
    → validate p with_updater cfg ≡ []
    → IsAccepted p with_updater cfg
unfolding validate
validate-IsAccepted p with_updater cfg e =
    let (l, e₁) = append-nil (check_level p (with_trimmed cfg).log_level) _ e in
    let (a, e₂) =
      append-nil (error_of bad_eth_rpc (validate_url p cfg.eth_rpc http_schemes)) _ e₁ in
    let (b, e₃) =
      append-nil (error_of bad_beacon_url (validate_url p cfg.beacon_url http_schemes)) _ e₂ in
    let (c, e₄) = append-nil (error_of bad_contract (validate_address p cfg.ssv_contract)) _ e₃ in
    let (v, e₅) =
      append-nil (error_of bad_views_contract (validate_address p cfg.ssv_views_contract)) _ e₄ in
    let (n, e₆) = append-nil (if cfg.deploy_block == 0 then bad_deploy_block ∷ [] else []) _ e₅ in
    let (s, e₇) = append-nil (error_of bad_commit_phases (validate_schedule cfg.schedule)) _ e₆ in
    let (w, e₈) =
      append-nil
        (if with_updater
          then error_of bad_eth_ws_rpc (validate_url p cfg.eth_ws_rpc ws_schemes)
          else [])
        _ e₇ in
    let (mev, new) = check_mev-accepted p [] 0 (get_mev_rpcs cfg.mev_rpcs) e₈ in
    record {
      eth_rpc = validate_url-IsUsable p cfg.eth_rpc _ _ (error_of-nil bad_eth_rpc _ a);
      beacon_url = validate_url-IsUsable p cfg.beacon_url _ _ (error_of-nil bad_beacon_url _ b);
      contract = validate_address-IsContract p cfg.ssv_contract (error_of-nil bad_contract _ c);
      views_contract =
          validate_address-IsContract p cfg.ssv_views_contract
            (error_of-nil bad_views_contract _ v);
      deploy_block = not_zero cfg.deploy_block (if-nil (cfg.deploy_block == 0) bad_deploy_block n);
      schedule = error_of-nil bad_commit_phases _ s;
      eth_ws_rpc =
          λ t. validate_url-IsUsable p cfg.eth_ws_rpc _ _ (with_updater-nil with_updater _ w t);
      mev_rpcs = mev;
      mev_rpcs_new = new;
    }
