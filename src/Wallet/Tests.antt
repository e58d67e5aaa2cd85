-- ===== src/Wallet/Tests.antt =====
-- Runs of wallet/: the password of a keystore, and a signer before and after Close.
use ssv_oracle.Prelude.{
  ◌≡◌, ◌+◌, refl, none, some, [], ◌∷◌, if◌then◌else◌, text, text_eq, has_prefix,
}
use ssv_oracle.Wallet.{
  Config, System, Signer, read_password, trim_line_ends, new_signer, new_env_signer,
  new_keystore_signer, close, sign, signed, signer_closed, no_chain_id,
}
use ssv_oracle.Wallet.Password.{read_password_from_file}

abbrev system : System
system = record {
  getenv = λ name. if text_eq name (text "KEY") then text "0xab" else text "other";
  read_file =
      λ path. some (if text_eq path (text "/pass") then 97 ∷ 32 ∷ 13 ∷ 10 ∷ [] else text "{}");
  hex_to_ecdsa = λ hex. if text_eq hex (text "ab") then some 171 else none;
  address_of = λ key. key + 1000;
  decrypt_key = λ json password. if text_eq password (text "a ") then some (5, 1005) else none;
}

read_password_from_file_example :
    read_password system (text "PASS") (text "/pass") ≡ some (97 ∷ 32 ∷ [])
unfolding text_eq
read_password_from_file_example =
    read_password_from_file system (text "PASS") (text "/pass") (97 ∷ 32 ∷ []) (13 ∷ 10 ∷ [])
      (λ h. cc) refl refl (refl, (refl, tt))

abbrev env_config : Config
env_config = record {
  signer_type = text "env";
  private_key_env = text "KEY";
  keystore_path = [];
  password_env = [];
  password_file = [];
}

abbrev keystore_config : Config
keystore_config = record {
  signer_type = text "keystore";
  private_key_env = [];
  keystore_path = text "/key";
  password_env = text "PASS";
  password_file = text "/pass";
}

abbrev signer : Signer
signer = record { private_key = some 171; address = 1171 }

from_the_environment : new_signer system (some env_config) ≡ some signer
unfolding new_signer new_env_signer text_eq has_prefix
from_the_environment = refl

from_the_keystore :
    new_signer system (some keystore_config)
    ≡ some (record { private_key = some 5; address = 1005 })
unfolding new_signer new_keystore_signer read_password trim_line_ends text_eq
from_the_keystore = refl

signs_while_open : sign (λ tx chain key. some (tx + chain + key)) 7 (some 1) signer ≡ signed 179
unfolding sign
signs_while_open = refl

refuses_without_chain : sign (λ tx chain key. some tx) 7 (some 0) signer ≡ no_chain_id
unfolding sign
refuses_without_chain = refl

refuses_when_closed : sign (λ tx chain key. some tx) 7 (some 1) (close signer) ≡ signer_closed
unfolding sign close
refuses_when_closed = refl
