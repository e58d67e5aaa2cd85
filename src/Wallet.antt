-- ===== src/Wallet.antt =====
-- wallet/: the choice of the signer, the reading of the key, and Sign and Close, which the two signers
-- have in common. The environment, the files, and go-ethereum's keys and signatures are arguments.
pub mod Password
mod Tests
use ssv_oracle.Prelude.{
  ℕ, Bool, true, false, ◌||◌, ◌&&◌, Option, none, some, List, [], ◌∷◌, ◌==◌, if◌then◌else◌, Text,
  text, text_eq, has_prefix,
}

pub record Config : Type 0 where
  pub signer_type : Text
  pub private_key_env : Text
  pub keystore_path : Text
  pub password_env : Text
  pub password_file : Text

-- os.Getenv, os.ReadFile, crypto.HexToECDSA, crypto.PubkeyToAddress and keystore.DecryptKey, which
-- returns the key and the address; `none` is an error. A key is its number D.
pub record System : Type 0 where
  pub getenv : Text → Text
  pub read_file : Text → Option Text
  pub hex_to_ecdsa : Text → Option ℕ
  pub address_of : ℕ → ℕ
  pub decrypt_key : Text → Text → Option (ℕ × ℕ)

-- envSigner and keystoreSigner.
pub record Signer : Type 0 where
  pub private_key : Option ℕ
  pub address : ℕ

abbrev pub is_empty : Text → Bool
is_empty [] = true
is_empty (c ∷ s) = false

abbrev pub is_line_end : ℕ → Bool
is_line_end c = c == 13 || c == 10

-- strings.TrimRight(s, "\r\n")
unfoldable pub trim_line_ends : Text → Text
trim_line_ends [] = []
trim_line_ends (c ∷ s) = elim (trim_line_ends s) [
  | [] ↦ (if is_line_end c then [] else c ∷ [])
  | d ∷ ds ↦ c ∷ d ∷ ds
]

from_env : System → Text → Option Text
from_env sys env =
    let password = sys.getenv env in if is_empty password then none else some password

-- readPassword, on password_env and password_file.
unfoldable pub read_password : System → Text → Text → Option Text
unfolding from_env trim_line_ends
read_password sys [] [] = none
read_password sys (e ∷ env) [] = from_env sys (e ∷ env)
read_password sys env (f ∷ file) = elim (sys.read_file (f ∷ file)) [
  | none ↦ none
  | some content ↦ some (trim_line_ends content)
]

abbrev without_0x : Text → Text
without_0x (a ∷ b ∷ rest) = if has_prefix (a ∷ b ∷ rest) (text "0x") then rest else a ∷ b ∷ rest
without_0x s = s

signer_of : System → Option ℕ → Option Signer
signer_of sys none = none
signer_of sys (some key) = some (record { private_key = some key; address = sys.address_of key })

-- newEnvSigner
unfoldable pub new_env_signer : System → Text → Option Signer
unfolding signer_of
new_env_signer sys name =
    if is_empty name
    then none
    else if is_empty (sys.getenv name)
    then none
    else signer_of sys (sys.hex_to_ecdsa (without_0x (sys.getenv name)))

decrypted : Option (ℕ × ℕ) → Option Signer
decrypted none = none
decrypted (some (key, address)) = some (record { private_key = some key; address = address })

with_password : System → Text → Option Text → Option Signer
unfolding decrypted
with_password sys path none = none
with_password sys path (some password) = elim (sys.read_file path) [
  | none ↦ none
  | some keyjson ↦ decrypted (sys.decrypt_key keyjson password)
]

-- newKeystoreSigner
unfoldable pub new_keystore_signer : System → Text → Text → Text → Option Signer
unfolding with_password read_password
new_keystore_signer sys path env file =
    if is_empty path then none else with_password sys path (read_password sys env file)

-- NewSigner
unfoldable pub new_signer : System → Option Config → Option Signer
unfolding new_env_signer new_keystore_signer
new_signer sys none = none
new_signer sys (some cfg) =
    if text_eq cfg.signer_type (text "env")
    then if is_empty cfg.private_key_env then none else new_env_signer sys cfg.private_key_env
    else if text_eq cfg.signer_type (text "keystore")
    then if is_empty cfg.keystore_path
      then none
      else if is_empty cfg.password_env && is_empty cfg.password_file
      then none
      else new_keystore_signer sys cfg.keystore_path cfg.password_env cfg.password_file
    else none

-- Close; the key's number is set to zero, and the signer lets go of it.
unfoldable pub close : Signer → Signer
close s = record s { private_key = none }

pub data SignResult : Type 0 where
  signed : ℕ → SignResult
  signer_closed no_chain_id not_signed : SignResult

signed_of : Option ℕ → SignResult
signed_of none = not_signed
signed_of (some tx) = signed tx

with_key : (ℕ → ℕ → ℕ → Option ℕ) → ℕ → ℕ → ℕ → SignResult
unfolding signed_of
with_key sign_tx tx chain key = if chain == 0 then no_chain_id else signed_of (sign_tx tx chain key)

-- Sign; `sign_tx` is types.SignTx with the latest signer for the chain.
unfoldable pub sign : (ℕ → ℕ → ℕ → Option ℕ) → ℕ → Option ℕ → Signer → SignResult
unfolding with_key
sign sign_tx tx chain_id s = elim s.private_key [
  | none ↦ signer_closed
  | some key ↦ elim chain_id [ none ↦ no_chain_id | some chain ↦ with_key sign_tx tx chain key ]
]
