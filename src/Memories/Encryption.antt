-- ===== src/Memories/Encryption.antt =====
-- apps/api/src/modules/memories/encryption.py. Fernet and SHA-256 are parameters; Fernet draws a
-- nonce at each encryption.
use text.Mathlib.Text.{◌==◌ as str_eq}
use campus_agent.Base.{ℕ, Option, String}
use campus_agent.Base.Action.{◌>>◌, return, require, raise_if}
use campus_agent.Memories.Models.{
  encryption_key_missing, encryption_failed, decryption_failed, Service,
}

pub record Fernet : Type 0 where
  pub derive_key : String → String
  pub fernet_encrypt : String → ℕ → String → Option String
  pub fernet_decrypt : String → String → Option String
  pub sha256 : String → String

pub record EncryptionService : Type 0 where
  pub fernet_key : String
  pub key_version : ℕ

module _ (fernet : Fernet) where
  open fernet use {derive_key, fernet_encrypt, fernet_decrypt}

  -- The service, from the key of the settings.
  abbrev pub get_encryption_service : String → Service EncryptionService
  get_encryption_service raw_key = do
    raise_if (str_eq raw_key "") encryption_key_missing
    return (record { fernet_key = derive_key raw_key; key_version = 1 })

  abbrev pub encrypt : EncryptionService → ℕ → String → Service String
  encrypt enc nonce plaintext =
      require (λ _. fernet_encrypt enc.fernet_key nonce plaintext) encryption_failed

  abbrev pub decrypt : EncryptionService → String → Service String
  decrypt enc ciphertext = require (λ _. fernet_decrypt enc.fernet_key ciphertext) decryption_failed
