-- ===== src/Netdev/Sms/Carried.antt =====
-- What an SMS says is what was sent.
use modemproxy.Prelude.{ℕ, ◌<◌, List, All, ◌≡◌, String, true, some, nonempty}
use modemproxy.Netdev.Sms.{Cipher}

-- What the code relies on AES-GCM for: the bytes that were encrypted with a key are decrypted with it,
-- and a ciphertext, which begins with a nonce, is not empty.
pub record Sound (cipher : Cipher) : Type 0 where
  pub undone :
      (key : String) (bytes : List ℕ)
      → All (λ b. b < 256) bytes
      → cipher.decrypt key (cipher.encrypt key bytes) ≡ some bytes
  pub filled : (key : String) (bytes : List ℕ) → nonempty (cipher.encrypt key bytes) ≡ true
