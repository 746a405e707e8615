-- ===== src/Identity/Kept.antt =====
-- What src/identity.rs leaves of the file: an encrypted file keeps its bytes, and a key that was handed
-- out stands in a file of the owner's alone.
use link_p2p.Prelude.{◌≡◌, ◌⊎◌, refl, true, Option, none, some, Option-cases, inl, inr}
use link_p2p.Net.{Bytes}
use link_p2p.Outcome.{Result, ok, err, Error}
use link_p2p.ShortCode.{Text}
use link_p2p.Identity.{Ciphers, Entropy, is_encrypted_key, decrypt_key_hex}
use link_p2p.Identity.Files.{
  KeyFile, Disk, Store, Outcome, owner_only, load_encrypted, checked, load_or_create_secret_key,
}
use link_p2p.Identity.Faults.{Holds, secret_key_from_hex-Holds}

decrypted-Holds :
    (d : Disk) (content : Bytes) (f : Store) (ciphers : Ciphers) (pass : Text)
    → Holds content f
    → Holds content (load_encrypted ciphers d content (some pass) f).0
unfolding load_encrypted
decrypted-Holds d content f ciphers pass h =
    elim (Option-cases (decrypt_key_hex ciphers content pass)) [
      | inl e ↦ rw (load_encrypted, e) h
      | inr (ok hex, e) ↦ rw (load_encrypted, e) (secret_key_from_hex-Holds d hex content f h)
      | inr (err x, e) ↦ rw (load_encrypted, e) h
    ]

load_encrypted-Holds :
    (d : Disk) (content : Bytes) (f : Store) (ciphers : Ciphers) (passphrase : Option Text)
    → Holds content f
    → Holds content (load_encrypted ciphers d content passphrase f).0
unfolding load_encrypted
load_encrypted-Holds d content f ciphers none h = h
load_encrypted-Holds d content f ciphers (some pass) h = decrypted-Holds d content f ciphers pass h

pub Result-cases : (r : Result (Unit {0})) → (r ≡ ok tt) ⊎ ((e : Error) × (r ≡ err e))
Result-cases (ok tt) = inl refl
Result-cases (err e) = inr (e, refl)

pub Encrypted-cases : (r : Result Bytes) → ((b : Bytes) × (r ≡ ok b)) ⊎ ((e : Error) × (r ≡ err e))
Encrypted-cases (ok b) = inl (b, refl)
Encrypted-cases (err e) = inr (e, refl)

-- Reading an encrypted file changes none of its bytes, with the right passphrase, a wrong one or none.
pub load_or_create_secret_key-encrypted :
    (ciphers : Ciphers) (d : Disk) (random : Entropy) (generated : Bytes) (passphrase : Option Text)
    (f : KeyFile)
    → d.readable ≡ true
    → is_encrypted_key f.bytes ≡ true
    → Holds f.bytes (load_or_create_secret_key ciphers d random generated passphrase (some f)).0
unfolding load_or_create_secret_key
load_or_create_secret_key-encrypted ciphers d random generated passphrase f readable encrypted =
    elim (Result-cases (checked passphrase)) [
      | inl e ↦
          rw (load_or_create_secret_key, e, readable, encrypted)
            (load_encrypted-Holds d f.bytes (some f) ciphers passphrase (f, refl, refl))
      | inr (x, e) ↦ rw (load_or_create_secret_key, e) (f, refl, refl)
    ]

-- If a key is handed out, there is a file and its mode is 0600.
abbrev pub IsPrivate : Outcome Bytes → Type 0
IsPrivate (f, none) = Unit
IsPrivate (f, some (err e)) = Unit
IsPrivate (f, some (ok key)) = (g : KeyFile) × (f ≡ some g) × (g.mode ≡ owner_only)

-- The same of a step with no key yet.
abbrev IsHardened : Store × Result (Unit {0}) → Type 0
IsHardened (f, err e) = Unit
IsHardened (f, ok _) = (g : KeyFile) × (f ≡ some g) × (g.mode ≡ owner_only)
