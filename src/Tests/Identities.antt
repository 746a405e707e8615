-- ===== src/Tests/Identities.antt =====
-- Identity files with ciphers that only copy.
use link_p2p.Prelude.{◌≡◌, refl, sym, true, false, none, some, [], ◌∷◌, ◌++◌, arith}
use link_p2p.Net.{Bytes}
use link_p2p.Outcome.{ok}
use link_p2p.Contacts.{trim, is_whitespace}
use link_p2p.Identity.{
  Ciphers, Entropy, validate_passphrase, is_encrypted_key, key_file_magic, from_utf8, to_hex,
  encrypt_key_hex,
}
use link_p2p.Identity.Files.{KeyFile, Disk, owner_only, load_or_create_secret_key}
use link_p2p.Identity.Faults.{Holds, load_or_create_secret_key-overwrites}
use link_p2p.Identity.Written.{IsFilled}
use link_p2p.Identity.Reload.{load_or_create_secret_key-created}
use link_p2p.Service.{codes}

copy_opens : (key nonce aad msg c : Bytes) → some msg ≡ some c → some c ≡ some msg
copy_opens key nonce aad msg c h = sym h

abbrev copying : Ciphers
copying = record {
  derive_key = λ pass salt. some salt;
  encrypt = λ key nonce aad msg. some msg;
  decrypt = λ key nonce aad c. some c;
  opens = copy_opens;
}

abbrev eight : Bytes
eight = 7 ∷ 7 ∷ 7 ∷ 7 ∷ 7 ∷ 7 ∷ 7 ∷ 7 ∷ []

abbrev random : Entropy
random = record { salt = some (eight ++ eight); nonce = some (eight ++ (eight ++ eight)) }

random-IsFilled : IsFilled random
random-IsFilled = record {
  salt_size = λ s e. ground (arith, e);
  nonce_size = λ n e. ground (arith, e);
}

abbrev sound : Disk
sound = record { dirs_made = true; opens = true; room = 200; permits = true; readable = true }

abbrev key : Bytes
key = eight ++ (eight ++ (eight ++ eight))

abbrev new_file : KeyFile
new_file = record {
  bytes = key_file_magic ++ ((eight ++ eight) ++ ((eight ++ (eight ++ eight)) ++ to_hex key));
  mode = owner_only;
}

created :
    load_or_create_secret_key copying sound random key (some (codes "passphrase")) none
    ≡ (some new_file, some (ok key))
unfolding load_or_create_secret_key
created = refl

load_or_create_secret_key-created_example :
    (key ≡ key)
    × (load_or_create_secret_key copying sound random [] (some (codes "passphrase")) (some new_file)
        ≡ (some new_file, some (ok key)))
load_or_create_secret_key-created_example =
    load_or_create_secret_key-created copying key (omega arith) refl sound sound random random []
      (some (codes "passphrase")) (some new_file) key random-IsFilled created refl refl

-- A file of notes that everybody can read, and a disk with room for three bytes.
abbrev notes : KeyFile
notes = record { bytes = codes "notes"; mode = 420 }

abbrev full : Disk
full = record { dirs_made = true; opens = true; room = 3; permits = true; readable = true }

notes_text : from_utf8 notes.bytes ≡ some (codes "notes")
unfolding from_utf8
notes_text = refl

notes_trimmed : trim (codes "notes") ≡ codes "notes"
unfolding trim is_whitespace
notes_trimmed = refl

abbrev notes_encrypted : Bytes
notes_encrypted =
    key_file_magic ++ ((eight ++ eight) ++ ((eight ++ (eight ++ eight)) ++ codes "notes"))

notes_done :
    encrypt_key_hex copying random (trim (codes "notes")) (codes "passphrase") ≡ ok notes_encrypted
unfolding encrypt_key_hex
notes_done = rw notes_trimmed refl

notes_valid : validate_passphrase (codes "passphrase") ≡ ok tt
unfolding validate_passphrase
notes_valid = refl

notes_plain : is_encrypted_key notes.bytes ≡ false
unfolding is_encrypted_key
notes_plain = refl

load_or_create_secret_key-overwrites_example :
    Holds
      (b'l' ∷ b'i' ∷ b'n' ∷ [])
      (load_or_create_secret_key copying full random key (some (codes "passphrase")) (some notes)).0
load_or_create_secret_key-overwrites_example =
    load_or_create_secret_key-overwrites copying full random key notes_encrypted
      (codes "passphrase") (codes "notes") notes notes_valid refl refl refl notes_plain notes_text
      notes_done
