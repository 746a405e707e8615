-- ===== src/Identity/Faults.antt =====
-- What src/identity.rs does to a file that is damaged, unreadable or no key.
use link_p2p.Prelude.{
  ◌<◌, ◌≡◌, refl, true, false, Option, none, some, [], ltb, ◌==◌, length, take, Bool-cases, lt→ltb,
  inl, inr,
}
use link_p2p.Net.{Bytes}
use link_p2p.Outcome.{Result, ok, err}
use link_p2p.ShortCode.{Text}
use link_p2p.Contacts.{trim, byte_length}
use link_p2p.Identity.{
  Ciphers, Entropy, validate_passphrase, is_encrypted_key, as_bytes, from_utf8, to_hex,
  encrypt_key_hex, decrypt_key_hex, key_bytes,
}
use link_p2p.Identity.Files.{
  KeyFile, Disk, Store, mode_of, owner_only, open_key_file_for_write, harden_key_permissions,
  write_content, saved, read_key, reencrypt, create_key, write_key_file, secret_key_from_hex,
  write_key_file_encrypted, load_plain, load_or_create_secret_key,
}

-- An encrypted file that is cut off before its nonce ends makes the reader panic.
pub decrypt_key_hex-panics :
    (ciphers : Ciphers) (bytes : Bytes) (pass : Text)
    → is_encrypted_key bytes ≡ true
    → length bytes < 50
    → decrypt_key_hex ciphers bytes pass ≡ none
unfolding decrypt_key_hex
decrypt_key_hex-panics ciphers bytes pass h short =
    rw (decrypt_key_hex, h, lt→ltb (length bytes) 50 short) refl

-- What a write leaves in the file when it could be opened.
abbrev pub Holds : Bytes → Store → Type 0
Holds content f = (g : KeyFile) × (f ≡ some g) × (g.bytes ≡ content)

harden-Holds :
    (d : Disk) (content : Bytes) (f : Store)
    → Holds content f
    → Holds content (harden_key_permissions d f).0
unfolding harden_key_permissions
harden-Holds d content f (g, e, h) = elim (Bool-cases d.permits) [
  | inl t ↦ rw e (rw (harden_key_permissions, t) (record g { mode = owner_only }, refl, h))
  | inr t ↦ rw e (rw (harden_key_permissions, t) (g, refl, h))
]

open-some :
    (d : Disk) (f : Store)
    → d.dirs_made ≡ true
    → d.opens ≡ true
    → open_key_file_for_write d f ≡ (some (record { bytes = []; mode = mode_of f }), ok tt)
unfolding open_key_file_for_write
open-some d f dirs opens = rw (open_key_file_for_write, dirs, opens) refl

write_content-Holds :
    (d : Disk) (content : Bytes) (f : Store)
    → d.dirs_made ≡ true
    → d.opens ≡ true
    → Holds (take d.room content) (write_content d content f).0
unfolding write_content
write_content-Holds d content f dirs opens =
    let full : KeyFile = record { bytes = take d.room content; mode = mode_of f } in
    elim (Bool-cases (ltb d.room (length content))) [
      | inl t ↦ rw (write_content, open-some d f dirs opens, t) (full, refl, refl)
      | inr t ↦
          rw (write_content, open-some d f dirs opens, t)
            (harden-Holds d (take d.room content) (some full) (full, refl, refl))
    ]

saved-Holds :
    (key content : Bytes) (r : Store × Result (Unit {0}))
    → Holds content r.0
    → Holds content (saved key r).0
saved-Holds key content (f, ok _) h = h
saved-Holds key content (f, err e) h = h

read_key-Holds :
    (d : Disk) (content : Bytes) (f : Store) (r : Option (Result Bytes))
    → Holds content f
    → Holds content (read_key d f r).0
unfolding read_key
read_key-Holds d content f none h = h
read_key-Holds d content f (some (err e)) h = h
read_key-Holds d content f (some (ok key)) h =
    saved-Holds key content (harden_key_permissions d f) (harden-Holds d content f h)

pub secret_key_from_hex-Holds :
    (d : Disk) (hex : Text) (content : Bytes) (f : Store)
    → Holds content f
    → Holds content (secret_key_from_hex d hex f).0
unfolding secret_key_from_hex
secret_key_from_hex-Holds d hex content f h = elim (Bool-cases (byte_length (trim hex) == 64)) [
  | inl t ↦ rw (secret_key_from_hex, t) (read_key-Holds d content f (key_bytes 32 (trim hex)) h)
  | inr t ↦ rw (secret_key_from_hex, t) h
]

reencrypt-ok :
    (ciphers : Ciphers) (d : Disk) (random : Entropy) (content : Bytes) (pass hex : Text)
    (f : Store)
    → encrypt_key_hex ciphers random (trim hex) pass ≡ ok content
    → reencrypt ciphers d random (some pass) hex f ≡ (write_content d content f).0
unfolding reencrypt write_key_file_encrypted
reencrypt-ok ciphers d random content pass hex f done =
    rw (reencrypt, write_key_file_encrypted, done) refl

-- A file that is no encrypted one is read with a passphrase, the encryption works and the file can be
-- opened: its old contents are gone, in whole, for as much of the encrypted text as fits on the disk,
-- whether or not they are a key.
pub load_or_create_secret_key-overwrites :
    (ciphers : Ciphers) (d : Disk) (random : Entropy) (generated content : Bytes) (pass hex : Text)
    (f : KeyFile)
    → validate_passphrase pass ≡ ok tt
    → d.readable ≡ true
    → d.dirs_made ≡ true
    → d.opens ≡ true
    → is_encrypted_key f.bytes ≡ false
    → from_utf8 f.bytes ≡ some hex
    → encrypt_key_hex ciphers random (trim hex) pass ≡ ok content
    → Holds
        (take d.room content)
        (load_or_create_secret_key ciphers d random generated (some pass) (some f)).0
unfolding load_or_create_secret_key load_plain
load_or_create_secret_key-overwrites ciphers d random generated content pass hex f valid readable
      dirs opens plain text done =
    rw
      (
        load_or_create_secret_key,
        valid,
        readable,
        plain,
        load_plain,
        text,
        reencrypt-ok ciphers d random content pass hex (some f) done,
      )
      (secret_key_from_hex-Holds d hex (take d.room content) (write_content d content (some f)).0
        (write_content-Holds d content (some f) dirs opens))

-- A file that cannot be read is overwritten with a new key, if it can be written.
pub load_or_create_secret_key-unreadable :
    (ciphers : Ciphers) (d : Disk) (random : Entropy) (generated : Bytes) (f : KeyFile)
    → d.readable ≡ false
    → d.dirs_made ≡ true
    → d.opens ≡ true
    → Holds
        (take d.room (as_bytes (to_hex generated)))
        (load_or_create_secret_key ciphers d random generated none (some f)).0
unfolding load_or_create_secret_key create_key write_key_file
load_or_create_secret_key-unreadable ciphers d random generated f unreadable dirs opens =
    rw (load_or_create_secret_key, unreadable)
      (saved-Holds generated (take d.room (as_bytes (to_hex generated)))
        (write_key_file d (to_hex generated) (some f))
        (write_content-Holds d (as_bytes (to_hex generated)) (some f) dirs opens))
