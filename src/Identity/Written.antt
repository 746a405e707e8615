-- ===== src/Identity/Written.antt =====
-- What src/identity.rs writes for a key, and the layout of an encrypted file.
use link_p2p.Prelude.{
  ℕ, zero, suc, ◌+◌, ◌≡◌, ◌⊎◌, refl, sym, ◌∙◌, true, false, Option, none, some, [], ◌∷◌, ◌++◌, ltb,
  length, take, drop, take-append, drop-append, take_all, Option-cases, arith, inl, inr,
}
use native.Mathlib.Nat.{zero-add, suc-add}
use link_p2p.Net.{Bytes}
use link_p2p.Outcome.{Result, ok, err, Error}
use link_p2p.ShortCode.{Text}
use link_p2p.Identity.{
  Ciphers, Entropy, key_file_magic, is_encrypted_key, decrypt_key_hex, decrypt_parts, from_utf8,
  to_hex, encrypt_key_hex, as_bytes,
}
use link_p2p.Identity.Files.{
  KeyFile, Disk, Store, owner_only, harden_key_permissions, write_opened, open_key_file_for_write,
  write_content, saved, secret_key_from_hex, load_encrypted, write_key_file_encrypted, checked,
  load_or_create_secret_key,
}
use link_p2p.Identity.Kept.{Result-cases, Encrypted-cases}

-- The file that a key is written to.
abbrev pub stored : Bytes → KeyFile
stored content = record { bytes = content; mode = owner_only }

pub saved_ok :
    (k key : Bytes) (f : Store) (r : Store × Result (Unit {0}))
    → saved k r ≡ (f, some (ok key))
    → (r ≡ (f, ok tt)) × (key ≡ k)
saved_ok k key f (g, ok tt) h = ground (arith, h)
saved_ok k key f (g, err e) h = absurd (ground (arith, h))

-- A write that succeeds into a new file has written all.
pub write_content_ok :
    (d : Disk) (content : Bytes) (f : Store)
    → write_content d content none ≡ (f, ok tt)
    → f ≡ some (stored content)
unfolding write_content write_opened open_key_file_for_write harden_key_permissions
write_content_ok d content f h = ground (arith, h, take_all d.room content)

-- `getrandom::fill` fills the 16 bytes of a salt and the 24 of a nonce.
pub record IsFilled (random : Entropy) : Type 0 where
  pub salt_size : (s : Bytes) → random.salt ≡ some s → length s ≡ 16
  pub nonce_size : (n : Bytes) → random.nonce ≡ some n → length n ≡ 24

pub take_exact : (n : ℕ) (xs ys : Bytes) → length xs ≡ n → take n (xs ++ ys) ≡ xs
take_exact n xs ys h = rw (sym h) (take-append xs ys)

pub drop_exact : (n : ℕ) (xs ys : Bytes) → length xs ≡ n → drop n (xs ++ ys) ≡ ys
drop_exact n xs ys h = rw (sym h) (drop-append xs ys)

drop_nil : (n : ℕ) → drop {A = ℕ} n [] ≡ []
drop_nil zero = refl
drop_nil (suc n) = refl

pub drop_add : (n m : ℕ) (xs : Bytes) → drop (n + m) xs ≡ drop m (drop n xs)
drop_add zero m xs = rw zero-add refl
drop_add (suc n) m [] = drop_nil (suc n + m) ∙ sym (drop_nil m)
drop_add (suc n) m (x ∷ xs) = rw suc-add (drop_add n m xs)

-- An encrypted file in its parts.
abbrev pub layout : Bytes → Bytes → Bytes → Bytes
layout salt nonce c = key_file_magic ++ (salt ++ (nonce ++ c))

abbrev IsEncryption : Ciphers → Entropy → Text → Text → Bytes → Type 0
IsEncryption ciphers random hex pass content =
    (salt : Bytes) × (nonce : Bytes) × (dk : Bytes) × (c : Bytes) × (random.salt ≡ some salt)
    × (random.nonce ≡ some nonce)
    × (ciphers.derive_key pass salt ≡ some dk)
    × (ciphers.encrypt dk nonce key_file_magic (as_bytes hex) ≡ some c)
    × (content ≡ layout salt nonce c)

pub encrypt_key_hex-IsEncryption :
    (ciphers : Ciphers) (random : Entropy) (hex pass : Text) (content : Bytes)
    → encrypt_key_hex ciphers random hex pass ≡ ok content
    → IsEncryption ciphers random hex pass content
unfolding encrypt_key_hex
encrypt_key_hex-IsEncryption ciphers random hex pass content h = elim (Option-cases random.salt) [
  | inl e ↦ absurd (ground (arith, e, h))
  | inr (salt, e) ↦ elim (Option-cases random.nonce) [
    | inl e' ↦ absurd (ground (arith, e, e', h))
    | inr (nonce, e') ↦ elim (Option-cases (ciphers.derive_key pass salt)) [
      | inl k ↦ absurd (ground (arith, e, e', k, h))
      | inr (dk, k) ↦ elim (Option-cases (ciphers.encrypt dk nonce key_file_magic (as_bytes hex))) [
        | inl k' ↦ absurd (ground (arith, e, e', k, k', h))
        | inr (c, k') ↦ (salt, nonce, dk, c, e, e', k, k', ground (arith, e, e', k, k', h))
      ]
    ]
  ]
]

-- What a new key is written as.
abbrev pub IsStored : Ciphers → Bytes → Option Text → Bytes → Type 0
IsStored ciphers key none content = content ≡ to_hex key
IsStored ciphers key (some pass) content =
    (random : Entropy) × IsFilled random
    × (encrypt_key_hex ciphers random (to_hex key) pass ≡ ok content)

pub is_encrypted_key-layout : (salt nonce c : Bytes) → is_encrypted_key (layout salt nonce c) ≡ true
unfolding is_encrypted_key
is_encrypted_key-layout salt nonce c = refl

pub decrypt_parts_ok :
    (ciphers : Ciphers) (salt nonce c dk : Bytes) (pass hex : Text) (plain : Bytes)
    → ciphers.derive_key pass salt ≡ some dk
    → ciphers.decrypt dk nonce key_file_magic c ≡ some plain
    → from_utf8 plain ≡ some hex
    → decrypt_parts ciphers salt nonce c pass ≡ some (ok hex)
unfolding decrypt_parts
decrypt_parts_ok ciphers salt nonce c dk pass hex plain k e text =
    rw (decrypt_parts, k, e, text) refl

pub decrypt_key_hex-parts :
    (ciphers : Ciphers) (content : Bytes) (pass : Text)
    → is_encrypted_key content ≡ true
    → ltb (length content) 50 ≡ false
    → decrypt_key_hex ciphers content pass
      ≡ decrypt_parts ciphers
          (take 16 (drop 10 content))
          (take 24 (drop 26 content))
          (drop 50 content)
          pass
unfolding decrypt_key_hex
decrypt_key_hex-parts ciphers content pass marked long = rw (decrypt_key_hex, marked, long) refl

pub decrypt_parts_eq :
    (ciphers : Ciphers) (pass : Text) (salt nonce c s n r : Bytes)
    → s ≡ salt
    → n ≡ nonce
    → r ≡ c
    → decrypt_parts ciphers s n r pass ≡ decrypt_parts ciphers salt nonce c pass
decrypt_parts_eq ciphers pass salt nonce c s n r e f g = rw (e, f, g) refl

pub write_key_file_encrypted_ok :
    (ciphers : Ciphers) (d : Disk) (random : Entropy) (hex pass : Text) (f : Store)
    → write_key_file_encrypted ciphers d random hex pass none ≡ (f, ok tt)
    → (content : Bytes) × (encrypt_key_hex ciphers random hex pass ≡ ok content)
      × (f ≡ some (stored content))
unfolding write_key_file_encrypted
write_key_file_encrypted_ok ciphers d random hex pass f h =
    elim (Encrypted-cases (encrypt_key_hex ciphers random hex pass)) [
      | inl (content, e) ↦ (content, e, write_content_ok d content f (ground (arith, e, h)))
      | inr (x, e) ↦ absurd (ground (arith, e, h))
    ]

pub checked-cases :
    (passphrase : Option Text)
    → (checked passphrase ≡ ok tt) ⊎ ((e : Error) × (checked passphrase ≡ err e))
checked-cases passphrase = Result-cases (checked passphrase)

pub load-encrypted :
    (ciphers : Ciphers) (d : Disk) (random : Entropy) (generated : Bytes) (pass : Text)
    (f : KeyFile)
    → checked (some pass) ≡ ok tt
    → d.readable ≡ true
    → is_encrypted_key f.bytes ≡ true
    → load_or_create_secret_key ciphers d random generated (some pass) (some f)
      ≡ load_encrypted ciphers d f.bytes (some pass) (some f)
unfolding load_or_create_secret_key
load-encrypted ciphers d random generated pass f valid readable encrypted =
    rw (load_or_create_secret_key, valid, readable, encrypted) refl

pub load_encrypted_ok :
    (ciphers : Ciphers) (d : Disk) (content : Bytes) (pass hex : Text) (f : Store)
    → decrypt_key_hex ciphers content pass ≡ some (ok hex)
    → load_encrypted ciphers d content (some pass) f ≡ secret_key_from_hex d hex f
unfolding load_encrypted
load_encrypted_ok ciphers d content pass hex f opened = rw (load_encrypted, opened) refl
