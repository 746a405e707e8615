-- ===== src/Identity/Reload.antt =====
-- A key that src/identity.rs has created is loaded again.
use link_p2p.Prelude.{
  ◌≡◌, refl, sym, ap, ◌∙◌, true, false, Option, none, some, ◌++◌, ltb, length, All, take, drop,
  length-append, le→ltb, arith, inl, inr,
}
use link_p2p.Net.{Bytes, IsByte}
use link_p2p.Outcome.{ok}
use link_p2p.ShortCode.{Text}
use link_p2p.Contacts.{byte_length}
use link_p2p.Identity.{
  Ciphers, Entropy, key_file_magic, is_encrypted_key, key_bytes, decrypt_key_hex, from_utf8, to_hex,
  as_bytes,
}
use link_p2p.Identity.Files.{
  Disk, Store, write_key_file, secret_key_from_hex, write_key_file_encrypted, load_plain,
  create_key, checked, load_or_create_secret_key,
}
use link_p2p.Identity.Hex.{
  IsHex, to_hex-IsHex, length-to_hex, as_bytes-IsHex, byte_length-IsHex, trim-IsHex,
  from_utf8-IsHex, key_bytes-to_hex, is_encrypted_key-IsHex,
}
use link_p2p.Identity.Written.{
  stored, saved_ok, write_content_ok, IsFilled, take_exact, drop_exact, drop_add, layout,
  encrypt_key_hex-IsEncryption, IsStored, is_encrypted_key-layout, decrypt_parts_ok,
  decrypt_key_hex-parts, decrypt_parts_eq, write_key_file_encrypted_ok, checked-cases,
  load-encrypted, load_encrypted_ok,
}

module _ (ciphers : Ciphers) (key : Bytes) (bytes : All IsByte key) (size : length key ≡ 32) where
  hex : IsHex (to_hex key)
  hex = to_hex-IsHex key bytes

  secret_key_from_hex-to_hex :
      (d : Disk) (content : Bytes)
      → d.permits ≡ true
      → secret_key_from_hex d (to_hex key) (some (stored content))
        ≡ (some (stored content), some (ok key))
  unfolding secret_key_from_hex
  secret_key_from_hex-to_hex d content permits =
      let width : byte_length (to_hex key) ≡ 64 =
        omega (arith, byte_length-IsHex (to_hex key) hex, length-to_hex key, size) in
      let read : key_bytes 32 (to_hex key) ≡ some (ok key) =
        rw (sym size) (key_bytes-to_hex key bytes) in
      rw (secret_key_from_hex, trim-IsHex (to_hex key) hex, width, read, permits) refl

  module _ (salt nonce c : Bytes) (salt_size : length salt ≡ 16)
      (nonce_size : length nonce ≡ 24) where
    layout-salt : take 16 (drop 10 (layout salt nonce c)) ≡ salt
    layout-salt = take_exact 16 salt (nonce ++ c) salt_size

    layout-behind : drop 26 (layout salt nonce c) ≡ nonce ++ c
    layout-behind = drop_exact 16 salt (nonce ++ c) salt_size

    layout-nonce : take 24 (drop 26 (layout salt nonce c)) ≡ nonce
    layout-nonce = rw layout-behind (take_exact 24 nonce c nonce_size)

    layout-cipher : drop 50 (layout salt nonce c) ≡ c
    layout-cipher =
        drop_add 26 24 (layout salt nonce c) ∙ rw layout-behind (drop_exact 24 nonce c nonce_size)

    layout-long : ltb (length (layout salt nonce c)) 50 ≡ false
    layout-long = le→ltb (length (layout salt nonce c)) 50 (
        omega
          (arith, length-append salt (nonce ++ c), length-append nonce c, salt_size, nonce_size))

  decrypt_key_hex-layout :
      (pass : Text) (salt nonce dk c : Bytes)
      → length salt ≡ 16
      → length nonce ≡ 24
      → ciphers.derive_key pass salt ≡ some dk
      → ciphers.encrypt dk nonce key_file_magic (as_bytes (to_hex key)) ≡ some c
      → decrypt_key_hex ciphers (layout salt nonce c) pass ≡ some (ok (to_hex key))
  decrypt_key_hex-layout pass salt nonce dk c s n k e =
      let plain : ciphers.decrypt dk nonce key_file_magic c ≡ some (to_hex key) =
        ciphers.opens dk nonce key_file_magic (to_hex key) c
          (rw (sym (as_bytes-IsHex (to_hex key) hex)) e) in
      decrypt_key_hex-parts ciphers (layout salt nonce c) pass
        (is_encrypted_key-layout salt nonce c) (layout-long salt nonce c s n)
      ∙ decrypt_parts_eq ciphers pass salt nonce c (take 16 (drop 10 (layout salt nonce c)))
          (take 24 (drop 26 (layout salt nonce c))) (drop 50 (layout salt nonce c))
          (layout-salt salt nonce c s n) (layout-nonce salt nonce c s n)
          (layout-cipher salt nonce c s n)
      ∙ decrypt_parts_ok ciphers salt nonce c dk pass (to_hex key) (to_hex key) k plain
          (from_utf8-IsHex (to_hex key) hex)

  -- Loading what was stored gives the key and leaves the file.
  load-stored :
      (d : Disk) (random : Entropy) (generated content : Bytes) (passphrase : Option Text)
      → d.readable ≡ true
      → d.permits ≡ true
      → checked passphrase ≡ ok tt
      → IsStored ciphers key passphrase content
      → load_or_create_secret_key ciphers d random generated passphrase (some (stored content))
        ≡ (some (stored content), some (ok key))
  unfolding load_or_create_secret_key load_plain
  load-stored d random generated content none readable permits valid same =
      let plain : is_encrypted_key content ≡ false =
        rw same (is_encrypted_key-IsHex (to_hex key) hex) in
      let text : from_utf8 content ≡ some (to_hex key) =
        rw same (from_utf8-IsHex (to_hex key) hex) in
      rw (load_or_create_secret_key, readable, plain, load_plain, text)
        (secret_key_from_hex-to_hex d content permits)
  load-stored d random generated content (some pass) readable permits valid (used, filled, done) =
      let (salt, nonce, dk, c, s, n, k, e, same) =
        encrypt_key_hex-IsEncryption ciphers used (to_hex key) pass content done in
      let encrypted : is_encrypted_key content ≡ true =
        rw same (is_encrypted_key-layout salt nonce c) in
      let opened : decrypt_key_hex ciphers content pass ≡ some (ok (to_hex key)) =
        ap (λ t. decrypt_key_hex ciphers t pass) same
        ∙ (decrypt_key_hex-layout pass salt nonce dk c (filled.salt_size salt s)
            (filled.nonce_size nonce n) k e) in
      load-encrypted ciphers d random generated pass (stored content) valid readable encrypted
      ∙ load_encrypted_ok ciphers d content pass (to_hex key) (some (stored content)) opened
      ∙ secret_key_from_hex-to_hex d content permits

  create_key_ok :
      (d : Disk) (random : Entropy) (passphrase : Option Text) (f : Store) (k : Bytes)
      → IsFilled random
      → create_key ciphers d random key passphrase none ≡ (f, some (ok k))
      → (content : Bytes) × (f ≡ some (stored content))
        × (k ≡ key)
        × IsStored ciphers key passphrase content
  unfolding create_key write_key_file
  create_key_ok d random none f k filled h =
      let (written, same) = saved_ok key k f (write_key_file d (to_hex key) none) h in
      (
        as_bytes (to_hex key),
        write_content_ok d (as_bytes (to_hex key)) f written,
        same,
        as_bytes-IsHex (to_hex key) hex,
      )
  create_key_ok d random (some pass) f k filled h =
      let (written, same) =
        saved_ok key k f (write_key_file_encrypted ciphers d random (to_hex key) pass none) h in
      let (content, done, full) =
        write_key_file_encrypted_ok ciphers d random (to_hex key) pass f written in
      (content, full, same, (random, filled, done))

  -- A key that was created is the one that was generated, and it is loaded again from its file under the
  -- same passphrase or without one, whatever other randomness is at hand; the file stays as it is.
  pub load_or_create_secret_key-created :
      (d d' : Disk) (random random' : Entropy) (generated' : Bytes) (passphrase : Option Text)
      (f : Store) (k : Bytes)
      → IsFilled random
      → load_or_create_secret_key ciphers d random key passphrase none ≡ (f, some (ok k))
      → d'.readable ≡ true
      → d'.permits ≡ true
      → (k ≡ key)
        × (load_or_create_secret_key ciphers d' random' generated' passphrase f
            ≡ (f, some (ok key)))
  unfolding load_or_create_secret_key
  load_or_create_secret_key-created d d' random random' generated' passphrase f k filled h readable
        permits =
      elim (checked-cases passphrase) [
        | inr (x, e) ↦ absurd (ground (arith, e, h))
        | inl valid ↦
            let made : create_key ciphers d random key passphrase none ≡ (f, some (ok k)) =
              ground (arith, valid, h) in
            let (content, full, same, how) = create_key_ok d random passphrase f k filled made in
            (
              same,
              rw full
                  (load-stored d' random' generated' content passphrase readable permits valid how),
            )
      ]
