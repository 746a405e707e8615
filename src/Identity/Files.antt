-- ===== src/Identity/Files.antt =====
-- The identity file of src/identity.rs: its bytes and its mode, or none if there is no file. What the
-- file system refuses is an argument; a write that runs out of room leaves what fitted.
use link_p2p.Prelude.{ℕ, Bool, Option, none, some, [], not, ltb, ◌==◌, length, take, if◌then◌else◌}
use link_p2p.Net.{Bytes}
use link_p2p.Outcome.{Msg, Result, ok, err, root, context}
use link_p2p.ShortCode.{Text}
use link_p2p.Contacts.{trim, byte_length}
use link_p2p.Identity.{
  Ciphers, Entropy, validate_passphrase, is_encrypted_key, as_bytes, from_utf8, to_hex, key_bytes,
  encrypt_key_hex, decrypt_key_hex,
}

pub record KeyFile : Type 0 where
  pub bytes : Bytes
  pub mode : ℕ

pub record Disk : Type 0 where
  pub dirs_made : Bool
  pub opens : Bool
  pub room : ℕ
  pub permits : Bool
  pub readable : Bool

abbrev pub Store : Type 0
Store = Option KeyFile

abbrev pub owner_only : ℕ
owner_only = 384

-- `mode(0o600)` counts for a file that the call creates.
abbrev pub mode_of : Store → ℕ
mode_of none = owner_only
mode_of (some f) = f.mode

-- Truncates the file.
unfoldable pub open_key_file_for_write : Disk → Store → Store × Result (Unit {0})
open_key_file_for_write d f =
    if not d.dirs_made
    then (f, err (context Msg.writing_identity (root Msg.io_error)))
    else if not d.opens
    then (f, err (context Msg.writing_identity (root Msg.io_error)))
    else (some (record { bytes = []; mode = mode_of f }), ok tt)

unfoldable pub harden_key_permissions : Disk → Store → Store × Result (Unit {0})
harden_key_permissions d none = (none, err (context Msg.identity_permissions (root Msg.io_error)))
harden_key_permissions d (some f) =
    if d.permits
    then (some (record f { mode = owner_only }), ok tt)
    else (some f, err (context Msg.identity_permissions (root Msg.io_error)))

-- `write_all` into the file that was just truncated.
abbrev pub fill_file : Disk → Bytes → Store → Store
fill_file d content none = none
fill_file d content (some f) = some (record f { bytes = take d.room content })

unfoldable pub write_opened : Disk → Bytes → Store × Result (Unit {0}) → Store × Result (Unit {0})
unfolding harden_key_permissions
write_opened d content (f, err e) = (f, err e)
write_opened d content (f, ok _) =
    if ltb d.room (length content)
    then (fill_file d content f, err (context Msg.writing_identity (root Msg.io_error)))
    else harden_key_permissions d (fill_file d content f)

-- Opens, writes and hardens.
unfoldable pub write_content : Disk → Bytes → Store → Store × Result (Unit {0})
unfolding open_key_file_for_write write_opened
write_content d content f = write_opened d content (open_key_file_for_write d f)

unfoldable pub write_key_file : Disk → Text → Store → Store × Result (Unit {0})
unfolding write_content as_bytes
write_key_file d hex f = write_content d (as_bytes hex) f

-- A result `none` is a panic.
abbrev pub Outcome : Type 0 → Type 0
Outcome A = Store × Option (Result A)

-- The key, once the step before it has succeeded.
abbrev pub saved : Bytes → Store × Result (Unit {0}) → Outcome Bytes
saved key (f, ok _) = (f, some (ok key))
saved key (f, err e) = (f, some (err e))

unfoldable pub read_key : Disk → Store → Option (Result Bytes) → Outcome Bytes
unfolding harden_key_permissions
read_key d f none = (f, none)
read_key d f (some (err e)) = (f, some (err e))
read_key d f (some (ok key)) = saved key (harden_key_permissions d f)

unfoldable pub secret_key_from_hex : Disk → Text → Store → Outcome Bytes
unfolding trim byte_length key_bytes read_key
secret_key_from_hex d hex f =
    if not (byte_length (trim hex) == 64)
    then (f, some (err (root Msg.identity_length)))
    else read_key d f (key_bytes 32 (trim hex))

unfoldable pub checked : Option Text → Result (Unit {0})
unfolding validate_passphrase
checked none = ok tt
checked (some pass) = validate_passphrase pass

module _ (ciphers : Ciphers) where
  unfoldable pub write_key_file_encrypted :
      Disk → Entropy → Text → Text → Store → Store × Result (Unit {0})
  unfolding encrypt_key_hex write_content
  write_key_file_encrypted d random hex passphrase f =
      elim (encrypt_key_hex ciphers random hex passphrase) [
        | err e ↦ (f, err e)
        | ok content ↦ write_content d content f
      ]

  -- The branch of an encrypted file.
  unfoldable pub load_encrypted : Disk → Bytes → Option Text → Store → Outcome Bytes
  unfolding decrypt_key_hex secret_key_from_hex
  load_encrypted d content none f = (f, some (err (root Msg.no_passphrase)))
  load_encrypted d content (some pass) f = elim (decrypt_key_hex ciphers content pass) [
    | none ↦ (f, none)
    | some (err e) ↦ (f, some (err (context Msg.decrypting_identity e)))
    | some (ok hex) ↦ secret_key_from_hex d hex f
  ]

  -- A plaintext file is encrypted before it is read as a key, and a failure of that is only logged.
  unfoldable pub reencrypt : Disk → Entropy → Option Text → Text → Store → Store
  unfolding write_key_file_encrypted trim
  reencrypt d random none hex f = f
  reencrypt d random (some pass) hex f = (write_key_file_encrypted d random (trim hex) pass f).0

  unfoldable pub load_plain : Disk → Entropy → Bytes → Option Text → Store → Outcome Bytes
  unfolding from_utf8 secret_key_from_hex reencrypt
  load_plain d random content passphrase f = elim (from_utf8 content) [
    | none ↦ (f, some (err (context Msg.identity_unreadable (root Msg.utf8_error))))
    | some hex ↦ secret_key_from_hex d hex (reencrypt d random passphrase hex f)
  ]

  -- `generated` is the key that `SecretKey::generate` makes.
  unfoldable pub create_key : Disk → Entropy → Bytes → Option Text → Store → Outcome Bytes
  unfolding write_key_file write_key_file_encrypted to_hex
  create_key d random generated none f = saved generated (write_key_file d (to_hex generated) f)
  create_key d random generated (some pass) f =
      saved generated (write_key_file_encrypted d random (to_hex generated) pass f)

  unfoldable pub load_file : Disk → Entropy → Bytes → Option Text → Store → Outcome Bytes
  unfolding load_encrypted load_plain create_key is_encrypted_key
  load_file d random generated passphrase none = create_key d random generated passphrase none
  load_file d random generated passphrase (some f) =
      if not d.readable
      then create_key d random generated passphrase (some f)
      else if is_encrypted_key f.bytes
      then load_encrypted d f.bytes passphrase (some f)
      else load_plain d random f.bytes passphrase (some f)

  unfoldable pub load_or_create_secret_key :
      Disk → Entropy → Bytes → Option Text → Store → Outcome Bytes
  unfolding checked load_file
  load_or_create_secret_key d random generated passphrase f = elim (checked passphrase) [
    | err e ↦ (f, some (err e))
    | ok _ ↦ load_file d random generated passphrase f
  ]
