-- ===== src/Identity/Paths.antt =====
-- Which identity file src/identity.rs takes, and the move of an old one out of the working directory.
use link_p2p.Prelude.{
  ◌<◌, ◌≡◌, refl, Bool, true, false, not, none, some, length, take, take_all, Bool-cases, arith,
  inl, inr, if◌then◌else◌,
}
use link_p2p.Net.{Bytes}
use link_p2p.Outcome.{Msg, Error, Result, ok, err, root, context}
use link_p2p.Identity.Files.{
  KeyFile, Disk, Store, mode_of, owner_only, write_content, write_opened, open_key_file_for_write,
  harden_key_permissions,
}

-- The file of `--identity`, that of the configuration directory, and that of the working directory.
pub data Location : Type 0 where
  explicit xdg legacy : Location

-- The file of the configuration directory and the one of the working directory.
pub record Files : Type 0 where
  pub at_xdg : Store
  pub at_legacy : Store

unfoldable pub exists : Store → Bool
exists none = false
exists (some f) = true

-- `removes` tells whether `remove_file` succeeds, which is only logged otherwise.
unfoldable pub moved : Bool → Store → Store × Result (Unit {0}) → Files × Result (Unit {0})
moved removes old (new, err e) = (record { at_xdg = new; at_legacy = old }, err e)
moved removes old (new, ok _) =
    (record { at_xdg = new; at_legacy = if removes then none else old }, ok tt)

unfoldable pub migrate_identity : Disk → Bool → Files → Files × Result (Unit {0})
unfolding moved write_content
migrate_identity d removes fs = elim fs.at_legacy [
  | none ↦ (fs, err (context Msg.migrating_identity (root Msg.io_error)))
  | some f ↦
      if not d.readable
      then (fs, err (context Msg.migrating_identity (root Msg.io_error)))
      else moved removes (some f) (write_content d f.bytes fs.at_xdg)
]

unfoldable pub taken : Files × Result (Unit {0}) → Files × Location
taken (fs, ok _) = (fs, xdg)
taken (fs, err e) = (fs, legacy)

-- `given` tells whether there is an explicit path.
unfoldable pub resolve_identity_path : Disk → Bool → Bool → Files → Files × Location
unfolding exists taken migrate_identity
resolve_identity_path d removes given fs =
    if given
    then (fs, explicit)
    else if exists fs.at_xdg
    then (fs, xdg)
    else if not (exists fs.at_legacy)
    then (fs, xdg)
    else taken (migrate_identity d removes fs)

-- The file at a location that is not explicit.
abbrev pub file_at : Location → Files → Store
file_at explicit fs = none
file_at xdg fs = fs.at_xdg
file_at legacy fs = fs.at_legacy

-- The bytes of the file that is taken.
abbrev pub Takes : Bytes → Files × Location → Type 0
Takes content (fs, l) = (g : KeyFile) × (file_at l fs ≡ some g) × (g.bytes ≡ content)

taken-Takes :
    (removes : Bool) (f : KeyFile) (r : Store × Result (Unit {0}))
    → (r.1 ≡ ok tt → (g : KeyFile) × (r.0 ≡ some g) × (g.bytes ≡ f.bytes))
    → Takes f.bytes (taken (moved removes (some f) r))
unfolding taken moved
taken-Takes removes f (new, ok tt) h = h refl
taken-Takes removes f (new, err e) h = (f, refl, refl)

write_content_whole :
    (d : Disk) (content : Bytes) (f : Store)
    → (write_content d content f).1 ≡ ok tt
    → (g : KeyFile) × ((write_content d content f).0 ≡ some g) × (g.bytes ≡ content)
unfolding write_content write_opened open_key_file_for_write harden_key_permissions
write_content_whole d content f h = (
  record { bytes = content; mode = owner_only },
  ground (arith, h, take_all d.room content),
  refl,
)

migrate-unreadable :
    (d : Disk) (removes : Bool) (old : KeyFile)
    → d.readable ≡ false
    → migrate_identity d removes (record { at_xdg = none; at_legacy = some old }) ≡ (
      record { at_xdg = none; at_legacy = some old },
      err (context Msg.migrating_identity (root Msg.io_error)),
    )
unfolding migrate_identity
migrate-unreadable d removes old t = rw (migrate_identity, t) refl

taken_err-Takes :
    (old : KeyFile) (e : Error)
    → Takes old.bytes (taken (record { at_xdg = none; at_legacy = some old }, err e))
unfolding taken
taken_err-Takes old e = (old, refl, refl)

migrate-Takes :
    (d : Disk) (removes : Bool) (old : KeyFile)
    → Takes old.bytes
        (taken (migrate_identity d removes (record { at_xdg = none; at_legacy = some old })))
unfolding migrate_identity
migrate-Takes d removes old = elim (Bool-cases d.readable) [
  | inl t ↦
      rw (migrate_identity, t)
        (taken-Takes removes old (write_content d old.bytes none)
          (write_content_whole d old.bytes none))
  | inr t ↦
      rw (migrate-unreadable d removes old t)
        (taken_err-Takes old (context Msg.migrating_identity (root Msg.io_error)))
]

-- An old file in the working directory and none in the configuration directory: the file that is taken
-- has the bytes of the old one, wherever the move fails.
pub resolve_identity_path-Takes :
    (d : Disk) (removes : Bool) (old : KeyFile)
    → Takes old.bytes
        (resolve_identity_path d removes false (record { at_xdg = none; at_legacy = some old }))
unfolding resolve_identity_path
resolve_identity_path-Takes d removes old = migrate-Takes d removes old

write_content_torn :
    (d : Disk) (content : Bytes) (f : Store)
    → d.dirs_made ≡ true
    → d.opens ≡ true
    → d.room < length content
    → (e : Error) × (write_content d content f
        ≡ (some (record { bytes = take d.room content; mode = mode_of f }), err e))
unfolding write_content write_opened open_key_file_for_write
write_content_torn d content f dirs opens small =
    (context Msg.writing_identity (root Msg.io_error), ground (arith, dirs, opens, small))

migrate-torn :
    (d : Disk) (removes : Bool) (old : KeyFile)
    → d.readable ≡ true
    → d.dirs_made ≡ true
    → d.opens ≡ true
    → d.room < length old.bytes
    → taken (migrate_identity d removes (record { at_xdg = none; at_legacy = some old })) ≡ (
      record {
        at_xdg = some (record { bytes = take d.room old.bytes; mode = owner_only });
        at_legacy = some old;
      },
      legacy,
    )
unfolding migrate_identity taken moved
migrate-torn d removes old readable dirs opens small =
    let (e, torn) = write_content_torn d old.bytes none dirs opens small in
    rw (migrate_identity, readable, torn) refl

-- A move that runs out of room leaves the first bytes in the configuration directory, and the next
-- start takes those for the identity, though the old file is still whole.
pub resolve_identity_path-torn :
    (d d' : Disk) (removes removes' : Bool) (old : KeyFile)
    → d.readable ≡ true
    → d.dirs_made ≡ true
    → d.opens ≡ true
    → d.room < length old.bytes
    → Takes (take d.room old.bytes) (
        resolve_identity_path d' removes' false
          (resolve_identity_path d removes false
            (record { at_xdg = none; at_legacy = some old })).0)
unfolding resolve_identity_path
resolve_identity_path-torn d d' removes removes' old readable dirs opens small =
    rw (migrate-torn d removes old readable dirs opens small)
      (record { bytes = take d.room old.bytes; mode = owner_only }, refl, refl)
