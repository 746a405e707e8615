-- ===== src/I18n/Catalog.antt =====
-- Which files `parse_mo` of src/i18n.rs reads as a catalog.
use link_p2p.Prelude.{
  ℕ, zero, suc, ◌+◌, ◌*◌, ◌<◌, ◌≤◌, ◌≡◌, ◌↔◌, ◌⊎◌, ◌∙◌, sym, refl, Bool, not, some, List, [], ◌==◌,
  ltb, length, take, drop, Bool-cases, Option-cases, arith, inl, inr, if◌then◌else◌, le→ltb,
}
use link_p2p.Net.{Bytes}
use link_p2p.ShortCode.{Text}
use link_p2p.I18n.{from_be, from_le, slice, rd, desc, text_at, insert_entry, entries, parse_mo}

-- The 32-bit number at an offset.
abbrev pub word : Bytes → Bool → ℕ → ℕ
word bytes big_endian off =
    if big_endian then from_be (take 4 (drop off bytes)) else from_le (take 4 (drop off bytes))

-- The descriptor `i` of a table and the string that it names lie in the file.
abbrev pub IsWithin : Bytes → Bool → ℕ → ℕ → Type 0
IsWithin bytes be tab i =
    (tab + i * 8 + 8 ≤ length bytes)
    × (word bytes be (tab + i * 8 + 4) + word bytes be (tab + i * 8) ≤ length bytes)

le_cases : (i j : ℕ) → i ≤ j → (i ≡ j) ⊎ (suc i ≤ j)
le_cases i j h = omega arith

slice-some :
    (bytes : Bytes) (off len : ℕ)
    → off + len ≤ length bytes
    → slice bytes off len ≡ some (take len (drop off bytes))
unfolding slice
slice-some bytes off len h = ground (arith, h)

slice_le : (bytes s : Bytes) (off len : ℕ) → slice bytes off len ≡ some s → off + len ≤ length bytes
unfolding slice
slice_le bytes s off len h = ground (arith, h)

rd-some :
    (bytes : Bytes) (be : Bool) (off : ℕ)
    → off + 4 ≤ length bytes
    → rd bytes be off ≡ some (word bytes be off)
unfolding rd
rd-some bytes be off h = rw (rd, slice-some bytes off 4 h) refl

rd_le :
    (bytes : Bytes) (be : Bool) (off v : ℕ)
    → rd bytes be off ≡ some v
    → (off + 4 ≤ length bytes) × (v ≡ word bytes be off)
unfolding rd slice
rd_le bytes be off v h = ground (arith, h)

text_at-some :
    (bytes : Bytes) (be : Bool) (tab i : ℕ)
    → IsWithin bytes be tab i
    → (s : Bytes) × (text_at bytes be tab i ≡ some s)
unfolding text_at desc
text_at-some bytes be tab i (table, text) = (
  take (word bytes be (tab + i * 8)) (drop (word bytes be (tab + i * 8 + 4)) bytes),
  rw
      (
        text_at,
        desc,
        rd-some bytes be (tab + i * 8) (omega (arith, table)),
        rd-some bytes be (tab + i * 8 + 4) (omega (arith, table)),
        slice-some bytes (word bytes be (tab + i * 8 + 4)) (word bytes be (tab + i * 8)) text,
      )
      refl,
)

text_at-IsWithin :
    (bytes s : Bytes) (be : Bool) (tab i : ℕ)
    → text_at bytes be tab i ≡ some s
    → IsWithin bytes be tab i
unfolding text_at desc
text_at-IsWithin bytes s be tab i h = elim (Option-cases (rd bytes be (tab + i * 8))) [
  | inl e ↦ absurd (ground (arith, e, h))
  | inr (len, e) ↦ elim (Option-cases (rd bytes be (tab + i * 8 + 4))) [
    | inl e' ↦ absurd (ground (arith, e, e', h))
    | inr (off, e') ↦
        let named : slice bytes off len ≡ some s = ground (arith, e, e', h) in
        let (_, same) = rd_le bytes be (tab + i * 8) len e in
        let (table, same') = rd_le bytes be (tab + i * 8 + 4) off e' in
        (omega (arith, table), omega (arith, same, same', slice_le bytes s off len named))
  ]
]

module _ (lossy : Bytes → Text) (bytes : Bytes) (be : Bool) (orig_tab trans_tab : ℕ) where
  abbrev IsEntry : ℕ → Type 0
  IsEntry i = IsWithin bytes be orig_tab i × IsWithin bytes be trans_tab i

  entries-some :
      (i left : ℕ) (map : List (Text × Text))
      → ((j : ℕ) → i ≤ j → j < i + left → IsEntry j)
      → (m : List (Text × Text)) × (entries lossy bytes be orig_tab trans_tab i left map ≡ some m)
  unfolding entries
  entries-some i zero map h = (map, refl)
  entries-some i (suc left) map h =
      let here = h i (omega arith) (omega arith) in
      let (orig, e) = text_at-some bytes be orig_tab i here.0 in
      let (trans, e') = text_at-some bytes be trans_tab i here.1 in
      let (m, done) =
        entries-some (suc i) left (insert_entry lossy map orig trans)
          (λ j l r. h j (omega (arith, l)) (omega (arith, r))) in
      (m, rw (entries, e, e') done)

  entries-IsEntry :
      (i left : ℕ) (map m : List (Text × Text))
      → entries lossy bytes be orig_tab trans_tab i left map ≡ some m
      → (j : ℕ) → i ≤ j
      → j < i + left
      → IsEntry j
  unfolding entries
  entries-IsEntry i zero map m h j l r = absurd (omega (arith, l, r))
  entries-IsEntry i (suc left) map m h j l r = elim (Option-cases (text_at bytes be orig_tab i)) [
    | inl e ↦ absurd (ground (arith, e, h))
    | inr (orig, e) ↦ elim (Option-cases (text_at bytes be trans_tab i)) [
      | inl e' ↦ absurd (ground (arith, e, e', h))
      | inr (trans, e') ↦
          let rest : entries lossy bytes be orig_tab trans_tab (suc i) left
                (insert_entry lossy map orig trans)
              ≡ some m =
            ground (arith, e, e', h) in
          elim (le_cases i j l) [
            | inl same ↦ rw (sym same) (
              text_at-IsWithin bytes orig be orig_tab i e,
              text_at-IsWithin bytes trans be trans_tab i e',
            )
            | inr later ↦
                entries-IsEntry (suc i) left (insert_entry lossy map orig trans) m rest j later
                  (omega (arith, r))
          ]
    ]
  ]

-- The magic number is not the little-endian one.
abbrev pub is_big_endian : Bytes → Bool
is_big_endian bytes = not (from_le (take 4 bytes) == 0x9504_12de)

-- A header, and as many entries as it counts in each of its two tables.
abbrev pub IsCatalog : Bytes → Type 0
IsCatalog bytes =
    (28 ≤ length bytes)
    × ((i : ℕ)
        → i < word bytes (is_big_endian bytes) 8
        → IsWithin bytes (is_big_endian bytes) (word bytes (is_big_endian bytes) 12) i
          × IsWithin bytes (is_big_endian bytes) (word bytes (is_big_endian bytes) 16) i)

module _ (lossy : Bytes → Text) (bytes : Bytes) where
  parse_mo-entries :
      28 ≤ length bytes
      → parse_mo lossy bytes
        ≡ entries lossy bytes
            (is_big_endian bytes)
            (word bytes (is_big_endian bytes) 12)
            (word bytes (is_big_endian bytes) 16)
            0
            (word bytes (is_big_endian bytes) 8)
            []
  unfolding parse_mo
  parse_mo-entries h =
      rw
        (
          parse_mo,
          le→ltb (length bytes) 28 h,
          rd-some bytes (is_big_endian bytes) 8 (omega (arith, h)),
          rd-some bytes (is_big_endian bytes) 12 (omega (arith, h)),
          rd-some bytes (is_big_endian bytes) 16 (omega (arith, h)),
        )
        refl

  parse_mo-short : (m : List (Text × Text)) → parse_mo lossy bytes ≡ some m → 28 ≤ length bytes
  unfolding parse_mo
  parse_mo-short m h = elim (Bool-cases (ltb (length bytes) 28)) [
    | inl t ↦ absurd (ground (arith, t, h))
    | inr t ↦ ground (arith, t)
  ]

  -- A file is read as a catalog exactly when it has a whole header, and every descriptor that the
  -- header counts and every string that a descriptor names lie within the file.
  pub parse_mo-IsCatalog :
      ((m : List (Text × Text)) × (parse_mo lossy bytes ≡ some m)) ↔ IsCatalog bytes
  parse_mo-IsCatalog = (
    λ (m, h).
        let long = parse_mo-short m h in
        (
          long,
          λ i l.
              entries-IsEntry lossy bytes (is_big_endian bytes)
                (word bytes (is_big_endian bytes) 12) (word bytes (is_big_endian bytes) 16) 0
                (word bytes (is_big_endian bytes) 8) [] m (sym (parse_mo-entries long) ∙ h) i
                (omega arith) (omega (arith, l)),
        ),
    λ (long, h).
        let (m, e) =
          entries-some lossy bytes (is_big_endian bytes) (word bytes (is_big_endian bytes) 12)
            (word bytes (is_big_endian bytes) 16) 0 (word bytes (is_big_endian bytes) 8) []
            (λ j l r. h j (omega (arith, r))) in
        (m, parse_mo-entries long ∙ e),
  )
