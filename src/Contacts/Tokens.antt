-- ===== src/Contacts/Tokens.antt =====
-- A short code of src/contacts.rs is read back as the id that it was made from.
use link_p2p.Prelude.{
  ℕ, ◌-◌, ◌%◌, ◌≤◌, ◌≡◌, refl, true, false, some, none, [], ◌∷◌, ◌++◌, ◌==◌, length, take_all, All,
  All-append, below, All_below-at, arith, length-append, ==_self,
}
use link_p2p.Net.{Bytes, IsByte}
use link_p2p.Outcome.{ok}
use link_p2p.Endpoint.{Endpoints}
use link_p2p.ShortCode.{
  Text, symbol, to_ascii_uppercase, check_symbol, hash_from, encode_crockford, grouped,
  encode_short_code,
}
use link_p2p.ShortCode.Codec.{IsSymbol, decode-encode_crockford, encode_crockford-symbols}
use link_p2p.Contacts.{
  IdText, has_dash, is_whitespace, trim, trim_end, unambiguous, compact, width, byte_length,
  split_at, id_of, read_checked, read_split, parse_endpoint_token,
}

-- A character that every step before the decoder leaves alone.
record IsPlain (c : ℕ) : Type 0 where
  pub kept : (c == b'-') ≡ false
  pub visible : is_whitespace c ≡ false
  pub same : unambiguous (to_ascii_uppercase c) ≡ c
  pub single : width c ≡ 1

symbols_plain :
    All
      (λ i.
        ((symbol i == b'-') ≡ false)
        × (is_whitespace (symbol i) ≡ false)
        × (unambiguous (to_ascii_uppercase (symbol i)) ≡ symbol i)
        × (width (symbol i) ≡ 1))
      (below 32)
unfolding symbol is_whitespace
symbols_plain = ground arith

symbol-IsPlain : (c : ℕ) → IsSymbol c → IsPlain c
symbol-IsPlain c (i, h, e) =
    let p =
      All_below-at
        (λ i.
          ((symbol i == b'-') ≡ false)
          × (is_whitespace (symbol i) ≡ false)
          × (unambiguous (to_ascii_uppercase (symbol i)) ≡ symbol i)
          × (width (symbol i) ≡ 1))
        32 i symbols_plain h in
    rw e (record { kept = p.0; visible = p.1; same = p.2; single = p.3 })

All-IsPlain : (s : Text) → All IsSymbol s → All IsPlain s
All-IsPlain [] h = tt
All-IsPlain (c ∷ s) (hc, hs) = (symbol-IsPlain c hc, All-IsPlain s hs)

compact-plain : (c : ℕ) (s : Text) → IsPlain c → compact (c ∷ s) ≡ c ∷ compact s
unfolding compact
compact-plain c s h = ground (arith, h.kept, h.visible, h.same)

compact-dash : (s : Text) → compact (b'-' ∷ s) ≡ compact s
unfolding compact
compact-dash s = refl

compact-nil : compact [] ≡ []
unfolding compact
compact-nil = refl

compact-grouped : (s : Text) → All IsPlain s → compact (grouped s) ≡ s
unfolding grouped
compact-grouped [] h = compact-nil
compact-grouped (a ∷ []) (ha, _) = rw (compact-plain a [] ha, compact-nil) refl
compact-grouped (a ∷ b ∷ []) (ha, (hb, _)) =
    rw (compact-plain a (b ∷ []) ha, compact-plain b [] hb, compact-nil) refl
compact-grouped (a ∷ b ∷ c ∷ []) (ha, (hb, (hc, _))) =
    rw
      (
        compact-plain a (b ∷ c ∷ []) ha,
        compact-plain b (c ∷ []) hb,
        compact-plain c [] hc,
        compact-nil,
      )
      refl
compact-grouped (a ∷ b ∷ c ∷ d ∷ []) (ha, (hb, (hc, (hd, _)))) =
    rw
      (
        compact-plain a (b ∷ c ∷ d ∷ []) ha,
        compact-plain b (c ∷ d ∷ []) hb,
        compact-plain c (d ∷ []) hc,
        compact-plain d [] hd,
        compact-nil,
      )
      refl
compact-grouped (a ∷ b ∷ c ∷ d ∷ e ∷ s) (ha, (hb, (hc, (hd, hs)))) =
    rw
      (
        compact-plain a (b ∷ c ∷ d ∷ b'-' ∷ grouped (e ∷ s)) ha,
        compact-plain b (c ∷ d ∷ b'-' ∷ grouped (e ∷ s)) hb,
        compact-plain c (d ∷ b'-' ∷ grouped (e ∷ s)) hc,
        compact-plain d (b'-' ∷ grouped (e ∷ s)) hd,
        compact-dash (grouped (e ∷ s)),
        compact-grouped (e ∷ s) hs,
      )
      refl

abbrev pub IsVisible : ℕ → Type 0
IsVisible c = is_whitespace c ≡ false

dash_visible : is_whitespace b'-' ≡ false
unfolding is_whitespace
dash_visible = refl

grouped-IsVisible : (s : Text) → All IsPlain s → All IsVisible (grouped s)
unfolding grouped
grouped-IsVisible [] h = tt
grouped-IsVisible (a ∷ []) (ha, _) = (ha.visible, tt)
grouped-IsVisible (a ∷ b ∷ []) (ha, (hb, _)) = (ha.visible, (hb.visible, tt))
grouped-IsVisible (a ∷ b ∷ c ∷ []) (ha, (hb, (hc, _))) =
    (ha.visible, (hb.visible, (hc.visible, tt)))
grouped-IsVisible (a ∷ b ∷ c ∷ d ∷ []) (ha, (hb, (hc, (hd, _)))) =
    (ha.visible, (hb.visible, (hc.visible, (hd.visible, tt))))
grouped-IsVisible (a ∷ b ∷ c ∷ d ∷ e ∷ s) (ha, (hb, (hc, (hd, hs)))) = (
  ha.visible,
  (hb.visible, (hc.visible, (hd.visible, (dash_visible, grouped-IsVisible (e ∷ s) hs)))),
)

trim_end-visible : (s : Text) → All IsVisible s → trim_end s ≡ s
trim_end-visible [] h = refl
trim_end-visible (c ∷ s) (hc, hs) = ground (arith, trim_end-visible s hs, hc)

pub trim-visible : (s : Text) → All IsVisible s → trim s ≡ s
unfolding trim
trim-visible [] h = refl
trim-visible (c ∷ s) (hc, hs) = rw hc (trim_end-visible (c ∷ s) (hc, hs))

has_dash-grouped : (s : Text) → 5 ≤ length s → has_dash (grouped s) ≡ true
unfolding has_dash grouped
has_dash-grouped [] h = absurd (omega (arith, h))
has_dash-grouped (a ∷ []) h = absurd (omega (arith, h))
has_dash-grouped (a ∷ b ∷ []) h = absurd (omega (arith, h))
has_dash-grouped (a ∷ b ∷ c ∷ []) h = absurd (omega (arith, h))
has_dash-grouped (a ∷ b ∷ c ∷ d ∷ []) h = absurd (omega (arith, h))
has_dash-grouped (a ∷ b ∷ c ∷ d ∷ e ∷ s) h = ground arith

byte_length-plain : (s : Text) → All IsPlain s → byte_length s ≡ length s
unfolding byte_length
byte_length-plain [] h = refl
byte_length-plain (c ∷ s) (hc, hs) = omega (arith, byte_length-plain s hs, hc.single)

split_at-plain :
    (s : Text) (c : ℕ) → All IsPlain s → split_at (length s) (s ++ c ∷ []) ≡ some (s, c ∷ [])
unfolding split_at
split_at-plain [] c h = refl
split_at-plain (x ∷ s) c (hx, hs) = ground (arith, split_at-plain s c hs, hx.single)

check_symbol-IsSymbol : (bs : Bytes) → IsSymbol (check_symbol bs)
unfolding check_symbol
check_symbol-IsSymbol bs = (hash_from 0 bs % 32, omega arith, refl)

module _ {NodeId : Type 0} (ids : Endpoints NodeId) (texts : IdText NodeId) (id : NodeId)
    (bytes : All IsByte (ids.as_bytes id)) where
  read_checked-own :
      read_checked ids texts (encode_crockford (ids.as_bytes id)) (check_symbol (ids.as_bytes id))
      ≡ ok id
  unfolding read_checked
  read_checked-own =
      let size = ids.as_bytes_length id in
      rw
        (
          read_checked,
          decode-encode_crockford (ids.as_bytes id) size bytes,
          size,
          take_all 32 (ids.as_bytes id) (omega (arith, size)),
          ==_self (check_symbol (ids.as_bytes id)),
          id_of,
          ids.from_as_bytes id,
        )
        refl

  parse-checked :
      (token raw : Text) (check : ℕ)
      → trim token ≡ token
      → texts.from_text token ≡ none
      → compact token ≡ raw ++ check ∷ []
      → length (raw ++ check ∷ []) ≡ 53
      → byte_length (raw ++ check ∷ []) - 1 ≡ length raw
      → All IsPlain raw
      → read_checked ids texts raw check ≡ ok id
      → parse_endpoint_token ids texts token ≡ some (ok id)
  unfolding parse_endpoint_token read_split
  parse-checked token raw check trimmed unread compacted size offset plain own =
      rw
        (
          parse_endpoint_token,
          trimmed,
          unread,
          trimmed,
          compacted,
          size,
          offset,
          split_at-plain raw check plain,
          read_split,
          own,
        )
        refl

  -- The short code of an id whose bytes are bytes is read back as that id, and the check symbol fits.
  pub parse_endpoint_token-encode_short_code :
      parse_endpoint_token ids texts (encode_short_code (ids.as_bytes id)) ≡ some (ok id)
  unfolding encode_short_code
  parse_endpoint_token-encode_short_code =
      let raw : Text = encode_crockford (ids.as_bytes id) in
      let check : ℕ = check_symbol (ids.as_bytes id) in
      let symbols = encode_crockford-symbols (ids.as_bytes id) (ids.as_bytes_length id) bytes in
      let plain_raw = All-IsPlain raw symbols.0 in
      let last : IsPlain check = symbol-IsPlain check (check_symbol-IsSymbol (ids.as_bytes id)) in
      let plain = All-append IsPlain raw (check ∷ []) plain_raw (last, tt) in
      let size : length (raw ++ check ∷ []) ≡ 53 =
        omega (arith, length-append raw (check ∷ []), symbols.1) in
      let offset : byte_length (raw ++ check ∷ []) - 1 ≡ length raw =
        omega (arith, byte_length-plain (raw ++ check ∷ []) plain, symbols.1) in
      let visible = grouped-IsVisible (raw ++ check ∷ []) plain in
      let token : encode_short_code (ids.as_bytes id) ≡ grouped (raw ++ check ∷ []) = refl in
      rw token (
        parse-checked (grouped (raw ++ check ∷ [])) raw check
          (trim-visible (grouped (raw ++ check ∷ [])) visible)
          (texts.no_dash (grouped (raw ++ check ∷ []))
            (has_dash-grouped (raw ++ check ∷ []) (omega arith)))
          (compact-grouped (raw ++ check ∷ []) plain) size offset plain_raw read_checked-own)
