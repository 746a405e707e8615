-- ===== src/Tests/Texts.antt =====
-- Templates, catalogs and units at concrete inputs.
use link_p2p.Prelude.{◌≡◌, ◌↔◌, refl, some, List, [], ◌∷◌}
use link_p2p.Net.{Bytes}
use link_p2p.ShortCode.{Text}
use link_p2p.I18n.{digits_of, after_digits, tr_fmt_impl, parse_mo}
use link_p2p.I18n.Catalog.{IsCatalog, parse_mo-IsCatalog}
use link_p2p.Service.{codes, InstallOpts, exec_of, unit_lines, unlines}
use link_p2p.Decimal.{parse_decimal}

-- An argument that looks like a token stays as it is.
not_rescanned :
    tr_fmt_impl (codes "{0} is {1}, {7}") (codes "{1}" ∷ codes "b" ∷ []) ≡ codes "{1} is b, {7}"
unfolding tr_fmt_impl digits_of after_digits parse_decimal
not_rescanned = refl

-- A little-endian header without entries.
abbrev empty_catalog : Bytes
empty_catalog =
    0xde ∷ 0x12 ∷ 0x04 ∷ 0x95 ∷ 0 ∷ 0 ∷ 0 ∷ 0 ∷ 0 ∷ 0 ∷ 0 ∷ 0 ∷ 28 ∷ 0 ∷ 0 ∷ 0 ∷ 28 ∷ 0 ∷ 0 ∷ 0 ∷ 0
    ∷ 0 ∷ 0 ∷ 0 ∷ 28 ∷ 0 ∷ 0 ∷ 0 ∷ []

parse_mo-IsCatalog_example :
    ((m : List (Text × Text)) × (parse_mo (λ b. b) empty_catalog ≡ some m))
    ↔ IsCatalog empty_catalog
parse_mo-IsCatalog_example = parse_mo-IsCatalog (λ b. b) empty_catalog

abbrev spoke_opts : InstallOpts
spoke_opts = record {
  role = codes "spoke";
  target = some (codes "abc");
  identity = codes "/etc/link-p2p/identity.key";
  service_user = codes "link-p2p";
}

abbrev spoke_unit : Text
spoke_unit =
    unlines (unit_lines (exec_of (codes "/usr/bin/link-p2p") spoke_opts) (codes "link-p2p"))
