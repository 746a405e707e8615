-- ===== src/Tests/Contacts.antt =====
-- Short codes of the contact book, at the id 7 and at a code that ends in an é.
use link_p2p.Prelude.{◌≡◌, some, All, arith}
use link_p2p.Net.{IsByte}
use link_p2p.Outcome.{ok}
use link_p2p.Endpoint.Keys.{number_keys, number_bytes}
use link_p2p.ShortCode.{encode_short_code}
use link_p2p.Contacts.{parse_endpoint_token}
use link_p2p.Contacts.Tokens.{parse_endpoint_token-encode_short_code}
use link_p2p.Tests.Stubs.{number_texts}

seven_bytes : All IsByte (number_keys.as_bytes 7)
seven_bytes = number_bytes 7 (omega arith)

parse_endpoint_token-encode_short_code_example :
    parse_endpoint_token number_keys number_texts (encode_short_code (number_keys.as_bytes 7))
    ≡ some (ok 7)
parse_endpoint_token-encode_short_code_example =
    parse_endpoint_token-encode_short_code number_keys number_texts 7 seven_bytes
