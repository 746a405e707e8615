-- ===== src/TunCtl/Versions.antt =====
-- What src/tun_ctl.rs answers to a frame of another protocol version.
use link_p2p.Prelude.{ℕ, ◌≡◌, refl, ◌≢◌, some, List, [], ◌∷◌, ◌++◌, ltb, if◌then◌else◌, arith}
use link_p2p.Net.{Bytes}
use link_p2p.Outcome.{Msg, Mismatch, Error, ok, err, root, coded, chain, exit_usage, code_from}
use link_p2p.Outcome.Codes.{wrap}
use link_p2p.Wire.{Reader}
use link_p2p.TunCtl.{
  Json, CtlRequest, CtlResponse, ctl_version, encode_frame, mismatch_kind, check_version,
  read_request, read_response, from_error,
}
use link_p2p.TunCtl.Frames.{read_frame-encode_frame}

abbrev pub refusal : ℕ → Error
refusal v = coded exit_usage (root (Msg.protocol_mismatch (mismatch_kind v) v ctl_version))

from_error-refusal :
    (v : ℕ) (ms : List Msg)
    → from_error (wrap ms (refusal v)) ≡ some (mismatch_kind v, v, ctl_version)
unfolding from_error chain
from_error-refusal v [] = refl
from_error-refusal v (m ∷ ms) = from_error-refusal v ms

code_from-refusal : (v : ℕ) (ms : List Msg) → code_from (wrap ms (refusal v)) ≡ exit_usage
unfolding code_from
code_from-refusal v [] = refl
code_from-refusal v (m ∷ ms) = code_from-refusal v ms

-- A whole frame of any version but ours is refused, whatever its body holds. Under every stack of
-- contexts the error has exit code 2 and still carries the marker with both versions, which says
-- `unsupported` below our version and `newer` above it.
pub read_request-other_version :
    (r : Reader) (j : Json CtlRequest) (v : ℕ) (body f rest : Bytes) (ms : List Msg)
    → encode_frame v body ≡ ok f
    → v ≢ ctl_version
    → (e : Error) × (read_request r j (f ++ rest) ≡ err e)
      × (code_from (wrap ms e) ≡ exit_usage)
      × (from_error (wrap ms e) ≡ some (mismatch_kind v, v, ctl_version))
      × (mismatch_kind v ≡ (if ltb v ctl_version then Mismatch.unsupported else Mismatch.newer))
unfolding read_request check_version mismatch_kind
read_request-other_version r j v body f rest ms h ne = (
  refusal v,
  ground (arith, read_frame-encode_frame r v body f rest),
  code_from-refusal v ms,
  from_error-refusal v ms,
  ground arith,
)

-- A response of another version is refused in the same words.
pub read_response-other_version :
    (r : Reader) (j : Json CtlResponse) (v : ℕ) (body f rest : Bytes)
    → encode_frame v body ≡ ok f
    → v ≢ ctl_version
    → read_response r j (f ++ rest) ≡ err (refusal v)
unfolding read_response check_version
read_response-other_version r j v body f rest h ne =
    ground (arith, read_frame-encode_frame r v body f rest)
