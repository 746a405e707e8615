-- ===== src/StreamPhone/Answers.antt =====
-- A client of the control socket of src/stream_daemon_unix.rs and the handler that serves it.
use link_p2p.Prelude.{ℕ, ◌≡◌, sym, ◌∙◌, ap, refl, some, []}
use mathlib.Core.List.{append-nil}
use link_p2p.Net.{Bytes}
use link_p2p.Outcome.{ok}
use link_p2p.Wire.{Reader}
use link_p2p.TunCtl.{Json}
use link_p2p.StreamCtl.{
  CtlRequest, CtlResponse, write_request, write_response, read_request, read_response,
}
use link_p2p.StreamCtl.Frames.{read_request-write_request, read_response-write_response}
use link_p2p.StreamPhone.{Plane}
use link_p2p.StreamPhone.Control.{Channel, respond, handle_one_ctl}

-- A client that sent a request reads the answer to it, when both can be encoded, and the channel is as
-- the answer left it.
pub handle_one_ctl-respond :
    {NodeId : Type 0} (r : Reader) (requests : Json CtlRequest) (responses : Json CtlResponse)
    (now : ℕ) (p : Plane NodeId) (c c' : Channel) (req : CtlRequest) (resp : CtlResponse)
    (f f' : Bytes)
    → write_request requests req ≡ ok f
    → respond now p c req ≡ some (resp, c')
    → write_response responses resp ≡ ok f'
    → (handle_one_ctl r requests responses now p c f ≡ some (ok f', c'))
      × (read_response r responses f' ≡ ok (resp, []))
unfolding handle_one_ctl
handle_one_ctl-respond r requests responses now p c c' req resp f f' h answer h' =
    let sent : read_request r requests f ≡ ok (req, []) =
      ap (read_request r requests) (sym (append-nil f))
      ∙ read_request-write_request r requests req f [] h in
    let back : read_response r responses f' ≡ ok (resp, []) =
      ap (read_response r responses) (sym (append-nil f'))
      ∙ read_response-write_response r responses resp f' [] h' in
    (rw (handle_one_ctl, sent, answer, h') refl, back)
