-- ===== src/Session/Answer.antt =====
-- Answering a call again.
use nanotalk.Base.{◌≡◌, arith}
use nanotalk.Session.{Session, accept}
use nanotalk.Rtp.Source.{set_enable}

-- A call is answered once: `rtp_session_accept` on a session that it has been called on, which
-- `accept_cb` does for each new stream of audio and the dialog at any time, changes nothing.
pub accept-accept : (x : Session) → accept (accept x) ≡ accept x
unfolding accept set_enable
accept-accept x = ground arith
