-- ===== src/Errors/Text/Tests.antt =====
-- The text of a session error.
use roq.Common.{◌≡◌, refl}
use roq.Errors.Text.{codes, decimal, error}

packet_error : error (record { code = 23; reason = "bad" }) ≡ codes "roq session error 23: bad"
unfolding error decimal
packet_error = refl
