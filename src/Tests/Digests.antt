-- ===== src/Tests/Digests.antt =====
-- The text of a digest at concrete bytes.
use private_match_protocol.Prelude.{ℕ, zero, suc, ◌≡◌, refl, arith}
use private_match_protocol.Digest.Errors.{ok, ◌>>=◌}
use private_match_protocol.Digest.Bytes.{format_digest, parse_digest}
use private_match_protocol.Digest.Texts.{AllBytes, parse_digest-format_digest}
use private_match_protocol.Tests.Data.{zeros}

pub zeros-AllBytes : (n : ℕ) → AllBytes (zeros n)
zeros-AllBytes zero = tt
zeros-AllBytes (suc n) = (omega arith, zeros-AllBytes n)

parse_digest-format_digest_example :
    (do text ← format_digest (zeros 32); parse_digest text) ≡ ok (zeros 32)
parse_digest-format_digest_example = parse_digest-format_digest (zeros 32) (zeros-AllBytes 32) refl
