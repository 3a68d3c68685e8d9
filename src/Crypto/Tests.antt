-- ===== src/Crypto/Tests.antt =====
-- Texts in base 64.
use wallet_daemon.Base.{◌≡◌, refl, text}
use wallet_daemon.Crypto.Base64.{base64_encode}

padded : base64_encode (text "light w") ≡ text "bGlnaHQgdw=="
unfolding base64_encode
padded = refl

unpadded : base64_encode (text "Man") ≡ text "TWFu"
unfolding base64_encode
unpadded = refl
