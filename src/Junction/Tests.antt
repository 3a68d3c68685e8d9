-- ===== src/Junction/Tests.antt =====
-- The junctions of external ids that are numbers, and of one that is not.
use wallet_daemon.Base.{◌≡◌, refl, text, ℤ, parse_i64}
use wallet_daemon.Junction.{derive_junction}
use wallet_daemon.Samples.{signing}

number_junction : derive_junction signing (text "-42") ≡ signing.soft_number (ℤ.negsuc 41)
unfolding derive_junction parse_i64
number_junction = refl

word_junction : derive_junction signing (text "7a") ≡ signing.soft_word (text "7a")
unfolding derive_junction parse_i64
word_junction = refl

too_large :
    derive_junction signing (text "9223372036854775808")
    ≡ signing.soft_word (text "9223372036854775808")
unfolding derive_junction parse_i64
too_large = refl

plus_sign : derive_junction signing (text "+7") ≡ derive_junction signing (text "7")
unfolding derive_junction parse_i64
plus_sign = refl
