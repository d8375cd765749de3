-- ===== src/Tests/Numbers.antt =====
-- The texts of numbers that ParseInt tells apart.
use vault_secrets_webhook.Base.{pos, negsuc, ◌≡◌, refl}
use vault_secrets_webhook.Base.Int.Parse.{parse_int}

hex_value : parse_int "0x1F" 0 64 ≡ pos 31
unfolding parse_int
hex_value = refl

octal_value : parse_int "-0755" 0 64 ≡ negsuc 492
unfolding parse_int
octal_value = refl

grouped_value : parse_int "1_000" 0 64 ≡ pos 1000
unfolding parse_int
grouped_value = refl

misplaced_value : parse_int "1__000" 0 64 ≡ pos 0
unfolding parse_int
misplaced_value = refl

decimal_value : parse_int "1_000" 10 64 ≡ pos 0
unfolding parse_int
decimal_value = refl

large_value : parse_int "9999999999" 10 32 ≡ pos 2147483647
unfolding parse_int
large_value = refl

plain_value : parse_int "65534" 0 64 ≡ pos 65534
unfolding parse_int
plain_value = refl
