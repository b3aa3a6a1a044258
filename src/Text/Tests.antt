-- ===== src/Text/Tests.antt =====
-- The text operations at concrete inputs.
use mchat.Base.{◌≡◌, refl, [], ◌∷◌, codes}
use mchat.Text.{split, cut, to_lower, trim_right, trim_left}
use mchat.Text.Atoi.{atoi, pos, negsuc, success, err_syntax, err_range}

split_words :
    split (codes ":history -period 8") b' ' ≡ codes ":history" ∷ codes "-period" ∷ codes "8" ∷ []
unfolding split
split_words = refl

cut_email : cut (codes "me@example.com") b'@' ≡ (codes "me", codes "example.com")
unfolding cut
cut_email = refl

lower_menu : to_lower (codes ":MeNu") ≡ codes ":menu"
unfolding to_lower
lower_menu = refl

trimmed : trim_left (trim_right (codes " hi\r\n")) ≡ codes "hi"
unfolding trim_left trim_right
trimmed = refl

numbers :
    (atoi (codes "42") ≡ (pos 42, success))
    × (atoi (codes "-7") ≡ (negsuc 6, success))
    × (atoi (codes "") ≡ (pos 0, err_syntax))
    × (atoi (codes "9223372036854775808") ≡ (pos 9223372036854775807, err_range))
    × (atoi (codes "4x") ≡ (pos 0, err_syntax))
unfolding atoi
numbers = (refl, refl, refl, refl, refl)
