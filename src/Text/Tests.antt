-- ===== src/Text/Tests.antt =====
-- Runs of the text functions.
use sui_ctf_infrastructure.Base.{pos, negsuc, ◌≡◌, refl, true, none, some, [], ◌∷◌}
use sui_ctf_infrastructure.Text.RoundTrip.{int_of_text-text_of_int}
use sui_ctf_infrastructure.Text.{codes, strip, ends_with, before, split}
use sui_ctf_infrastructure.Text.Numbers.{int_of_text, text_of_int}

strip-spaces : strip (codes "  a b \n") ≡ codes "a b"
unfolding strip
strip-spaces = refl

ends_with-suffix : ends_with (codes "0x2::pool::Pool") (codes "::pool::Pool") ≡ true
unfolding ends_with
ends_with-suffix = refl

before-bracket : before b'<' (codes "a::Pool<0x2::sui>") ≡ codes "a::Pool"
unfolding before
before-bracket = refl

split-commas : split b',' (codes "8.8,,1") ≡ codes "8.8" ∷ [] ∷ codes "1" ∷ []
unfolding split
split-commas = refl

int-underscores : int_of_text (codes " -1_000 ") ≡ some (negsuc 999)
unfolding int_of_text
int-underscores = refl

int-refused : int_of_text (codes "1__0") ≡ none
unfolding int_of_text
int-refused = refl

decimal-360 : text_of_int (pos 360) ≡ codes "360"
unfolding text_of_int
decimal-360 = refl

int_of_text-text_of_int_example : int_of_text (text_of_int (negsuc 41)) ≡ some (negsuc 41)
int_of_text-text_of_int_example = int_of_text-text_of_int (negsuc 41)
