-- ===== src/Text.antt =====
-- Python's `str` as a list of code points, and the methods of it that the program calls.
pub mod Numbers
pub mod Laws
pub mod RoundTrip
pub mod Tests
use Prim.Native.Char.{code}
use Prim.Native.String.{String}
use sui_ctf_infrastructure.Base.{
  leb, ◌==◌, if◌then◌else◌, is_yes, any_of, ℕ, ◌+◌, ◌≡◌, refl, Bool, true, false, ◌&&◌, ◌||◌, List,
  [], ◌∷◌, ℕ_discrete,
}

abbrev pub Text : Type 0
Text = List ℕ

-- The code points of a literal.
abbrev pub codes : String → Text
codes String.[] = []
codes (String.◌∷◌ c s) = code c ∷ codes s

cons_eq : {a b : ℕ} {s t : Text} → a ≡ b → s ≡ t → ◌≡◌ {A = Text} (a ∷ s) (b ∷ t)
cons_eq p q = cc

same_cons :
    (a b : ℕ) (s t : Text) → Dec (a ≡ b) → Dec (s ≡ t) → Dec (◌≡◌ {A = Text} (a ∷ s) (b ∷ t))
same_cons a b s t (yes p) (yes q) = yes (cons_eq p q)
same_cons a b s t (yes p) (no q) = no (λ e. q (cc))
same_cons a b s t (no p) _ = no (λ e. p (cc))

unfoldable pub text_discrete : (s t : Text) → Dec (s ≡ t)
unfolding ℕ_discrete same_cons cons_eq
text_discrete [] [] = yes refl
text_discrete [] (b ∷ t) = no (λ e. cc)
text_discrete (a ∷ s) [] = no (λ e. cc)
text_discrete (a ∷ s) (b ∷ t) = same_cons a b s t (ℕ_discrete a b) (text_discrete s t)

-- `s == t`
abbrev pub text_eq : Text → Text → Bool
text_eq s t = is_yes (text_discrete s t)

-- `s in (t, …)`
abbrev pub one_of : Text → List Text → Bool
one_of s ts = any_of (text_eq s) ts

-- `not s`
abbrev pub is_empty : Text → Bool
is_empty [] = true
is_empty (c ∷ s) = false

-- `s or t`
abbrev pub or_text : Text → Text → Text
or_text [] t = t
or_text (c ∷ s) t = c ∷ s

-- `str.isspace` of one character
unfoldable pub is_space : ℕ → Bool
is_space c =
    (leb 9 c && leb c 13)
    || (leb 28 c && leb c 32)
    || (c == 0x85)
    || (c == 0xa0)
    || (c == 0x1680)
    || (leb 0x2000 c && leb c 0x200a)
    || (c == 0x2028)
    || (c == 0x2029)
    || (c == 0x202f)
    || (c == 0x205f)
    || (c == 0x3000)

unfoldable pub strip_left : Text → Text
unfolding is_space
strip_left [] = []
strip_left (c ∷ s) = if is_space c then strip_left s else c ∷ s

-- A space goes if nothing is left behind it.
abbrev drop_space : ℕ → Text → Text
drop_space c [] = if is_space c then [] else c ∷ []
drop_space c (d ∷ s) = c ∷ d ∷ s

unfoldable pub strip_right : Text → Text
unfolding is_space
strip_right [] = []
strip_right (c ∷ s) = drop_space c (strip_right s)

-- `s.strip()`
unfoldable pub strip : Text → Text
unfolding strip_left strip_right
strip s = strip_right (strip_left s)

-- `s.startswith(t)`
unfoldable pub starts_with : Text → Text → Bool
starts_with s [] = true
starts_with [] (d ∷ t) = false
starts_with (c ∷ s) (d ∷ t) = c == d && starts_with s t

-- `s.endswith(t)`: `t` is `s` or a suffix of its tail.
unfoldable pub ends_with : Text → Text → Bool
unfolding text_discrete
ends_with [] t = text_eq [] t
ends_with (c ∷ s) t = text_eq (c ∷ s) t || ends_with s t

-- `s.split(sep, 1)[0]` at a separator of one character
unfoldable pub before : ℕ → Text → Text
before sep [] = []
before sep (c ∷ s) = if c == sep then [] else c ∷ before sep s

-- A character put before the first of the pieces.
abbrev push_first : ℕ → List Text → List Text
push_first c [] = (c ∷ []) ∷ []
push_first c (p ∷ ps) = (c ∷ p) ∷ ps

-- `s.split(sep)` at a separator of one character
unfoldable pub split : ℕ → Text → List Text
split sep [] = [] ∷ []
split sep (c ∷ s) = let ps = split sep s in if c == sep then [] ∷ ps else push_first c ps

-- `s.lower()` on ASCII letters
unfoldable pub lower : Text → Text
lower [] = []
lower (c ∷ s) = (if leb b'A' c && leb c b'Z' then c + 32 else c) ∷ lower s
