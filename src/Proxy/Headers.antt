-- ===== src/Proxy/Headers.antt =====
-- Which headers cross the proxy.
use sui_ctf_infrastructure.Base.{
  leb, if◌then◌else◌, Bool-cases, any_of, Member, ℕ, ◌+◌, ◌≤◌, ◌≡◌, refl, sym, ◌∙◌, subst, ◌↔◌, ◌⊎◌,
  inl, inr, Bool, true, false, ◌&&◌, Option, none, some, List, [], ◌∷◌, arith,
}
use sui_ctf_infrastructure.Text.{Text, codes, text_eq, one_of, lower}
use sui_ctf_infrastructure.Docker.Sdk.{Dict}
use sui_ctf_infrastructure.Docker.Manager.{label}
use sui_ctf_infrastructure.Text.Laws.{text_eq→eq, text_eq_refl}
use sui_ctf_infrastructure.Proxy.Forward.{hop_by_hop, is_forwarded, put_header, copy_headers}

-- The value of the last header of this very name.
pub last_value : Text → Option Text → Dict → Option Text
last_value k found [] = found
last_value k found ((j, v) ∷ hs) = last_value k (if text_eq j k then some v else found) hs

label-put_header :
    (j k v : Text) (d : Dict)
    → label j (put_header k v d) ≡ (if text_eq k j then some v else label j d)
unfolding label put_header
label-put_header j k v [] = refl
label-put_header j k v ((i, w) ∷ d) = ground (arith, label-put_header j k v d)

copy_headers-label :
    (k : Text) (acc hs : Dict)
    → label k (copy_headers acc hs)
      ≡ (if is_forwarded k then last_value k (label k acc) hs else label k acc)
unfolding copy_headers last_value
copy_headers-label k acc [] = ground arith
copy_headers-label k acc ((j, v) ∷ hs) = ground (
  arith,
  copy_headers-label k (put_header j v acc) hs,
  copy_headers-label k acc hs,
  label-put_header k j v acc,
)

-- The names that are not copied: those of RFC 2616's hop-by-hop headers, and two that each side sets.
abbrev pub kept_back : List Text
kept_back =
    codes "host"
    ∷ codes "content-length"
    ∷ codes "connection"
    ∷ codes "keep-alive"
    ∷ codes "proxy-authenticate"
    ∷ codes "proxy-authorization"
    ∷ codes "te"
    ∷ codes "trailers"
    ∷ codes "transfer-encoding"
    ∷ codes "upgrade"
    ∷ []

-- The same character as one of a name, or its capital.
abbrev pub IsOrCapital : ℕ → ℕ → Type 0
IsOrCapital c d = (c ≡ d) ⊎ ((b'a' ≤ d) × (d ≤ b'z') × (c + 32 ≡ d))

-- A spelling of a name, in letters of either case.
abbrev pub Spells : Text → Text → Type 0
Spells [] [] = Unit
Spells (c ∷ s) (d ∷ t) = IsOrCapital c d × Spells s t
Spells [] (d ∷ t) = ⊥
Spells (c ∷ s) [] = ⊥

abbrev pub IsKeptBack : Text → Type 0
IsKeptBack k = (name : Text) × Member name kept_back × Spells k name

abbrev is_capital : ℕ → Bool
is_capital c = leb b'A' c && leb c b'Z'

lower-Spells : (k : Text) → Spells k (lower k)
unfolding lower
lower-Spells [] = tt
lower-Spells (c ∷ s) = (
  elim (Bool-cases (leb b'A' c && leb c b'Z')) [
    | inl e ↦ ground (arith, e)
    | inr e ↦ ground (arith, e)
  ],
  lower-Spells s,
)

Spells-lower : (k name : Text) → any_of is_capital name ≡ false → Spells k name → lower k ≡ name
unfolding lower
Spells-lower [] [] plain h = refl
Spells-lower [] (d ∷ t) plain h = absurd h
Spells-lower (c ∷ s) [] plain h = absurd h
Spells-lower (c ∷ s) (d ∷ t) plain (inl e, h) = ground (arith, plain, e, Spells-lower s t _ h)
Spells-lower (c ∷ s) (d ∷ t) plain (inr (low, high, e), h) =
    ground (arith, plain, low, high, e, Spells-lower s t _ h)

one_of-Member : (s : Text) (ts : List Text) → one_of s ts ≡ true → Member s ts
one_of-Member s [] h = cc
one_of-Member s (t ∷ ts) h = ground (arith, h, one_of-Member s ts, text_eq→eq s t)

Member-one_of : (s : Text) (ts : List Text) → Member s ts → one_of s ts ≡ true
Member-one_of s [] m = absurd m
Member-one_of s (t ∷ ts) (inl e) = rw (sym e) (ground (arith, text_eq_refl t))
Member-one_of s (t ∷ ts) (inr m) = ground (arith, Member-one_of s ts m)

any_of-Member :
    (p : Text → Bool) (ts : List Text) (s : Text) → any_of p ts ≡ false → Member s ts → p s ≡ false
any_of-Member p [] s h m = absurd m
any_of-Member p (t ∷ ts) s h (inl e) = subst (λ u. p u ≡ false) e (ground (arith, h))
any_of-Member p (t ∷ ts) s h (inr m) = any_of-Member p ts s (ground (arith, h)) m

-- The two lists hold the same names.
hop-kept_back : (s : Text) → one_of s hop_by_hop ≡ one_of s kept_back
hop-kept_back s = ground arith

kept_back-plain : any_of (any_of is_capital) kept_back ≡ false
kept_back-plain = refl

is_forwarded-IsKeptBack : (k : Text) → IsKeptBack k → is_forwarded k ≡ false
unfolding is_forwarded
is_forwarded-IsKeptBack k (name, m, spelled) =
    let same =
      Spells-lower k name (any_of-Member (any_of is_capital) kept_back name kept_back-plain m)
        spelled in
    rw (same, hop-kept_back name, Member-one_of name kept_back m) refl

is_forwarded-other : (k : Text) → ¬ (IsKeptBack k) → is_forwarded k ≡ true
unfolding is_forwarded
is_forwarded-other k other = elim (Bool-cases (one_of (lower k) kept_back)) [
  | inl e ↦ absurd (other (lower k, one_of-Member (lower k) kept_back e, lower-Spells k))
  | inr e ↦ rw (hop-kept_back (lower k), e) refl
]

not_copied : {v : Text} → ◌≡◌ {A = Option Text} (some v) none → ⊥
not_copied e = cc

copied_value :
    (k v : Text) (b : Bool) (o : Option Text) → (if b then o else none) ≡ some v → o ≡ some v
copied_value k v true o h = h
copied_value k v false o h = cc

-- A header is in the copy exactly if its name is none of ten in any spelling, host, content-length and
-- the hop-by-hop ones, and some header has this very name; its value is that of the last such header.
pub copy_headers_iff :
    (k v : Text) (hs : Dict)
    → (label k (copy_headers [] hs) ≡ some v) ↔ (¬ (IsKeptBack k) × (last_value k none hs ≡ some v))
unfolding label
copy_headers_iff k v hs = (
  λ copied. (
    λ back.
        not_copied
          (sym copied ∙ copy_headers-label k [] hs ∙ rw (is_forwarded-IsKeptBack k back) refl),
    copied_value k v (is_forwarded k) (last_value k none hs)
        (sym (copy_headers-label k [] hs) ∙ copied),
  ),
  λ (other, found). copy_headers-label k [] hs ∙ rw (is_forwarded-other k other) found,
)
