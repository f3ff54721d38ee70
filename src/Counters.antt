-- ===== src/Counters.antt =====
-- A Python dictionary of counters, as the menu server and the proxy keep one: an entry for each key
-- with something open, and none for any other.
use sui_ctf_infrastructure.Base.{
  ◌==◌, if◌then◌else◌, length, tally, Member, ℤ, pos, ◌+ℤ◌, ◌-ℤ◌, leb_ℤ, ℕ, ◌+◌, ◌<◌, ◌≡◌, refl,
  Option, none, some, List, [], ◌∷◌, arith,
}
use sui_ctf_infrastructure.Text.{Text, text_eq}

abbrev pub Counters : Type 0
Counters = List (Text × ℤ)

unfoldable pub lookup : Text → Counters → Option ℤ
lookup k [] = none
lookup k ((j, v) ∷ d) = if text_eq j k then some v else lookup k d

-- `d.get(k, default)`
abbrev pub get_or : Text → ℤ → Counters → ℤ
get_or k default d = elim (lookup k d) [ none ↦ default | some v ↦ v ]

-- `d[k] = v`
unfoldable pub put : Text → ℤ → Counters → Counters
put k v [] = (k, v) ∷ []
put k v ((j, w) ∷ d) = if text_eq j k then (k, v) ∷ d else (j, w) ∷ put k v d

-- `d.pop(k, None)`
unfoldable pub pop : Text → Counters → Counters
pop k [] = []
pop k ((j, w) ∷ d) = let rest = pop k d in if text_eq j k then rest else (j, w) ∷ rest

pub lookup-put :
    (j k : Text) (v : ℤ) (d : Counters)
    → lookup j (put k v d) ≡ (if text_eq k j then some v else lookup j d)
unfolding lookup put
lookup-put j k v [] = refl
lookup-put j k v ((i, w) ∷ d) = ground (arith, lookup-put j k v d)

pub lookup-pop :
    (j k : Text) (d : Counters) → lookup j (pop k d) ≡ (if text_eq k j then none else lookup j d)
unfolding lookup pop
lookup-pop j k [] = ground arith
lookup-pop j k ((i, w) ∷ d) = ground (arith, lookup-pop j k d)

-- How often a key stands among the open ones.
abbrev pub count : Text → List Text → ℕ
count k ks = tally (text_eq k) ks

-- One of them is closed.
pub close_one : Text → List Text → List Text
close_one k [] = []
close_one k (j ∷ ks) = if text_eq j k then ks else j ∷ close_one k ks

pub count-close_one :
    (j k : Text) (ks : List Text)
    → Member k ks
    → count j (close_one k ks) + (if text_eq j k then 1 else 0) ≡ count j ks
unfolding close_one
count-close_one j k [] m = absurd m
count-close_one j k (i ∷ ks) m = ground (arith, count-close_one j k ks)

pub length-close_one :
    (k : Text) (ks : List Text) → Member k ks → length (close_one k ks) + 1 ≡ length ks
unfolding close_one
length-close_one k [] m = absurd m
length-close_one k (j ∷ ks) m = ground (arith, length-close_one k ks)

pub count-pos : (k : Text) (ks : List Text) → Member k ks → 0 < count k ks
count-pos k [] m = absurd m
count-pos k (j ∷ ks) m = ground (arith, count-pos k ks)

-- The dictionary counts the open keys: a key with none has no entry.
abbrev pub Tracks : List Text → Counters → Type 0
Tracks ks d = (k : Text) → lookup k d ≡ (if count k ks == 0 then none else some (pos (count k ks)))

-- `d[k] = d.get(k, 0) + 1`
unfoldable pub enter : Text → Counters → Counters
unfolding ◌+ℤ◌
enter k d = put k (get_or k (pos 0) d +ℤ pos 1) d

-- `d[k] = d.get(k, 1) - 1`, and the entry goes if it is not positive
unfoldable pub leave : Text → Counters → Counters
unfolding ◌-ℤ◌
leave k d =
    let d' = put k (get_or k (pos 1) d -ℤ pos 1) d in
    if leb_ℤ (get_or k (pos 0) d') (pos 0) then pop k d' else d'

pub enter-Tracks :
    (k : Text) (ks : List Text) (d : Counters) → Tracks ks d → Tracks (k ∷ ks) (enter k d)
unfolding enter
enter-Tracks k ks d h j = ground (arith, h k, h j, lookup-put j k (get_or k (pos 0) d +ℤ pos 1) d)

pub leave-Tracks :
    (k : Text) (ks : List Text) (d : Counters)
    → Member k ks
    → Tracks ks d
    → Tracks (close_one k ks) (leave k d)
unfolding leave
leave-Tracks k ks d m h j =
    let v = get_or k (pos 1) d -ℤ pos 1 in
    ground (
      arith,
      h k,
      h j,
      lookup-put j k v d,
      lookup-put k k v d,
      lookup-pop j k (put k v d),
      count-close_one j k ks m,
      count-pos k ks m,
    )
