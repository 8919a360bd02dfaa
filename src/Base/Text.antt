-- ===== src/Base/Text.antt =====
-- `std::string` as a list of bytes, with the parts of the C and C++ standard libraries that the code
-- calls on it: `std::tolower`, `std::isalnum` and the blanks of `operator>>` in the "C" locale,
-- `find`, `find_last_of`, `substr` and word-wise extraction from a stream.
use Prim.Native.Char.{code}
use Prim.Native.String.{String}
use Prim.Native.Nat.{ℕ, suc, ◌+◌}
use mathlib.Core.Path.{◌≡◌, refl, ap}
use mathlib.Core.Bool.{Bool, true, false, ◌&&◌, ◌||◌}
use mathlib.Core.Option.{Option, none, some}
use mathlib.Core.List.{List, [], ◌∷◌, ◌++◌, map}
use native.Mathlib.Omega.{arith}
use mind_trace.Base.Tests.{leb, ◌==◌, if◌then◌else◌}
use mind_trace.Base.Lists.{drop}

abbrev pub Text : Type 0
Text = List ℕ

-- The bytes of an ASCII literal.
abbrev pub codes : String → Text
codes String.[] = []
codes (String.◌∷◌ c s) = code c ∷ codes s

is_upper : ℕ → Bool
is_upper c = leb b'A' c && leb c b'Z'

unfoldable pub to_lower : ℕ → ℕ
unfolding is_upper
to_lower c = if is_upper c then c + 32 else c

unfoldable pub is_alnum : ℕ → Bool
is_alnum c = (leb b'0' c && leb c b'9') || (leb b'A' c && leb c b'Z') || (leb b'a' c && leb c b'z')

unfoldable pub is_space : ℕ → Bool
is_space c = c == 32 || (leb 9 c && leb c 13)

abbrev pub lower : Text → Text
lower = map to_lower

pub to_lower_idem : (c : ℕ) → to_lower (to_lower c) ≡ to_lower c
unfolding to_lower
to_lower_idem c = ground arith

pub is_space-to_lower : (c : ℕ) → is_space (to_lower c) ≡ is_space c
unfolding is_space to_lower
is_space-to_lower c = ground arith

pub is_alnum-to_lower : (c : ℕ) → is_alnum (to_lower c) ≡ is_alnum c
unfolding is_alnum to_lower
is_alnum-to_lower c = ground arith

pub lower_idem : (s : Text) → lower (lower s) ≡ lower s
lower_idem [] = refl
lower_idem (c ∷ s) = cc (to_lower_idem c, lower_idem s)

-- `s.compare(0, p.size(), p) == 0`.
unfoldable pub starts_with : Text → Text → Bool
starts_with s [] = true
starts_with [] (d ∷ p) = false
starts_with (c ∷ s) (d ∷ p) = c == d && starts_with s p

-- `s.find(p) != std::string::npos`.
unfoldable pub contains : Text → Text → Bool
unfolding starts_with
contains [] p = starts_with [] p
contains (c ∷ s) p = starts_with (c ∷ s) p || contains s p

starts_with_refl : (s : Text) → starts_with s s ≡ true
unfolding starts_with
starts_with_refl [] = refl
starts_with_refl (c ∷ s) = ground (arith, starts_with_refl s)

pub contains_refl : (s : Text) → contains s s ≡ true
unfolding contains
contains_refl [] = refl
contains_refl (c ∷ s) = ground (arith, starts_with_refl (c ∷ s))

-- `stream >> word` until it fails: the runs of bytes that are no blanks. `cur` is the run so far.
flush : Text → List Text → List Text
flush [] ws = ws
flush (c ∷ w) ws = (c ∷ w) ∷ ws

words_from : Text → Text → List Text
unfolding flush
words_from [] cur = flush cur []
words_from (c ∷ s) cur = elim (is_space c) [
  | true ↦ flush cur (words_from s [])
  | false ↦ words_from s (cur ++ c ∷ [])
]

unfoldable pub words : Text → List Text
unfolding words_from is_space
words s = words_from s []

map-flush : (w : Text) (ws : List Text) → map lower (flush w ws) ≡ flush (lower w) (map lower ws)
unfolding flush
map-flush [] ws = refl
map-flush (c ∷ w) ws = refl

lower-append : (s t : Text) → lower (s ++ t) ≡ lower s ++ lower t
lower-append [] t = refl
lower-append (c ∷ s) t = ap (◌∷◌ (to_lower c)) (lower-append s t)

words_from-lower : (s cur : Text) → words_from (lower s) (lower cur) ≡ map lower (words_from s cur)
unfolding words_from
words_from-lower [] cur = cc (map-flush cur [])
words_from-lower (c ∷ s) cur = ground (
  arith,
  is_space-to_lower c,
  words_from-lower s [],
  words_from-lower s (cur ++ c ∷ []),
  lower-append cur (c ∷ []),
  map-flush cur (words_from s []),
)

-- Lowering a text lowers its words, and cuts it at the same places.
pub words-lower : (s : Text) → words (lower s) ≡ map lower (words s)
unfolding words
words-lower s = words_from-lower s []

flush-append : (w : Text) (us vs : List Text) → flush w (us ++ vs) ≡ flush w us ++ vs
unfolding flush
flush-append [] us vs = refl
flush-append (c ∷ w) us vs = refl

words_from-space :
    (s t cur : Text) → words_from (s ++ 32 ∷ t) cur ≡ words_from s cur ++ words_from t []
unfolding words_from is_space
words_from-space [] t cur = flush-append cur [] (words_from t [])
words_from-space (c ∷ s) t cur = ground (
  arith,
  words_from-space s t [],
  words_from-space s t (cur ++ c ∷ []),
  flush-append cur (words_from s []) (words_from t []),
)

-- A blank between two texts separates their words.
pub words-space : (s t : Text) → words (s ++ 32 ∷ t) ≡ words s ++ words t
unfolding words
words-space s t = words_from-space s t []

is_separator : ℕ → Bool
is_separator c = c == b'/' || c == b'\\'

-- `s.find_last_of("/\\")`.
find_last_of : Text → Option ℕ
unfolding is_separator
find_last_of [] = none
find_last_of (c ∷ s) = elim (find_last_of s) [
  | some i ↦ some (suc i)
  | none ↦ if is_separator c then some 0 else none
]

-- `pos = s.find_last_of("/\\"); if (pos != npos) s = s.substr(pos + 1);`
unfoldable pub last_component : Text → Text
unfolding find_last_of
last_component s = elim (find_last_of s) [ some i ↦ drop (suc i) s | none ↦ s ]
