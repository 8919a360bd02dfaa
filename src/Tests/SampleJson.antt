-- ===== src/Tests/SampleJson.antt =====
-- A model of nlohmann::json that has its documented behaviour: an object is the list of its writes, and
-- a map is written out when its texts are ASCII, each as its bytes plus 2 and an end mark 1.
use mathlib.Core.List.Perm
use mind_trace.Base.{
  ℕ, ◌+◌, ◌-◌, ◌≡◌, refl, ap, Bool, true, false, not, ◌&&◌, List, [], ◌∷◌, Option, none, some,
  arith, if◌then◌else◌, ◌==◌, ltb, all,
}
use mind_trace.Base.Eq.{text_eq}
use mind_trace.Base.Text.{Text}
use mind_trace.Json.{Json, IsJson}

pub data Value : Type 0 where
  null : Value
  number : ℕ → Value
  text : Text → Value
  entries : List (Text × Text) → Value
  field : Text → Value → Value → Value

abbrev value_at : Value → Text → Option Value
value_at (field k v j) other = if text_eq k other then some v else value_at j other
value_at _ other = none

abbrev is_field : Value → Bool
is_field (field k v j) = true
is_field _ = false

abbrev as_number : Value → Option ℕ
as_number (number n) = some n
as_number _ = none

abbrev as_text : Value → Option Text
as_text (text s) = some s
as_text _ = none

abbrev as_map : Value → Option (List (Text × Text))
as_map (entries m) = some m
as_map _ = none

abbrev is_some {ℓ} : {A : Type ℓ} → Option A → Bool
is_some none = false
is_some (some a) = true

abbrev number_or : ℕ → Option Value → Option ℕ
number_or n none = some n
number_or n (some v) = as_number v

abbrev written_text : Text → Text → Text
written_text [] rest = 1 ∷ rest
written_text (c ∷ s) rest = (c + 2) ∷ written_text s rest

abbrev pub written : List (Text × Text) → Text
written [] = []
written ((k, v) ∷ m) = written_text k (written_text v (written m))

abbrev add_byte : ℕ → List Text → List Text
add_byte c [] = (c ∷ []) ∷ []
add_byte c (t ∷ ts) = (c ∷ t) ∷ ts

abbrev texts : Text → List Text
texts [] = []
texts (c ∷ s) = if c == 1 then [] ∷ texts s else add_byte (c - 2) (texts s)

abbrev pairs : List Text → List (Text × Text)
pairs (k ∷ v ∷ ts) = (k, v) ∷ pairs ts
pairs _ = []

abbrev is_ascii : List (Text × Text) → Bool
is_ascii [] = true
is_ascii ((k, v) ∷ m) = (all (λ c. ltb c 128) k && all (λ c. ltb c 128) v) && is_ascii m

abbrev dumped : Value → Option Text
dumped (entries m) = if is_ascii m then some (written m) else none
dumped _ = none

texts-written_text : (s rest : Text) → texts (written_text s rest) ≡ s ∷ texts rest
texts-written_text [] rest = refl
texts-written_text (c ∷ s) rest =
    let later = texts-written_text s rest in
    let byte : (c + 2) - 2 ≡ c = omega arith in
    let marked : (c + 2 == 1) ≡ false = ground arith in rw (marked, later, byte) refl

pairs-written : (m : List (Text × Text)) → pairs (texts (written m)) ≡ m
pairs-written [] = refl
pairs-written ((k, v) ∷ m) =
    rw (texts-written_text k (written_text v (written m)), texts-written_text v (written m))
      (ap (◌∷◌ (k, v)) (pairs-written m))

written_text_bytes :
    (s rest : Text)
    → all (λ c. not (c == 0)) rest ≡ true
    → all (λ c. not (c == 0)) (written_text s rest) ≡ true
written_text_bytes [] rest h = h
written_text_bytes (c ∷ s) rest h = ground (arith, written_text_bytes s rest h)

written_bytes : (m : List (Text × Text)) → all (λ c. not (c == 0)) (written m) ≡ true
written_bytes [] = refl
written_bytes ((k, v) ∷ m) = written_text_bytes k _ (written_text_bytes v _ (written_bytes m))

if_some {ℓ} : {A : Type ℓ} (b : Bool) (x y : A) → (if b then some x else none) ≡ some y → x ≡ y
if_some true x y h = cc
if_some false x y h = cc

abbrev pub sample_json : Json Value
sample_json = record {
  null = null;
  of_number = number;
  of_text = text;
  of_map = entries;
  to_number = as_number;
  to_text = as_text;
  to_map = as_map;
  set = λ j k v. field k v j;
  at = value_at;
  contains = λ j k. is_some (value_at j k);
  value = λ j k n. number_or n (value_at j k);
  dump = dumped;
  parse = λ t. some (entries (pairs (texts t)));
}

pub parse-dumped :
    (j : Value) (t : Text) → dumped j ≡ some t → some (entries (pairs (texts t))) ≡ some j
parse-dumped (entries m) t h =
    let same = if_some (is_ascii m) (written m) t h in rw (← same, pairs-written m) refl
parse-dumped null t h = cc
parse-dumped (number n) t h = cc
parse-dumped (text s) t h = cc
parse-dumped (field k v j) t h = cc

pub dumped_bytes : (j : Value) (t : Text) → dumped j ≡ some t → all (λ c. not (c == 0)) t ≡ true
dumped_bytes (entries m) t h = rw (← if_some (is_ascii m) (written m) t h) (written_bytes m)
dumped_bytes null t h = cc
dumped_bytes (number n) t h = cc
dumped_bytes (text s) t h = cc
dumped_bytes (field k v j) t h = cc

abbrev pub sample_json-IsJson : IsJson sample_json
sample_json-IsJson = record {
  is_object = is_field;
  to_number-of_number = λ n. refl;
  to_text-of_text = λ s. refl;
  to_map-of_map = λ m. (m, refl, Perm.refl m);
  at-null = λ key. refl;
  is_object-set_null = λ key v. refl;
  at-set_null = λ key v other. refl;
  is_object-set = λ j key v h. refl;
  at-set = λ j key v h other. refl;
  contains-at = λ j key v h. ap is_some h;
  contains_none = λ j key h. ap is_some h;
  value-at = λ j key n v h k. ap (number_or n) k;
  parse-dump = parse-dumped;
  dump_bytes = dumped_bytes;
}
