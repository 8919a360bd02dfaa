-- ===== src/Json.antt =====
-- nlohmann::json as the code uses it: a value type `J` with the operations that the code calls. `none`
-- is an exception.
use mind_trace.Base.{
  ℕ, ◌≡◌, Bool, true, false, List, Option, none, some, if◌then◌else◌, Perm, all, not, ◌==◌,
}
use mind_trace.Base.Eq.{text_eq}
use mind_trace.Base.Text.{Text}

pub record Json (J : Type 0) : Type 0 where
  pub null : J
  pub of_number : ℕ → J
  pub of_text : Text → J
  pub of_map : List (Text × Text) → J
  -- `get` at `uint64_t`, `std::string` and `std::unordered_map`.
  pub to_number : J → Option ℕ
  pub to_text : J → Option Text
  pub to_map : J → Option (List (Text × Text))
  -- `j[key] = v`, `j.at(key)`, `j.contains(key)`, `j.value(key, default)`.
  pub set : J → Text → J → J
  pub at : J → Text → Option J
  pub contains : J → Text → Bool
  pub value : J → Text → ℕ → Option ℕ
  pub dump : J → Option Text
  pub parse : Text → Option J

-- The value at a key that `set` has written, or the one before.
abbrev pub IsWrittenAt : {J : Type 0} → Json J → J → J → Text → J → Type 0
IsWrittenAt json old new key v =
    (other : Text) → json.at new other ≡ (if text_eq key other then some v else json.at old other)

-- What the library documents of these operations.
pub record IsJson {J : Type 0} (json : Json J) : Type 0 where
  pub is_object : J → Bool
  pub to_number-of_number : (n : ℕ) → json.to_number (json.of_number n) ≡ some n
  pub to_text-of_text : (s : Text) → json.to_text (json.of_text s) ≡ some s
  -- A map is read back as the same map, in some order of its entries.
  pub to_map-of_map :
      (m : List (Text × Text))
      → (read : List (Text × Text)) × (json.to_map (json.of_map m) ≡ some read) × Perm read m
  pub at-null : (key : Text) → json.at json.null key ≡ none
  -- Writing at a key makes an object of null and changes an object.
  pub is_object-set_null : (key : Text) (v : J) → is_object (json.set json.null key v) ≡ true
  pub at-set_null :
      (key : Text) (v : J) → IsWrittenAt json json.null (json.set json.null key v) key v
  pub is_object-set :
      (j : J) (key : Text) (v : J) → is_object j ≡ true → is_object (json.set j key v) ≡ true
  pub at-set :
      (j : J) (key : Text) (v : J)
      → is_object j ≡ true
      → IsWrittenAt json j (json.set j key v) key v
  pub contains-at :
      (j : J) (key : Text) (v : J) → json.at j key ≡ some v → json.contains j key ≡ true
  pub contains_none : (j : J) (key : Text) → json.at j key ≡ none → json.contains j key ≡ false
  pub value-at :
      (j : J) (key : Text) (n : ℕ) (v : J)
      → is_object j ≡ true
      → json.at j key ≡ some v
      → json.value j key n ≡ json.to_number v
  -- Text that is written out is read back; the byte 0 is escaped in it.
  pub parse-dump : (j : J) (t : Text) → json.dump j ≡ some t → json.parse t ≡ some j
  pub dump_bytes : (j : J) (t : Text) → json.dump j ≡ some t → all (λ c. not (c == 0)) t ≡ true
