-- ===== src/Cost/Json.antt =====
-- The calls of fat_p::JsonLite that CostModel.h and AffinityMatrix.h make, as an interface, and
-- chains of fallible steps.
use fatp_balancer.Base.{
  ℕ, ◌+◌, ◌≡◌, ◌⊎◌, map, Bool, true, false, ◌==◌, if◌then◌else◌, List, [], ◌∷◌, Option, none, some,
  Expected, ok, err,
}

-- The keys of the snapshot. `number n` is a key that std::stoul reads as n; it throws for the others.
pub data Key : Type 0 where
  version nodes affinity max_nodes max_job_classes warm_threshold alpha values observations : Key
  throughput_multiplier observation_count degradation_buckets value other : Key
  number : ℕ → Key

abbrev key_code : Key → ℕ
key_code version = 0
key_code nodes = 1
key_code affinity = 2
key_code max_nodes = 3
key_code max_job_classes = 4
key_code warm_threshold = 5
key_code alpha = 6
key_code values = 7
key_code observations = 8
key_code throughput_multiplier = 9
key_code observation_count = 10
key_code degradation_buckets = 11
key_code value = 12
key_code other = 13
key_code (number n) = 14 + n

abbrev pub same_key : Key → Key → Bool
same_key a b = key_code a == key_code b

-- An int64_t is its 64-bit word; the `as` are the tests of the variant with std::get. Floats are
-- widened to double and back.
pub record Json (J F : Type 0) : Type 0 where
  pub object : List (Key × J) → J
  pub array : List J → J
  pub int : ℕ → J
  pub double : F → J
  pub as_object : J → Option (List (Key × J))
  pub as_array : J → Option (List J)
  pub as_int : J → Option ℕ
  pub as_float : J → Option F
  pub int_to_float : ℕ → F

-- fat_p::to_json_string and parse_json; `none` is a text that does not parse.
pub record JsonText (J T : Type 0) : Type 0 where
  pub to_json_string : J → Bool → T
  pub parse_json : T → Option J

abbrev pub map_values : {K V W : Type 0} → (V → W) → List (K × V) → List (K × W)
map_values f [] = []
map_values f ((k, v) ∷ xs) = (k, f v) ∷ map_values f xs

-- A value is read as the number x, as a double or as an integer.
abbrev pub IsNumber : {J F : Type 0} → Json J F → J → F → Type 0
IsNumber json j x =
    ((json.as_int j ≡ none) × (json.as_float j ≡ some x))
    ⊎ ((n : ℕ) × (json.as_int j ≡ some n) × (json.int_to_float n ≡ x))

-- What was put in is read of its image under `f`: of itself, or of what its text was parsed as.
pub record JsonLaws {J F : Type 0} (json : Json J F) (f : J → J) : Type 0 where
  pub as_object-object :
      (xs : List (Key × J)) → json.as_object (f (json.object xs)) ≡ some (map_values f xs)
  pub as_array-array : (xs : List J) → json.as_array (f (json.array xs)) ≡ some (map f xs)
  pub as_int-int : (n : ℕ) → json.as_int (f (json.int n)) ≡ some n
  pub double-IsNumber : (x : F) → IsNumber json (f (json.double x)) x

-- A value is written as a text of the same value, in which a whole double is an integer. Floats are
-- taken to be finite here, and to be written with all their digits.
pub record TextLaws {J F T : Type 0} (json : Json J F) (text : JsonText J T) : Type 0 where
  pub reread : J → J
  pub parse_json-to_json_string :
      (j : J) (pretty : Bool) → text.parse_json (text.to_json_string j pretty) ≡ some (reread j)
  pub laws : JsonLaws json reread

-- obj.find(key)
unfoldable pub find_key : {J : Type 0} → List (Key × J) → Key → Option J
find_key [] k = none
find_key ((k', j) ∷ xs) k = let rest = find_key xs k in if same_key k' k then some j else rest

infixl 5 ◌>>=◌
abbrev pub ◌>>=◌ : {A B E : Type 0} → Expected A E → (A → Expected B E) → Expected B E
ok a >>= f = f a
err e >>= f = err e

abbrev pub ◌>>◌ : {B E : Type 0} → Expected (Unit {0}) E → Expected B E → Expected B E
m >> k = m >>= λ _. k

infixl 5 ◌>>◌
abbrev pub some_or : {A E : Type 0} → E → Option A → Expected A E
some_or e none = err e
some_or e (some a) = ok a

abbrev pub require : {E : Type 0} → E → Bool → Expected (Unit {0}) E
require e true = ok tt
require e false = err e
