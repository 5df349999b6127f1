-- ===== src/Cost/Tests/Trees.antt =====
-- JSON values as trees, whose objects and arrays are lists of their own.
use fatp_balancer.Base.{
  ℕ, ◌≡◌, refl, sym, ap, ◌∙◌, inl, inr, List, [], ◌∷◌, map, Option, none, some,
}
use fatp_balancer.Cost.Json.{Key, Json, JsonText, JsonLaws, TextLaws, map_values}

mutual
  pub data Tree : Type 0 where
    members : Members → Tree
    elements : Elements → Tree
    integer : ℕ → Tree
    real : ℕ → Tree

  pub data Members : Type 0 where
    no_members : Members
    member : Key → Tree → Members → Members

  pub data Elements : Type 0 where
    no_elements : Elements
    element : Tree → Elements → Elements

abbrev pub members_of : List (Key × Tree) → Members
members_of [] = no_members
members_of ((k, t) ∷ xs) = member k t (members_of xs)

abbrev pub elements_of : List Tree → Elements
elements_of [] = no_elements
elements_of (t ∷ ts) = element t (elements_of ts)

abbrev pub list_members : Members → List (Key × Tree)
list_members no_members = []
list_members (member k t xs) = (k, t) ∷ list_members xs

abbrev pub list_elements : Elements → List Tree
list_elements no_elements = []
list_elements (element t ts) = t ∷ list_elements ts

list_members-members_of : (xs : List (Key × Tree)) → list_members (members_of xs) ≡ xs
list_members-members_of [] = refl
list_members-members_of ((k, t) ∷ xs) = ap (λ ys. (k, t) ∷ ys) (list_members-members_of xs)

list_elements-elements_of : (ts : List Tree) → list_elements (elements_of ts) ≡ ts
list_elements-elements_of [] = refl
list_elements-elements_of (t ∷ ts) = ap (λ us. t ∷ us) (list_elements-elements_of ts)

abbrev pub object_in : Tree → Option (List (Key × Tree))
object_in (members xs) = some (list_members xs)
object_in _ = none

abbrev pub array_in : Tree → Option (List Tree)
array_in (elements ts) = some (list_elements ts)
array_in _ = none

abbrev pub int_in : Tree → Option ℕ
int_in (integer n) = some n
int_in _ = none

abbrev pub float_in : Tree → Option ℕ
float_in (real x) = some x
float_in _ = none

instance abbrev pub trees : Json Tree ℕ
trees = record {
  object = λ xs. members (members_of xs);
  array = λ ts. elements (elements_of ts);
  int = integer;
  double = real;
  as_object = object_in;
  as_array = array_in;
  as_int = int_in;
  as_float = float_in;
  int_to_float = λ n. n;
}

map_members_id : (xs : List (Key × Tree)) → map_values (λ t. t) xs ≡ xs
map_members_id [] = refl
map_members_id ((k, t) ∷ xs) = ap (λ ys. (k, t) ∷ ys) (map_members_id xs)

map_elements_id : (ts : List Tree) → map (λ t. t) ts ≡ ts
map_elements_id [] = refl
map_elements_id (t ∷ ts) = ap (λ us. t ∷ us) (map_elements_id ts)

instance pub trees_laws : JsonLaws trees (λ t. t)
trees_laws = record {
  as_object-object = λ xs. ap some (list_members-members_of xs ∙ sym (map_members_id xs));
  as_array-array = λ ts. ap some (list_elements-elements_of ts ∙ sym (map_elements_id ts));
  as_int-int = λ n. refl;
  double-IsNumber = λ x. inl (refl, refl);
}

-- The text of a tree is parsed as the tree in which every number is an integer.
mutual
  pub integral : Tree → Tree
  integral (members xs) = members (integral_members xs)
  integral (elements ts) = elements (integral_elements ts)
  integral (integer n) = integer n
  integral (real x) = integer x

  pub integral_members : Members → Members
  integral_members no_members = no_members
  integral_members (member k t xs) = member k (integral t) (integral_members xs)

  pub integral_elements : Elements → Elements
  integral_elements no_elements = no_elements
  integral_elements (element t ts) = element (integral t) (integral_elements ts)

-- A text is a tree, or does not parse.
abbrev pub texts : JsonText Tree (Option Tree)
texts = record { to_json_string = λ t pretty. some (integral t); parse_json = λ t?. t? }

integral-members_of :
    (xs : List (Key × Tree))
    → list_members (integral_members (members_of xs)) ≡ map_values integral xs
unfolding integral_members
integral-members_of [] = refl
integral-members_of ((k, t) ∷ xs) = ap (λ ys. (k, integral t) ∷ ys) (integral-members_of xs)

integral-elements_of :
    (ts : List Tree) → list_elements (integral_elements (elements_of ts)) ≡ map integral ts
unfolding integral_elements
integral-elements_of [] = refl
integral-elements_of (t ∷ ts) = ap (λ us. integral t ∷ us) (integral-elements_of ts)

integral_laws : JsonLaws trees integral
unfolding integral
integral_laws = record {
  as_object-object = λ xs. ap some (integral-members_of xs);
  as_array-array = λ ts. ap some (integral-elements_of ts);
  as_int-int = λ n. refl;
  double-IsNumber = λ x. inr (x, refl, refl);
}

instance pub texts_laws : TextLaws trees texts
texts_laws = record {
  reread = integral;
  parse_json-to_json_string = λ j pretty. refl;
  laws = integral_laws;
}
