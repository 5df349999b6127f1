-- ===== src/Floats.antt =====
-- The float arithmetic that the sources use, as an interface. IEEE 754 is not modelled: what a
-- theorem needs of it is a hypothesis, and holds for every IEEE format, NaN included, unless the
-- hypothesis says otherwise.
use fatp_balancer.Base.{
  ℕ, ◌+◌, ◌-◌, ◌*◌, ◌/◌, Bool, ◌≡◌, true, false, ltb, leb, ◌==◌, if◌then◌else◌, arith,
}

pub record Floats (F : Type 0) : Type 0 where
  pub of_ℕ : ℕ → F  -- static_cast<float> of an unsigned integer
  pub of_ticks : ℕ → F  -- std::chrono::duration<float>(ticks).count()
  pub add : F → F → F
  pub sub : F → F → F
  pub mul : F → F → F
  pub div : F → F → F
  pub lt : F → F → Bool
  pub le : F → F → Bool
  pub eq : F → F → Bool
  pub largest : F  -- std::numeric_limits<float>::max()

module _ {F : Type 0} ⦃fl : Floats F⦄ where
  -- std::min(a, b)
  abbrev pub float_min : F → F → F
  float_min a b = if fl.lt b a then b else a

-- `<` is never true both ways.
abbrev pub IsAsymmetric : {F : Type 0} → Floats F → Type 0
IsAsymmetric {F} fl = (a b : F) → fl.lt a b ≡ true → fl.lt b a ≡ false

-- Taking 1 away does not lead above a bound that was kept.
abbrev pub KeepsBound : {F : Type 0} → Floats F → Type 0
KeepsBound {F} fl = (c x : F) → fl.lt c x ≡ false → fl.lt c (fl.sub x (fl.of_ℕ 1)) ≡ false

-- Comparison of values that are not NaN, -0 and +0 taken as one: a strict total order.
pub record IsOrder {F : Type 0} (fl : Floats F) : Type 0 where
  pub irrefl : (a : F) → fl.lt a a ≡ false
  pub trans : (a b c : F) → fl.lt a b ≡ true → fl.lt b c ≡ true → fl.lt a c ≡ true
  pub eq_of_incomparable : (a b : F) → fl.lt a b ≡ false → fl.lt b a ≡ false → a ≡ b
  pub eq_refl : (a : F) → fl.eq a a ≡ true
  pub eq_sound : (a b : F) → fl.eq a b ≡ true → a ≡ b

-- The natural numbers as such an arithmetic, for concrete inputs. A tick is a second.
instance abbrev pub nat_floats : Floats ℕ
nat_floats = record {
  of_ℕ = λ n. n;
  of_ticks = λ n. n;
  add = λ a b. a + b;
  sub = λ a b. a - b;
  mul = λ a b. a * b;
  div = λ a b. a / b;
  lt = ltb;
  le = leb;
  eq = λ a b. a == b;
  largest = 1_000_000_000_000;
}

pub nat_floats-IsAsymmetric : IsAsymmetric nat_floats
nat_floats-IsAsymmetric a b h = ground arith

pub nat_floats-KeepsBound : KeepsBound nat_floats
nat_floats-KeepsBound c x h = ground arith

pub nat_floats-IsOrder : IsOrder nat_floats
nat_floats-IsOrder = record {
  irrefl = λ a. ground arith;
  trans = λ a b c h k. ground arith;
  eq_of_incomparable = λ a b h k. ground arith;
  eq_refl = λ a. ground arith;
  eq_sound = λ a b h. ground arith;
}
