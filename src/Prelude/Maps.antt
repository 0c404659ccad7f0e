-- ===== src/Prelude/Maps.antt =====
-- JavaScript's `Map` with string keys as an association list in insertion order: `set` on a key
-- that is there replaces its value in place, on a new key it appends.
use Prim.Native.String.{String}
use mathlib.Core.Path.{◌≡◌, refl, subst}
use mathlib.Core.Bool.{Bool}
use mathlib.Core.Option.{Option, none, some}
use mathlib.Core.List.{List, [], ◌∷◌}
use native.Mathlib.Omega.{arith}
use text.Mathlib.TextEquality.{eq_iff}
use text.Mathlib.TextPositions.{eq_refl}
use gateway_orchestrator.Prelude.Tests.{◌==◌, if◌then◌else◌}

abbrev pub Map {ℓ} : Type ℓ → Type ℓ
Map V = List (String × V)

module _ {ℓ} {V : Type ℓ} where
  -- `map.get(key)`
  unfoldable pub get : Map V → String → Option V
  get [] key = none
  get ((k, v) ∷ m) key = if k == key then some v else get m key

  -- `map.set(key, value)`
  unfoldable pub put : Map V → String → V → Map V
  put [] key value = (key, value) ∷ []
  put ((k, v) ∷ m) key value = if k == key then (k, value) ∷ m else (k, v) ∷ put m key value

  -- `Array.from(map.values())`
  unfoldable pub values : Map V → List V
  values [] = []
  values ((k, v) ∷ m) = v ∷ values m

  -- The first value that passes the test, as a `for … of map.values()` with a `return` finds it.
  unfoldable pub find_value : (V → Bool) → Map V → Option V
  find_value test [] = none
  find_value test ((k, v) ∷ m) = if test v then some v else find_value test m

  pub get-put :
      (m : Map V) (key : String) (value : V) (other : String)
      → get (put m key value) other ≡ (if key == other then some value else get m other)
  unfolding get put
  get-put [] key value other = refl
  get-put ((k, v) ∷ m) key value other =
      ground (arith, eq_iff k key, eq_iff k other, eq_iff key other, get-put m key value other)

  pub get-put_self : (m : Map V) (key : String) (value : V) → get (put m key value) key ≡ some value
  get-put_self m key value = simp (get-put, eq_refl)

  pub get-put_at :
      (m : Map V) (key : String) (value : V) (k : String)
      → key ≡ k
      → get (put m key value) k ≡ some value
  get-put_at m key value k e =
      subst (λ x. get (put m key value) x ≡ some value) e (get-put_self m key value)

  -- Setting a key twice keeps the second value only.
  pub put-put : (m : Map V) (key : String) (v w : V) → put (put m key v) key w ≡ put m key w
  unfolding put
  put-put [] key v w = simp eq_refl
  put-put ((k, u) ∷ m) key v w = ground (arith, eq_refl k, put-put m key v w)

  -- Setting a key to the value that it has changes nothing.
  pub put-get : (m : Map V) (key : String) (v : V) → get m key ≡ some v → put m key v ≡ m
  unfolding get put
  put-get [] key v h = ground arith
  put-get ((k, u) ∷ m) key v h = ground (arith, put-get m key v)

  -- A new key goes to the end.
  pub find_value-put_new :
      (test : V → Bool) (m : Map V) (key : String) (v : V)
      → get m key ≡ none
      → find_value test m ≡ none
      → find_value test (put m key v) ≡ (if test v then some v else none)
  unfolding get put find_value
  find_value-put_new test [] key v g h = refl
  find_value-put_new test ((k, u) ∷ m) key v g h = ground (arith, find_value-put_new test m key v)

-- `array.filter(test)`
unfoldable pub filter {ℓ} : {A : Type ℓ} → (A → Bool) → List A → List A
filter test [] = []
filter test (x ∷ xs) = let rest = filter test xs in if test x then x ∷ rest else rest

-- `array.map(f)`
unfoldable pub map_list {ℓ κ} : {A : Type ℓ} → {B : Type κ} → (A → B) → List A → List B
map_list f [] = []
map_list f (x ∷ xs) = f x ∷ map_list f xs
