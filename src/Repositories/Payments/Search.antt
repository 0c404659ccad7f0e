-- ===== src/Repositories/Payments/Search.antt =====
-- Searching the payments by idempotency key, where at most one identifier has a match.
use gateway_orchestrator.Prelude.{
  ◌≡◌, refl, Bool, true, Option, none, some, String, [], ◌∷◌, Map, get, put, find_value, arith,
  eq_iff, eq_refl, ◌==◌, Bool-cases, inl, inr,
}
use gateway_orchestrator.Domain.Payment.{Payment}
use gateway_orchestrator.Repositories.Payments.{optional_eq, has_key}

-- Values that pass the test stand under this identifier only.
abbrev pub OnlyAt : (Payment → Bool) → String → Map Payment → Type 0
OnlyAt test id [] = Unit
OnlyAt test id ((k, v) ∷ m) = (test v ≡ true → k ≡ id) × OnlyAt test id m

module _ (test : Payment → Bool) (id : String) where
  pub OnlyAt-of_none : (m : Map Payment) → find_value test m ≡ none → OnlyAt test id m
  unfolding find_value
  OnlyAt-of_none [] h = tt
  OnlyAt-of_none ((k, v) ∷ m) h = elim (Bool-cases (test v)) [
    | inl e ↦ absurd (cc (rw e at h))
    | inr e ↦ (λ e'. cc, OnlyAt-of_none m (rw e at h))
  ]

  pub OnlyAt-put : (m : Map Payment) (v : Payment) → OnlyAt test id m → OnlyAt test id (put m id v)
  unfolding put
  OnlyAt-put [] v h = (λ _. refl, tt)
  OnlyAt-put ((k, w) ∷ m) v (h, rest) = elim (Bool-cases (k == id)) [
    | inl e ↦ rw e ((λ _. (eq_iff k id).0 e), rest)
    | inr e ↦ rw e (h, OnlyAt-put m v rest)
  ]

  pub find_value_at :
      (m : Map Payment) (v : Payment)
      → OnlyAt test id m
      → get m id ≡ some v
      → test v ≡ true
      → find_value test m ≡ some v
  unfolding get find_value
  find_value_at [] v h g t = cc
  find_value_at ((k, w) ∷ m) v (h, rest) g t = ground (arith, eq_iff k id, find_value_at m v rest)

optional_eq_refl : (a : Option String) → optional_eq a a ≡ true
unfolding optional_eq
optional_eq_refl none = refl
optional_eq_refl (some s) = eq_refl s

pub has_key_self : (q : Payment) → has_key q.idempotency_key q.merchant_identifier q ≡ true
unfolding has_key
has_key_self q = simp (eq_refl, optional_eq_refl)
