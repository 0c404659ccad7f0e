-- ===== src/Sql/Tables.antt =====
-- A table and the `Map` of an in-memory repository that it stands for: under which key each row stands,
-- and which value it is.
use gateway_orchestrator.Prelude.{
  ◌≡◌, refl, sym, ◌∙◌, String, Bool, true, false, Option, none, some, List, [], ◌∷◌, ◌++◌, ◌==◌,
  eq_iff, eq_refl, arith, Map, get, put, find_value, Bool-cases, inl, inr, ◌≢◌, subst,
}
use mathlib.Core.Option.{map}
use gateway_orchestrator.Sql.{select_first, has_row, update_rows}

-- A property of each row.
module _ {R : Type 0} where
  abbrev pub Each : (R → Type 0) → List R → Type 0
  Each P [] = Unit
  Each P (row ∷ rows) = P row × Each P rows

  pub Each-map :
      {P Q : R → Type 0} → ((row : R) → P row → Q row) → (rows : List R) → Each P rows → Each Q rows
  Each-map f [] h = tt
  Each-map f (row ∷ rows) (p, h) = (f row p, Each-map f rows h)

module _ {R : Type 0} (test : R → Bool) where
  -- A row that is not among those of a table is found after it has been added,
  pub select_first-append :
      (new : R) (rows : List R)
      → has_row test rows ≡ false
      → test new ≡ true
      → select_first test (rows ++ (new ∷ [])) ≡ some new
  unfolding select_first has_row
  select_first-append new [] h t = rw t refl
  select_first-append new (row ∷ rows) h t = ground (arith, select_first-append new rows)

  -- and it is the row that an update changes.
  pub update_rows-append :
      (set : R → R) (new : R) (rows : List R)
      → has_row test rows ≡ false
      → test new ≡ true
      → update_rows test set (rows ++ (new ∷ [])) ≡ rows ++ (set new ∷ [])
  unfolding update_rows has_row
  update_rows-append set new [] h t = rw t refl
  update_rows-append set new (row ∷ rows) h t = ground (arith, update_rows-append set new rows)

  -- Rows that do not pass a wider test do not pass this one.
  pub has_row-narrower :
      (wider : R → Bool) (rows : List R)
      → ((row : R) → test row ≡ true → wider row ≡ true)
      → has_row wider rows ≡ false
      → has_row test rows ≡ false
  unfolding has_row
  has_row-narrower wider [] f h = refl
  has_row-narrower wider (row ∷ rows) f h = ground (arith, f row, has_row-narrower wider rows f)

  -- What a query finds passes a wider test.
  pub has_row-of_first :
      (wider : R → Bool) (rows : List R)
      → ((row : R) → test row ≡ true → wider row ≡ true)
      → select_first test rows ≢ none
      → has_row wider rows ≡ true
  unfolding has_row select_first
  has_row-of_first wider [] f h = absurd (h refl)
  has_row-of_first wider (row ∷ rows) f h = ground (arith, f row, has_row-of_first wider rows f)

pub found : {A : Type 0} {o : Option A} {a : A} → o ≡ some a → o ≢ none
found h e = absurd cc

none_not_some : {A : Type 0} {a : A} → some a ≢ none
none_not_some h = cc

some_inj : {A : Type 0} {a b : A} → some a ≡ some b → a ≡ b
some_inj h = cc

differ : {a b : String} → a ≡ b → (a == b) ≢ false
differ {b = b} e f = absurd (cc (sym (rw e at f) ∙ eq_refl b))

module _ {R V : Type 0} (key : R → String) (value : R → V) where
  unfoldable pub view : List R → Map V
  view [] = []
  view (row ∷ rows) = (key row, value row) ∷ view rows

  -- A query by the key finds what the map has there.
  pub select_first-view :
      (test : R → Bool) (k : String) (rows : List R)
      → Each (λ row. test row ≡ (key row == k)) rows
      → map value (select_first test rows) ≡ get (view rows) k
  unfolding select_first view get
  select_first-view test k [] h = refl
  select_first-view test k (row ∷ rows) (e, h) = ground (arith, select_first-view test k rows h)

  -- A query by another test finds the first value of the map that passes it.
  pub select_first-find_value :
      (test : R → Bool) (passes : V → Bool) (rows : List R)
      → Each (λ row. test row ≡ passes (value row)) rows
      → map value (select_first test rows) ≡ find_value passes (view rows)
  unfolding select_first view find_value
  select_first-find_value test passes [] h = refl
  select_first-find_value test passes (row ∷ rows) (e, h) =
      ground (arith, select_first-find_value test passes rows h)

  -- A row under a new key goes where the map puts its value.
  pub view-insert :
      (new : R) (rows : List R)
      → get (view rows) (key new) ≡ none
      → view (rows ++ (new ∷ [])) ≡ put (view rows) (key new) (value new)
  unfolding view get put
  view-insert new [] h = refl
  view-insert new (row ∷ rows) h = ground (arith, view-insert new rows)

  -- Where no key is that of the update, it changes nothing.
  view-update_none :
      (test : R → Bool) (set : R → R) (k : String) (rows : List R)
      → Each (λ row. test row ≡ (key row == k)) rows
      → get (view rows) k ≡ none
      → view (update_rows test set rows) ≡ view rows
  unfolding view get update_rows
  view-update_none test set k [] h g = refl
  view-update_none test set k (row ∷ rows) (e, h) g =
      ground (arith, view-update_none test set k rows h)

  -- No two rows have one key.
  abbrev pub Distinct : List R → Type 0
  Distinct [] = Unit
  Distinct (row ∷ rows) = (get (view rows) (key row) ≡ none) × Distinct rows

  -- An update by the key changes the value that the map has there.
  pub view-update :
      (test : R → Bool) (set : R → R) (k : String) (v : V) (rows : List R)
      → Each (λ row. test row ≡ (key row == k)) rows
      → Each (λ row. key row ≡ k → (key (set row) ≡ k) × (value (set row) ≡ v)) rows
      → Distinct rows
      → get (view rows) k ≢ none
      → view (update_rows test set rows) ≡ put (view rows) k v
  unfolding view get put update_rows
  view-update test set k v [] h w d g = absurd (g refl)
  view-update test set k v (row ∷ rows) (e, h) (c, w) (n, d) g = elim (Bool-cases (key row == k)) [
    | inl t ↦
        let at_k = (eq_iff (key row) k).0 t in
        let none_after = subst (λ x. get (view rows) x ≡ none) at_k n in
        let rest = view-update_none test set k rows h none_after in ground (arith, c at_k)
    | inr f ↦ let rest = view-update test set k v rows h w d in ground arith
  ]

  -- No row is under a key that the map does not have.
  none_there :
      (k : String) (v : V) (rows : List R)
      → get (view rows) k ≡ none
      → Each (λ row. key row ≡ k → value row ≡ v) rows
  unfolding view get
  none_there k v [] g = tt
  none_there k v (row ∷ rows) g = elim (Bool-cases (key row == k)) [
    | inl t ↦ absurd (none_not_some (rw t at g))
    | inr f ↦ (λ e. absurd (differ e f), none_there k v rows (rw f at g))
  ]

  -- The row under a key has the value that the map has there.
  pub Each-of_get :
      (k : String) (v : V) (rows : List R)
      → Distinct rows
      → get (view rows) k ≡ some v
      → Each (λ row. key row ≡ k → value row ≡ v) rows
  unfolding view get
  Each-of_get k v [] d g = tt
  Each-of_get k v (row ∷ rows) (n, d) g = elim (Bool-cases (key row == k)) [
    | inl t ↦ (
      λ _. some_inj (rw t at g),
      none_there k v rows (subst (λ x. get (view rows) x ≡ none) ((eq_iff (key row) k).0 t) n),
    )
    | inr f ↦ (λ e. absurd (differ e f), Each-of_get k v rows d (rw f at g))
  ]
