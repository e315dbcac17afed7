-- ===== src/Common/Table.antt =====
-- A database table as a list of rows with a primary key, and the SQL that the services issue:
-- SELECT and UPDATE with a WHERE test, ORDER BY with LIMIT, and look-ups by key.
use Prim.Native.Nat.{ℕ, zero, suc}
use mathlib.Core.Path.{◌≡◌, refl, sym, ◌∙◌}
use mathlib.Core.Bool.{Bool, true, false, ◌&&◌, false≢true}
use mathlib.Core.Option.{Option, none, some}
use mathlib.Core.List.{List, [], ◌∷◌, map}
use native.Mathlib.Omega.{arith}
use mathlib.Core.Logic.{inl, inr}
use software_engineering_car.Common.Tests.{◌==◌, Bool-cases, Option-cases, if◌then◌else◌}
use software_engineering_car.Common.Lists.{length, take, drop, All}
use software_engineering_car.Common.Sorting.{insert_row, order_by}

module _ {A : Type 0} where
  -- SELECT ... WHERE p
  unfoldable pub select_where : (A → Bool) → List A → List A
  select_where p [] = []
  select_where p (a ∷ rows) = let rest = select_where p rows in if p a then a ∷ rest else rest

  -- UPDATE ... WHERE p: `f` is the row with its new values.
  unfoldable pub update_where : (A → Bool) → (A → A) → List A → List A
  update_where p f [] = []
  update_where p f (a ∷ rows) = (if p a then f a else a) ∷ update_where p f rows

  -- What an update does to one row that may be there.
  abbrev pub update_row : (A → Bool) → (A → A) → Option A → Option A
  update_row p f none = none
  update_row p f (some a) = some (if p a then f a else a)

  -- A row that is there and passes the test.
  abbrev pub if_row : (A → Bool) → Option A → Option A
  if_row p none = none
  if_row p (some a) = if p a then some a else none

  abbrev pub has_row : (A → Bool) → Option A → Bool
  has_row p none = false
  has_row p (some a) = p a

  -- The first row of a result, or none: `session.scalar`.
  abbrev pub scalar : List A → Option A
  scalar [] = none
  scalar (a ∷ rows) = some a

  abbrev pub row_list : Option A → List A
  row_list none = []
  row_list (some a) = a ∷ []

  pub scalar-row_list : (o : Option A) → scalar (row_list o) ≡ o
  scalar-row_list none = refl
  scalar-row_list (some a) = refl

  -- A row that passed a test was there, and passes it.
  pub if_row-some :
      (p : A → Bool) (o : Option A) (a : A) → if_row p o ≡ some a → (o ≡ some a) × (p a ≡ true)
  if_row-some p none a h = ground arith
  if_row-some p (some b) a h = ground arith

  pub select_where-update_where :
      (p q : A → Bool) (f : A → A) (rows : List A)
      → ((a : A) → p (f a) ≡ p a)
      → select_where p (update_where q f rows) ≡ update_where q f (select_where p rows)
  unfolding select_where update_where
  select_where-update_where p q f [] h = refl
  select_where-update_where p q f (a ∷ rows) h =
      ground (arith, h a, select_where-update_where p q f rows h)

  -- Two tests in one selection, or one after the other.
  pub select_where-and :
      (p q : A → Bool) (rows : List A)
      → select_where (λ a. p a && q a) rows ≡ select_where q (select_where p rows)
  unfolding select_where
  select_where-and p q [] = refl
  select_where-and p q (a ∷ rows) = ground (arith, select_where-and p q rows)

  -- An update that a test cannot see selects as many rows as before.
  pub length-select_where-update_where :
      (p q : A → Bool) (f : A → A) (rows : List A)
      → ((a : A) → p (f a) ≡ p a)
      → length (select_where p (update_where q f rows)) ≡ length (select_where p rows)
  unfolding select_where update_where
  length-select_where-update_where p q f [] h = refl
  length-select_where-update_where p q f (a ∷ rows) h =
      ground (arith, h a, length-select_where-update_where p q f rows h)

module _ {A : Type 0} (key : A → ℕ) where
  unfoldable pub row_at : ℕ → List A → Option A
  row_at k [] = none
  row_at k (a ∷ rows) = if key a == k then some a else row_at k rows

  unfoldable pub has_key : ℕ → List A → Bool
  has_key k [] = false
  has_key k (a ∷ rows) = if key a == k then true else has_key k rows

  -- The primary key names at most one row.
  abbrev pub UniqueKeys : List A → Type 0
  UniqueKeys [] = Unit
  UniqueKeys (a ∷ rows) = (has_key (key a) rows ≡ false) × UniqueKeys rows

  pub row_at-absent : (k : ℕ) (rows : List A) → has_key k rows ≡ false → row_at k rows ≡ none
  unfolding row_at has_key
  row_at-absent k [] h = refl
  row_at-absent k (a ∷ rows) h = ground (arith, row_at-absent k rows)

  pub has_key-row_at :
      (k : ℕ) (rows : List A) (a : A) → row_at k rows ≡ some a → has_key k rows ≡ true
  unfolding row_at has_key
  has_key-row_at k [] a h = ground arith
  has_key-row_at k (b ∷ rows) a h = ground (arith, has_key-row_at k rows a)

  pub has_key-some :
      (k : ℕ) (rows : List A) → has_key k rows ≡ true → (a : A) × (row_at k rows ≡ some a)
  unfolding row_at has_key
  has_key-some k [] h = absurd (false≢true h)
  has_key-some k (b ∷ rows) h = elim (Bool-cases (key b == k)) [
    | inl t ↦ (b, rw t)
    | inr t ↦ rw t (has_key-some k rows (rw t at h))
  ]

  pub key-row_at : (k : ℕ) (rows : List A) (a : A) → row_at k rows ≡ some a → key a ≡ k
  unfolding row_at
  key-row_at k [] a h = ground arith
  key-row_at k (b ∷ rows) a h = ground (arith, key-row_at k rows a)

  -- An update that leaves keys alone acts on each row by itself.
  pub row_at-update_where :
      (p : A → Bool) (f : A → A) (k : ℕ) (rows : List A)
      → ((a : A) → key (f a) ≡ key a)
      → row_at k (update_where p f rows) ≡ update_row p f (row_at k rows)
  unfolding row_at update_where
  row_at-update_where p f k [] h = refl
  row_at-update_where p f k (a ∷ rows) h = ground (arith, h a, row_at-update_where p f k rows h)

  pub has_key-update_where :
      (p : A → Bool) (f : A → A) (k : ℕ) (rows : List A)
      → ((a : A) → key (f a) ≡ key a)
      → has_key k (update_where p f rows) ≡ has_key k rows
  unfolding has_key update_where
  has_key-update_where p f k [] h = refl
  has_key-update_where p f k (a ∷ rows) h = ground (arith, h a, has_key-update_where p f k rows h)

  pub update_where-UniqueKeys :
      (p : A → Bool) (f : A → A) (rows : List A)
      → ((a : A) → key (f a) ≡ key a)
      → UniqueKeys rows
      → UniqueKeys (update_where p f rows)
  unfolding update_where
  update_where-UniqueKeys p f [] h u = tt
  update_where-UniqueKeys p f (a ∷ rows) h u = ground (
    arith,
    h a,
    has_key-update_where p f (key a) rows h,
    has_key-update_where p f (key (f a)) rows h,
    update_where-UniqueKeys p f rows h u.1,
  )

  -- A selection holds exactly the keys of the rows that pass its test.
  pub has_key-select_where :
      (p : A → Bool) (k : ℕ) (rows : List A)
      → UniqueKeys rows
      → has_key k (select_where p rows) ≡ has_row p (row_at k rows)
  unfolding has_key select_where row_at
  has_key-select_where p k [] u = refl
  has_key-select_where p k (a ∷ rows) u =
      ground (arith, has_key-select_where p k rows u.1, row_at-absent (key a) rows u.0)

  pub row_at-select_where :
      (p : A → Bool) (k : ℕ) (rows : List A)
      → UniqueKeys rows
      → row_at k (select_where p rows) ≡ if_row p (row_at k rows)
  unfolding select_where row_at
  row_at-select_where p k [] u = refl
  row_at-select_where p k (a ∷ rows) u =
      ground (arith, row_at-select_where p k rows u.1, row_at-absent (key a) rows u.0)

  pub select_where-UniqueKeys :
      (p : A → Bool) (rows : List A) → UniqueKeys rows → UniqueKeys (select_where p rows)
  unfolding select_where
  select_where-UniqueKeys p [] u = tt
  select_where-UniqueKeys p (a ∷ rows) u = ground (
    arith,
    select_where-UniqueKeys p rows u.1,
    has_key-select_where p (key a) rows u.1,
    row_at-absent (key a) rows u.0,
  )

  -- A selection of one key, with a further test, has at most one row.
  abbrev pub at_key : ℕ → (A → Bool) → A → Bool
  at_key k p a = (key a == k) && p a

  select_where-absent :
      (p : A → Bool) (k : ℕ) (rows : List A)
      → has_key k rows ≡ false
      → select_where (at_key k p) rows ≡ []
  unfolding select_where has_key
  select_where-absent p k [] h = refl
  select_where-absent p k (a ∷ rows) h = ground (arith, select_where-absent p k rows)

  pub select_where-at_key :
      (p : A → Bool) (k : ℕ) (rows : List A)
      → UniqueKeys rows
      → select_where (at_key k p) rows ≡ row_list (if_row p (row_at k rows))
  unfolding select_where row_at
  select_where-at_key p k [] u = refl
  select_where-at_key p k (a ∷ rows) u =
      ground (arith, select_where-at_key p k rows u.1, select_where-absent p (key a) rows u.0)

  module _ (before : A → A → Bool) where
    has_key-insert_row :
        (k : ℕ) (a : A) (rows : List A)
        → has_key k (insert_row before a rows) ≡ has_key k (a ∷ rows)
    unfolding has_key insert_row
    has_key-insert_row k a [] = refl
    has_key-insert_row k a (b ∷ rows) = ground (arith, has_key-insert_row k a rows)

    pub has_key-order_by :
        (k : ℕ) (rows : List A) → has_key k (order_by before rows) ≡ has_key k rows
    unfolding has_key order_by
    has_key-order_by k [] = refl
    has_key-order_by k (a ∷ rows) =
        ground (arith, has_key-insert_row k a (order_by before rows), has_key-order_by k rows)

    insert_row-UniqueKeys :
        (a : A) (rows : List A)
        → has_key (key a) rows ≡ false
        → UniqueKeys rows
        → UniqueKeys (insert_row before a rows)
    unfolding has_key insert_row
    insert_row-UniqueKeys a [] h u = (refl, tt)
    insert_row-UniqueKeys a (b ∷ rows) h u =
        ground (arith, insert_row-UniqueKeys a rows, has_key-insert_row (key b) a rows)

    pub order_by-UniqueKeys : (rows : List A) → UniqueKeys rows → UniqueKeys (order_by before rows)
    unfolding order_by
    order_by-UniqueKeys [] u = tt
    order_by-UniqueKeys (a ∷ rows) u =
        insert_row-UniqueKeys a (order_by before rows) (has_key-order_by (key a) rows ∙ u.0)
          (order_by-UniqueKeys rows u.1)

    row_at-insert_row :
        (k : ℕ) (a : A) (rows : List A)
        → has_key (key a) rows ≡ false
        → row_at k (insert_row before a rows) ≡ row_at k (a ∷ rows)
    unfolding has_key row_at insert_row
    row_at-insert_row k a [] h = refl
    row_at-insert_row k a (b ∷ rows) h = ground (arith, row_at-insert_row k a rows)

    pub row_at-order_by :
        (k : ℕ) (rows : List A) → UniqueKeys rows → row_at k (order_by before rows) ≡ row_at k rows
    unfolding row_at order_by
    row_at-order_by k [] u = refl
    row_at-order_by k (a ∷ rows) u = ground (
      arith,
      row_at-insert_row k a (order_by before rows),
      has_key-order_by (key a) rows,
      row_at-order_by k rows u.1,
    )

  pub has_key-take :
      (n k : ℕ) (rows : List A) → has_key k (take n rows) ≡ true → has_key k rows ≡ true
  unfolding has_key
  has_key-take zero k rows h = ground arith
  has_key-take (suc n) k [] h = ground arith
  has_key-take (suc n) k (a ∷ rows) h = ground (arith, has_key-take n k rows)

  pub take-UniqueKeys : (n : ℕ) (rows : List A) → UniqueKeys rows → UniqueKeys (take n rows)
  take-UniqueKeys zero rows u = tt
  take-UniqueKeys (suc n) [] u = tt
  take-UniqueKeys (suc n) (a ∷ rows) u =
      ground (arith, take-UniqueKeys n rows u.1, has_key-take n (key a) rows)

  pub row_at-take :
      (n k : ℕ) (rows : List A)
      → UniqueKeys rows
      → has_key k (take n rows) ≡ true
      → row_at k (take n rows) ≡ row_at k rows
  unfolding has_key row_at
  row_at-take zero k rows u h = ground arith
  row_at-take (suc n) k [] u h = refl
  row_at-take (suc n) k (a ∷ rows) u h = ground (arith, row_at-take n k rows u.1)

  abbrev pub map_row : (A → A) → Option A → Option A
  map_row f none = none
  map_row f (some a) = some (f a)

  -- Writes one attribute change back to the row of each object in turn.
  unfoldable pub write_each : (A → A) → List A → List A → List A
  write_each f [] db = db
  write_each f (a ∷ rows) db = write_each f rows (update_where (λ r. key r == key a) f db)

  module _ (f : A → A) (keeps : (a : A) → key (f a) ≡ key a) where
    -- One object's write changes its own row and no other.
    row_at-write_one :
        (i k : ℕ) (db : List A)
        → row_at k (update_where (λ r. key r == i) f db)
          ≡ (if i == k then map_row f (row_at k db) else row_at k db)
    row_at-write_one i k db = elim (Option-cases (row_at k db)) [
      | inl e ↦ ground (arith, row_at-update_where (λ r. key r == i) f k db keeps)
      | inr (a, e) ↦
          ground (arith, row_at-update_where (λ r. key r == i) f k db keeps, key-row_at k db a e)
    ]

    -- A batch write changes exactly the rows of its batch, each once.
    pub row_at-write_each :
        (k : ℕ) (rows db : List A)
        → UniqueKeys rows
        → row_at k (write_each f rows db)
          ≡ (if has_key k rows then map_row f (row_at k db) else row_at k db)
    unfolding write_each has_key
    row_at-write_each k [] db u = refl
    row_at-write_each k (a ∷ rows) db u = ground (
      arith,
      row_at-write_each k rows (update_where (λ r. key r == key a) f db) u.1,
      row_at-write_one (key a) k db,
    )

    pub has_key-write_each :
        (k : ℕ) (rows db : List A) → has_key k (write_each f rows db) ≡ has_key k db
    unfolding write_each
    has_key-write_each k [] db = refl
    has_key-write_each k (a ∷ rows) db =
        has_key-write_each k rows (update_where (λ r. key r == key a) f db)
        ∙ has_key-update_where (λ r. key r == key a) f k db keeps

    pub write_each-UniqueKeys :
        (rows db : List A) → UniqueKeys db → UniqueKeys (write_each f rows db)
    unfolding write_each
    write_each-UniqueKeys [] db u = u
    write_each-UniqueKeys (a ∷ rows) db u =
        write_each-UniqueKeys rows (update_where (λ r. key r == key a) f db)
          (update_where-UniqueKeys (λ r. key r == key a) f db keeps u)

  pub length-select_where-write_each :
      (p : A → Bool) (f : A → A) (rows db : List A)
      → ((a : A) → p (f a) ≡ p a)
      → length (select_where p (write_each f rows db)) ≡ length (select_where p db)
  unfolding write_each
  length-select_where-write_each p f [] db h = refl
  length-select_where-write_each p f (a ∷ rows) db h =
      length-select_where-write_each p f rows (update_where (λ r. key r == key a) f db) h
      ∙ length-select_where-update_where p (λ r. key r == key a) f db h

  -- A batch: the first rows, in an order, of those that pass a test.
  module _ (before : A → A → Bool) (p : A → Bool) (n : ℕ) (db : List A) (u : UniqueKeys db) where
    pub batch-UniqueKeys : UniqueKeys (take n (order_by before (select_where p db)))
    batch-UniqueKeys =
        take-UniqueKeys n (order_by before (select_where p db))
          (order_by-UniqueKeys before (select_where p db) (select_where-UniqueKeys p db u))

    pub has_key-order_by_select :
        (k : ℕ) → has_key k (order_by before (select_where p db)) ≡ has_row p (row_at k db)
    has_key-order_by_select k =
        has_key-order_by before k (select_where p db) ∙ has_key-select_where p k db u

    pub has_row-batch :
        (k : ℕ)
        → has_key k (take n (order_by before (select_where p db))) ≡ true
        → has_row p (row_at k db) ≡ true
    has_row-batch k h =
        sym (has_key-order_by_select k) ∙ has_key-take n k (order_by before (select_where p db)) h

    pub row_at-order_by_select :
        (k : ℕ) → row_at k (order_by before (select_where p db)) ≡ if_row p (row_at k db)
    row_at-order_by_select k =
        row_at-order_by before k (select_where p db) (select_where-UniqueKeys p db u)
        ∙ row_at-select_where p k db u

    pub row_at-batch :
        (k : ℕ)
        → has_key k (take n (order_by before (select_where p db))) ≡ true
        → row_at k (take n (order_by before (select_where p db))) ≡ if_row p (row_at k db)
    row_at-batch k h =
        row_at-take n k (order_by before (select_where p db))
          (order_by-UniqueKeys before (select_where p db) (select_where-UniqueKeys p db u)) h
        ∙ row_at-order_by_select k

  pub has_key-map :
      (f : A → A) (k : ℕ) (rows : List A)
      → ((a : A) → key (f a) ≡ key a)
      → has_key k (map f rows) ≡ has_key k rows
  unfolding has_key
  has_key-map f k [] h = refl
  has_key-map f k (a ∷ rows) h = ground (arith, h a, has_key-map f k rows h)

  pub row_at-map :
      (f : A → A) (k : ℕ) (rows : List A)
      → ((a : A) → key (f a) ≡ key a)
      → row_at k (map f rows) ≡ map_row f (row_at k rows)
  unfolding row_at
  row_at-map f k [] h = refl
  row_at-map f k (a ∷ rows) h = ground (arith, h a, row_at-map f k rows h)

  -- What a limit cut off is found behind it.
  pub row_at-drop :
      (n k : ℕ) (rows : List A)
      → has_key k (take n rows) ≡ false
      → row_at k (drop n rows) ≡ row_at k rows
  unfolding has_key row_at
  row_at-drop zero k rows h = refl
  row_at-drop (suc n) k [] h = refl
  row_at-drop (suc n) k (a ∷ rows) h = ground (arith, row_at-drop n k rows)

  pub All-row_at {κ} :
      (P : A → Type κ) (k : ℕ) (rows : List A) (a : A) → All P rows → row_at k rows ≡ some a → P a
  unfolding row_at
  All-row_at P k [] a h e = absurd (ground arith)
  All-row_at P k (b ∷ rows) a h e = elim (Bool-cases (key b == k)) [
    | inl t ↦ let same : b ≡ a = ground arith in rw same at h.0
    | inr t ↦ All-row_at P k rows a h.1 (rw t at e)
  ]
