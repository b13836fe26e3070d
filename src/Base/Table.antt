-- ===== src/Base/Table.antt =====
-- A table of the database as the list of its rows, oldest first, with the queries that the
-- services make of it. `key` is the column that a query selects by.
use mathlib.Core.Option
use chat_intelli_api.Base.Tests.{if◌then◌else◌, Bool-cases, is_none}
use chat_intelli_api.Base.Lists.{All}
use Prim.Native.String.{String}
use mathlib.Core.Path.{◌≡◌, refl, subst}
use mathlib.Core.Logic.{inl, inr}
use mathlib.Core.Bool.{Bool, true, false}
use mathlib.Core.Option.{Option, none, some}
use mathlib.Core.List.{List, [], ◌∷◌, ◌++◌}
use native.Mathlib.Omega.{arith}
use text.Mathlib.Text.{◌==◌}
use text.Mathlib.TextEquality.{eq_iff}

module _ {ℓ} {R : Type ℓ} where
  -- `findFirst`, on rows in the order of the query.
  unfoldable pub find_first : (R → Bool) → List R → Option R
  find_first p [] = none
  find_first p (r ∷ rs) = if p r then some r else find_first p rs

  -- `updateMany({ where, data })`
  unfoldable pub update_many : (R → Bool) → (R → R) → List R → List R
  update_many p f [] = []
  update_many p f (r ∷ rs) = (if p r then f r else r) ∷ update_many p f rs

module _ {ℓ} {R : Type ℓ} (key : R → String) where
  -- `findUnique({ where: { key } })`
  unfoldable pub find_unique : String → List R → Option R
  find_unique k [] = none
  find_unique k (r ∷ rs) = if key r == k then some r else find_unique k rs

  -- The rows after `update({ where: { key }, data })`
  unfoldable pub update_key : String → (R → R) → List R → List R
  update_key k f [] = []
  update_key k f (r ∷ rs) = (if key r == k then f r else r) ∷ update_key k f rs

  -- A query by key after an update by key, where the update leaves the key alone.
  pub find_unique-update_key :
      (k j : String) (f : R → R) (rs : List R)
      → ((r : R) → key (f r) ≡ key r)
      → find_unique j (update_key k f rs)
        ≡ (if k == j then Option.map f (find_unique j rs) else find_unique j rs)
  unfolding find_unique update_key
  find_unique-update_key k j f [] same = ground arith
  find_unique-update_key k j f (r ∷ rs) same = ground (
    arith,
    same r,
    eq_iff (key r) k,
    eq_iff (key r) j,
    eq_iff k j,
    find_unique-update_key k j f rs same,
  )

  -- Two updates of one key are one.
  pub update_key_twice :
      (k : String) (f g : R → R) (rs : List R)
      → ((r : R) → key (f r) ≡ key r)
      → update_key k g (update_key k f rs) ≡ update_key k (λ r. g (f r)) rs
  unfolding update_key
  update_key_twice k f g [] same = refl
  update_key_twice k f g (r ∷ rs) same =
      ground (arith, same r, eq_iff (key r) k, update_key_twice k f g rs same)

  -- A query by key after an update of all rows that pass a test, which leaves the key alone.
  pub find_unique-update_many :
      (k : String) (p : R → Bool) (f : R → R) (rs : List R)
      → ((r : R) → key (f r) ≡ key r)
      → find_unique k (update_many p f rs)
        ≡ Option.map (λ r. if p r then f r else r) (find_unique k rs)
  unfolding find_unique update_many
  find_unique-update_many k p f [] same = refl
  find_unique-update_many k p f (r ∷ rs) same =
      ground (arith, same r, find_unique-update_many k p f rs same)

  -- A query by key behind an insert.
  pub find_unique-append :
      (k : String) (rs : List R) (r : R)
      → find_unique k (rs ++ r ∷ [])
        ≡ (if is_none (find_unique k rs) then find_unique k (r ∷ []) else find_unique k rs)
  unfolding find_unique
  find_unique-append k [] r = refl
  find_unique-append k (s ∷ rs) r = ground (arith, find_unique-append k rs r)

  -- A row that a query returns has the key that was asked for.
  pub find_unique-key : (k : String) (rs : List R) (r : R) → find_unique k rs ≡ some r → key r ≡ k
  unfolding find_unique
  find_unique-key k [] r h = absurd (ground arith)
  find_unique-key k (s ∷ rs) r h = ground (arith, eq_iff (key s) k, find_unique-key k rs r)

module _ {ℓ κ} {R : Type ℓ} (key : R → String) (P : R → Type κ) where
  pub All-update_key :
      (k : String) (f : R → R) (rs : List R)
      → ((r : R) → P r → P (f r))
      → All P rs
      → All P (update_key key k f rs)
  unfolding update_key
  All-update_key k f [] step h = tt
  All-update_key k f (r ∷ rs) step h = (one (key r == k), All-update_key k f rs step h.1)
    where
      one : (b : Bool) → P (if b then f r else r)
      one true = step r h.0
      one false = h.0

  pub All-find_unique :
      (k : String) (rs : List R) (r : R) → All P rs → find_unique key k rs ≡ some r → P r
  unfolding find_unique
  All-find_unique k [] r h e = absurd (ground arith)
  All-find_unique k (s ∷ rs) r h e = elim (Bool-cases (key s == k)) [
    | inl same ↦ let found : s ≡ r = ground arith in subst P found h.0
    | inr other ↦ All-find_unique k rs r h.1 (rw other at e)
  ]
