-- ===== src/Base/Rows.antt =====
-- Tables as lists of rows under a text key, and the statements that the store sends to them.
use mathlib.Core.Option
use metawsm.Base.Tests.{◌==◌, string_eq, if◌then◌else◌}
use Prim.Native.String.{String}
use mathlib.Core.Path.{◌≡◌, refl}
use mathlib.Core.Option.{Option, none, some}
use mathlib.Core.List.{List, [], ◌∷◌, ◌++◌}
use native.Mathlib.Omega.{arith}
use text.Mathlib.TextEquality.{eq_iff}

module _ {ℓ} {R : Type ℓ} (key : R → String) where
  -- SELECT … WHERE key = k LIMIT 1
  unfoldable pub find : String → List R → Option R
  find k [] = none
  find k (r ∷ rs) = if key r == k then some r else find k rs

  -- UPDATE … WHERE key = k
  unfoldable pub update : String → (R → R) → List R → List R
  update k f [] = []
  update k f (r ∷ rs) = (if key r == k then f r else r) ∷ update k f rs

  -- INSERT under a unique key: `none` where the key is taken
  unfoldable pub insert : R → List R → Option (List R)
  unfolding find
  insert r rs = elim (find (key r) rs) [ none ↦ some (rs ++ r ∷ []) | some _ ↦ none ]

  -- INSERT … ON CONFLICT (key) DO UPDATE SET every other column
  unfoldable pub upsert : R → List R → List R
  upsert r [] = r ∷ []
  upsert r (q ∷ rs) = if key q == key r then r ∷ rs else q ∷ upsert r rs

  pub find-update :
      (k j : String) (f : R → R) (rs : List R)
      → ((r : R) → key (f r) ≡ key r)
      → find j (update k f rs) ≡ (if k == j then Option.map f (find j rs) else find j rs)
  unfolding find update
  find-update k j f [] h = ground arith
  find-update k j f (r ∷ rs) h =
      ground (arith, h r, eq_iff k j, eq_iff (key r) k, eq_iff (key r) j, find-update k j f rs h)

  -- A row under a fresh key, at the end of the table.
  pub find-concat :
      (j : String) (r : R) (rs : List R)
      → find (key r) rs ≡ none
      → find j (rs ++ r ∷ []) ≡ (if key r == j then some r else find j rs)
  unfolding find
  find-concat j r [] h = refl
  find-concat j r (q ∷ rs) h =
      ground (arith, eq_iff (key q) (key r), eq_iff (key q) j, eq_iff (key r) j, find-concat j r rs)

  pub find-upsert :
      (j : String) (r : R) (rs : List R)
      → find j (upsert r rs) ≡ (if key r == j then some r else find j rs)
  unfolding find upsert
  find-upsert j r [] = refl
  find-upsert j r (q ∷ rs) =
      ground (arith, eq_iff (key q) (key r), eq_iff (key q) j, eq_iff (key r) j, find-upsert j r rs)

  pub key-find : (k : String) (rs : List R) {r : R} → find k rs ≡ some r → key r ≡ k
  unfolding find
  key-find k [] h = cc
  key-find k (q ∷ rs) {r} h = ground (arith, eq_iff (key q) k, key-find k rs {r = r})
