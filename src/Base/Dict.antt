-- ===== src/Base/Dict.antt =====
-- Python's `dict` with text keys. No program part depends on the order of its entries.
use text.Mathlib.TextEquality.{eq_iff}
use mathlib.Core.Path.{◌≡◌, refl}
use mathlib.Core.Option.{Option, none, some}
use mathlib.Core.List.{List, [], ◌∷◌}
use Prim.Native.String.{String}
use native.Mathlib.Omega.{arith}
use ticketflow.Base.Tests.{◌==◌, string_eq, if◌then◌else◌}

abbrev pub Dict : Type 0 → Type 0
Dict V = List (String × V)

module _ {V : Type 0} where
  -- d.get(k)
  unfoldable pub get : String → Dict V → Option V
  get k [] = none
  get k (entry ∷ d) = if k == entry.0 then some entry.1 else get k d

  -- d[k] = v
  unfoldable pub put : String → V → Dict V → Dict V
  put k v [] = (k, v) ∷ []
  put k v (entry ∷ d) = if k == entry.0 then (k, v) ∷ d else entry ∷ put k v d

  -- del d[k]
  unfoldable pub remove : String → Dict V → Dict V
  remove k [] = []
  remove k (entry ∷ d) = let rest = remove k d in if k == entry.0 then rest else entry ∷ rest

  pub get-put :
      (j k : String) (v : V) (d : Dict V) → get j (put k v d) ≡ (if j == k then some v else get j d)
  unfolding get put
  get-put j k v [] = refl
  get-put j k v (entry ∷ d) =
      ground (arith, get-put j k v d, eq_iff j k, eq_iff j entry.0, eq_iff k entry.0)

  pub get-remove :
      (j k : String) (d : Dict V) → get j (remove k d) ≡ (if j == k then none else get j d)
  unfolding get remove
  get-remove j k [] = ground arith
  get-remove j k (entry ∷ d) =
      ground (arith, get-remove j k d, eq_iff j k, eq_iff j entry.0, eq_iff k entry.0)
