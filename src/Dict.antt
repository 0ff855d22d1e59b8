-- ===== src/Dict.antt =====
-- Python's dict with string keys, as an association list in the order of insertion. An assignment
-- to a key that is there keeps its place.
use learndb_py.Prelude.{
  ◌≡◌, refl, Bool, true, false, Option, none, some, List, [], ◌∷◌, arith, if◌then◌else◌,
}
use learndb_py.Bytes.Utf8.{Text}
use learndb_py.Names.{text_eq, text_eq_iff}

abbrev pub Dict {ℓ} : Type ℓ → Type ℓ
Dict V = List (Text × V)

module _ {ℓ} {V : Type ℓ} where
  -- `d.get(k)`
  unfoldable pub get : Text → Dict V → Option V
  get k [] = none
  get k ((j, v) ∷ d) = if text_eq j k then some v else get k d

  -- `d[k] = v`
  unfoldable pub set : Text → V → Dict V → Dict V
  set k v [] = (k, v) ∷ []
  set k v ((j, w) ∷ d) = if text_eq j k then (j, v) ∷ d else (j, w) ∷ set k v d

  -- `k in d`
  unfoldable pub contains : Text → Dict V → Bool
  contains k [] = false
  contains k ((j, v) ∷ d) = if text_eq j k then true else contains k d

  pub get-set :
      (k j : Text) (v : V) (d : Dict V)
      → get j (set k v d) ≡ (if text_eq k j then some v else get j d)
  unfolding get set
  get-set k j v [] = refl
  get-set k j v ((i, w) ∷ d) =
      ground (arith, text_eq_iff k j, text_eq_iff i k, text_eq_iff i j, get-set k j v d)

  abbrev pub has : Option V → Bool
  has none = false
  has (some v) = true

  pub contains-eq-has : (k : Text) (d : Dict V) → contains k d ≡ has (get k d)
  unfolding contains get
  contains-eq-has k [] = refl
  contains-eq-has k ((j, v) ∷ d) = ground (arith, contains-eq-has k d)
