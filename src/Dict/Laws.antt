-- ===== src/Dict/Laws.antt =====
-- The laws of the dict operations, each in a form without side conditions where there is one.
use freedom_box.Base.{
  length, ◌≤◌, ◌<◌, ◌++◌, true, eq_refl, String, ◌≡◌, refl, false, none, some, [], ◌∷◌, ◌==◌,
  eq_iff, arith, if◌then◌else◌,
}
use freedom_box.Dict.{Dict, lookup, has_key, insert, remove, IsDistinct}

module _ {ℓ} {V : Type ℓ} where
  pub lookup-insert :
      (k j : String) (v : V) (d : Dict V)
      → lookup j (insert k v d) ≡ (if k == j then some v else lookup j d)
  lookup-insert k j v [] = refl
  lookup-insert k j v ((i, w) ∷ d) =
      ground (arith, eq_iff k j, eq_iff i k, eq_iff i j, lookup-insert k j v d)

  pub lookup-remove :
      (k j : String) (d : Dict V) → lookup j (remove k d) ≡ (if k == j then none else lookup j d)
  lookup-remove k j [] = ground arith
  lookup-remove k j ((i, w) ∷ d) =
      ground (arith, lookup-remove k j d, eq_iff i k, eq_iff i j, eq_iff k j)

  pub lookup_of_has_key : (k : String) (d : Dict V) → has_key k d ≡ false → lookup k d ≡ none
  lookup_of_has_key k [] h = refl
  lookup_of_has_key k ((j, v) ∷ d) h = ground (arith, lookup_of_has_key k d)

  pub IsDistinct-insert :
      (k : String) (v : V) (d : Dict V) → IsDistinct d → IsDistinct (insert k v d)
  IsDistinct-insert k v [] h = (refl, tt)
  IsDistinct-insert k v ((j, w) ∷ d) h =
      ground (arith, IsDistinct-insert k v d, lookup-insert k j v d, eq_iff j k, eq_iff k j)

  pub IsDistinct-remove : (k : String) (d : Dict V) → IsDistinct d → IsDistinct (remove k d)
  IsDistinct-remove k [] h = tt
  IsDistinct-remove k ((j, w) ∷ d) h = ground (arith, IsDistinct-remove k d, lookup-remove k j d)

module _ {ℓ} {V : Type ℓ} where
  pub lookup-append :
      (k : String) (d e : Dict V)
      → lookup k (d ++ e) ≡ elim (lookup k d) [ some v ↦ some v | none ↦ lookup k e ]
  lookup-append k [] e = refl
  lookup-append k ((j, v) ∷ d) e = ground (arith, lookup-append k d e)

  -- A new key goes to the end.
  pub insert_new :
      (k : String) (v : V) (d : Dict V) → lookup k d ≡ none → insert k v d ≡ d ++ (k, v) ∷ []
  insert_new k v [] h = refl
  insert_new k v ((j, w) ∷ d) h = ground (arith, insert_new k v d)

  pub IsDistinct-drop :
      (d : Dict V) (k : String) (v : V) (e : Dict V)
      → IsDistinct (d ++ (k, v) ∷ e)
      → IsDistinct (d ++ e)
  IsDistinct-drop [] k v e h = h.1
  IsDistinct-drop ((j, w) ∷ d) k v e h = (
    ground (arith, h.0, lookup-append j d e, lookup-append j d ((k, v) ∷ e)),
    IsDistinct-drop d k v e h.1,
  )

  pub lookup_before :
      (d : Dict V) (k : String) (v : V) (e : Dict V)
      → IsDistinct (d ++ (k, v) ∷ e)
      → lookup k d ≡ none
  lookup_before [] k v e h = refl
  lookup_before ((j, w) ∷ d) k v e h = ground (
    arith,
    lookup_before d k v e h.1,
    h.0,
    lookup-append j d ((k, v) ∷ e),
    eq_iff j k,
    eq_iff k j,
  )

  pub has_key-insert : (k : String) (v : V) (d : Dict V) → has_key k (insert k v d) ≡ true
  has_key-insert k v [] = ground (arith, eq_refl k)
  has_key-insert k v ((j, w) ∷ d) = ground (arith, has_key-insert k v d)

  pub lookup-insert_self : (k : String) (v : V) (d : Dict V) → lookup k (insert k v d) ≡ some v
  lookup-insert_self k v d = ground (arith, lookup-insert k k v d, eq_refl k)

  pub lookup-remove_self : (k : String) (d : Dict V) → lookup k (remove k d) ≡ none
  lookup-remove_self k d = ground (arith, lookup-remove k k d, eq_refl k)

  pub has_key_of_lookup :
      (k : String) (v : V) (d : Dict V) → lookup k d ≡ some v → has_key k d ≡ true
  has_key_of_lookup k v [] h = cc
  has_key_of_lookup k v ((j, w) ∷ d) h = ground (arith, has_key_of_lookup k v d)

module _ {ℓ} {V : Type ℓ} where
  pub length-remove-le : (k : String) (d : Dict V) → length (remove k d) ≤ length d
  length-remove-le k [] = omega arith
  length-remove-le k ((j, v) ∷ d) = ground (arith, length-remove-le k d)

  pub length-remove-lt :
      (k : String) (v : V) (d : Dict V) → lookup k d ≡ some v → length (remove k d) < length d
  length-remove-lt k v [] e = cc
  length-remove-lt k v ((j, w) ∷ d) e = ground (arith, length-remove-lt k v d, length-remove-le k d)
