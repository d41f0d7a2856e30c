-- ===== src/Types/Lookup.antt =====
-- Reading a dictionary after a write.
use homelab_builder.Base.{
  both-first, ◌∙◌, both-second, map, true, all, String, ◌≡◌, refl, inl, inr, none, some, List, [],
  ◌∷◌, arith, if◌then◌else◌, ◌==◌, nat_eq, string_eq, ==_iff, Bool-cases, contains, int_eq,
}
use homelab_builder.Types.{spread, Dict, get, put, without}

module _ {V : Type 0} where
  pub get-put :
      (o : Dict V) (k j : String) (v : V) → get (put o k v) j ≡ (if k == j then some v else get o j)
  get-put [] k j v = refl
  get-put ((i, w) ∷ o) k j v = ground (arith, ==_iff k j, ==_iff i k, ==_iff i j, get-put o k j v)

  -- `delete` takes the keys away and leaves the others.
  pub get-without :
      (keys : List String) (o : Dict V) (j : String)
      → get (without keys o) j ≡ (if contains keys j then none else get o j)
  get-without keys [] j = ground arith
  get-without keys ((k, v) ∷ o) j = elim (Bool-cases (k == j)) [
    | inl same ↦ let e : k ≡ j = (==_iff k j).0 same in ground (arith, get-without keys o j)
    | inr other ↦ ground (arith, get-without keys o j)
  ]

  -- What is taken away again may have been written, or taken away before.
  without-put :
      (keys : List String) (o : Dict V) (k : String) (v : V)
      → contains keys k ≡ true
      → without keys (put o k v) ≡ without keys o
  without-put keys [] k v h = ground arith
  without-put keys ((i, w) ∷ o) k v h = ground (arith, ==_iff i k, without-put keys o k v)

  pub without-spread :
      (keys : List String) (o p : Dict V)
      → all (contains keys) (map {B = String} (λ entry. entry.0) p) ≡ true
      → without keys (spread o p) ≡ without keys o
  without-spread keys o [] h = refl
  without-spread keys o ((k, v) ∷ p) h =
      without-spread keys (put o k v) p (both-second (contains keys k) _ h)
      ∙ without-put keys o k v (both-first (contains keys k) _ h)

  pub without-without :
      (keys gone : List String) (o : Dict V)
      → ((k : String) → contains gone k ≡ true → contains keys k ≡ true)
      → without keys (without gone o) ≡ without keys o
  without-without keys gone [] h = refl
  without-without keys gone ((k, v) ∷ o) h = elim (Bool-cases (contains gone k)) [
    | inl out ↦ rw (out, h k out) (without-without keys gone o h)
    | inr left ↦ rw left (ground (arith, without-without keys gone o h))
  ]
