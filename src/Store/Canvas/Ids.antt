-- ===== src/Store/Canvas/Ids.antt =====
-- The ids of cards and devices under the operations of the store, and which cables they leave joined.
use homelab_builder.Base.{
  String, ◌≡◌, refl, ap, inl, inr, Bool, true, not, ◌&&◌, none, List, [], ◌∷◌, ◌++◌, map, arith,
  nat_eq, string_eq, ==_iff, Bool-cases, all, keep, contains, contains-append, int_eq,
}
use homelab_builder.Store.History.{change_first}
use homelab_builder.Types.{HardwareNode}
use homelab_builder.Store.State.{HardwarePatch, patched, Edge}

abbrev pub both : List String → String → String → Bool
both ids a b = contains ids a && contains ids b

-- Whether a cable runs between two of the ids.
abbrev pub joins : List String → Edge → Bool
joins ids e = both ids e.source e.target

pub contains-of_eq : (xs ys : List String) → xs ≡ ys → (a : String) → contains xs a ≡ contains ys a
contains-of_eq xs ys e a = ap (λ ids. contains ids a) e

pub map-keep {ℓ} :
    {A : Type ℓ} (f : A → String) (p : String → Bool) (xs : List A)
    → map f (keep (λ x. p (f x)) xs) ≡ keep p (map f xs)
map-keep f p [] = refl
map-keep f p (x ∷ xs) = elim (Bool-cases (p (f x))) [
  | inl kept ↦ rw kept (ap (◌∷◌ (f x)) (map-keep f p xs))
  | inr dropped ↦ rw dropped (map-keep f p xs)
]

pub contains-keep :
    (p : String → Bool) (xs : List String) (a : String)
    → contains (keep p xs) a ≡ (contains xs a && p a)
contains-keep p [] a = refl
contains-keep p (x ∷ xs) a = ground (arith, contains-keep p xs a, ==_iff x a, ap {A = String} p)

-- Two rounds of removal, of which the later one removes all that the earlier one does.
pub keep-keep :
    (p q : String → Bool) (xs : List String)
    → ((a : String) → p a ≡ true → q a ≡ true)
    → keep p (keep q xs) ≡ keep p xs
keep-keep p q [] h = refl
keep-keep p q (x ∷ xs) h = ground (arith, keep-keep p q xs h, h x)

-- Cables that lose every end that is gone stay joined.
pub joined-keep :
    (gone ids : List String) (edges : List Edge)
    → all (joins ids) edges ≡ true
    → all
        (joins (keep (λ id. not (contains gone id)) ids))
        (keep (λ e. not (contains gone e.source) && not (contains gone e.target)) edges)
      ≡ true
joined-keep gone ids [] h = refl
joined-keep gone ids (e ∷ edges) h = ground (
  arith,
  joined-keep gone ids edges,
  contains-keep (λ id. not (contains gone id)) ids e.source,
  contains-keep (λ id. not (contains gone id)) ids e.target,
)

pub joined-append :
    (ids more : List String) (edges : List Edge)
    → all (joins ids) edges ≡ true
    → all (joins (ids ++ more)) edges ≡ true
joined-append ids more [] h = refl
joined-append ids more (e ∷ edges) h = ground (
  arith,
  joined-append ids more edges,
  contains-append ids more e.source,
  contains-append ids more e.target,
)

pub map-append {ℓ} :
    {A : Type ℓ} (f : A → String) (xs ys : List A) → map f (xs ++ ys) ≡ map f xs ++ map f ys
map-append f [] ys = refl
map-append f (x ∷ xs) ys = ap (◌∷◌ (f x)) (map-append f xs ys)

-- A change of each element that leaves its id alone.
pub ids-map {ℓ} :
    {A : Type ℓ} (id : A → String) (f : A → A)
    → ((x : A) → id (f x) ≡ id x)
    → (xs : List A) → map id (map f xs) ≡ map id xs
ids-map id f h [] = refl
ids-map id f h (x ∷ xs) = rw (h x) (ap (◌∷◌ (id x)) (ids-map id f h xs))

pub device_ids-change_first :
    (id : String) (patch : HardwarePatch)
    → patch.id ≡ none
    → (devices : List HardwareNode)
    → map (λ n. n.id) (change_first id patch devices) ≡ map (λ n. n.id) devices
unfolding patched
device_ids-change_first id patch h [] = refl
device_ids-change_first id patch h (d ∷ devices) =
    ground (arith, device_ids-change_first id patch h devices)
