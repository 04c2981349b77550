-- ===== src/Classifier/ExactCache/Orders.antt =====
-- The lists of keys of pkg/classifier/exact_cache.go: the LRU order, and the keys of the entries.
use reinframe.Prelude.{
  ℕ, suc, ◌+◌, String, true, false, not, ◌&&◌, ◌||◌, none, some, List, [], ◌∷◌, ◌++◌, length,
  str_eq, Map, lookup, insert, remove, ◌≡◌, refl, arith, eq_iff, Bool-cases, inl, inr,
}
use reinframe.Classifier.ExactCache.{Entry, mem, remove_order}

-- No key stands twice.
abbrev pub Distinct : List String → Type 0
Distinct [] = Unit
Distinct (k ∷ ks) = (mem k ks ≡ false) × Distinct ks

pub mem-append : (j k : String) (ks : List String) → mem j (ks ++ k ∷ []) ≡ (mem j ks || str_eq k j)
unfolding mem
mem-append j k [] = ground arith
mem-append j k (i ∷ ks) = ground (arith, mem-append j k ks)

pub Distinct-append :
    (k : String) (ks : List String) → mem k ks ≡ false → Distinct ks → Distinct (ks ++ k ∷ [])
unfolding mem
Distinct-append k [] h d = (refl, tt)
Distinct-append k (j ∷ ks) h d = (
  ground (arith, mem-append j k ks, eq_iff j k, eq_iff k j),
  Distinct-append k ks (ground arith) d.1,
)

pub mem-remove_order :
    (j k : String) (ks : List String)
    → Distinct ks
    → mem j (remove_order k ks) ≡ (mem j ks && not (str_eq k j))
unfolding mem remove_order
mem-remove_order j k [] d = refl
mem-remove_order j k (i ∷ ks) d =
    let absent = d.0 in
    ground (arith, mem-remove_order j k ks d.1, eq_iff i k, eq_iff i j, eq_iff k j, absent)

pub Distinct-remove_order :
    (k : String) (ks : List String) → Distinct ks → Distinct (remove_order k ks)
unfolding mem remove_order
Distinct-remove_order k [] d = tt
Distinct-remove_order k (j ∷ ks) d = elim (Bool-cases (str_eq j k)) [
  | inl e ↦ rw e d.1
  | inr e ↦ rw e (
      let gone = mem-remove_order j k ks d.1 in
      let absent = d.0 in (rw (gone, absent) refl, Distinct-remove_order k ks d.1))
]

pub length-remove_order :
    (k : String) (ks : List String) → mem k ks ≡ true → suc (length (remove_order k ks)) ≡ length ks
unfolding mem remove_order
length-remove_order k [] h = ground arith
length-remove_order k (j ∷ ks) h = ground (arith, length-remove_order k ks)

abbrev pub keys : Map Entry → List String
keys [] = []
keys ((k, e) ∷ m) = k ∷ keys m

abbrev pub total : Map Entry → ℕ
total [] = 0
total ((k, e) ∷ m) = e.size + total m

pub mem-lookup :
    (k : String) (m : Map Entry)
    → mem k (keys m) ≡ (elim (lookup k m) [ none ↦ false | some e ↦ true ])
unfolding mem lookup
mem-lookup k [] = refl
mem-lookup k ((j, e) ∷ m) = ground (arith, mem-lookup k m)

pub length-keys : (m : Map Entry) → length (keys m) ≡ length m
length-keys [] = refl
length-keys ((k, e) ∷ m) = omega (arith, length-keys m)

-- A key that is not there.
pub remove_missing : (k : String) (m : Map Entry) → mem k (keys m) ≡ false → remove k m ≡ m
unfolding mem remove
remove_missing k [] h = refl
remove_missing k ((j, e) ∷ m) h = ground (arith, remove_missing k m)

pub keys-remove :
    (k : String) (m : Map Entry) → Distinct (keys m) → keys (remove k m) ≡ remove_order k (keys m)
unfolding mem remove remove_order
keys-remove k [] d = refl
keys-remove k ((j, e) ∷ m) d =
    let absent = d.0 in ground (arith, keys-remove k m d.1, remove_missing k m, eq_iff j k, absent)

pub total-remove :
    (k : String) (m : Map Entry) (e : Entry)
    → Distinct (keys m)
    → lookup k m ≡ some e
    → total (remove k m) + e.size ≡ total m
unfolding mem remove lookup
total-remove k [] e d h = ground arith
total-remove k ((j, f) ∷ m) e d h =
    let absent = d.0 in
    ground (arith, total-remove k m e d.1, remove_missing k m, eq_iff j k, absent)

pub insert_missing :
    (k : String) (e : Entry) (m : Map Entry)
    → mem k (keys m) ≡ false
    → insert k e m ≡ m ++ (k, e) ∷ []
unfolding mem insert
insert_missing k e [] h = refl
insert_missing k e ((j, f) ∷ m) h = ground (arith, insert_missing k e m)

pub keys-append :
    (m : Map Entry) (k : String) (e : Entry) → keys (m ++ (k, e) ∷ []) ≡ keys m ++ k ∷ []
keys-append [] k e = refl
keys-append ((j, f) ∷ m) k e = simp (keys-append m k e)

pub total-append :
    (m : Map Entry) (k : String) (e : Entry) → total (m ++ (k, e) ∷ []) ≡ total m + e.size
total-append [] k e = omega arith
total-append ((j, f) ∷ m) k e = omega (arith, total-append m k e)
