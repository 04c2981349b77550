-- ===== src/Classifier/ExactCache/Linked.antt =====
-- The map, the LRU order and the byte count of pkg/classifier/exact_cache.go agree, and every call of
-- the store keeps that.
use reinframe.Prelude.{
  ℕ, zero, suc, ◌+◌, ◌-◌, String, true, false, none, some, List, [], ◌∷◌, ◌++◌, length,
  length-append, Map, lookup, insert, remove, ◌≡◌, refl, arith, Bool-cases, Option-cases,
  List-cases, inl, inr, ◌∙◌, ap, eq_refl, eq_iff,
}
use reinframe.Classifier.ExactCache.{
  Entry, ExactAssessmentCache, mem, remove_order, remove_locked, is_over, count_eviction, turn,
  evict, without,
}
use reinframe.Classifier.ExactCache.Orders.{
  Distinct, keys, total, mem-append, Distinct-append, mem-remove_order, Distinct-remove_order,
  length-remove_order, mem-lookup, length-keys, keys-remove, total-remove, insert_missing,
  keys-append, total-append,
}

-- The order lists the keys of the entries once each, and `bytes` is the sum of their sizes.
pub record IsLinked (entries : Map Entry) (order : List String) (bytes : ℕ) : Type 0 where
  pub order_once : Distinct order
  pub keys_once : Distinct (keys entries)
  pub same : (k : String) → mem k order ≡ mem k (keys entries)
  pub long : length order ≡ length entries
  pub sum : bytes ≡ total entries

abbrev pub Linked : ExactAssessmentCache → Type 0
Linked c = IsLinked c.entries c.order c.bytes

mem_of_lookup :
    (k : String) (m : Map Entry) (e : Entry) → lookup k m ≡ some e → mem k (keys m) ≡ true
mem_of_lookup k m e h = rw (mem-lookup k m, h) refl

missing_of_lookup : (k : String) (m : Map Entry) → lookup k m ≡ none → mem k (keys m) ≡ false
missing_of_lookup k m h = rw (mem-lookup k m, h) refl

pub drop-IsLinked :
    (m : Map Entry) (o : List String) (b : ℕ) (k : String) (e : Entry)
    → IsLinked m o b
    → lookup k m ≡ some e
    → IsLinked (remove k m) (remove_order k o) (b - e.size)
drop-IsLinked m o b k e l h = record {
  order_once = Distinct-remove_order k o l.order_once;
  keys_once = rw (keys-remove k m l.keys_once) (Distinct-remove_order k (keys m) l.keys_once);
  same = λ j.
      rw
        (
          mem-remove_order j k o l.order_once,
          keys-remove k m l.keys_once,
          mem-remove_order j k (keys m) l.keys_once,
          l.same j,
        )
        refl;
  long = omega (
    arith,
    length-remove_order k o (l.same k ∙ mem_of_lookup k m e h),
    length-remove_order k (keys m) (mem_of_lookup k m e h),
    ap length (keys-remove k m l.keys_once),
    length-keys (remove k m),
    length-keys m,
    l.long,
  );
  sum = omega (arith, total-remove k m e l.keys_once h, l.sum);
}

pub add-IsLinked :
    (m : Map Entry) (o : List String) (b : ℕ) (k : String) (e : Entry)
    → IsLinked m o b
    → mem k (keys m) ≡ false
    → IsLinked (insert k e m) (o ++ k ∷ []) (b + e.size)
add-IsLinked m o b k e l h = rw (insert_missing k e m h) (record {
  order_once = Distinct-append k o (l.same k ∙ h) l.order_once;
  keys_once = rw (keys-append m k e) (Distinct-append k (keys m) h l.keys_once);
  same = λ j. rw (mem-append j k o, keys-append m k e, mem-append j k (keys m), l.same j) refl;
  long = omega (arith, length-append o (k ∷ []), length-append m ((k, e) ∷ []), l.long);
  sum = omega (arith, total-append m k e, l.sum);
})

pub touch-IsLinked :
    (m : Map Entry) (o : List String) (b : ℕ) (k : String) (e : Entry)
    → IsLinked m o b
    → lookup k m ≡ some e
    → IsLinked m (remove_order k o ++ k ∷ []) b
touch-IsLinked m o b k e l h = record {
  order_once =
      Distinct-append k (remove_order k o)
        (rw (mem-remove_order k k o l.order_once) (ground (arith, eq_refl k)))
        (Distinct-remove_order k o l.order_once);
  keys_once = l.keys_once;
  same = λ j.
      rw (mem-append j k (remove_order k o), mem-remove_order j k o l.order_once)
        (ground (arith, eq_iff k j, l.same j, mem_of_lookup k m e h));
  long = omega (
    arith,
    length-append (remove_order k o) (k ∷ []),
    length-remove_order k o (l.same k ∙ mem_of_lookup k m e h),
    l.long,
  );
  sum = l.sum;
}

pub Linked-remove_locked :
    (c : ExactAssessmentCache) (k : String) → Linked c → Linked (remove_locked c k)
unfolding remove_locked
Linked-remove_locked c k l = elim (Option-cases (lookup k c.entries)) [
  | inl e ↦ rw (Linked, remove_locked, e) l
  | inr (ent, e) ↦ rw (Linked, remove_locked, e) (drop-IsLinked c.entries c.order c.bytes k ent l e)
]

pub Linked-without : (c : ExactAssessmentCache) (k : String) → Linked c → Linked (without c k)
unfolding without
Linked-without c k l = elim (Option-cases (lookup k c.entries)) [
  | inl e ↦ rw (Linked, without, e) l
  | inr (ent, e) ↦ rw (Linked, without, e) (drop-IsLinked c.entries c.order c.bytes k ent l e)
]

turn_stop :
    (o : List String) (next : String → ExactAssessmentCache) (c : ExactAssessmentCache)
    → turn o false next c ≡ c
turn_stop [] next c = refl
turn_stop (v ∷ o) next c = refl

abbrev next_turn : ℕ → ExactAssessmentCache → ℕ → String → ExactAssessmentCache
next_turn f c size victim = evict f (count_eviction (remove_locked c victim)) size

pub evict_stop :
    (f : ℕ) (c : ExactAssessmentCache) (size : ℕ) → is_over c size ≡ false → evict f c size ≡ c
unfolding evict
evict_stop zero c size e = refl
evict_stop (suc f) c size e =
    ap (λ b. turn c.order b (next_turn f c size) c) e ∙ turn_stop c.order (next_turn f c size) c

pub evict_empty : (f : ℕ) (c : ExactAssessmentCache) (size : ℕ) → c.order ≡ [] → evict f c size ≡ c
unfolding evict
evict_empty zero c size o = refl
evict_empty (suc f) c size o = ap (λ x. turn x (is_over c size) (next_turn f c size) c) o

pub evict_more :
    (f : ℕ) (c : ExactAssessmentCache) (size : ℕ) (victim : String) (rest : List String)
    → c.order ≡ victim ∷ rest
    → is_over c size ≡ true
    → evict (suc f) c size ≡ evict f (count_eviction (remove_locked c victim)) size
unfolding evict
evict_more f c size victim rest o e =
    ap (λ x. turn x (is_over c size) (next_turn f c size) c) o
    ∙ ap (λ b. turn (victim ∷ rest) b (next_turn f c size) c) e

pub Linked-evict :
    (f : ℕ) (c : ExactAssessmentCache) (size : ℕ) → Linked c → Linked (evict f c size)
unfolding evict
Linked-evict zero c size l = l
Linked-evict (suc f) c size l = elim (Bool-cases (is_over c size)) [
  | inr e ↦ rw (evict_stop (suc f) c size e) l
  | inl e ↦ (elim (List-cases c.order) [
    | inl o ↦ rw (evict_empty (suc f) c size o) l
    | inr (v, (rest, o)) ↦
        rw (evict_more f c size v rest o e)
          (Linked-evict f (count_eviction (remove_locked c v)) size (Linked-remove_locked c v l))
  ])
]
