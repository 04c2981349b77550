-- ===== src/Classifier/ExactCache/Bounds.antt =====
-- The bounds of the store of pkg/classifier/exact_cache.go, and the end of its eviction loop.
use reinframe.Prelude.{
  ℕ, zero, suc, ◌≤◌, String, true, false, List, [], ◌∷◌, length, Map, lookup, remove, ◌≡◌, refl,
  arith, Bool-cases, Option-cases, List-cases, inl, inr, ◌∙◌, sym, ap, eq_refl,
}
use reinframe.Classifier.ExactCache.{
  Entry, ExactAssessmentCache, mem, remove_locked, is_over, count_eviction, evict, without,
}
use reinframe.Classifier.ExactCache.Orders.{keys, total, length-remove_order, mem-lookup}
use reinframe.Classifier.ExactCache.Linked.{
  Linked, evict_stop, evict_empty, evict_more, Linked-remove_locked,
}

-- There are at most as many entries and bytes as the configuration allows.
abbrev pub Within : ExactAssessmentCache → Type 0
Within c = (length c.entries ≤ c.cfg.max_entries) × (c.bytes ≤ c.cfg.max_bytes)

-- `c'` has the configuration of `c`, and no more entries or bytes.
pub record Shrinks (c c' : ExactAssessmentCache) : Type 0 where
  pub cfg : c'.cfg ≡ c.cfg
  pub fewer : length c'.entries ≤ length c.entries
  pub less : c'.bytes ≤ c.bytes

length-remove : (k : String) (m : Map Entry) → length (remove k m) ≤ length m
unfolding remove
length-remove k [] = omega arith
length-remove k ((j, e) ∷ m) = ground (arith, length-remove k m)

Shrinks-refl : (c : ExactAssessmentCache) → Shrinks c c
Shrinks-refl c = record { cfg = refl; fewer = omega arith; less = omega arith }

pub Shrinks-remove_locked : (c : ExactAssessmentCache) (k : String) → Shrinks c (remove_locked c k)
unfolding remove_locked
Shrinks-remove_locked c k = elim (Option-cases (lookup k c.entries)) [
  | inl e ↦ record {
    cfg = rw (remove_locked, e) refl;
    fewer = rw (remove_locked, e) (omega arith);
    less = rw (remove_locked, e) (omega arith);
  }
  | inr (ent, e) ↦ record {
    cfg = rw (remove_locked, e) refl;
    fewer = rw (remove_locked, e) (length-remove k c.entries);
    less = rw (remove_locked, e) (omega arith);
  }
]

pub Shrinks-without : (c : ExactAssessmentCache) (k : String) → Shrinks c (without c k)
unfolding without
Shrinks-without c k = elim (Option-cases (lookup k c.entries)) [
  | inl e ↦ record {
    cfg = rw (without, e) refl;
    fewer = rw (without, e) (omega arith);
    less = rw (without, e) (omega arith);
  }
  | inr (ent, e) ↦ record {
    cfg = rw (without, e) refl;
    fewer = rw (without, e) (length-remove k c.entries);
    less = rw (without, e) (omega arith);
  }
]

pub Shrinks-trans : (a b c : ExactAssessmentCache) → Shrinks a b → Shrinks b c → Shrinks a c
Shrinks-trans a b c s t = record {
  cfg = t.cfg ∙ s.cfg;
  fewer = omega (arith, s.fewer, t.fewer);
  less = omega (arith, s.less, t.less);
}

counted : (c : ExactAssessmentCache) (v : String) → Shrinks c (count_eviction (remove_locked c v))
counted c v =
    let s = Shrinks-remove_locked c v in record { cfg = s.cfg; fewer = s.fewer; less = s.less }

pub Shrinks-evict : (f : ℕ) (c : ExactAssessmentCache) (size : ℕ) → Shrinks c (evict f c size)
unfolding evict
Shrinks-evict zero c size = Shrinks-refl c
Shrinks-evict (suc f) c size = elim (Bool-cases (is_over c size)) [
  | inr e ↦ rw (evict_stop (suc f) c size e) (Shrinks-refl c)
  | inl e ↦ (elim (List-cases c.order) [
    | inl o ↦ rw (evict_empty (suc f) c size o) (Shrinks-refl c)
    | inr (v, (rest, o)) ↦ rw (evict_more f c size v rest o e) (
        Shrinks-trans c (count_eviction (remove_locked c v))
          (evict f (count_eviction (remove_locked c v)) size) (counted c v)
          (Shrinks-evict f (count_eviction (remove_locked c v)) size))
  ])
]

total_empty : (m : Map Entry) → length m ≡ 0 → total m ≡ 0
total_empty [] h = refl
total_empty (p ∷ m) h = omega (arith, h)

-- An empty store has room for a value that fits.
empty_has_room :
    (c : ExactAssessmentCache) (size : ℕ)
    → Linked c
    → 1 ≤ c.cfg.max_entries
    → size ≤ c.cfg.max_bytes
    → c.order ≡ []
    → is_over c size ≡ false
unfolding is_over
empty_has_room c size l one fits o =
    let gone : length c.entries ≡ 0 = sym l.long ∙ ap length o in
    ground (arith, l.sum, gone, total_empty c.entries gone)

present :
    (c : ExactAssessmentCache) (v : String) (rest : List String)
    → c.order ≡ v ∷ rest
    → mem v c.order ≡ true
unfolding mem
present c v rest o = rw (o, eq_refl v) refl

order_shortens :
    (c : ExactAssessmentCache) (v : String) (rest : List String)
    → Linked c
    → c.order ≡ v ∷ rest
    → suc (length (remove_locked c v).order) ≡ length c.order
unfolding remove_locked
order_shortens c v rest l o = elim (Option-cases (lookup v c.entries)) [
  | inr (ent, e) ↦ rw (remove_locked, e) (length-remove_order v c.order (present c v rest o))
  | inl e ↦
      let held : mem v (keys c.entries) ≡ true = sym (l.same v) ∙ present c v rest o in
      absurd (let gone : mem v (keys c.entries) ≡ false = rw (mem-lookup v c.entries, e) refl in cc)
]

-- With as much fuel as the order is long, the loop ends because there is room.
pub evict_ends :
    (f : ℕ) (c : ExactAssessmentCache) (size : ℕ)
    → Linked c
    → 1 ≤ c.cfg.max_entries
    → size ≤ c.cfg.max_bytes
    → length c.order ≤ f
    → is_over (evict f c size) size ≡ false
evict_ends zero c size l one fits enough = elim (List-cases c.order) [
  | inl o ↦ rw (evict_empty zero c size o) (empty_has_room c size l one fits o)
  | inr (v, (rest, o)) ↦
      absurd
        (let more : length c.order ≡ suc (length rest) = ap length o in omega (arith, more, enough))
]
evict_ends (suc f) c size l one fits enough = elim (Bool-cases (is_over c size)) [
  | inr e ↦ rw (evict_stop (suc f) c size e) e
  | inl e ↦ (elim (List-cases c.order) [
    | inl o ↦ rw (evict_empty (suc f) c size o) (empty_has_room c size l one fits o)
    | inr (v, (rest, o)) ↦ rw (evict_more f c size v rest o e) (
        evict_ends f (count_eviction (remove_locked c v)) size (Linked-remove_locked c v l)
          (rw ((Shrinks-remove_locked c v).cfg) one) (rw ((Shrinks-remove_locked c v).cfg) fits)
          (omega (arith, order_shortens c v rest l o, enough)))
  ])
]
