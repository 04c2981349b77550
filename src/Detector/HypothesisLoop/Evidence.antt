-- ===== src/Detector/HypothesisLoop/Evidence.antt =====
-- The loop over the evidence in `Observe` of pkg/detector/hypothesis_loop.go, against membership.
use reinframe.Prelude.{
  String, Bool, false, not, ◌&&◌, ◌||◌, List, [], ◌∷◌, insert, lookup-insert, is_empty, str_eq, ◌≡◌,
  refl, ◌∙◌, ap, arith, Bool-cases, inl, inr, eq_iff, if-true, if-false,
}
use reinframe.Detector.Fingerprint.{trim_space}
use reinframe.Detector.HypothesisLoop.{IdSet, has, attach_one, attach}

-- The list names the evidence `id`.
unfoldable pub names : List String → String → Bool
names [] id = false
names (raw ∷ ids) id = not (is_empty (trim_space raw)) && str_eq (trim_space raw) id || names ids id

-- The list names some evidence that is not `known`.
unfoldable pub brings_new : (String → Bool) → List String → Bool
brings_new known [] = false
brings_new known (raw ∷ ids) =
    not (is_empty (trim_space raw)) && not (known (trim_space raw)) || brings_new known ids

has-insert :
    (seen : IdSet) (id j : String) → has (insert id tt seen) j ≡ (str_eq id j || has seen j)
has-insert seen id j = ground (arith, lookup-insert id j tt seen)

has-attach_one :
    (found : IdSet × Bool) (raw id : String)
    → has (attach_one found raw).0 id
      ≡ (not (is_empty (trim_space raw)) && str_eq (trim_space raw) id || has found.0 id)
unfolding attach_one
has-attach_one found raw id =
    ground (arith, has-insert found.0 (trim_space raw) id, eq_iff (trim_space raw) id)

pub has-attach :
    (found : IdSet × Bool) (ids : List String) (id : String)
    → has (attach found ids).0 id ≡ (names ids id || has found.0 id)
unfolding attach names
has-attach found [] id = refl
has-attach found (raw ∷ ids) id =
    ground (arith, has-attach (attach_one found raw) ids id, has-attach_one found raw id)

-- The flag only ever rises, and rises at the first identifier that the set lacks.
pub flag-attach :
    (found : IdSet × Bool) (ids : List String)
    → (attach found ids).1 ≡ (found.1 || brings_new (has found.0) ids)
unfolding attach brings_new attach_one
flag-attach found [] = ground arith
flag-attach found (raw ∷ ids) =
    let id = trim_space raw in
    flag-attach (attach_one found raw) ids ∙ elim (Bool-cases (is_empty id || has found.0 id)) [
      | inl e ↦
          ap (λ (f : IdSet × Bool). f.1 || brings_new (has f.0) ids)
            (if-true (is_empty id || has found.0 id) _ e)
          ∙ ground (arith, e)
      | inr e ↦
          ap (λ (f : IdSet × Bool). f.1 || brings_new (has f.0) ids)
            (if-false (is_empty id || has found.0 id) _ e)
          ∙ ground (arith, e)
    ]

pub brings_new-cong :
    (f g : String → Bool)
    → ((id : String) → f id ≡ g id)
    → (ids : List String) → brings_new f ids ≡ brings_new g ids
unfolding brings_new
brings_new-cong f g e [] = refl
brings_new-cong f g e (raw ∷ ids) = ground (arith, e (trim_space raw), brings_new-cong f g e ids)
