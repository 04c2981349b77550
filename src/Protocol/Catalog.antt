-- ===== src/Protocol/Catalog.antt =====
-- pkg/protocol/model_catalog.go: the support states of models, and the look-ups in a snapshot of a
-- catalogue. `lower` maps one character as `unicode.ToLower` does.
use reinframe.Prelude.{
  ℕ, String, Char, Bool, false, not, ◌&&◌, ◌||◌, Option, none, some, List, [], ◌∷◌, is_empty,
  str_eq, leb, ◌==◌, if◌then◌else◌,
}
use reinframe.Detector.Fingerprint.{trim_space, map_chars}
use Prim.Native.Nat.{bit_and}

-- `ModelSupportState.Rank`
unfoldable pub rank : String → ℕ
rank s =
    if str_eq s "discovered"
    then 1
    else if str_eq s "selectable"
    then 2
    else if str_eq s "capability_pinned"
    then 3
    else if str_eq s "live_qualified"
    then 4
    else 0

-- `ModelSupportState.IsSelectable`
unfoldable pub is_selectable_state : String → Bool
is_selectable_state s =
    str_eq s "selectable" || str_eq s "capability_pinned" || str_eq s "live_qualified"

-- `ModelSupportState.Satisfies`
unfoldable pub satisfies : String → String → Bool
satisfies s required = leb (rank required) (rank s) && not (rank s == 0)

-- The fields of `ModelDescriptor` that the look-ups and the router read.
pub record ModelDescriptor : Type 0 where
  pub model_id : String
  pub support_state : String
  pub capabilities : ℕ
  pub is_default : Bool

-- `m.Capabilities & mask == mask`, as in `ModelDescriptor.HasAllCapabilities`.
unfoldable pub has_all_capabilities : ℕ → ℕ → Bool
has_all_capabilities capabilities mask = bit_and capabilities mask == mask

-- `ModelCatalogSnapshot.DefaultModel`
unfoldable pub default_model : List ModelDescriptor → Option ModelDescriptor
default_model [] = none
default_model (m ∷ ms) = if m.is_default then some m else default_model ms

-- `ModelCatalogSnapshot.FindQualified`
unfoldable pub find_qualified : ℕ → List ModelDescriptor → List ModelDescriptor
find_qualified capability [] = []
find_qualified capability (m ∷ ms) =
    let rest = find_qualified capability ms in
    if has_all_capabilities m.capabilities capability && is_selectable_state m.support_state
    then m ∷ rest
    else rest

module _ (lower : Char → Char) where
  -- `strings.ToLower(strings.TrimSpace(id))`
  unfoldable pub normal_id : String → String
  normal_id id = map_chars lower (trim_space id)

  find_normal : String → List ModelDescriptor → Option ModelDescriptor
  find_normal norm [] = none
  find_normal norm (m ∷ ms) =
      if str_eq (normal_id m.model_id) norm then some m else find_normal norm ms

  -- `ModelCatalogSnapshot.GetModel`
  unfoldable pub get_model : String → List ModelDescriptor → Option ModelDescriptor
  unfolding find_normal
  get_model id ms = let norm = normal_id id in if is_empty norm then none else find_normal norm ms

  -- `ModelCatalogSnapshot.IsSelectable`
  unfoldable pub is_selectable : String → List ModelDescriptor → Bool
  is_selectable id ms = elim (get_model id ms) [
    | none ↦ false
    | some m ↦ is_selectable_state m.support_state
  ]
