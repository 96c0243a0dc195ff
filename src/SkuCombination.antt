-- ===== src/SkuCombination.antt =====
-- The signature of a SKU's combination: apps/api/src/pricing/sku-combination.ts.
pub mod Build
pub mod Sorting
pub mod Components
pub mod Laws
pub mod Tests
use price_monitor.Prelude.{
  ℕ, zero, suc, Bool, true, false, not, ◌&&◌, ◌||◌, Option, none, some, List, [], ◌∷◌, ◌++◌, map,
  any, filter, find, is_empty, ltb, leb, ◌==◌, if◌then◌else◌, Text, codes, text_eq, Dict, get, put,
  Ordering, compare, compare_text, or_else, sort, Result, ok, err, ◌>>=◌,
}
use price_monitor.Money.{Number, natural, other, is_safe}
use price_monitor.Report.{Role, core, paid_accessory, gift_or_service, unknown_role, MatchDecision}

-- A component of the input.
pub record Component : Type 0 where
  pub role : Role
  pub accessory_type : Text
  pub brand : Option Text
  pub model_or_name : Text
  pub quantity : Number

-- `SkuCombinationInput`.
pub record CombinationInput : Type 0 where
  pub decision : Option MatchDecision
  pub brand : Text
  pub standard_model : Text
  pub version : Option Text
  pub color_comparable : Bool
  pub title : Text
  pub sku_text : Text
  pub attributes : Dict Text
  pub components : Option (List Component)

-- A component of the canonical form.
pub record Part : Type 0 where
  pub model : Text
  pub quantity : ℕ

-- `NormalizedComponent`.
pub record NormalPart : Type 0 where
  pub role : Role
  pub accessory_type : Text
  pub brand : Option Text
  pub part : Part

-- `CanonicalSkuCombination`, without its two constant fields.
pub record Canonical : Type 0 where
  pub brand : Text
  pub model : Text
  pub cores : List Part
  pub accessories : List Part
  pub materials : Dict Text
  pub color : Option Text

-- `SkuCombinationBuildResult`; a review and an exclusion have one reason and no label.
pub data Built : Type 0 where
  signed_sku : Text → Text → Canonical → List Text → Built
  review_sku : Text → Built
  excluded_sku : Text → Built

-- What the code uses of the platform: `normalizeText`, `normalize("NFKC")`, the removal of white space,
-- the decimal form of a number, and the SHA-256 digest of the canonical form's JSON.
pub record TextTools : Type 0 where
  pub normalize_text : Text → Text
  pub nfkc : Text → Text
  pub squeeze : Text → Text
  pub digits : ℕ → Text
  pub seal : Canonical → Text

-- `normalizeIdentifier`.
unfoldable pub identifier : TextTools → Text → Text
identifier tools t = tools.squeeze (tools.normalize_text t)

-- `text.includes(part)`.
abbrev starts_with : Text → Text → Bool
starts_with [] t = true
starts_with (a ∷ s) [] = false
starts_with (a ∷ s) (b ∷ t) = (a == b) && starts_with s t

unfoldable pub includes : Text → Text → Bool
includes part [] = is_empty part
includes part (b ∷ t) = starts_with part (b ∷ t) || includes part t

-- `MANDATORY_EXCLUSIONS`.
abbrev pub exclusions : List Text
exclusions =
    codes "二手"
    ∷ codes "样机"
    ∷ codes "展示机"
    ∷ codes "翻新"
    ∷ codes "租赁"
    ∷ codes "定金"
    ∷ codes "维修"
    ∷ codes "空盒"
    ∷ codes "单独配件"
    ∷ []

-- `MATERIAL_ATTRIBUTE_KEY` and `COLOR_ATTRIBUTE_KEY`: one of the alternatives stands in the key.
abbrev pub is_material_key : Text → Bool
is_material_key key =
    any (λ term. includes term key)
      (codes "版本" ∷ codes "区域" ∷ codes "地区" ∷ codes "国行" ∷ codes "保修" ∷ codes "质保" ∷ [])

abbrev pub is_color_key : Text → Bool
is_color_key key = any (λ term. includes term key) (codes "颜色" ∷ codes "色号" ∷ [])

-- `compareCanonicalComponents`.
unfoldable pub compare_part : Part → Part → Ordering
compare_part a b = or_else (compare_text a.model b.model) (compare a.quantity b.quantity)

-- `compareAttributes`, on a key and a value.
unfoldable pub compare_attribute : Text × Text → Text × Text → Ordering
compare_attribute a b = or_else (compare_text a.0 b.0) (compare_text a.1 b.1)

-- `hasExcludedCondition`.
unfoldable pub excluded_condition : TextTools → Text → Text → Option Text
excluded_condition tools title sku_text =
    let searchable : Text = tools.nfkc (title ++ (codes " " ++ sku_text)) in
    find (λ term. includes term searchable) exclusions
