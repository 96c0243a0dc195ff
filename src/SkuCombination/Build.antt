-- ===== src/SkuCombination/Build.antt =====
-- sku-combination.ts: the attributes, the components, the label and `buildSkuCombination`.
use price_monitor.Prelude.{
  ℕ, Bool, true, false, not, ◌&&◌, ◌||◌, Option, none, some, List, [], ◌∷◌, ◌++◌, map, any, filter,
  find, is_empty, cons_some, ltb, if◌then◌else◌, Text, codes, text_eq, Dict, get, put, sort, Result,
  ok, err, ◌>>=◌,
}
use price_monitor.Money.{Number, natural, other, is_safe}
use price_monitor.Report.{
  Role, core, paid_accessory, gift_or_service, unknown_role, MatchDecision, pending, rejected,
  manual,
}
use price_monitor.SkuCombination.{
  Component, CombinationInput, Part, NormalPart, Canonical, Built, signed_sku, review_sku,
  excluded_sku, TextTools, identifier, is_material_key, is_color_key, compare_part,
  compare_attribute, excluded_condition,
}

unfoldable pub normalized_entries : TextTools → Dict Text → Dict Text
normalized_entries tools m =
    map (λ (e : Text × Text). (tools.normalize_text e.0, tools.normalize_text e.1)) m

-- `materialEntries`.
unfoldable pub material_entries : Dict Text → Dict Text
material_entries m =
    sort compare_attribute
      (filter (λ (e : Text × Text). not (is_color_key e.0) && is_material_key e.0) m)

abbrev differs_from : Option Text → Text → Bool
differs_from none value = false
differs_from (some existing) value = not (text_eq existing value)

-- The loop that collects `materialAttributes`.
unfoldable pub materials_from : Dict Text → Dict Text → Result Text (Dict Text)
materials_from [] m = ok m
materials_from ((key, value) ∷ entries) m =
    let rest = materials_from entries (put key value m) in
    if differs_from (get key m) value then err (codes "关键规格属性冲突，无法可靠比较") else rest

abbrev color_of : Option (Text × Text) → Result Text (Option Text)
color_of none = err (codes "颜色可比但未提供明确颜色")
color_of (some (key, [])) = err (codes "颜色可比但未提供明确颜色")
color_of (some (key, a ∷ t)) = ok (some (a ∷ t))

-- `normalizedAttributes`: the attributes that matter, and the color.
unfoldable pub normalized_attributes :
    TextTools → CombinationInput → Result Text (Dict Text × Option Text)
normalized_attributes tools input =
    let entries = normalized_entries tools input.attributes in
    let material = material_entries entries in
    if any (λ (e : Text × Text). is_empty e.1) material
    then err (codes "关键规格属性为空，无法可靠比较")
    else materials_from material [] >>= λ m.
        if not input.color_comparable
        then ok (m, none)
        else color_of (find (λ (e : Text × Text). is_color_key e.0) entries) >>= λ c. ok (m, c)

abbrev pub is_unknown : Role → Bool
is_unknown unknown_role = true
is_unknown _ = false

abbrev pub is_gift : Role → Bool
is_gift gift_or_service = true
is_gift _ = false

abbrev pub is_core : Role → Bool
is_core core = true
is_core _ = false

abbrev pub is_paid : Role → Bool
is_paid paid_accessory = true
is_paid _ = false

-- `value || null`.
abbrev present : Text → Option Text
present [] = none
present (a ∷ t) = some (a ∷ t)

abbrev brand_of : TextTools → Option Text → Option Text
brand_of tools none = none
brand_of tools (some t) = present (identifier tools t)

abbrev positive_quantity : Number → Option ℕ
positive_quantity other = none
positive_quantity (natural n) = if is_safe n && ltb 0 n then some n else none

abbrev part_by_role :
    TextTools → Component → ℕ → Text → Text → Role → Result Text (Option NormalPart)
part_by_role tools c n accessory_type model gift_or_service = ok none
part_by_role tools c n accessory_type model unknown_role = err (codes "组件角色未知，无法可靠比较")
part_by_role tools c n accessory_type model role = ok (
    some (record {
      role = role;
      accessory_type = accessory_type;
      brand = brand_of tools c.brand;
      part = record { model = model; quantity = n };
    }))

abbrev part_with : TextTools → Component → Option ℕ → Result Text (Option NormalPart)
part_with tools c none = err (codes "组件数量无效，无法可靠比较")
part_with tools c (some n) =
    let accessory_type : Text = tools.normalize_text c.accessory_type in
    let model : Text = identifier tools c.model_or_name in
    if is_empty accessory_type || is_empty model
    then err (codes "组件名称为空，无法可靠比较")
    else part_by_role tools c n accessory_type model c.role

-- The body of the loop of `normalizedComponents`; a gift gives no component.
unfoldable pub part_of : TextTools → Component → Result Text (Option NormalPart)
part_of tools c = part_with tools c (positive_quantity c.quantity)

unfoldable pub parts_of : TextTools → List Component → Result Text (List NormalPart)
parts_of tools [] = ok []
parts_of tools (c ∷ cs) = part_of tools c >>= λ o. (parts_of tools cs >>= λ ps. ok (cons_some o ps))

abbrev pub with_core : List NormalPart → Result Text (List NormalPart)
with_core ps =
    if any (λ (p : NormalPart). is_core p.role) ps then ok ps else err (codes "缺少核心组件，无法可靠比较")

-- `normalizedComponents`, for components that are there.
unfoldable pub normalized_components : TextTools → List Component → Result Text (List NormalPart)
normalized_components tools cs =
    if any (λ (c : Component). is_unknown c.role) cs
    then err (codes "组件角色未知，无法可靠比较")
    else parts_of tools cs >>= with_core

abbrev pub components_of : TextTools → Option (List Component) → Result Text (List NormalPart)
components_of tools none = err (codes "缺少组合组件，无法可靠比较")
components_of tools (some cs) = normalized_components tools cs

abbrev pub gift_included : Option (List Component) → Bool
gift_included none = false
gift_included (some cs) = any (λ (c : Component). is_gift c.role) cs

unfoldable pub parts_with : (Role → Bool) → List NormalPart → List Part
parts_with test ps =
    sort compare_part (map NormalPart.part (filter (λ (p : NormalPart). test p.role) ps))

unfoldable pub canonical_of : Text → Text → Dict Text × Option Text → List NormalPart → Canonical
canonical_of brand model attributes ps = record {
  brand = brand;
  model = model;
  cores = parts_with is_core ps;
  accessories = parts_with is_paid ps;
  materials = attributes.0;
  color = attributes.1;
}

-- `list.join(separator)`.
abbrev pub join : Text → List Text → Text
join separator [] = []
join separator (t ∷ []) = t
join separator (t ∷ u ∷ ts) = t ++ (separator ++ join separator (u ∷ ts))

abbrev part_label : TextTools → NormalPart → Text
part_label tools p =
    p.accessory_type ++ (p.part.model ++ (codes "x" ++ tools.digits p.part.quantity))

abbrev labels_of : TextTools → (Role → Bool) → List NormalPart → Text
labels_of tools test ps =
    join (codes "、") (map (part_label tools) (filter (λ (p : NormalPart). test p.role) ps))

abbrev prefixed : Text → Text → Text
prefixed prefix [] = []
prefixed prefix (a ∷ t) = prefix ++ a ∷ t

abbrev prefixed_option : Text → Option Text → Text
prefixed_option prefix none = []
prefixed_option prefix (some t) = prefixed prefix t

abbrev or_empty_text : Option Text → Text
or_empty_text none = []
or_empty_text (some t) = t

-- `buildLabel`.
unfoldable pub build_label : TextTools → Canonical → List NormalPart → Option Text → Text
build_label tools canonical ps version = join (codes " ") (
    filter (λ (t : Text). not (is_empty t))
      ((canonical.brand ++ (codes " " ++ canonical.model))
        ∷ codes "新品"
        ∷ (codes "核心" ++ labels_of tools is_core ps)
        ∷ prefixed (codes "付费配件") (labels_of tools is_paid ps)
        ∷ or_empty_text version
        ∷ (map (λ (e : Text × Text). e.0 ++ e.1) canonical.materials
            ++ prefixed_option (codes "颜色") canonical.color ∷ [])))

abbrev version_of : TextTools → Option Text → Option Text
version_of tools none = none
version_of tools (some t) = present (tools.normalize_text t)

-- The signature of a canonical form.
unfoldable pub signature_of : TextTools → Canonical → Text
signature_of tools canonical = codes "sku-combination-v1:" ++ tools.seal canonical

unfoldable pub sign :
    TextTools → CombinationInput → Dict Text × Option Text → List NormalPart → Built
sign tools input attributes ps =
    let canonical =
      canonical_of (identifier tools input.brand) (identifier tools input.standard_model) attributes
        ps in
    signed_sku (signature_of tools canonical)
      (build_label tools canonical ps (version_of tools input.version)) canonical
      (if gift_included input.components then codes "赠品或服务未计入组合签名" ∷ [] else [])

-- An error is the reason of a review that the code returns early.
abbrev pub either : Result Text Built → Built
either (ok b) = b
either (err reason) = review_sku reason

unfoldable pub build_compared : TextTools → CombinationInput → Built
build_compared tools input = either (
    normalized_attributes tools input >>= λ attributes.
    (components_of tools input.components >>= λ ps. ok (sign tools input attributes ps)))

abbrev pub build_condition : TextTools → CombinationInput → Option Text → Built
build_condition tools input (some condition) =
    excluded_sku (codes "商品包含" ++ (condition ++ codes "状态，排除比较"))
build_condition tools input none =
    if is_empty (identifier tools input.brand) || is_empty (identifier tools input.standard_model)
    then review_sku (codes "监控品牌或标准型号为空，无法可靠比较")
    else build_compared tools input

abbrev pub build_decided : TextTools → CombinationInput → Option MatchDecision → Built
build_decided tools input (some rejected) = excluded_sku (codes "商品已被产品匹配拒绝")
build_decided tools input none = review_sku (codes "产品匹配尚未形成精确比较结论")
build_decided tools input (some pending) = review_sku (codes "产品匹配尚未形成精确比较结论")
build_decided tools input (some manual) = review_sku (codes "产品匹配尚未形成精确比较结论")
build_decided tools input (some decision) =
    build_condition tools input (excluded_condition tools input.title input.sku_text)

-- `buildSkuCombination`.
unfoldable pub build : TextTools → CombinationInput → Built
build tools input = build_decided tools input input.decision
