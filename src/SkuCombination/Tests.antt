-- ===== src/SkuCombination/Tests.antt =====
-- A recorder with a cable, in either order.
use mathlib.Core.List.{Permᴰ}
use price_monitor.Prelude.{
  true, none, some, [], ◌∷◌, ◌≡◌, refl, Text, codes, text_eq, get, put, sort, insert, compare_text,
}
use price_monitor.Money.{natural}
use price_monitor.Report.{Role, core, paid_accessory, bare}
use price_monitor.SkuCombination
use price_monitor.SkuCombination.{Component, CombinationInput, Canonical, TextTools}
use price_monitor.SkuCombination.Build
use price_monitor.SkuCombination.Build.{build}
use price_monitor.SkuCombination.Laws.{with_components, signed_form, build-Permᴰ}

abbrev plain : TextTools
plain = record {
  normalize_text = λ t. t;
  nfkc = λ t. t;
  squeeze = λ t. t;
  digits = λ n. n ∷ [];
  seal = λ c. Canonical.model c;
}

abbrev component : Role → Text → Component
component role model = record {
  role = role;
  accessory_type = codes "kind";
  brand = none;
  model_or_name = model;
  quantity = natural 1;
}

abbrev recorder : Component
recorder = component core (codes "rec")

abbrev cable : Component
cable = component paid_accessory (codes "usb")

abbrev input : CombinationInput
input = record {
  decision = some bare;
  brand = codes "b";
  standard_model = codes "m";
  version = none;
  color_comparable = true;
  title = codes "title";
  sku_text = codes "sku";
  attributes = (codes "颜色", codes "red") ∷ (codes "版本", codes "two") ∷ [];
  components = none;
}

abbrev expected : Text × Canonical
expected = (
  codes "sku-combination-v1:m",
  record {
    brand = codes "b";
    model = codes "m";
    cores = record { model = codes "rec"; quantity = 1 } ∷ [];
    accessories = record { model = codes "usb"; quantity = 1 } ∷ [];
    materials = (codes "版本", codes "two") ∷ [];
    color = some (codes "red");
  },
)

unfoldable combination : Unit {0}
unfolding build SkuCombination.identifier SkuCombination.includes SkuCombination.compare_part
    SkuCombination.compare_attribute SkuCombination.excluded_condition Build.normalized_entries
    Build.material_entries Build.materials_from Build.normalized_attributes Build.part_of
    Build.parts_of Build.normalized_components Build.parts_with Build.canonical_of Build.build_label
    Build.signature_of Build.sign Build.build_compared text_eq get put sort insert compare_text
combination = tt

signed_combination :
    signed_form (build plain (with_components input (recorder ∷ cable ∷ []))) ≡ some expected
unfolding combination
signed_combination = refl

swapped : Permᴰ (recorder ∷ cable ∷ []) (cable ∷ recorder ∷ [])
swapped = Permᴰ.swap refl refl

build-Permᴰ_example :
    signed_form (build plain (with_components input (cable ∷ recorder ∷ []))) ≡ some expected
build-Permᴰ_example = build-Permᴰ plain input swapped signed_combination
