-- ===== src/Bag/Tests.antt =====
-- A bag with fields of two and of one character.
use c_survival_kit.Common.{none, some, [], ◌∷◌}
use c_survival_kit.Bag.{Layout, reg_field}
use c_survival_kit.Bag.Fields.{Field}

abbrev wide : Field
wide = record { size = 2; type_str = []; name = 120 ∷ [] }

abbrev slim : Field
slim = record { size = 1; type_str = []; name = 121 ∷ [] }

abbrev two_fields : Layout
two_fields = (reg_field (some (reg_field none 2 [] (120 ∷ [])).0) 1 [] (121 ∷ [])).0
