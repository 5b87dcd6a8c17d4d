-- ===== src/Bag/Fields.antt =====
-- The fields of a bag (survival_kit/bag.c) do not overlap.
use c_survival_kit.Common.{ℕ, ◌+◌, ◌≡◌, Option, some, List, [], ◌∷◌}
use c_survival_kit.Bag.{Layout, reg_field}

-- A field as `SKIT_BAG_REGISTER_FIELD` registers it.
pub record Field : Type 0 where
  pub size : ℕ
  pub type_str : List ℕ
  pub name : List ℕ

-- The registration of fields one after the other: the layout, and the fields' ids.
unfoldable pub register_all : Option Layout → List Field → Option Layout × List ℕ
register_all r [] = (r, [])
register_all r (f ∷ fs) =
    let step = reg_field r f.size f.type_str f.name in
    let rest = register_all (some step.0) fs in (rest.0, step.1 ∷ rest.1)

abbrev pub total : List Field → ℕ
total [] = 0
total (f ∷ fs) = f.size + total fs

abbrev starts : ℕ → List Field → List ℕ
starts o [] = []
starts o (f ∷ fs) = o ∷ starts (o + f.size) fs

-- The layout has the fields side by side.
abbrev Laid : List Field → Layout → Type 0
Laid fs l = (l.field_offsets ≡ starts 0 fs) × (l.bag_size ≡ total fs)
