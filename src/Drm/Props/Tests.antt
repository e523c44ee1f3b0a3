-- ===== src/Drm/Props/Tests.antt =====
-- Examples for the theorems on the properties of drm_linux.c.
use wwn_iland.Common.{[], ◌∷◌}
use wwn_iland.Drm.Props.{ObjProps}

abbrev one_value : ObjProps
one_value = record { obj_id = 1; obj_type = 5; vals = (7, 3) ∷ [] }
