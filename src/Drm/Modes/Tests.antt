-- ===== src/Drm/Modes/Tests.antt =====
-- Examples for the theorems on the mode table of drm_linux.c.
use wwn_iland.Common.{[]}
use wwn_iland.Drm.Modes.{Modes}

abbrev no_modes : Modes
no_modes = record { modes = []; pref_w = 0; pref_h = 0; pref_refresh = 0 }
