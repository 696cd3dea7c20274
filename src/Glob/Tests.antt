-- ===== src/Glob/Tests.antt =====
-- Runs of the matcher.
use autonomy_harbor.Base.{◌≡◌, refl, true, false}
use autonomy_harbor.Glob.Defs.{fnmatchcase}

path_fits :
    (fnmatchcase "approved/a/b.txt" "approved/*" ≡ true)
    × (fnmatchcase "runtime.gate.x" "runtime.*" ≡ true)
    × (fnmatchcase "Approved/x" "approved/*" ≡ false)
    × (fnmatchcase "v1" "v[0-9]" ≡ true)
    × (fnmatchcase "vx" "v[!0-9]" ≡ true)
    × (fnmatchcase "v]" "v[]a-c]" ≡ true)
    × (fnmatchcase "v[" "v[" ≡ true)
    × (fnmatchcase "q" "[z-a!]" ≡ true)
unfolding fnmatchcase
path_fits = (refl, refl, refl, refl, refl, refl, refl, refl)
