-- ===== src/Uni/Setters.antt =====
-- src/modules/uni.cpp, outputSetters: the clients that have set outputs of a universal module.
pub mod Laws
use mtb_daemon.Base.{ℕ, Bool, Option, none, some, List, [], ◌∷◌, ◌++◌, if◌then◌else◌}
use mtb_daemon.Server.{member}
use mtb_daemon.Uni.{IoKind, IoModule}

-- The loop over whoSetOutput.
unfoldable pub setters_among : List (Option ℕ) → List ℕ → List ℕ
setters_among [] result = result
setters_among (none ∷ whos) result = setters_among whos result
setters_among (some c ∷ whos) result =
    setters_among whos (if member c result then result else result ++ c ∷ [])

unfoldable pub uni_output_setters : {k : IoKind} → IoModule k → List ℕ
uni_output_setters s = setters_among s.who_set_output []
