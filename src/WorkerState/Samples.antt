-- ===== src/WorkerState/Samples.antt =====
-- A counter that goes from none to 1 and 2.
use smartlibs.Prelude.{[], ◌∷◌, ◌≡◌, refl, none}
use smartlibs.Text.{Text}
use smartlibs.Dict.{get, set}
use smartlibs.WorkerState.{WorkerState, incr, get_state, set_state}

abbrev key : Text
key = b'k' ∷ []

abbrev fresh : WorkerState
fresh = record { state = none; keys = [] }

counted : (incr (incr fresh key 0).0 key 0).1 ≡ 2
unfolding incr get_state set_state get set
counted = refl
