-- ===== src/TaskExp/Samples.antt =====
-- A task expression of each form.
use smartlibs.Prelude.{[], ◌∷◌, ◌≡◌, refl, some, none}
use smartlibs.TaskExp.{TaskObj, is_space, parse_task_exp}
use smartlibs.TaskExp.Split.{is_plain}
use smartlibs.TaskExp.Render.{render_task, IsTask}
use smartlibs.TaskExp.RoundTrip.{parse_task_exp-render}

-- `t(c+d)~j(c),k~l`
abbrev task : TaskObj
task = record {
  task_key = b't' ∷ [];
  config = (b'c' ∷ []) ∷ (b'd' ∷ []) ∷ [];
  join = ((b'j' ∷ [], (b'c' ∷ []) ∷ []) ∷ (b'k' ∷ [], []) ∷ []) ∷ ((b'l' ∷ [], []) ∷ []) ∷ [];
}

-- White space around the names and after the plus sign is passed over.
spaced :
    parse_task_exp (b't' ∷ b' ' ∷ b'(' ∷ b'c' ∷ b' ' ∷ b'+' ∷ b' ' ∷ b'd' ∷ b')' ∷ [])
    ≡ some (record { task_key = b't' ∷ []; config = (b'c' ∷ []) ∷ (b'd' ∷ []) ∷ []; join = [] })
unfolding parse_task_exp
spaced = refl

no_method : parse_task_exp (b',' ∷ []) ≡ none
unfolding parse_task_exp
no_method = refl

task-IsTask : IsTask task
unfolding is_plain is_space
task-IsTask = record {
  key = ((refl, refl), ((refl, refl), ((refl, refl), tt)));
  joins = (
    (refl, (((refl, refl), ((refl, refl), tt)), (((refl, refl), tt), tt)), (refl, (refl, tt))),
    ((refl, (((refl, refl), tt), tt), (refl, tt)), tt),
  );
}

parsed_example : parse_task_exp (render_task task) ≡ some task
parsed_example = parse_task_exp-render task task-IsTask
