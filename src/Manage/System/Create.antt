-- ===== src/Manage/System/Create.antt =====
-- A task is created, and its job queued, once.
use smartlibs.Prelude.{
  ℕ, [], ◌∷◌, ◌≡◌, refl, ap, ◌∙◌, Option, none, some, Eq-nat, Eq-list, list_eq_iff, arith,
}
use smartlibs.Text.{Text}
use smartlibs.Dict.{Dict, get, set, get-set}
use smartlibs.Manage.{TaskInfo, RunOpts, new_task, or_default}
use smartlibs.Manage.System.{Manager, get_task_dict, create_in, create_task}

get-set_same : {V : Type 0} (m : Dict Text V) (k : Text) (v : V) → get (set m k v) k ≡ some v
get-set_same m k v = ground (arith, get-set m k k v, list_eq_iff k k)

module _ {O R E H : Type 0} where
  create_in-found :
      (m : Manager O R E H) (ns id : Text) (fresh : TaskInfo O R E H)
      (o : Option (TaskInfo O R E H))
      → get (get_task_dict m ns) id ≡ o
      → get (get_task_dict (create_in m ns id fresh o).0 ns) id
        ≡ some ((create_in m ns id fresh o).1)
  unfolding create_in get_task_dict
  create_in-found m ns id fresh (some i) e = e
  create_in-found m ns id fresh none e =
      ap (λ d. get (or_default d []) id) (get-set_same m.task_dicts ns _)
      ∙ get-set_same (or_default (get m.task_dicts ns) []) id fresh

  create_in-some :
      (m : Manager O R E H) (ns id : Text) (fresh i : TaskInfo O R E H)
      (o : Option (TaskInfo O R E H))
      → o ≡ some i
      → create_in m ns id fresh o ≡ (m, i)
  unfolding create_in
  create_in-some m ns id fresh i none e = cc
  create_in-some m ns id fresh i (some j) e = let same : j ≡ i = cc in ap (λ t. (m, t)) same

  -- A task that is created again under its identifier, with whatever other arguments, is answered with
  -- the task of the first call, and nothing is written or queued; the first call has put it into the
  -- dictionary.
  pub create_task-again :
      (m : Manager O R E H) (c : ℕ) (cs ns mod1 name1 uuid1 mod2 name2 uuid2 : Text)
      (opts1 opts2 : RunOpts O) (hook1 hook2 : Option H) (now1 now2 : ℕ)
      → (get
            (get_task_dict (create_task m (c ∷ cs) ns mod1 name1 opts1 hook1 now1 uuid1).0 ns)
            (c ∷ cs)
          ≡ some ((create_task m (c ∷ cs) ns mod1 name1 opts1 hook1 now1 uuid1).1))
        × (create_task
              (create_task m (c ∷ cs) ns mod1 name1 opts1 hook1 now1 uuid1).0
              (c ∷ cs)
              ns
              mod2
              name2
              opts2
              hook2
              now2
              uuid2
            ≡ create_task m (c ∷ cs) ns mod1 name1 opts1 hook1 now1 uuid1)
  unfolding create_task
  create_task-again m c cs ns mod1 name1 uuid1 mod2 name2 uuid2 opts1 opts2 hook1 hook2 now1 now2 =
      let found =
        create_in-found m ns (c ∷ cs) (new_task (c ∷ cs) ns mod1 name1 opts1 hook1 now1)
          (get (get_task_dict m ns) (c ∷ cs)) refl in
      (found, create_in-some _ ns (c ∷ cs) _ _ _ found)
