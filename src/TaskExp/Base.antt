-- ===== src/TaskExp/Base.antt =====
-- The base key of a task expression is the task's key.
use smartlibs.Prelude.{
  ℕ, suc, ◌+◌, ◌<◌, List, [], ◌∷◌, ◌++◌, ◌≡◌, refl, sym, ap, map, Bool, true, false, ◌||◌, Option,
  none, some, ◌==◌, arith, if◌then◌else◌, leb, Eq-nat, nat_eq_iff, is_empty, contains, append_assoc,
  append-nil, length, length-append, take,
}
use smartlibs.Text.{Text, join}
use smartlibs.TaskExp.{is_space, TaskObj, find_from, cut_at, base_task_key}
use smartlibs.TaskExp.Split.{is_plain, IsName, plain-free}
use smartlibs.TaskExp.Render.{render_method, render_methods, render_task, IsTask}

find_from-append :
    (c i k : ℕ) (name rest : Text)
    → contains c name ≡ false
    → k ≡ length name + i
    → find_from c i (name ++ rest) ≡ find_from c k rest
unfolding find_from
find_from-append c i k [] rest h e = ap (λ j. find_from c j rest) (omega arith)
find_from-append c i k (x ∷ name) rest h e =
    let later : find_from c (suc i) (name ++ rest) ≡ find_from c k rest =
      find_from-append c (suc i) k name rest (ground arith) (omega arith) in
    ground (arith, later)

-- Nothing is found before the place where the search begins.
abbrev at_least : ℕ → Option ℕ → Bool
at_least n none = true
at_least n (some j) = leb n j

find_from-above : (c i : ℕ) (t : Text) → at_least i (find_from c i t) ≡ true
unfolding find_from
find_from-above c i [] = refl
find_from-above c i (x ∷ t) =
    ground (arith, later (find_from c (suc i) t) (find_from-above c (suc i) t))
  where
    later : (o : Option ℕ) → at_least (suc i) o ≡ true → at_least i o ≡ true
    later none h = refl
    later (some j) h = ground arith

-- What is behind the key of a task: nothing, or a character that ends the key.
abbrev ends_key : Text → Bool
ends_key [] = true
ends_key (c ∷ t) = c == b'~' || c == b'('

cut_end :
    (n c : ℕ) (a b : Option ℕ) (more : ℕ)
    → (c == b'~' || c == b'(') ≡ true
    → 0 < n
    → at_least (suc n) a ≡ true
    → at_least (suc n) b ≡ true
    → cut_at
        (if c == b'(' then some n else a)
        (cut_at (if c == b'~' then some n else b) (n + suc more))
      ≡ n
cut_end n c none none more h pos p q = ground (arith, nat_eq_iff c b'~', nat_eq_iff c b'(')
cut_end n c none (some j) more h pos p q = ground (arith, nat_eq_iff c b'~', nat_eq_iff c b'(')
cut_end n c (some i) none more h pos p q = ground (arith, nat_eq_iff c b'~', nat_eq_iff c b'(')
cut_end n c (some i) (some j) more h pos p q = ground (arith, nat_eq_iff c b'~', nat_eq_iff c b'(')

-- Both cuts come to where the name ends.
cut_both :
    (n : ℕ) (rest : Text)
    → ends_key rest ≡ true
    → 0 < n
    → cut_at (find_from b'(' n rest) (cut_at (find_from b'~' n rest) (n + length rest)) ≡ n
unfolding find_from
cut_both n [] h pos = omega arith
cut_both n (c ∷ t) h pos =
    cut_end n c (find_from b'(' (suc n) t) (find_from b'~' (suc n) t) (length t) h pos
      (find_from-above b'(' (suc n) t) (find_from-above b'~' (suc n) t)

take-name : (name rest : Text) → take (length name) (name ++ rest) ≡ name
take-name [] rest = refl
take-name (c ∷ name) rest = ap (λ t. c ∷ t) (take-name name rest)

named : (name : Text) → is_empty name ≡ false → 0 < length name
named [] h = cc
named (c ∷ name) h = omega arith

base_task_key-append :
    (name rest : Text) → IsName name → ends_key rest ≡ true → base_task_key (name ++ rest) ≡ name
unfolding base_task_key is_plain is_space
base_task_key-append name rest h e =
    let size : length name ≡ length name + 0 = omega arith in
    let free_tilde =
      find_from-append b'~' 0 (length name) name rest (plain-free b'~' name refl h.1) size in
    let free_open =
      find_from-append b'(' 0 (length name) name rest (plain-free b'(' name refl h.1) size in
    rw
      (
        free_tilde,
        free_open,
        length-append name rest,
        cut_both (length name) rest e (named name h.0),
      )
      (take-name name rest)

-- A task expression is the key and what may stand behind it.
render_task-ends :
    (t : TaskObj) → (rest : Text) × (render_task t ≡ t.task_key ++ rest) × (ends_key rest ≡ true)
unfolding join
render_task-ends t = behind t.task_key t.config (map render_methods t.join)
  where
    behind :
        (key : Text) (config : List Text) (joins : List Text)
        → (rest : Text) × (join b'~' (render_method (key, config) ∷ joins) ≡ key ++ rest)
          × (ends_key rest ≡ true)
    behind key [] [] = ([], sym (append-nil key), refl)
    behind key [] (j ∷ joins) = (b'~' ∷ join b'~' (j ∷ joins), refl, refl)
    behind key (c ∷ cs) [] = (b'(' ∷ (join b'+' (c ∷ cs) ++ b')' ∷ []), refl, refl)
    behind key (c ∷ cs) (j ∷ joins) = (
      b'(' ∷ ((join b'+' (c ∷ cs) ++ b')' ∷ []) ++ b'~' ∷ join b'~' (j ∷ joins)),
      append_assoc key (b'(' ∷ (join b'+' (c ∷ cs) ++ b')' ∷ [])) (b'~' ∷ join b'~' (j ∷ joins)),
      refl,
    )

-- The base key of a task that is written out as an expression is the key of that task.
pub base_task_key-render : (t : TaskObj) → IsTask t → base_task_key (render_task t) ≡ t.task_key
base_task_key-render t h =
    let (rest, e, ends) = render_task-ends t in
    rw e (base_task_key-append t.task_key rest h.key.0 ends)
