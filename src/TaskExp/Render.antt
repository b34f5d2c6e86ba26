-- ===== src/TaskExp/Render.antt =====
-- How a task is written as an expression, and the argument text of its methods.
use smartlibs.Prelude.{
  ℕ, List, [], ◌∷◌, ◌++◌, ◌≡◌, refl, map, Bool, true, false, not, ◌||◌, ◌==◌, arith, Eq-nat,
  Eq-list, nat_eq_iff, is_empty, all, All, contains,
}
use smartlibs.Text.{Text, join, split_on, split_once, split_on-join, split_once-free, non_empty}
use smartlibs.Dict.{keys}
use smartlibs.TaskExp.{is_space, strip, lstrip, rstrip, bind_config, Methods, TaskObj}
use smartlibs.TaskExp.Split.{
  is_plain, is_solid, IsName, all-append, plain-solid, strip-solid, plain-free,
}

-- How a method is written: its name, and its configurations in parentheses.
abbrev pub render_method : Text × List Text → Text
render_method (name, []) = name
render_method (name, c ∷ cs) = name ++ (b'(' ∷ (join b'+' (c ∷ cs) ++ (b')' ∷ [])))

abbrev pub render_methods : Methods → Text
render_methods ms = join b',' (map render_method ms)

abbrev pub render_task : TaskObj → Text
render_task t = join b'~' (render_method (t.task_key, t.config) ∷ map render_methods t.join)

abbrev pub IsMethod : Text × List Text → Type 0
IsMethod (name, configs) = IsName name × All IsName configs

-- No method has the name of an earlier one.
abbrev pub Fresh : Methods → Methods → Type 0
Fresh seen [] = Unit
Fresh seen (m ∷ ms) = (contains m.0 (keys seen) ≡ false) × Fresh (seen ++ m ∷ []) ms

abbrev pub IsMethods : Methods → Type 0
IsMethods ms = (is_empty ms ≡ false) × All IsMethod ms × Fresh [] ms

pub record IsTask (t : TaskObj) : Type 0 where
  pub key : IsMethod (t.task_key, t.config)
  pub joins : All IsMethods t.join

-- The characters of joined plain names.
all-join :
    (p : ℕ → Bool) (c : ℕ) (parts : List Text)
    → p c ≡ true
    → All (λ t. all p t ≡ true) parts
    → all p (join c parts) ≡ true
unfolding join
all-join p c [] sep h = refl
all-join p c (t ∷ []) sep h = h.0
all-join p c (t ∷ u ∷ parts) sep h =
    all-append p t (c ∷ join c (u ∷ parts)) h.0 (ground (arith, all-join p c (u ∷ parts) sep h.1))

-- The argument text of a method: all of its characters are plain or plus signs.
abbrev pub in_args : ℕ → Bool
in_args c = is_plain c || c == b'+'

plain-in_args : (t : Text) → all is_plain t ≡ true → all in_args t ≡ true
plain-in_args [] h = refl
plain-in_args (c ∷ t) h = ground (arith, plain-in_args t)

names-in_args : (cs : List Text) → All IsName cs → All (λ t. all in_args t ≡ true) cs
names-in_args [] h = tt
names-in_args (c ∷ cs) h = (plain-in_args c h.0.1, names-in_args cs h.1)

pub args : (cs : List Text) → All IsName cs → all in_args (join b'+' cs) ≡ true
unfolding is_plain is_space
args cs h = all-join in_args b'+' cs refl (names-in_args cs h)

pub args-free : (c : ℕ) (t : Text) → in_args c ≡ false → all in_args t ≡ true → contains c t ≡ false
args-free c [] p h = refl
args-free c (x ∷ t) p h = ground (arith, nat_eq_iff c x, args-free c t p)

plus_solid : is_space b'+' ≡ false
unfolding is_space
plus_solid = refl

in_args-solid : (c : ℕ) → in_args c ≡ true → is_space c ≡ false
unfolding is_plain
in_args-solid c h = ground (arith, nat_eq_iff c b'+', plus_solid)

pub args-solid : (t : Text) → all in_args t ≡ true → all is_solid t ≡ true
args-solid [] h = refl
args-solid (c ∷ t) h = ground (arith, in_args-solid c, args-solid t)

names-plus_free : (cs : List Text) → All IsName cs → all (λ q. not (contains b'+' q)) cs ≡ true
unfolding is_plain is_space
names-plus_free [] h = refl
names-plus_free (c ∷ cs) h = ground (arith, plain-free b'+' c refl h.0.1, names-plus_free cs h.1)

strip_names : (cs : List Text) → All IsName cs → non_empty (map strip cs) ≡ cs
strip_names [] h = refl
strip_names (c ∷ cs) h =
    rw (strip-solid c (plain-solid c h.0.1)) (ground (arith, strip_names cs h.1))

comma_outside : in_args b',' ≡ false
unfolding is_plain is_space
comma_outside = refl

pub close_outside : in_args b')' ≡ false
unfolding is_plain is_space
close_outside = refl

pub bind_config-join : (cs : List Text) → All IsName cs → bind_config (join b'+' cs) ≡ cs
unfolding bind_config
bind_config-join [] h = unfold join split_once split_on strip lstrip rstrip in refl
bind_config-join (c ∷ cs) h =
    rw (split_once-free b',' _ (args-free b',' _ comma_outside (args (c ∷ cs) h)))
      (rw (split_on-join b'+' c cs (names-plus_free (c ∷ cs) h)) (strip_names (c ∷ cs) h))
