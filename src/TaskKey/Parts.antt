-- ===== src/TaskKey/Parts.antt =====
-- A task key is made of its parts, and the task that is found is that of its class key.
use smartlibs.Prelude.{
  ℕ, [], ◌∷◌, ◌++◌, ◌≡◌, refl, sym, ap, ◌∙◌, ◌⊎◌, inl, inr, Bool, true, ◌&&◌, ◌||◌, Option, none,
  some, ◌==◌, arith, if◌then◌else◌, Eq-nat, Eq-list, nat_eq_iff, append_assoc, append-nil,
  Bool-cases, Option-cases,
}
use smartlibs.Text.{Text, rsplit_once}
use smartlibs.TaskFinder.{Finder}
use smartlibs.TaskKey.{
  cons_first, split_ext, or_none, is_tail, find_tail, parse_func_name_tail, KeyInfo, func_key,
  find_task_info, has_name, by_last_dot, plain_key, by_ext, parse_task_key_info,
}

abbrev pub ext_mark : Text
ext_mark = b'.' ∷ b'@' ∷ []

cons_first-eq-some :
    (c : ℕ) (o : Option (Text × Text)) {a b : Text}
    → cons_first c o ≡ some (a, b)
    → (p : Text) × (a ≡ c ∷ p) × (o ≡ some (p, b))
cons_first-eq-some c none h = absurd (cc h)
cons_first-eq-some c (some (p, q)) h = (p, ground (arith, h), ground (arith, h))

split_ext-parts : (t a b : Text) → split_ext t ≡ some (a, b) → a ++ (ext_mark ++ b) ≡ t
unfolding split_ext
split_ext-parts [] a b h = absurd (cc h)
split_ext-parts (c ∷ []) a b h = absurd (cc h)
split_ext-parts (c ∷ d ∷ t) a b h = elim (Bool-cases (c == b'.' && d == b'@')) [
  | inl e ↦ ground (arith, e, h, nat_eq_iff c b'.', nat_eq_iff d b'@')
  | inr e ↦
      (let (p, first, rest) = cons_first-eq-some c (split_ext (d ∷ t)) (rw (e, split_ext) at h) in
        rw first (ap (λ l. c ∷ l) (split_ext-parts (d ∷ t) p b rest)))
]

rsplit_once-parts : (c : ℕ) (t a b : Text) → rsplit_once c t ≡ some (a, b) → a ++ c ∷ b ≡ t
unfolding rsplit_once
rsplit_once-parts c [] a b h = absurd (cc h)
rsplit_once-parts c (x ∷ t) a b h = elim (Option-cases (rsplit_once c t)) [
  | inl e ↦ ground (arith, e, h, nat_eq_iff x c)
  | inr ((p, q), e) ↦ ground (arith, e, h, rsplit_once-parts c t p q e)
]

find_tail-parts :
    (is_digit : ℕ → Bool) (t a b : Text) → find_tail is_digit t ≡ some (a, b) → a ++ b ≡ t
unfolding find_tail
find_tail-parts is_digit [] a b h = absurd (cc h)
find_tail-parts is_digit (c ∷ t) a b h = elim (Bool-cases (is_tail is_digit (c ∷ t))) [
  | inl e ↦ ground (arith, e, h)
  | inr e ↦
      (let (p, first, rest) =
          cons_first-eq-some c (find_tail is_digit t) (rw (e, find_tail) at h) in
        rw first (ap (λ l. c ∷ l) (find_tail-parts is_digit t p b rest)))
]

-- What is cut off a function key is its tail.
parse_func_name_tail-parts :
    (is_digit : ℕ → Bool) (t : Text)
    → (parse_func_name_tail is_digit t).0 ++ or_none (parse_func_name_tail is_digit t).1 ≡ t
unfolding parse_func_name_tail
parse_func_name_tail-parts is_digit t = elim (Option-cases (find_tail is_digit t)) [
  | inl e ↦ rw (e, parse_func_name_tail) (append-nil t)
  | inr ((a, b), e) ↦ rw (e, parse_func_name_tail) (find_tail-parts is_digit t a b e)
]

-- The task key that the parts stand for.
abbrev pub separator : {D : Type 0} → KeyInfo D → Text
separator info =
    if info.is_ext then ext_mark else elim info.func_name [ none ↦ [] | some name ↦ b'.' ∷ [] ]

abbrev pub render : {D : Type 0} → KeyInfo D → Text
render info = info.cls_key ++ (separator info ++ func_key info)

module _ {D : Type 0} (f : Finder D) where
  by_last_dot-render :
      (base : Text) (tail : Option Text) (o : Option (Text × Text))
      → rsplit_once b'.' base ≡ o
      → render (by_last_dot f base tail o) ≡ base ++ or_none tail
  unfolding by_last_dot func_key
  by_last_dot-render base tail none h = refl
  by_last_dot-render base tail (some (cls_key, name)) h =
      let parts = rsplit_once-parts b'.' base cls_key name h in
      let named : cls_key ++ (b'.' ∷ (name ++ or_none tail)) ≡ base ++ or_none tail =
        sym (append_assoc cls_key (b'.' ∷ name) (or_none tail))
        ∙ ap (λ l. l ++ or_none tail) parts in
      elim (Bool-cases (has_name f (find_task_info f cls_key) || base == cls_key)) [
        | inl e ↦ rw (e, by_last_dot, render) named
        | inr e ↦ elim (Bool-cases (has_name f (find_task_info f base))) [
          | inl g ↦ rw (e, g, by_last_dot, render) refl
          | inr g ↦ rw (e, g, by_last_dot, render) named
        ]
      ]

  by_last_dot-found :
      (base : Text) (tail : Option Text) (o : Option (Text × Text))
      → has_name f (by_last_dot f base tail o).task ≡ true
      → find_task_info f (by_last_dot f base tail o).cls_key ≡ (by_last_dot f base tail o).task
  unfolding by_last_dot
  by_last_dot-found base tail none h = refl
  by_last_dot-found base tail (some (cls_key, name)) h =
      elim (Bool-cases (has_name f (find_task_info f cls_key) || base == cls_key)) [
        | inl e ↦ rw (e, by_last_dot) refl
        | inr e ↦ elim (Bool-cases (has_name f (find_task_info f base))) [
          | inl g ↦ rw (e, g, by_last_dot) refl
          | inr g ↦ let bad = rw (e, g, by_last_dot) at h in absurd (cc (bad, g))
        ]
      ]

  module _ (is_digit : ℕ → Bool) where
    plain_key-render : (task_key : Text) → render (plain_key f is_digit task_key) ≡ task_key
    unfolding plain_key
    plain_key-render task_key =
        let (base, tail) = parse_func_name_tail is_digit task_key in
        by_last_dot-render base tail (rsplit_once b'.' base) refl
        ∙ parse_func_name_tail-parts is_digit task_key

    plain_key-found :
        (task_key : Text)
        → has_name f (plain_key f is_digit task_key).task ≡ true
        → find_task_info f (plain_key f is_digit task_key).cls_key
          ≡ (plain_key f is_digit task_key).task
    unfolding plain_key
    plain_key-found task_key h =
        let (base, tail) = parse_func_name_tail is_digit task_key in
        by_last_dot-found base tail (rsplit_once b'.' base) h

    -- What is said of the parts of a key.
    abbrev IsParsed : Text → KeyInfo D → Type 0
    IsParsed task_key info =
        ((render info ≡ task_key) ⊎ (render info ++ ext_mark ≡ task_key))
        × (has_name f info.task ≡ true → find_task_info f info.cls_key ≡ info.task)

    by_ext-IsParsed :
        (task_key : Text) (o : Option (Text × Text))
        → split_ext task_key ≡ o
        → IsParsed task_key (by_ext f is_digit task_key o)
    unfolding func_key
    by_ext-IsParsed task_key none e = (inl (plain_key-render task_key), plain_key-found task_key)
    by_ext-IsParsed task_key (some (base, [])) e = (
      inr (ap (λ l. l ++ ext_mark) (plain_key-render base) ∙ split_ext-parts task_key base [] e),
      plain_key-found base,
    )
    by_ext-IsParsed task_key (some (base, c ∷ ext)) e = (
      inl (
          ap (λ l. base ++ (ext_mark ++ l)) (parse_func_name_tail-parts is_digit (c ∷ ext))
          ∙ split_ext-parts task_key base (c ∷ ext) e),
      λ h. refl,
    )

    -- Nothing of a task key is lost but a `.@` at its end: the class key, the function and the tail
    -- make up the key again. And where a task with a name is found, it is the one that is found under
    -- the class key.
    pub parse_task_key_info-render :
        (task_key : Text)
        → let info = parse_task_key_info f is_digit task_key in
          ((render info ≡ task_key) ⊎ (render info ++ ext_mark ≡ task_key))
          × (has_name f info.task ≡ true → find_task_info f info.cls_key ≡ info.task)
    unfolding parse_task_key_info
    parse_task_key_info-render task_key = by_ext-IsParsed task_key (split_ext task_key) refl
