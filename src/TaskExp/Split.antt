-- ===== src/TaskExp/Split.antt =====
-- The scanner and the strips on plain names and arguments.
use smartlibs.Prelude.{
  ℕ, [], ◌∷◌, ◌++◌, ◌≡◌, refl, ap, ◌∙◌, Bool, true, false, not, ◌||◌, ◌==◌, arith, Eq-nat,
  nat_eq_iff, is_empty, all, contains, append_assoc, append-nil,
}
use smartlibs.Text.{Text}
use smartlibs.TaskExp.{is_space, lstrip, rstrip, cons_kept, strip, scan_char, split_from}

-- A character that is no white space, and none with a meaning of its own in an expression.
unfoldable pub is_plain : ℕ → Bool
is_plain c = not (is_space c || c == b'(' || c == b')' || c == b',' || c == b'+' || c == b'~')

abbrev pub IsName : Text → Type 0
IsName t = (is_empty t ≡ false) × (all is_plain t ≡ true)

pub all-append :
    (p : ℕ → Bool) (s t : Text) → all p s ≡ true → all p t ≡ true → all p (s ++ t) ≡ true
all-append p [] t h k = k
all-append p (c ∷ s) t h k = ground (arith, all-append p s t)

abbrev pub is_solid : ℕ → Bool
is_solid c = not (is_space c)

pub plain-solid : (t : Text) → all is_plain t ≡ true → all is_solid t ≡ true
unfolding is_plain
plain-solid [] h = refl
plain-solid (c ∷ t) h = ground (arith, plain-solid t)

lstrip-solid : (t : Text) → all is_solid t ≡ true → lstrip t ≡ t
unfolding lstrip
lstrip-solid [] h = refl
lstrip-solid (c ∷ t) h = ground arith

rstrip-solid : (t : Text) → all is_solid t ≡ true → rstrip t ≡ t
unfolding rstrip
rstrip-solid [] h = refl
rstrip-solid (c ∷ []) h = ground arith
rstrip-solid (c ∷ d ∷ t) h =
    let rest : rstrip (d ∷ t) ≡ d ∷ t = rstrip-solid (d ∷ t) (ground arith) in ap (cons_kept c) rest

pub strip-solid : (t : Text) → all is_solid t ≡ true → strip t ≡ t
unfolding strip
strip-solid t h = ap lstrip (rstrip-solid t h) ∙ lstrip-solid t h

pub plain-free :
    (c : ℕ) (t : Text) → is_plain c ≡ false → all is_plain t ≡ true → contains c t ≡ false
plain-free c [] p h = refl
plain-free c (x ∷ t) p h = ground (arith, nat_eq_iff c x, plain-free c t p)

scan_char-plain :
    (c : ℕ) (func arg : Text)
    → is_plain c ≡ true
    → scan_char (record { in_arg = false; func = func; arg = arg }) c
      ≡ ([], record { in_arg = false; func = func ++ c ∷ []; arg = arg })
unfolding scan_char is_plain
scan_char-plain c func arg h = ground arith

scan_char-arg :
    (c : ℕ) (func arg : Text)
    → (c == b')') ≡ false
    → scan_char (record { in_arg = true; func = func; arg = arg }) c
      ≡ ([], record { in_arg = true; func = func; arg = arg ++ c ∷ [] })
unfolding scan_char
scan_char-arg c func arg h = ground arith

-- The scanner takes a plain name into `func`.
pub scan_name :
    (name func arg rest : Text)
    → all is_plain name ≡ true
    → split_from (record { in_arg = false; func = func; arg = arg }) (name ++ rest)
      ≡ split_from (record { in_arg = false; func = func ++ name; arg = arg }) rest
unfolding split_from
scan_name [] func arg rest h = rw append-nil
scan_name (c ∷ name) func arg rest h =
    ap (λ r. r.0 ++ split_from r.1 (name ++ rest)) (scan_char-plain c func arg (ground arith))
    ∙ (scan_name name (func ++ c ∷ []) arg rest (ground arith)
        ∙ ap (λ t. split_from (record { in_arg = false; func = t; arg = arg }) rest)
            (append_assoc func (c ∷ []) name))

-- Inside parentheses it takes everything up to the closing one into `arg`.
pub scan_arg :
    (text func arg rest : Text)
    → contains b')' text ≡ false
    → split_from (record { in_arg = true; func = func; arg = arg }) (text ++ b')' ∷ rest)
      ≡ split_from (record { in_arg = false; func = func; arg = arg ++ text }) rest
unfolding split_from
scan_arg [] func arg rest h = unfold scan_char in rw append-nil
scan_arg (c ∷ text) func arg rest h =
    ap (λ r. r.0 ++ split_from r.1 (text ++ b')' ∷ rest))
      (scan_char-arg c func arg (ground (arith, nat_eq_iff b')' c)))
    ∙ (scan_arg text func (arg ++ c ∷ []) rest (ground (arith, nat_eq_iff b')' c))
        ∙ ap (λ t. split_from (record { in_arg = false; func = func; arg = t }) rest)
            (append_assoc arg (c ∷ []) text))
