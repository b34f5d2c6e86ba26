-- ===== src/KeyPath/Relative.antt =====
-- What a relative path reaches, and that the two resolvers agree.
use smartlibs.Prelude.{
  ℕ, zero, suc, ◌-◌, List, [], ◌∷◌, ◌++◌, ◌≡◌, ◌⊎◌, inl, inr, refl, ap, ◌∙◌, sym, Option, none,
  some, Bool, true, false, not, ◌==◌, Eq-nat, nat_eq_iff, Eq-list, length, length-append,
  append-nil, take, replicate, all, is_empty, contains, arith, ◌&&◌,
}
use smartlibs.Text.{Text, split_on, join, split_on-join, join-split_on, split_on-cons}
use smartlibs.KeyPath.{
  dot, leading_dots, extend_key_path, resolve_in, resolve_key_path, resolve_parts,
  resolve_dotted_path,
}

-- A text that does not begin with a dot.
abbrev pub starts_plain : Text → Bool
starts_plain [] = true
starts_plain (c ∷ cs) = not (c == dot)

leading_dots-replicate :
    (n : ℕ) (rest : Text)
    → starts_plain rest ≡ true
    → leading_dots (replicate n dot ++ rest) ≡ (n, rest)
unfolding leading_dots
leading_dots-replicate zero [] h = refl
leading_dots-replicate zero (c ∷ cs) h = ground arith
leading_dots-replicate (suc n) rest h = ground (arith, leading_dots-replicate n rest h)

take-length : (xs ys : List Text) → take (length xs) (xs ++ ys) ≡ xs
take-length [] ys = refl
take-length (x ∷ xs) ys = ap (λ l. x ∷ l) (take-length xs ys)

take_prefix :
    (n : ℕ) (xs ys : List Text) → n ≡ length ys → take (length (xs ++ ys) - n) (xs ++ ys) ≡ xs
take_prefix n xs ys e =
    let size : length (xs ++ ys) - n ≡ length xs = omega (arith, length-append xs ys) in
    rw size (take-length xs ys)

-- A name that a path is made of: not empty, and without a dot.
abbrev pub is_key : Text → Bool
is_key t = not (is_empty t) && not (contains dot t)

-- The relative path from inside the context `up ++ down` to what the keys name below `up`.
abbrev pub relative : List Text → List Text → Text
relative down names = replicate (suc (length down)) dot ++ join dot names

keys-plain : (names : List Text) → all is_key names ≡ true → starts_plain (join dot names) ≡ true
unfolding join
keys-plain [] h = refl
keys-plain ([] ∷ names) h = cc
keys-plain ((c ∷ cs) ∷ []) h = ground (arith, nat_eq_iff c dot, nat_eq_iff dot c)
keys-plain ((c ∷ cs) ∷ q ∷ names) h = ground (arith, nat_eq_iff c dot, nat_eq_iff dot c)

keys-free :
    (names : List Text) → all is_key names ≡ true → all (λ q. not (contains dot q)) names ≡ true
keys-free [] h = refl
keys-free (p ∷ names) h = ground (arith, keys-free names)

-- A key path that begins with a character is not empty.
extend_join :
    (path : List Text) (c : ℕ) (cs : Text) (names : List Text)
    → split_on dot (join dot ((c ∷ cs) ∷ names)) ≡ (c ∷ cs) ∷ names
    → extend_key_path path (join dot ((c ∷ cs) ∷ names)) ≡ path ++ (c ∷ cs) ∷ names
unfolding join
extend_join path c cs [] e = ap (λ l. path ++ l) e
extend_join path c cs (q ∷ names) e = ap (λ l. path ++ l) e

extend_keys :
    (path names : List Text)
    → all is_key names ≡ true
    → extend_key_path path (join dot names) ≡ path ++ names
unfolding join
extend_keys path [] h = sym (append-nil path)
extend_keys path ([] ∷ names) h = cc
extend_keys path ((c ∷ cs) ∷ names) h =
    extend_join path c cs names (split_on-join dot (c ∷ cs) names (keys-free ((c ∷ cs) ∷ names) h))

resolve_in-relative :
    (up down names : List Text)
    → all is_key names ≡ true
    → resolve_in (up ++ down) (suc (length down), join dot names) ≡ some (up ++ names)
unfolding resolve_in
resolve_in-relative up down names h =
    let kept = take_prefix (length down) up down refl in
    ground (arith, kept, length-append up down, extend_keys up names h)

resolve_key_path-dots :
    (context : List Text) (t : Text)
    → is_empty context ≡ false
    → is_empty t ≡ false
    → resolve_key_path (dot ∷ t) context ≡ resolve_in context (leading_dots (dot ∷ t))
unfolding resolve_key_path
resolve_key_path-dots [] t h k = cc
resolve_key_path-dots (p ∷ ps) [] h k = cc
resolve_key_path-dots (p ∷ ps) (c ∷ cs) h k = refl

not_empty :
    (down names : List Text)
    → all is_key names ≡ true
    → (is_empty (replicate (length down) dot ++ join dot names) ≡ false)
      ⊎ ((down ≡ []) × (names ≡ []))
unfolding join
not_empty (d ∷ down) names h = inl refl
not_empty [] [] h = inr (refl, refl)
not_empty [] ([] ∷ names) h = cc
not_empty [] ((c ∷ cs) ∷ []) h = inl refl
not_empty [] ((c ∷ cs) ∷ q ∷ names) h = inl refl

-- The path "." is the context itself.
resolve_here :
    (context : List Text)
    → is_empty context ≡ false
    → resolve_key_path (dot ∷ []) context ≡ some context
unfolding resolve_key_path
resolve_here [] h = cc
resolve_here (p ∷ ps) h = refl

here : relative [] [] ≡ dot ∷ []
unfolding join
here = refl

-- A path with one dot more than there are context names to leave, and then key names, resolves to
-- those names below the context names that stay. The context has a name, and the key names have no
-- dot and are not empty.
pub resolve_key_path-relative :
    (up down names : List Text)
    → is_empty (up ++ down) ≡ false
    → all is_key names ≡ true
    → resolve_key_path (relative down names) (up ++ down) ≡ some (up ++ names)
resolve_key_path-relative up down names some_context h = elim (not_empty down names h) [
  | inl more ↦
      resolve_key_path-dots (up ++ down) _ some_context more
      ∙ (ap (resolve_in (up ++ down))
            (leading_dots-replicate (suc (length down)) (join dot names) (keys-plain names h))
          ∙ resolve_in-relative up down names h)
  | inr (d, n) ↦
      let kept : is_empty (up ++ []) ≡ false = ground (arith, d) in
      rw (d, n, here) (resolve_here (up ++ []) kept)
]

join-more :
    (c : ℕ) (x p : Text) (l ps : List Text) → l ≡ p ∷ ps → join c (x ∷ l) ≡ x ++ c ∷ join c l
unfolding join
join-more c x p l ps e = rw e refl

join-last :
    (c : ℕ) (xs : List Text) (t : Text) → join c (xs ++ split_on c t) ≡ join c (xs ++ t ∷ [])
unfolding join
join-last c [] t = join-split_on c t
join-last c (x ∷ []) t =
    let (p, ps, e) = split_on-cons c t in
    join-more c x p (split_on c t) ps e ∙ ap (λ l. x ++ c ∷ l) (join-split_on c t)
join-last c (x ∷ y ∷ xs) t = ap (λ l. x ++ c ∷ l) (join-last c (y ∷ xs) t)

-- What `resolve_dotted_path` gives for the key path of the other resolver.
abbrev pub dotted : Option (List Text) → Option Text
dotted none = none
dotted (some keys) = some (join dot keys)

resolve_parts-dotted :
    (p : Text) (ps : List Text) (path : Text) (level : ℕ) (rest : Text)
    → is_empty rest ≡ false
    → (level ≡ 0 → path ≡ rest)
    → resolve_parts (p ∷ ps) path (level, rest) ≡ dotted (resolve_in (p ∷ ps) (level, rest))
unfolding resolve_parts resolve_in
resolve_parts-dotted p ps path level [] h e = cc
resolve_parts-dotted p ps path zero (c ∷ cs) h e =
    ground (arith, e refl, join-split_on dot (c ∷ cs))
resolve_parts-dotted p ps path (suc level) (c ∷ cs) h e =
    ground (arith, join-last dot (take (length (p ∷ ps) - level) (p ∷ ps)) (c ∷ cs))

leading_dots-zero : (path : Text) → (leading_dots path).0 ≡ 0 → path ≡ (leading_dots path).1
unfolding leading_dots
leading_dots-zero [] h = refl
leading_dots-zero (c ∷ cs) h = ground arith

not_dot : (path : Text) → is_empty ((leading_dots path).1) ≡ false → (path == dot ∷ []) ≡ false
unfolding leading_dots
not_dot [] h = refl
not_dot (c ∷ []) h = ground arith
not_dot (c ∷ d ∷ cs) h = ground arith

-- Both resolvers give the same dotted text, or none, for a path that names something behind its
-- dots, in a context that is not empty.
pub resolve_dotted_path-resolve_key_path :
    (ctx_dotted_dir path : Text)
    → is_empty ctx_dotted_dir ≡ false
    → is_empty ((leading_dots path).1) ≡ false
    → resolve_dotted_path ctx_dotted_dir path
      ≡ dotted (resolve_key_path path (split_on dot ctx_dotted_dir))
unfolding resolve_dotted_path resolve_key_path
resolve_dotted_path-resolve_key_path ctx [] h k = refl
resolve_dotted_path-resolve_key_path ctx (c ∷ cs) h k =
    let (p, ps, e) = split_on-cons dot ctx in
    let same =
      resolve_parts-dotted p ps (c ∷ cs) ((leading_dots (c ∷ cs)).0) ((leading_dots (c ∷ cs)).1) k
        (leading_dots-zero (c ∷ cs)) in
    rw (h, e, not_dot (c ∷ cs) k) same
