-- ===== src/TaskExp/RoundTrip.antt =====
-- A printed task expression parses back to the task.
use smartlibs.Prelude.{
  List, [], ◌∷◌, ◌++◌, ◌≡◌, refl, sym, ap, ◌∙◌, map, Bool, true, false, not, some, arith,
  if◌then◌else◌, Eq-nat, Eq-list, is_empty, all, All, contains, append_assoc, append-nil,
}
use smartlibs.Text.{Text, join, split_on-join}
use smartlibs.Dict.{keys, set, set-fresh}
use smartlibs.TaskExp.{
  is_space, strip, Scanner, start, scan_char, split_from, split, bind_config, Methods, add_method,
  add_methods, parse, TaskObj, main_method, parse_task_exp,
}
use smartlibs.TaskExp.Split.{is_plain, plain-solid, strip-solid, plain-free, scan_name, scan_arg}
use smartlibs.TaskExp.Render.{
  render_method, render_methods, render_task, IsMethod, Fresh, IsMethods, IsTask, in_args, args,
  args-free, args-solid, close_outside, bind_config-join,
}

-- What the scanner yields for a method.
abbrev scanned : Text × List Text → Text × Text
scanned (name, configs) = (name, join b'+' configs)

after_method : Text × List Text → Scanner
after_method (name, configs) = record { in_arg = false; func = name; arg = join b'+' configs }

scan_method :
    (m : Text × List Text) (rest : Text)
    → IsMethod m
    → split_from start (render_method m ++ rest) ≡ split_from (after_method m) rest
unfolding after_method
scan_method (name, []) rest h = unfold join in scan_name name [] [] rest h.0.1
scan_method (name, c ∷ cs) rest h =
    let text = join b'+' (c ∷ cs) in
    ap (split_from start) (append_assoc name (b'(' ∷ (text ++ (b')' ∷ []))) rest)
    ∙ (scan_name name [] [] (b'(' ∷ ((text ++ (b')' ∷ [])) ++ rest)) h.0.1
        ∙ (unfold split_from scan_char in
            ap (split_from (record { in_arg = true; func = name; arg = [] }))
              (append_assoc text (b')' ∷ []) rest)
            ∙ scan_arg text name [] rest (args-free b')' text close_outside (args (c ∷ cs) h.1))))

end_method :
    (m : Text × List Text)
    → IsMethod m
    → (split_from (after_method m) [] ≡ scanned m ∷ [])
      × ((rest : Text)
          → split_from (after_method m) (b',' ∷ rest) ≡ scanned m ∷ split_from start rest)
unfolding split_from after_method scan_char
end_method (name, configs) h = (ground arith, λ rest. ground arith)

split-render :
    (m : Text × List Text) (ms : Methods)
    → All IsMethod (m ∷ ms)
    → split (render_methods (m ∷ ms)) ≡ map scanned (m ∷ ms)
unfolding split join
split-render m [] h =
    ap (split_from start) (sym (append-nil (render_method m)))
    ∙ (scan_method m [] h.0 ∙ (end_method m h.0).0)
split-render m (n ∷ ms) h =
    scan_method m (b',' ∷ render_methods (n ∷ ms)) h.0
    ∙ ((end_method m h.0).1 (render_methods (n ∷ ms))
        ∙ ap (λ l. scanned m ∷ l) (split-render n ms h.1))

add_method_lem :
    (seen : Methods) (func arg : Text)
    → add_method seen (func, arg)
      ≡ (if is_empty (strip func) then seen else set seen (strip func) (bind_config (strip arg)))
unfolding add_method
add_method_lem seen func arg = refl

add_method-fresh :
    (seen : Methods) (m : Text × List Text)
    → IsMethod m
    → contains m.0 (keys seen) ≡ false
    → add_method seen (scanned m) ≡ seen ++ m ∷ []
add_method-fresh seen (name, configs) h new =
    let text = join b'+' configs in
    let clean : strip name ≡ name = strip-solid name (plain-solid name h.0.1) in
    let whole : strip text ≡ text = strip-solid text (args-solid text (args configs h.1)) in
    rw (add_method_lem seen name text, clean, h.0.0, whole, bind_config-join configs h.1)
      (set-fresh seen name configs new)

add_methods-Fresh :
    (ms seen : Methods)
    → All IsMethod ms
    → Fresh seen ms
    → add_methods seen (map scanned ms) ≡ seen ++ ms
unfolding add_methods
add_methods-Fresh [] seen h fresh = sym (append-nil seen)
add_methods-Fresh (m ∷ ms) seen h fresh =
    ap (λ l. add_methods l (map scanned ms)) (add_method-fresh seen m h.0 fresh.0)
    ∙ (add_methods-Fresh ms (seen ++ m ∷ []) h.1 fresh.1 ∙ append_assoc seen (m ∷ []) ms)

-- Parsing the written form of some methods gives the methods back, in their order.
parse-render :
    (m : Text × List Text) (ms : Methods)
    → All IsMethod (m ∷ ms)
    → Fresh [] (m ∷ ms)
    → parse (render_methods (m ∷ ms)) ≡ m ∷ ms
unfolding parse
parse-render m ms h fresh =
    ap (add_methods []) (split-render m ms h) ∙ add_methods-Fresh (m ∷ ms) [] h fresh

parse-IsMethods : (ms : Methods) → IsMethods ms → parse (render_methods ms) ≡ ms
parse-IsMethods [] h = cc
parse-IsMethods (m ∷ ms) h = parse-render m ms h.1 h.2

parse_joins :
    (joins : List Methods) → All IsMethods joins → map parse (map render_methods joins) ≡ joins
parse_joins [] h = refl
parse_joins (ms ∷ joins) h = rw (parse-IsMethods ms h.0) (ap (λ l. ms ∷ l) (parse_joins joins h.1))

-- No tilde stands in a written method.
abbrev no_tilde : Text → Bool
no_tilde t = not (contains b'~' t)

tilde-append :
    (s t : Text)
    → contains b'~' s ≡ false
    → contains b'~' t ≡ false
    → contains b'~' (s ++ t) ≡ false
tilde-append [] t h k = k
tilde-append (c ∷ s) t h k = ground (arith, tilde-append s t)

tilde_outside : (is_plain b'~' ≡ false) × (in_args b'~' ≡ false)
unfolding is_plain is_space
tilde_outside = (refl, refl)

tilde-method : (m : Text × List Text) → IsMethod m → contains b'~' (render_method m) ≡ false
tilde-method (name, []) h = plain-free b'~' name tilde_outside.0 h.0.1
tilde-method (name, c ∷ cs) h =
    let text = join b'+' (c ∷ cs) in
    let free : contains b'~' text ≡ false =
      args-free b'~' text tilde_outside.1 (args (c ∷ cs) h.1) in
    tilde-append name (b'(' ∷ (text ++ (b')' ∷ []))) (plain-free b'~' name tilde_outside.0 h.0.1)
      (tilde-append text (b')' ∷ []) free refl)

tilde-methods : (ms : Methods) → All IsMethod ms → contains b'~' (render_methods ms) ≡ false
unfolding join
tilde-methods [] h = refl
tilde-methods (m ∷ []) h = tilde-method m h.0
tilde-methods (m ∷ n ∷ ms) h =
    tilde-append (render_method m) (b',' ∷ render_methods (n ∷ ms)) (tilde-method m h.0)
      (tilde-methods (n ∷ ms) h.1)

tilde-joins :
    (joins : List Methods) → All IsMethods joins → all no_tilde (map render_methods joins) ≡ true
tilde-joins [] h = refl
tilde-joins (ms ∷ joins) h = ground (arith, tilde-methods ms h.0.1, tilde-joins joins h.1)

parse_one : (m : Text × List Text) → IsMethod m → parse (render_method m) ≡ m ∷ []
unfolding join
parse_one m h = parse-render m [] (h, tt) (refl, tt)

-- A task that is written out as an expression, from plain names, with the method names of each join
-- block distinct, parses back to the task: its key, its configurations and its join blocks in order.
pub parse_task_exp-render : (t : TaskObj) → IsTask t → parse_task_exp (render_task t) ≡ some t
unfolding parse_task_exp main_method
parse_task_exp-render t h =
    let m : Text × List Text = (t.task_key, t.config) in
    rw
      (split_on-join b'~' (render_method m) (map render_methods t.join)
        (ground (arith, tilde-method m h.key, tilde-joins t.join h.joins)))
      (rw (parse_one m h.key, parse_joins t.join h.joins) refl)
