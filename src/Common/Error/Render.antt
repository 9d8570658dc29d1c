-- ===== src/Common/Error/Render.antt =====
-- crates/latiq-common/src/error.rs: what `render_facts` makes of a template, told by the parts of it.
use latiq.Prelude.{List, [], ◌∷◌, ◌++◌, none, some, nat_eq, All, ◌≡◌, refl, ap, ◌∙◌, arith, ◌≢◌}
use mathlib.Core.List.{append_assoc, append-nil}
use latiq.Prelude.Text.{Text, text_eq}
use latiq.Common.Error.Envelope.{
  Facts, get, slot_or, open_brace, close_brace, render_step, render, render_facts,
}

-- A template is words and named slots; words have no opening brace, names no closing one.
pub data Part : Type 0 where
  words slot : Text → Part

abbrev pub IsPart : Part → Type 0
IsPart (words w) = All (λ c. c ≢ open_brace) w
IsPart (slot k) = All (λ c. c ≢ close_brace) k

abbrev pub spell : List Part → Text
spell [] = []
spell (words w ∷ ps) = w ++ spell ps
spell (slot k ∷ ps) = open_brace ∷ (k ++ (close_brace ∷ spell ps))

-- The sentence that the parts make.
abbrev pub fill : Facts → List Part → Text
fill facts [] = []
fill facts (words w ∷ ps) = w ++ fill facts ps
fill facts (slot k ∷ ps) = slot_or k (get k facts) ++ fill facts ps

render-words :
    (facts : Facts) (w s : Text)
    → All (λ c. c ≢ open_brace) w
    → render facts none (w ++ s) ≡ w ++ render facts none s
unfolding render render_step
render-words facts [] s h = refl
render-words facts (c ∷ w) s (h, hs) = grind (arith, render-words facts w s hs)

render-slot :
    (facts : Facts) (key k s : Text)
    → All (λ c. c ≢ close_brace) k
    → render facts (some key) (k ++ (close_brace ∷ s))
      ≡ slot_or (key ++ k) (get (key ++ k) facts) ++ render facts none s
unfolding render render_step
render-slot facts key [] s h = rw (append-nil key) refl
render-slot facts key (c ∷ k) s (h, hs) =
    grind (arith, render-slot facts (key ++ (c ∷ [])) k s hs, append_assoc key (c ∷ []) k)

-- The spelled parts come out filled, each slot by its fact and nothing else changed.
pub render_facts-spell :
    (facts : Facts) (ps : List Part) → All IsPart ps → render_facts (spell ps) facts ≡ fill facts ps
unfolding render_facts render render_step
render_facts-spell facts [] h = refl
render_facts-spell facts (words w ∷ ps) (h, hs) =
    render-words facts w (spell ps) h ∙ ap (λ t. w ++ t) (render_facts-spell facts ps hs)
render_facts-spell facts (slot k ∷ ps) (h, hs) =
    render-slot facts [] k (spell ps) h
    ∙ ap (λ t. slot_or k (get k facts) ++ t) (render_facts-spell facts ps hs)
