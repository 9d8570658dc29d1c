-- ===== src/Common/Error/Tests.antt =====
-- Runs of the templates and of the envelopes.
use latiq.Prelude.{List, [], ◌∷◌, ◌≡◌, refl, arith}
use latiq.Prelude.Text.{text_beq, codes}
use latiq.Prelude.Decimal.{digits, decimal}
use latiq.Common.Error.Envelope.{
  number, text, Facts, insert_fact, display, get, render_step, render, render_facts,
}
use latiq.Common.Error.Render.{Part, words, slot, fill, spell, render_facts-spell}

abbrev facts : Facts
unfolding insert_fact
facts = insert_fact "pond" (text (codes "{cap}")) (insert_fact "cap" (number 10000) [])

-- A value that looks like a slot is not filled again, and a name without a fact stays.
render_pond :
    render_facts (codes "Pond '{pond}' is over {cap} of {rows}, {open") facts
    ≡ codes "Pond '{cap}' is over 10000 of {rows}, {open"
unfolding render_facts render render_step display get insert_fact decimal digits text_beq
render_pond = refl

abbrev sentence : List Part
sentence = words (codes "over ") ∷ slot (codes "cap") ∷ words (codes ".") ∷ []

render_facts-spell_example : render_facts (spell sentence) facts ≡ fill facts sentence
render_facts-spell_example = render_facts-spell facts sentence (
  (omega arith, (omega arith, (omega arith, (omega arith, (omega arith, tt))))),
  ((omega arith, (omega arith, (omega arith, tt))), ((omega arith, tt), tt)),
)
