-- ===== src/AgentCore/Redact/Tests.antt =====
-- Redactions of the statements that the code's own tests use.
use latiq.Prelude.{◌≡◌, refl, ◌++◌}
use latiq.AgentCore.Redact.Literals.{literal, redact_sql-literal}
use latiq.Prelude.Text.{codes}
use latiq.AgentCore.Redact.{redact_sql}

literals :
    redact_sql (codes "SELECT * FROM t1 WHERE a = 'x''y' AND b = 10.5")
    ≡ codes "SELECT * FROM t1 WHERE a = ? AND b = ?"
unfolding redact_sql
literals = refl

comments :
    redact_sql (codes "SELECT 1 -- card 4111\nFROM t /* ssn 123 */ x")
    ≡ codes "SELECT ? \nFROM t   x"
unfolding redact_sql
comments = refl

type_params : redact_sql (codes "DEC(9)") ≡ codes "DEC(9)"
unfolding redact_sql latiq.Prelude.any latiq.Prelude.Text.text_beq latiq.Prelude.Text.ascii_lower
type_params = refl

calls : redact_sql (codes "f (5)") ≡ codes "f (?)"
unfolding redact_sql latiq.Prelude.any latiq.Prelude.Text.text_beq latiq.Prelude.Text.ascii_lower
calls = refl

-- An apostrophe in a quoted identifier turns literals inside out.
apostrophes : redact_sql (codes "\"a'b\" 'key'") ≡ codes "\"a?key?"
unfolding redact_sql
apostrophes = refl

-- Dollar quotes are not taken for quotes.
dollars : redact_sql (codes "$$key$$") ≡ codes "$$key$$"
unfolding redact_sql
dollars = refl

redact_sql-literal_example :
    redact_sql (codes "a-b=" ++ literal (codes "key") (codes " x"))
    ≡ redact_sql (codes "a-b=" ++ literal (codes "9") (codes " x"))
redact_sql-literal_example =
    redact_sql-literal (codes "a-b=") (codes "key") (codes "9") (codes " x")
      (refl, refl, refl, (refl, refl, refl, (refl, refl, refl, (refl, refl, refl, tt))))
      (refl, (refl, (refl, tt))) (refl, tt) refl
