-- ===== src/Common/Identity.antt =====
-- crates/latiq-common/src/identity.rs: who a caller is, and what of it was verified.
use latiq.Prelude.{Bool, true, false, [], Option, none, some, if◌then◌else◌}
use latiq.Prelude.Text.{Text, codes, is_empty, trim}

pub record Identity : Type 0 where
  pub agent_id : Text
  pub subject : Text
  pub issuer : Text
  pub verified : Bool

-- The claimed agent, trimmed, or what stands in for it.
unfoldable pub agent_or : Text → Option Text → Text
agent_or fallback none = fallback
agent_or fallback (some claimed_agent) =
    if is_empty (trim claimed_agent) then fallback else trim claimed_agent

unfoldable pub claimed : Option Text → Identity
unfolding agent_or
claimed header = record {
  agent_id = agent_or (codes "anonymous") header;
  subject = [];
  issuer = [];
  verified = false;
}

unfoldable pub verified_identity : (subject issuer : Text) → Option Text → Identity
unfolding agent_or
verified_identity subject issuer claimed_agent = record {
  agent_id = agent_or (trim subject) claimed_agent;
  subject = trim subject;
  issuer = trim issuer;
  verified = true;
}
