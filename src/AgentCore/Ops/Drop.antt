-- ===== src/AgentCore/Ops/Drop.antt =====
-- ops.rs: `drop_pond`, from the confirmation to the removal of the files.
pub mod Laws
pub mod Failure
use latiq.Prelude.{
  ℕ, String, Bool, true, false, not, List, Option, none, some, ◌==◌, string_eq, if◌then◌else◌, keep,
  Result, ok, err,
}
use latiq.Common.Identity.{Identity}
use latiq.Storage.LocalFs as Files
use latiq.Storage.LocalFs.{pond_location, PondLocation, StorageError}
use latiq.AgentCore.Control.{PondInfo, missing_confirm, AgentError, ControlPlane}
use latiq.AgentCore.InFlight.{begin_drop, end_drop}
use latiq.AgentCore.Deadline.{EngineError}
use latiq.AgentCore.Ops.{
  Config, Env, Node, Engine, Forwarder, Answer, Act, audit, audit_err, parsed_id, dispatch,
}

module _ {S En : Type 0} where
  unfoldable pub evict_lineage_writer : String → Node S En → Node S En
  evict_lineage_writer id n = record n { writers = keep (λ w. not (w == id)) n.writers }

  module _ {X D : Type 0} (eng : Engine En X D) where
    -- A pond that has no location has no instance to forget.
    unfoldable pub forget_at : Result StorageError PondLocation → Node S En → Node S En
    forget_at (ok loc) n = record n { engine = eng.forget_pond loc n.engine }
    forget_at (err e) n = n

    module _ (cfg : Config) (env : Env) where
      -- What follows once the registry has let go of the pond; what the removal answers is ignored.
      unfoldable pub destroy : (pond_id pid : String) → Node S En → Node S En
      unfolding forget_at evict_lineage_writer
      destroy pond_id pid n =
          let forgotten =
            evict_lineage_writer pond_id (forget_at (pond_location cfg.root pid n.disk) n) in
          let removed =
            evict_lineage_writer pond_id
              (record forgotten { disk = (Files.drop_pond pid env.rmdir forgotten.disk).1 }) in
          record removed { inflight = end_drop pond_id removed.inflight }

      -- On what the registry's drop answers.
      unfoldable pub settled :
          Identity → PondInfo → (pid : String) → Answer X (Unit {0}) → Act S En X (Unit {0})
      unfolding destroy audit_err audit
      settled identity info pid (err e) n =
          audit_err identity "drop_pond" (some info.pond_id) e
            (record n { inflight = end_drop info.pond_id n.inflight })
      settled identity info pid (ok tt) n = (
        ok tt,
        audit identity "drop_pond" (some info.pond_id) none true (destroy info.pond_id pid n),
      )

      module _ (cp : ControlPlane S (EngineError X)) where
        unfoldable pub drop_here : Identity → PondInfo → (pid : String) → Act S En X (Unit {0})
        unfolding settled
        drop_here identity info pid n =
            let dropped = cp.drop_pond info.pond_id n.control in
            settled identity info pid dropped.0
              (record n { control = dropped.1; inflight = begin_drop info.pond_id n.inflight })

        unfoldable pub drop_local : Identity → PondInfo → Act S En X (Unit {0})
        unfolding drop_here
        drop_local identity info n = elim (parsed_id {X = X} cfg info) [
          | ok pid ↦ drop_here identity info pid n
          | err e ↦ audit_err identity "drop_pond" (some info.pond_id) e n
        ]

        unfoldable pub drop_pond :
            (fwd : Forwarder X D)
            → Identity
            → (pond_ref : String) → (confirm : Bool) → Act S En X (Unit {0})
        unfolding drop_local dispatch
        drop_pond fwd identity pond_ref confirm n =
            if confirm
            then dispatch cp identity "drop_pond" pond_ref
                (λ peer. fwd.drop_pond peer pond_ref confirm) (drop_local identity) n
            else audit_err identity "drop_pond" (some pond_ref) (missing_confirm pond_ref) n
